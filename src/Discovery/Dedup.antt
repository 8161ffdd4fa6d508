-- ===== src/Discovery/Dedup.antt =====
-- `HashDedup` of src/discovery.rs: the hashes that were told of lately, each with its sources.
pub mod Expiring
pub mod Adding
pub mod Inserting
pub mod Tests
use dht_crawler.Base.{
  ℕ, ◌+◌, max, Bool, true, false, not, ◌&&◌, ltb, leb, if◌then◌else◌, List, [], ◌∷◌, ◌++◌, length,
  Option, none, some, ite,
}
use dht_crawler.Base.Assoc.{get, insert as put, remove}
use dht_crawler.Net.{SocketAddr, addr_discrete}
use dht_crawler.Scheduler.{Hash, hash_discrete, HashSource, announce, get_peers, sample}

-- `MAX_HASH_SOURCES`
abbrev pub max_hash_sources : ℕ
max_hash_sources = 4

abbrev pub Sources : Type 0
Sources = List (SocketAddr × HashSource)

abbrev pub Entries : Type 0
Entries = List (Hash × Sources)

abbrev pub Expiry : Type 0
Expiry = List (ℕ × Hash)

pub record HashDedup : Type 0 where
  pub entries : Entries
  pub expiry : Expiry
  pub capacity : ℕ
  pub ttl : ℕ

unfoldable pub new : ℕ → ℕ → HashDedup
new capacity ttl = record { entries = []; expiry = []; capacity = max capacity 1; ttl = ttl }

abbrev pub is_get_peers : HashSource → Bool
is_get_peers announce = false
is_get_peers get_peers = true
is_get_peers sample = false

abbrev pub is_sample : HashSource → Bool
is_sample announce = false
is_sample get_peers = false
is_sample sample = true

-- The loop of `contains` that drops what is over.
unfoldable pub expire : ℕ → Expiry → Entries → Entries × Expiry
expire now [] entries = (entries, [])
expire now ((at, old) ∷ expiry) entries =
    let later = expire now expiry (remove hash_discrete old entries) in
    if leb at now then later else (entries, (at, old) ∷ expiry)

-- Whether the sources of a hash have nothing to gain from one more.
abbrev pub covered : Option HashSource → HashSource → Sources → Bool
covered (some previous) source sources = not (is_get_peers previous && is_sample source)
covered none source sources = leb max_hash_sources (length sources)

abbrev pub duplicate : Option Sources → SocketAddr → HashSource → Bool
duplicate none addr source = false
duplicate (some sources) addr source = covered (get addr_discrete addr sources) source sources

unfoldable pub contains : Hash → SocketAddr → HashSource → ℕ → HashDedup → HashDedup × Bool
unfolding expire
contains hash addr source now dedup =
    let (entries, expiry) = expire now dedup.expiry dedup.entries in
    (
      record dedup { entries = entries; expiry = expiry },
      duplicate (get hash_discrete hash entries) addr source,
    )

-- The first source of the address is overwritten.
unfoldable pub overwrite : SocketAddr → HashSource → Sources → Sources
overwrite addr source [] = []
overwrite addr source ((old, previous) ∷ sources) =
    ite (addr_discrete old addr) ((old, source) ∷ sources)
      ((old, previous) ∷ overwrite addr source sources)

unfoldable pub add_source : Option HashSource → SocketAddr → HashSource → Sources → Sources
unfolding overwrite
add_source (some previous) addr source sources =
    if is_sample source then overwrite addr source sources else sources
add_source none addr source sources =
    if ltb (length sources) max_hash_sources then sources ++ ((addr, source) ∷ []) else sources

-- The oldest hash leaves a full map.
unfoldable pub make_room : HashDedup → Expiry → HashDedup
make_room dedup [] = dedup
make_room dedup ((at, old) ∷ expiry) =
    if leb dedup.capacity (length dedup.entries)
    then record dedup { entries = remove hash_discrete old dedup.entries; expiry = expiry }
    else dedup

unfoldable pub insert_found :
    Option Sources → Hash → SocketAddr → HashSource → ℕ → HashDedup → HashDedup
unfolding add_source make_room
insert_found (some sources) hash addr source now dedup =
    let sources' = add_source (get addr_discrete addr sources) addr source sources in
    record dedup { entries = put hash_discrete hash sources' dedup.entries }
insert_found none hash addr source now dedup =
    let room = make_room dedup dedup.expiry in
    record room {
      entries = put hash_discrete hash ((addr, source) ∷ []) room.entries;
      expiry = room.expiry ++ ((now + dedup.ttl, hash) ∷ []);
    }

unfoldable pub insert : Hash → SocketAddr → HashSource → ℕ → HashDedup → HashDedup
unfolding insert_found
insert hash addr source now dedup =
    insert_found (get hash_discrete hash dedup.entries) hash addr source now dedup
