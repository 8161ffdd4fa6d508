-- ===== src/Metadata.antt =====
-- `PeerFailureCache` of src/metadata.rs: peers that failed lately, for a bounded time. Both scopes of a
-- failure share one capacity. The lock of the source makes each operation one step.
pub mod Expiring
pub mod Storing
pub mod Tests
use dht_crawler.Base.{
  ℕ, ◌+◌, ◌==◌, Bool, true, false, not, ◌&&◌, ◌||◌, ltb, leb, is_some, if◌then◌else◌, List, [], ◌∷◌,
  ◌++◌, length, Option, none, some, ℕ_discrete,
}
use dht_crawler.Base.Assoc.{get, insert, remove, contains}
use dht_crawler.Net.{SocketAddr, addr_discrete}

pub data PeerFailureReason : Type 0 where
  timeout connect_failed metadata_failed : PeerFailureReason

pub record PeerFailureEntry : Type 0 where
  pub expires_at : ℕ
  pub reason : PeerFailureReason

-- `metadata` also has the bytes of the hash.
pub data PeerFailureKey : Type 0 where
  endpoint : SocketAddr → PeerFailureKey
  metadata : List ℕ → SocketAddr → PeerFailureKey

unfoldable pub key_discrete : Discrete PeerFailureKey
key_discrete = hlevel (addr_discrete, ℕ_discrete)

-- The two fields of `PeerFailureCacheInner`.
abbrev pub Entries : Type 0
Entries = List (PeerFailureKey × PeerFailureEntry)

abbrev pub Expiry : Type 0
Expiry = List (ℕ × PeerFailureKey)

pub record PeerFailureCache : Type 0 where
  pub entries : Entries
  pub expiry : Expiry
  pub capacity : ℕ
  pub ttl : ℕ

unfoldable pub new : ℕ → ℕ → PeerFailureCache
new capacity ttl = record { entries = []; expiry = []; capacity = capacity; ttl = ttl }

-- Whether an entry is the one that a time in the queue was noted for.
abbrev pub expires_then : ℕ → Option PeerFailureEntry → Bool
expires_then expires_at none = false
expires_then expires_at (some entry) = entry.expires_at == expires_at

-- An element of the queue that is popped takes its entry along, unless that was stored anew.
unfoldable pub drop_popped : ℕ → PeerFailureKey → Entries → Entries
drop_popped expires_at addr entries =
    if expires_then expires_at (get key_discrete addr entries)
    then remove key_discrete addr entries
    else entries

-- The loop of `expire`.
unfoldable pub expire : ℕ → Expiry → Entries → Entries × Expiry
unfolding drop_popped
expire now [] entries = (entries, [])
expire now ((expires_at, addr) ∷ expiry) entries =
    let later = expire now expiry (drop_popped expires_at addr entries) in
    if ltb now expires_at then (entries, (expires_at, addr) ∷ expiry) else later

abbrev pub reason_of : Option PeerFailureEntry → Option PeerFailureReason
reason_of none = none
reason_of (some entry) = some entry.reason

abbrev pub disabled : PeerFailureCache → Bool
disabled cache = cache.capacity == 0 || cache.ttl == 0

-- `get`
unfoldable pub get_reason :
    PeerFailureKey → ℕ → PeerFailureCache → PeerFailureCache × (Option PeerFailureReason × ℕ)
unfolding expire
get_reason key now cache =
    let (entries, expiry) = expire now cache.expiry cache.entries in
    if disabled cache then (cache, (none, 0)) else (
      record cache { entries = entries; expiry = expiry },
      (reason_of (get key_discrete key entries), length entries),
    )

-- The loop of `insert` that makes room for a key.
unfoldable pub make_room : ℕ → PeerFailureKey → Expiry → Entries → Entries × Expiry
unfolding drop_popped
make_room capacity key [] entries = (entries, [])
make_room capacity key ((expires_at, addr) ∷ expiry) entries =
    let later = make_room capacity key expiry (drop_popped expires_at addr entries) in
    if leb capacity (length entries) && not (contains key_discrete key entries)
    then later
    else (entries, (expires_at, addr) ∷ expiry)

-- `insert`
unfoldable pub store :
    PeerFailureKey → PeerFailureReason → ℕ → PeerFailureCache → PeerFailureCache × ℕ
unfolding expire make_room
store addr reason now cache =
    let (live, waiting) = expire now cache.expiry cache.entries in
    let (kept, expiry) = make_room cache.capacity addr waiting live in
    let expires_at = now + cache.ttl in
    let entries =
      insert key_discrete addr (record { expires_at = expires_at; reason = reason }) kept in
    if disabled cache then (cache, 0) else (
      record cache { entries = entries; expiry = expiry ++ ((expires_at, addr) ∷ []) },
      length entries,
    )

-- `remove`
unfoldable pub forget : PeerFailureKey → ℕ → PeerFailureCache → PeerFailureCache × ℕ
unfolding expire
forget addr now cache =
    let (live, expiry) = expire now cache.expiry cache.entries in
    let entries = remove key_discrete addr live in
    if disabled cache
    then (cache, 0)
    else (record cache { entries = entries; expiry = expiry }, length entries)
