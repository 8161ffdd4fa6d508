-- ===== src/NodePool/Recent.antt =====
-- `RecentProbes` of src/node_pool.rs: the endpoints probed of late, in a map and in a binary heap
-- of deadlines. The map knows where in the heap an endpoint stands. A map entry that the source
-- unwraps and that is not there is left alone here.
pub mod Linked
pub mod Steps
pub mod Sift
pub mod Removal
pub mod Recording
pub mod Deadlines
pub mod Expiry
pub mod Totals
pub mod Due
use dht_crawler.Base.{
  ℕ, zero, suc, ◌+◌, ◌-◌, ◌*◌, ◌/◌, ◌≡◌, max, Bool, true, false, not, ◌&&◌, ◌||◌, ◌==◌, ltb, leb,
  if◌then◌else◌, List, [], ◌∷◌, ◌++◌, length, get_elem?, get_or, set, take, Option, none, some,
}
use dht_crawler.Base.Assoc.{get, insert, remove, contains}
use dht_crawler.Net.{IpAddr, v4, v6, SocketAddr, addr_discrete}

pub record RecentProbe : Type 0 where
  pub expires_at : ℕ
  pub heap_index : ℕ

pub record RecentProbes : Type 0 where
  pub entries : List (SocketAddr × RecentProbe)
  pub expiry : List (ℕ × SocketAddr)
  pub capacity : ℕ

unfoldable pub new : ℕ → RecentProbes
new capacity = record { entries = []; expiry = []; capacity = max capacity 1 }

-- The order of the heap's elements, a deadline and an address: that of tuples, where an IPv4
-- address stands before an IPv6 one, and the octets before the port.
sort_key : IpAddr → ℕ → List ℕ
sort_key (v4 a b c d) port = 4 ∷ a ∷ b ∷ c ∷ d ∷ port ∷ []
sort_key (v6 octets) port = 6 ∷ (octets ++ (port ∷ []))

lex_le : List ℕ → List ℕ → Bool
lex_le [] ys = true
lex_le (x ∷ xs) [] = false
lex_le (x ∷ xs) (y ∷ ys) = ltb x y || (x == y && lex_le xs ys)

unfoldable pub addr_le : SocketAddr → SocketAddr → Bool
unfolding sort_key lex_le
addr_le a b = lex_le (sort_key a.ip a.port) (sort_key b.ip b.port)

unfoldable pub entry_le : ℕ × SocketAddr → ℕ × SocketAddr → Bool
unfolding addr_le
entry_le (t, a) (u, b) = ltb t u || (t == u && addr_le a b)

live_after : Option RecentProbe → ℕ → Bool
live_after none now = false
live_after (some probe) now = ltb now probe.expires_at

unfoldable pub is_recent : SocketAddr → ℕ → RecentProbes → Bool
unfolding live_after
is_recent addr now p = live_after (get addr_discrete addr p.entries) now

-- `self.expiry[i]`, with a default out of range.
abbrev pub expiry_at : List (ℕ × SocketAddr) → ℕ → ℕ × SocketAddr
expiry_at expiry i = get_or expiry i (0, record { ip = v4 0 0 0 0; port = 0 })

with_index :
    ℕ
    → SocketAddr
    → Option RecentProbe
    → List (SocketAddr × RecentProbe)
    → List (SocketAddr × RecentProbe)
with_index i addr none entries = entries
with_index i addr (some probe) entries =
    insert addr_discrete addr (record probe { heap_index = i }) entries

-- `self.entries.get_mut(&addr).unwrap().heap_index = i`
unfoldable pub set_index :
    ℕ → SocketAddr → List (SocketAddr × RecentProbe) → List (SocketAddr × RecentProbe)
unfolding with_index
set_index i addr entries = with_index i addr (get addr_discrete addr entries) entries

swap_expiry : ℕ → ℕ → List (ℕ × SocketAddr) → List (ℕ × SocketAddr)
swap_expiry left right expiry =
    set (set expiry left (expiry_at expiry right)) right (expiry_at expiry left)

unfoldable pub swap : ℕ → ℕ → RecentProbes → RecentProbes
unfolding swap_expiry set_index
swap left right p =
    let expiry = swap_expiry left right p.expiry in
    let entries = set_index left (expiry_at expiry left).1 p.entries in
    record p { entries = set_index right (expiry_at expiry right).1 entries; expiry = expiry }

-- The fuel of the two loops is the length of the heap: the index falls, or it grows below the length.
unfoldable pub sift_up : ℕ → ℕ → RecentProbes → RecentProbes
unfolding swap
sift_up zero index p = p
sift_up (suc fuel) index p =
    let parent = (index - 1) / 2 in
    let up = sift_up fuel parent (swap parent index p) in
    if index == 0 || entry_le (expiry_at p.expiry parent) (expiry_at p.expiry index) then p else up

-- The smaller child of `index`, where there is one.
pub smaller_child : ℕ → List (ℕ × SocketAddr) → ℕ
smaller_child index expiry =
    let left = index * 2 + 1 in
    let right = left + 1 in
    if ltb right (length expiry) && not (entry_le (expiry_at expiry left) (expiry_at expiry right))
    then right
    else left

unfoldable pub sift_down : ℕ → ℕ → RecentProbes → RecentProbes
unfolding swap smaller_child
sift_down zero index p = p
sift_down (suc fuel) index p =
    let child = smaller_child index p.expiry in
    let down = sift_down fuel child (swap index child p) in
    if leb (length p.expiry) (index * 2 + 1)
      || entry_le (expiry_at p.expiry index) (expiry_at p.expiry child)
    then p
    else down

-- `swap_remove`: the last element takes the place of the removed one.
swap_remove : ℕ → List (ℕ × SocketAddr) → List (ℕ × SocketAddr)
swap_remove index expiry =
    let last = length expiry - 1 in take last (set expiry index (expiry_at expiry last))

unfoldable pub remove_at : ℕ → RecentProbes → RecentProbes
unfolding swap_remove set_index sift_up sift_down
remove_at index p =
    let removed = expiry_at p.expiry index in
    let expiry = swap_remove index p.expiry in
    let entries = remove addr_discrete removed.1 p.entries in
    let gap = record p { entries = entries; expiry = expiry } in
    let moved = record gap { entries = set_index index (expiry_at expiry index).1 entries } in
    let parent = expiry_at expiry ((index - 1) / 2) in
    if ltb index (length expiry)
    then if ltb 0 index && not (entry_le parent (expiry_at expiry index))
      then sift_up (length expiry) index moved
      else sift_down (length expiry) index moved
    else gap

evict_if_full : RecentProbes → RecentProbes
unfolding remove_at
evict_if_full p = if length p.entries == p.capacity then remove_at 0 p else p

unfoldable pub record_new : SocketAddr → ℕ → RecentProbes → RecentProbes
unfolding sift_up
record_new addr expires_at p =
    let heap_index = length p.expiry in
    let probe : RecentProbe = record { expires_at = expires_at; heap_index = heap_index } in
    let pushed = record p {
      entries = insert addr_discrete addr probe p.entries;
      expiry = p.expiry ++ ((expires_at, addr) ∷ []);
    } in
    sift_up (suc heap_index) heap_index pushed

record_entry : Option RecentProbe → SocketAddr → ℕ → RecentProbes → RecentProbes
unfolding evict_if_full record_new
record_entry (some probe) addr expires_at p = record p {
  entries = insert addr_discrete addr (record probe { expires_at = expires_at }) p.entries;
}
record_entry none addr expires_at p = record_new addr expires_at (evict_if_full p)

-- `record`
unfoldable pub record_probe : SocketAddr → ℕ → RecentProbes → RecentProbes
unfolding record_entry
record_probe addr expires_at p = record_entry (get addr_discrete addr p.entries) addr expires_at p

remove_entry : Option RecentProbe → RecentProbes → RecentProbes
unfolding remove_at
remove_entry none p = p
remove_entry (some probe) p = remove_at probe.heap_index p

-- `remove`
unfoldable pub forget : SocketAddr → RecentProbes → RecentProbes
unfolding remove_entry
forget addr p = remove_entry (get addr_discrete addr p.entries) p

due : List (ℕ × SocketAddr) → ℕ → Bool
due [] now = false
due ((check_at, addr) ∷ rest) now = leb check_at now

unfoldable pub has_due : ℕ → RecentProbes → Bool
unfolding due
has_due now p = due p.expiry now

-- The deadline that the map holds for the head of the heap.
pub head_deadline : RecentProbes → Option RecentProbe
head_deadline p = get addr_discrete (expiry_at p.expiry 0).1 p.entries

-- The body of the loop of `expire`, on a head that is due, with the count of the removed.
pub expire_head : Option RecentProbe → ℕ → RecentProbes × ℕ → RecentProbes × ℕ
unfolding remove_at sift_down
expire_head none now (p, removed) = (p, removed)
expire_head (some probe) now (p, removed) =
    let (check_at, addr) = expiry_at p.expiry 0 in
    let later = record p { expiry = set p.expiry 0 (probe.expires_at, addr) } in
    if leb probe.expires_at now
    then (remove_at 0 p, removed + 1)
    else (sift_down (length p.expiry) 0 later, removed)

expire_loop : ℕ → ℕ → RecentProbes × ℕ → RecentProbes × ℕ
unfolding expire_head head_deadline has_due
expire_loop zero now s = s
expire_loop (suc rounds) now s =
    let later = expire_loop rounds now (expire_head (head_deadline s.0) now s) in
    if has_due now s.0 then later else s

-- At most 256 rounds.
unfoldable pub expire : ℕ → RecentProbes → RecentProbes × ℕ
unfolding expire_loop
expire now p = expire_loop 256 now (p, 0)
