-- ===== src/Scheduler.antt =====
-- src/scheduler.rs: the pending InfoHashes and their retries. Times and durations are nanoseconds, an
-- InfoHash is the list of the bytes of its text.
pub mod Queue
pub mod Retry
use dht_crawler.Base.{
  ℕ, ◌+◌, ◌*◌, ◌==◌, min, max, Bool, true, false, not, ◌&&◌, ◌||◌, ltb, leb, is_some, if◌then◌else◌,
  List, [], ◌∷◌, ◌++◌, take, Option, none, some, ite, ℕ_discrete,
}
use dht_crawler.Net.{SocketAddr, NodeTuple, addr_discrete}

abbrev pub Hash : Type 0
Hash = List ℕ

-- The keys of the indexes: a time and a sequence number.
abbrev pub Key : Type 0
Key = ℕ × ℕ

unfoldable pub hash_discrete : Discrete Hash
hash_discrete = hlevel ℕ_discrete

unfoldable pub key_discrete : Discrete Key
key_discrete = hlevel ℕ_discrete

abbrev pub key_lt : Key → Key → Bool
key_lt (t, s) (u, r) = ltb t u || (t == u && ltb s r)

abbrev pub second : ℕ
second = 1000000000

-- `MAX_METADATA_CANDIDATES_PER_HASH`
abbrev pub max_candidates : ℕ
max_candidates = 64

-- `PEER_COALESCE_WINDOW`
abbrev pub peer_coalesce_window : ℕ
peer_coalesce_window = 25000000

pub data HashSource : Type 0 where
  announce get_peers sample : HashSource

pub record HashDiscovered : Type 0 where
  pub info_hash : Hash
  pub peer_addr : Option SocketAddr
  pub source_node : Option NodeTuple
  pub source : HashSource
  pub discovered_at : ℕ

pub record PeerCandidate : Type 0 where
  pub addr : SocketAddr
  pub discovered_at : ℕ

pub record QueuedHash : Type 0 where
  pub info_hash : Hash
  pub peers : List PeerCandidate
  pub queued_at : ℕ
  pub ready_at : ℕ
  pub latest_at : ℕ
  pub order_key : Key
  pub source_nodes : List NodeTuple
  pub source : HashSource
  pub expires_at : ℕ
  pub is_retry : Bool
  pub ready : Bool

pub record RetryRecord : Type 0 where
  pub failures : ℕ
  pub next_due : ℕ
  pub expires_at : ℕ
  pub extra_attempts : ℕ

-- `peers.iter().find(|peer| peer.addr == addr)`
find_peer : SocketAddr → List PeerCandidate → Option PeerCandidate
find_peer addr [] = none
find_peer addr (peer ∷ peers) =
    ite (addr_discrete peer.addr addr) (some peer) (find_peer addr peers)

-- `peers.retain(|peer| peer.addr != addr)`
without_peer : SocketAddr → List PeerCandidate → List PeerCandidate
without_peer addr [] = []
without_peer addr (peer ∷ peers) =
    ite (addr_discrete peer.addr addr) (without_peer addr peers) (peer ∷ without_peer addr peers)

without_node : SocketAddr → List NodeTuple → List NodeTuple
without_node addr [] = []
without_node addr (node ∷ nodes) =
    ite (addr_discrete node.addr addr) (without_node addr nodes) (node ∷ without_node addr nodes)

insert_newest : PeerCandidate → List PeerCandidate → List PeerCandidate
insert_newest peer [] = peer ∷ []
insert_newest peer (other ∷ peers) =
    let later = other ∷ insert_newest peer peers in
    if leb other.discovered_at peer.discovered_at then peer ∷ other ∷ peers else later

-- The newest first. The order of peers of one time, which `sort_unstable_by` leaves open, is kept.
sort_newest : List PeerCandidate → List PeerCandidate
unfolding insert_newest
sort_newest [] = []
sort_newest (peer ∷ peers) = insert_newest peer (sort_newest peers)

seen_at : Option PeerCandidate → ℕ → ℕ
seen_at none discovered_at = discovered_at
seen_at (some peer) discovered_at = max peer.discovered_at discovered_at

merge_peer : Option SocketAddr → ℕ → List PeerCandidate → List PeerCandidate × Bool
unfolding find_peer without_peer sort_newest seen_at
merge_peer none discovered_at peers = (peers, false)
merge_peer (some addr) discovered_at peers =
    let old = find_peer addr peers in
    let peer : PeerCandidate = record { addr = addr; discovered_at = seen_at old discovered_at } in
    (take max_candidates (sort_newest (without_peer addr peers ++ (peer ∷ []))), not (is_some old))

merge_node : Option NodeTuple → List NodeTuple → List NodeTuple
unfolding without_node
merge_node none nodes = nodes
merge_node (some node) nodes = take 8 (node ∷ without_node node.addr nodes)

merge_source : HashSource → HashSource → HashSource
merge_source announce old = announce
merge_source get_peers old = old
merge_source sample old = old

-- The entry with what the event adds, and whether its peer is new.
unfoldable pub merge_candidate : QueuedHash → HashDiscovered → QueuedHash × Bool
unfolding merge_peer merge_node merge_source
merge_candidate entry event =
    let (peers, new_peer) = merge_peer event.peer_addr event.discovered_at entry.peers in
    (
      record entry {
        peers = peers;
        source_nodes = merge_node event.source_node entry.source_nodes;
        source = merge_source event.source entry.source;
        latest_at = max entry.latest_at event.discovered_at;
      },
      new_peer,
    )
