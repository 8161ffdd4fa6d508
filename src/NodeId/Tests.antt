-- ===== src/NodeId/Tests.antt =====
-- The ids of src/node_id.rs at concrete bytes.
use dht_crawler.Base.{ℕ, ◌≡◌, refl, List, [], ◌∷◌, ◌++◌, length, take, drop, replicate, none}
use dht_crawler.NodeId.{
  transaction_id_from_bytes, neighbor_node_id, target_for_bucket, target_for_prefix,
}
use dht_crawler.NodeId.Layout.{neighbor_node_id-layout}

short : transaction_id_from_bytes (1 ∷ 2 ∷ []) ≡ none
unfolding transaction_id_from_bytes
short = refl

-- The local id of the source's own test; the third byte of the target differs in its second bit.
bucket :
    take 3 (target_for_bucket (replicate 20 0xaa) 17 (replicate 20 0x0f)) ≡ 0xaa ∷ 0xaa ∷ 0xcf ∷ []
unfolding target_for_bucket
bucket = refl

prefix : take 2 (target_for_prefix 83 (replicate 20 7)) ≡ 83 ∷ 7 ∷ []
unfolding target_for_prefix
prefix = refl

abbrev remote : List ℕ
remote = replicate 20 1

abbrev local : List ℕ
local = replicate 20 2

abbrev random : List ℕ
random = replicate 20 3

neighbor_node_id-layout_example :
    (length (neighbor_node_id remote local random) ≡ 20)
    × (length remote ≡ 20
        → length local ≡ 20
        → neighbor_node_id remote local random ≡ take 6 remote ++ drop 6 local)
neighbor_node_id-layout_example = neighbor_node_id-layout remote local random refl
