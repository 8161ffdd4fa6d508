-- ===== src/NodeId.antt =====
-- src/node_id.rs: transaction ids, node ids and targets. The bytes that the source draws at random
-- are an argument, a list of twenty of them.
pub mod Layout
pub mod Tests
use dht_crawler.Base.{
  ℕ, ◌+◌, ◌-◌, ◌*◌, ◌/◌, ◌%◌, ◌^◌, ◌==◌, min, ltb, bit_and, bit_or, bit_xor, if◌then◌else◌, List,
  [], ◌∷◌, ◌++◌, length, get_or, set, take, drop, Option, none, some,
}

-- The lengths that the source checks when it copies, `[u8; 8]` and `[u8; 20]`, are those of the lists.
unfoldable pub transaction_id_from_bytes : List ℕ → Option (List ℕ)
transaction_id_from_bytes bytes = if length bytes == 8 then some bytes else none

unfoldable pub neighbor_node_id : List ℕ → List ℕ → List ℕ → List ℕ
neighbor_node_id remote_id local_id random =
    let prefix_len = min (length remote_id) 6 in
    let prefix = take prefix_len remote_id in
    let id =
      if ltb prefix_len (length local_id) then prefix ++ drop prefix_len local_id else prefix in
    take 20 (id ++ take (20 - length id) random)

unfoldable pub target_for_bucket : List ℕ → ℕ → List ℕ → List ℕ
target_for_bucket local_id bucket random =
    let bucket' = min bucket 159 in
    let byte = bucket' / 8 in
    let bit = 7 - bucket' % 8 in
    let lower_mask = (2 ^ bit - 1) % 256 in
    let kept = bit_and (get_or local_id byte 0) (255 - lower_mask) in
    let low = bit_and (get_or random byte 0) lower_mask in
    set (take byte local_id ++ drop byte random) byte (bit_or (bit_xor kept (2 ^ bit)) low)

unfoldable pub target_for_prefix : ℕ → List ℕ → List ℕ
target_for_prefix prefix random = set random 0 prefix
