-- ===== src/NodeId/Layout.antt =====
-- src/node_id.rs: which bytes of the two ids stand where in a neighbour's id.
use dht_crawler.Base.{
  ℕ, ◌-◌, ◌≡◌, min, true, ltb, if◌then◌else◌, List, ◌++◌, length, length-append, length-take,
  length-drop, take-append, take, drop, arith,
}
use dht_crawler.NodeId.{neighbor_node_id}

-- The id of a neighbour has twenty bytes, whatever the two ids are; of two full ids it has the first
-- six bytes of the remote one and the rest of the local one, and no random byte.
pub neighbor_node_id-layout :
    (remote_id local_id random : List ℕ)
    → length random ≡ 20
    → (length (neighbor_node_id remote_id local_id random) ≡ 20)
      × (length remote_id ≡ 20
          → length local_id ≡ 20
          → neighbor_node_id remote_id local_id random ≡ take 6 remote_id ++ drop 6 local_id)
unfolding neighbor_node_id
neighbor_node_id-layout remote_id local_id random h =
    let prefix_len = min (length remote_id) 6 in
    let prefix = take prefix_len remote_id in
    let id =
      if ltb prefix_len (length local_id) then prefix ++ drop prefix_len local_id else prefix in
    (
      omega (
        arith,
        length-take 20 (id ++ take (20 - length id) random),
        length-append id (take (20 - length id) random),
        length-take (20 - length id) random,
      ),
      λ full_remote full_local.
          let six : prefix_len ≡ 6 = omega arith in
          let longer : ltb 6 (length local_id) ≡ true = ground arith in
          let size : length (take 6 remote_id ++ drop 6 local_id) ≡ 20 = omega (
            arith,
            length-append (take 6 remote_id) (drop 6 local_id),
            length-take 6 remote_id,
            length-drop 6 local_id,
          ) in
          rw (six, longer) (take-append 20 (take 6 remote_id ++ drop 6 local_id) _ size),
    )
