-- ===== src/Krpc/Tests.antt =====
-- The encoders and readers of src/krpc.rs at concrete messages.
use dht_crawler.Base.{
  ◌≡◌, refl, true, false, List, [], ◌∷◌, replicate, none, some, arith, if◌then◌else◌, codes,
}
use dht_crawler.Net.{dual_stack, ipv4_only, v4, v6, SocketAddr, NodeTuple}
use dht_crawler.Addr.{addr_allowed_by_netmode, is_valid_node_addr}
use dht_crawler.Krpc.{
  DhtResponse, for_each_response_node, for_each_response_peer, compact_nodes, push_usize,
  encode_response, encode_find_node_query, chunks_exact, node_of_v6, node_of_v4,
  encode_get_peers_query, encode_sample_infohashes_query, not_ipv4_only, not_ipv6_only,
}
use dht_crawler.Krpc.Decimal.{read_decimal, read_decimal-push_usize}
use dht_crawler.Krpc.Bencode.{
  bencode, query, response, encode_find_node_query-bencode, encode_get_peers_query-bencode,
  encode_sample_infohashes_query-bencode, encode_response-bencode,
}
use dht_crawler.Krpc.Compact.{accepted, visit_each, for_each_response_node-compact}

abbrev ten : NodeTuple
ten = record { id = replicate 20 4; addr = record { ip = v4 8 8 8 8; port = 6881 } }

abbrev hidden : NodeTuple
hidden = record { id = replicate 20 5; addr = record { ip = v4 10 0 0 1; port = 6881 } }

abbrev six : NodeTuple
six = record {
  id = replicate 20 6;
  addr = record { ip = v6 (0x20 ∷ 1 ∷ replicate 14 7); port = 80 };
}

abbrev nodes : List NodeTuple
nodes = ten ∷ six ∷ hidden ∷ []

abbrev answer : DhtResponse
answer = record {
  id = none;
  nodes = some (compact_nodes false nodes);
  nodes6 = some (compact_nodes true nodes);
  values = none;
  samples = none;
  interval = none;
  num = none;
}

abbrev visit : List NodeTuple → NodeTuple → List NodeTuple
visit seen node = node ∷ seen

-- The private address is passed over, and each family is read once.
reads_back : for_each_response_node answer dual_stack visit [] ≡ (six ∷ ten ∷ [], 2)
unfolding for_each_response_node compact_nodes is_valid_node_addr chunks_exact node_of_v6 node_of_v4
reads_back = refl

-- The check of the source's own test: two good endpoints of three.
peers :
    for_each_response_peer
      (record answer {
        values = some (
            (8 ∷ 8 ∷ 8 ∷ 8 ∷ 0x1a ∷ 0xe1 ∷ [])
            ∷ (10 ∷ 0 ∷ 0 ∷ 1 ∷ 0x1a ∷ 0xe1 ∷ [])
            ∷ (1 ∷ 2 ∷ 3 ∷ [])
            ∷ []);
      })
      ipv4_only
      (λ (seen : List SocketAddr) peer. peer ∷ seen)
      []
    ≡ (record { ip = v4 8 8 8 8; port = 6881 } ∷ [], 1)
unfolding for_each_response_peer addr_allowed_by_netmode is_valid_node_addr
peers = refl

for_each_response_node-compact_example :
    for_each_response_node answer dual_stack visit []
    ≡ visit_each visit
        (visit_each visit ([], 0) (if not_ipv6_only dual_stack then accepted false nodes else []))
        (if not_ipv4_only dual_stack then accepted true nodes else [])
for_each_response_node-compact_example =
    for_each_response_node-compact visit [] dual_stack answer nodes nodes (omega arith)
      (omega arith) refl refl

find_node_query_written :
    encode_find_node_query (replicate 8 1) (replicate 20 2) (replicate 20 3)
    ≡ bencode (
        query
          (replicate 8 1)
          (replicate 20 3)
          (codes "find_node")
          (codes "target")
          (replicate 20 2))
find_node_query_written =
    encode_find_node_query-bencode (replicate 8 1) (replicate 20 2) (replicate 20 3) refl refl refl

get_peers_query_written :
    encode_get_peers_query (replicate 8 1) (replicate 20 2) (replicate 20 3)
    ≡ bencode (
        query
          (replicate 8 1)
          (replicate 20 3)
          (codes "get_peers")
          (codes "info_hash")
          (replicate 20 2))
get_peers_query_written =
    encode_get_peers_query-bencode (replicate 8 1) (replicate 20 2) (replicate 20 3) refl refl refl

sample_infohashes_query_written :
    encode_sample_infohashes_query (replicate 8 1) (replicate 20 2) (replicate 20 3)
    ≡ bencode (
        query
          (replicate 8 1)
          (replicate 20 3)
          (codes "sample_infohashes")
          (codes "target")
          (replicate 20 2))
sample_infohashes_query_written =
    encode_sample_infohashes_query-bencode (replicate 8 1) (replicate 20 2) (replicate 20 3) refl
      refl refl

encode_response-bencode_example :
    encode_response (1 ∷ 2 ∷ []) (replicate 20 2) (replicate 8 3) nodes false
    ≡ bencode
        (response (1 ∷ 2 ∷ []) (replicate 20 2) (replicate 8 3) false (compact_nodes false nodes))
unfolding compact_nodes
encode_response-bencode_example =
    encode_response-bencode (1 ∷ 2 ∷ []) (replicate 20 2) (replicate 8 3) nodes (omega arith) refl
      refl (omega arith) false (omega arith)

read_decimal-push_usize_example : read_decimal 0 (push_usize 384) ≡ 384
read_decimal-push_usize_example = read_decimal-push_usize 384 (omega arith)
