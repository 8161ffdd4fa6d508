-- ===== src/Krpc.antt =====
-- src/krpc.rs and the response type of src/protocol.rs. A buffer is the list of its bytes; the
-- callbacks `visit` of the two readers act on a state `S`.
pub mod Decimal
pub mod Bencode
pub mod Compact
pub mod Tests
use dht_crawler.Base.{
  ℕ, zero, suc, ◌+◌, ◌*◌, ◌/◌, ◌%◌, Bool, true, false, not, ◌&&◌, ◌||◌, ◌==◌, ltb, leb,
  if◌then◌else◌, List, [], ◌∷◌, ◌++◌, get_or, take, drop, length, Option, none, some, codes,
}
use dht_crawler.Net.{
  NetMode, ipv4_only, ipv6_only, dual_stack, IpAddr, v4, v6, SocketAddr, NodeTuple, is_ipv4,
  is_ipv6,
}
use dht_crawler.Addr.{addr_allowed_by_netmode, is_valid_node_addr}

pub record DhtResponse : Type 0 where
  pub id : Option (List ℕ)
  pub nodes : Option (List ℕ)
  pub nodes6 : Option (List ℕ)
  pub values : Option (List (List ℕ))
  pub samples : Option (List ℕ)
  pub interval : Option ℕ
  pub num : Option ℕ

-- `u16::from_be_bytes` and `u16::to_be_bytes`
abbrev pub from_be_bytes : ℕ → ℕ → ℕ
from_be_bytes hi lo = hi * 256 + lo

abbrev pub to_be_bytes : ℕ → List ℕ
to_be_bytes n = n / 256 ∷ n % 256 ∷ []

-- `chunks_exact(n)`: the fuel is the length of the list, and each round takes `n ≥ 1` bytes.
chunks_fuel : ℕ → ℕ → List ℕ → List (List ℕ)
chunks_fuel zero n xs = []
chunks_fuel (suc f) n xs =
    let rest = chunks_fuel f n (drop n xs) in if ltb (length xs) n then [] else take n xs ∷ rest

unfoldable pub chunks_exact : ℕ → List ℕ → List (List ℕ)
unfolding chunks_fuel
chunks_exact n xs = chunks_fuel (length xs) n xs

unfoldable pub node_of_v4 : List ℕ → NodeTuple
node_of_v4 chunk = record {
  id = take 20 chunk;
  addr = record {
    ip = v4 (get_or chunk 20 0) (get_or chunk 21 0) (get_or chunk 22 0) (get_or chunk 23 0);
    port = from_be_bytes (get_or chunk 24 0) (get_or chunk 25 0);
  };
}

unfoldable pub node_of_v6 : List ℕ → NodeTuple
node_of_v6 chunk = record {
  id = take 20 chunk;
  addr = record {
    ip = v6 (take 16 (drop 20 chunk));
    port = from_be_bytes (get_or chunk 36 0) (get_or chunk 37 0);
  };
}

-- `netmode != NetMode::Ipv6Only`
pub not_ipv6_only : NetMode → Bool
not_ipv6_only ipv6_only = false
not_ipv6_only ipv4_only = true
not_ipv6_only dual_stack = true

pub not_ipv4_only : NetMode → Bool
not_ipv4_only ipv4_only = false
not_ipv4_only ipv6_only = true
not_ipv4_only dual_stack = true

module _ {S : Type 0} where
  -- The body of the two loops over chunks, with the state of `visit` and the count.
  visit_node : (S → NodeTuple → S) → S × ℕ → NodeTuple → S × ℕ
  visit_node visit (s, count) node =
      if is_valid_node_addr node.addr then (visit s node, count + 1) else (s, count)

  visit_chunks : (List ℕ → NodeTuple) → (S → NodeTuple → S) → S × ℕ → List (List ℕ) → S × ℕ
  unfolding visit_node
  visit_chunks parse visit acc [] = acc
  visit_chunks parse visit acc (chunk ∷ chunks) =
      visit_chunks parse visit (visit_node visit acc (parse chunk)) chunks

  -- One family: the guard on the mode, the field, and the length test.
  visit_family :
      Bool → ℕ → (List ℕ → NodeTuple) → Option (List ℕ) → (S → NodeTuple → S) → S × ℕ → S × ℕ
  unfolding visit_chunks
  visit_family enabled width parse none visit acc = acc
  visit_family enabled width parse (some nodes) visit acc =
      if enabled && length nodes % width == 0
      then visit_chunks parse visit acc (chunks_exact width nodes)
      else acc

  unfoldable pub for_each_response_node : DhtResponse → NetMode → (S → NodeTuple → S) → S → S × ℕ
  unfolding visit_family not_ipv6_only not_ipv4_only
  for_each_response_node response netmode visit s =
      visit_family (not_ipv4_only netmode) 38 node_of_v6 response.nodes6 visit
        (visit_family (not_ipv6_only netmode) 26 node_of_v4 response.nodes visit (s, 0))

-- The address of one entry of `values`; `none` is the `continue` of the source.
unfoldable pub peer_of_value : List ℕ → Option SocketAddr
peer_of_value bytes =
    if length bytes == 6
    then some (record {
      ip = v4 (get_or bytes 0 0) (get_or bytes 1 0) (get_or bytes 2 0) (get_or bytes 3 0);
      port = from_be_bytes (get_or bytes 4 0) (get_or bytes 5 0);
    })
    else if length bytes == 18
    then some (record {
      ip = v6 (take 16 bytes);
      port = from_be_bytes (get_or bytes 16 0) (get_or bytes 17 0);
    })
    else none

module _ {S : Type 0} where
  visit_peer : NetMode → (S → SocketAddr → S) → S × ℕ → Option SocketAddr → S × ℕ
  visit_peer netmode visit (s, count) none = (s, count)
  visit_peer netmode visit (s, count) (some addr) =
      if addr_allowed_by_netmode addr netmode && is_valid_node_addr addr
      then (visit s addr, count + 1)
      else (s, count)

  visit_values : NetMode → (S → SocketAddr → S) → S × ℕ → List (List ℕ) → S × ℕ
  unfolding visit_peer peer_of_value
  visit_values netmode visit acc [] = acc
  visit_values netmode visit acc (value ∷ values) =
      visit_values netmode visit (visit_peer netmode visit acc (peer_of_value value)) values

  visit_option : NetMode → (S → SocketAddr → S) → S × ℕ → Option (List (List ℕ)) → S × ℕ
  unfolding visit_values
  visit_option netmode visit acc none = acc
  visit_option netmode visit acc (some values) = visit_values netmode visit acc values

  unfoldable pub for_each_response_peer : DhtResponse → NetMode → (S → SocketAddr → S) → S → S × ℕ
  unfolding visit_option
  for_each_response_peer response netmode visit s =
      visit_option netmode visit (s, 0) response.values

pub encode_find_node_query : List ℕ → List ℕ → List ℕ → List ℕ
encode_find_node_query tid target sender_id =
    codes "d1:ad2:id20:"
    ++ (sender_id
        ++ (codes "6:target20:"
            ++ (target ++ (codes "e1:q9:find_node1:t8:" ++ (tid ++ codes "1:y1:qe")))))

pub encode_get_peers_query : List ℕ → List ℕ → List ℕ → List ℕ
encode_get_peers_query tid info_hash sender_id =
    codes "d1:ad2:id20:"
    ++ (sender_id
        ++ (codes "9:info_hash20:"
            ++ (info_hash ++ (codes "e1:q9:get_peers1:t8:" ++ (tid ++ codes "1:y1:qe")))))

pub encode_sample_infohashes_query : List ℕ → List ℕ → List ℕ → List ℕ
encode_sample_infohashes_query tid target sender_id =
    codes "d1:ad2:id20:"
    ++ (sender_id
        ++ (codes "6:target20:"
            ++ (target ++ (codes "e1:q17:sample_infohashes1:t8:" ++ (tid ++ codes "1:y1:qe")))))

-- The loop of `push_usize`: the digits from the last to the first. The source has room for twenty,
-- which a 64-bit number never exceeds.
push_digits : ℕ → ℕ → List ℕ → List ℕ
push_digits zero value digits = digits
push_digits (suc room) value digits =
    let digits' = (b'0' + value % 10) ∷ digits in
    let more = push_digits room (value / 10) digits' in if value / 10 == 0 then digits' else more

pub push_usize : ℕ → List ℕ
unfolding push_digits
push_usize value = push_digits 20 value []

compact_addr : IpAddr → ℕ → Bool → List ℕ → List ℕ
compact_addr (v4 a b c d) port false id = id ++ (a ∷ b ∷ c ∷ d ∷ to_be_bytes port)
compact_addr (v6 octets) port true id = id ++ (octets ++ to_be_bytes port)
compact_addr (v4 a b c d) port true id = []
compact_addr (v6 octets) port false id = []

-- What the loop of `encode_response` appends for a node.
unfoldable pub compact_node : Bool → NodeTuple → List ℕ
unfolding compact_addr
compact_node ipv6 node = compact_addr node.addr.ip node.addr.port ipv6 node.id

unfoldable pub compact_nodes : Bool → List NodeTuple → List ℕ
unfolding compact_node
compact_nodes ipv6 [] = []
compact_nodes ipv6 (node ∷ nodes) = compact_node ipv6 node ++ compact_nodes ipv6 nodes

-- `nodes.iter().filter(…).count()`
count_family : Bool → List NodeTuple → ℕ
count_family ipv6 [] = 0
count_family ipv6 (node ∷ nodes) =
    (if (if ipv6 then is_ipv6 node.addr else is_ipv4 node.addr) then 1 else 0)
    + count_family ipv6 nodes

-- `compact_len`
pub compact_len : Bool → List NodeTuple → ℕ
unfolding count_family
compact_len ipv6 nodes = count_family ipv6 nodes * (if ipv6 then 38 else 26)

nodes_field : Bool → List NodeTuple → List ℕ
unfolding push_usize compact_len compact_nodes
nodes_field ipv6 nodes =
    if ltb 0 (compact_len ipv6 nodes)
    then (if ipv6 then codes "6:nodes6" else codes "5:nodes")
      ++ (push_usize (compact_len ipv6 nodes) ++ (codes ":" ++ compact_nodes ipv6 nodes))
    else []

pub encode_response : List ℕ → List ℕ → List ℕ → List NodeTuple → Bool → List ℕ
unfolding nodes_field push_usize
encode_response tid node_id token nodes ipv6 =
    codes "d1:rd2:id20:"
    ++ (node_id
        ++ (nodes_field ipv6 nodes
            ++ (codes "5:token8:"
                ++ (token
                    ++ (codes "e1:t"
                        ++ (push_usize (length tid) ++ (codes ":" ++ (tid ++ codes "1:y1:re"))))))))
