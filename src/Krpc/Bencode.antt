-- ===== src/Krpc/Bencode.antt =====
-- The messages that src/krpc.rs writes by hand, against bencoding in general: a byte string is its
-- length in decimal, a colon and the bytes; a dictionary lists its keys and values.
use dht_crawler.Base.{
  ℕ, ◌*◌, ◌^◌, ◌<◌, ◌≡◌, refl, ◌∙◌, Bool, true, false, ltb, if◌then◌else◌, List, [], ◌∷◌, ◌++◌,
  append_assoc, length, length-append, All, codes, arith, Bool-cases, inl, inr,
}
use dht_crawler.Net.{IpAddr, v4, v6, NodeTuple, IsNodeTuple, IsIpAddr, is_ipv4, is_ipv6}
use dht_crawler.Krpc.{
  encode_find_node_query, encode_get_peers_query, encode_sample_infohashes_query, encode_response,
  to_be_bytes, compact_node, compact_nodes, compact_len, compact_addr, nodes_field,
}
use dht_crawler.Krpc.Decimal.{decimal, push_usize-decimal}

mutual
  pub data Value : Type 0 where
    bytes : List ℕ → Value
    dict : Fields → Value

  pub data Fields : Type 0 where
    end : Fields
    field : List ℕ → Value → Fields → Fields

abbrev pub bencode_bytes : List ℕ → List ℕ
bencode_bytes s = decimal (length s) ++ (b':' ∷ s)

mutual
  pub bencode : Value → List ℕ
  bencode (bytes s) = bencode_bytes s
  bencode (dict fs) = b'd' ∷ (bencode_fields fs ++ (b'e' ∷ []))

  pub bencode_fields : Fields → List ℕ
  bencode_fields end = []
  bencode_fields (field key v fs) = bencode_bytes key ++ (bencode v ++ bencode_fields fs)

-- A query, its method and its arguments besides `id`, by BEP-5.
abbrev pub query : List ℕ → List ℕ → List ℕ → List ℕ → List ℕ → Value
query tid sender_id method argument value = dict (
    field (codes "a")
      (dict (field (codes "id") (bytes sender_id) (field argument (bytes value) end)))
      (field (codes "q") (bytes method)
        (field (codes "t") (bytes tid) (field (codes "y") (bytes (codes "q")) end))))

-- A response: `id`, the compact nodes of one family if there are any, and `token`.
abbrev pub response : List ℕ → List ℕ → List ℕ → Bool → List ℕ → Value
response tid node_id token ipv6 compact =
    let key = if ipv6 then codes "nodes6" else codes "nodes" in
    let token_field = field (codes "token") (bytes token) end in
    dict (
      field (codes "r")
        (dict (
          field (codes "id") (bytes node_id) (
            if ltb 0 (length compact) then field key (bytes compact) token_field else token_field)))
        (field (codes "t") (bytes tid) (field (codes "y") (bytes (codes "r")) end)))

module _ (tid value sender_id : List ℕ) (htid : length tid ≡ 8) (hvalue : length value ≡ 20)
    (hsender : length sender_id ≡ 20) where
  -- A find_node query is the bencoding of its dictionary, for identifiers of their fixed lengths.
  pub encode_find_node_query-bencode :
      encode_find_node_query tid value sender_id
      ≡ bencode (query tid sender_id (codes "find_node") (codes "target") value)
  unfolding encode_find_node_query bencode decimal
  encode_find_node_query-bencode = simp (htid, hvalue, hsender, append_assoc)

  -- A get_peers query is the bencoding of its dictionary, for identifiers of their fixed lengths.
  pub encode_get_peers_query-bencode :
      encode_get_peers_query tid value sender_id
      ≡ bencode (query tid sender_id (codes "get_peers") (codes "info_hash") value)
  unfolding encode_get_peers_query bencode decimal
  encode_get_peers_query-bencode = simp (htid, hvalue, hsender, append_assoc)

  -- A sample_infohashes query is the bencoding of its dictionary, for identifiers of their fixed
  -- lengths.
  pub encode_sample_infohashes_query-bencode :
      encode_sample_infohashes_query tid value sender_id
      ≡ bencode (query tid sender_id (codes "sample_infohashes") (codes "target") value)
  unfolding encode_sample_infohashes_query bencode decimal
  encode_sample_infohashes_query-bencode = simp (htid, hvalue, hsender, append_assoc)

compact_addr-length :
    (ip : IpAddr) (port : ℕ) (ipv6 : Bool) (id : List ℕ)
    → IsIpAddr ip
    → length id ≡ 20
    → length (compact_addr ip port ipv6 id)
      ≡ (if (if ipv6
            then is_ipv6 (record { ip = ip; port = port })
            else is_ipv4 (record { ip = ip; port = port }))
          then 1
          else 0)
        * (if ipv6 then 38 else 26)
unfolding compact_addr is_ipv6 is_ipv4
compact_addr-length (v4 a b c d) port true id h k = refl
compact_addr-length (v4 a b c d) port false id h k =
    length-append id (a ∷ b ∷ c ∷ d ∷ to_be_bytes port) ∙ omega arith
compact_addr-length (v6 octets) port false id h k = refl
compact_addr-length (v6 octets) port true id h k =
    omega (
      arith,
      length-append id (octets ++ to_be_bytes port),
      length-append octets (to_be_bytes port),
    )

-- The announced length is the number of bytes that follow.
pub compact_len-length :
    (ipv6 : Bool) (nodes : List NodeTuple)
    → All IsNodeTuple nodes
    → compact_len ipv6 nodes ≡ length (compact_nodes ipv6 nodes)
unfolding compact_len compact_nodes
compact_len-length true [] h = refl
compact_len-length false [] h = refl
compact_len-length true (node ∷ nodes) h = grind (
  arith,
  length-append (compact_node true node) (compact_nodes true nodes),
  compact_len-length true nodes h.1,
  compact_addr-length node.addr.ip node.addr.port true node.id h.0.addr_ok.ip_ok h.0.id_ok,
)
compact_len-length false (node ∷ nodes) h = grind (
  arith,
  length-append (compact_node false node) (compact_nodes false nodes),
  compact_len-length false nodes h.1,
  compact_addr-length node.addr.ip node.addr.port false node.id h.0.addr_ok.ip_ok h.0.id_ok,
)

module _ (tid node_id token : List ℕ) (nodes : List NodeTuple) (htid : length tid < 10 ^ 20)
    (hid : length node_id ≡ 20) (htoken : length token ≡ 8) (hnodes : All IsNodeTuple nodes) where
  -- A response is the bencoding of its dictionary: the nodes of the requested family stand there
  -- with their true length, and the field is left out if there are none.
  pub encode_response-bencode :
      (ipv6 : Bool)
      → length (compact_nodes ipv6 nodes) < 10 ^ 20
      → encode_response tid node_id token nodes ipv6
        ≡ bencode (response tid node_id token ipv6 (compact_nodes ipv6 nodes))
  unfolding encode_response nodes_field bencode
  encode_response-bencode true hc = elim (Bool-cases (ltb 0 (length (compact_nodes true nodes)))) [
    | inl some_nodes ↦
        rw
          (
            compact_len-length true nodes hnodes,
            some_nodes,
            push_usize-decimal _ htid,
            push_usize-decimal _ hc,
          )
          (simp (hid, htoken, append_assoc) (unfold decimal in refl))
    | inr no_nodes ↦
        rw (compact_len-length true nodes hnodes, no_nodes, push_usize-decimal _ htid)
          (simp (hid, htoken, append_assoc) (unfold decimal in refl))
  ]
  encode_response-bencode false hc =
      elim (Bool-cases (ltb 0 (length (compact_nodes false nodes)))) [
        | inl some_nodes ↦
            rw
              (
                compact_len-length false nodes hnodes,
                some_nodes,
                push_usize-decimal _ htid,
                push_usize-decimal _ hc,
              )
              (simp (hid, htoken, append_assoc) (unfold decimal in refl))
        | inr no_nodes ↦
            rw (compact_len-length false nodes hnodes, no_nodes, push_usize-decimal _ htid)
              (simp (hid, htoken, append_assoc) (unfold decimal in refl))
      ]
