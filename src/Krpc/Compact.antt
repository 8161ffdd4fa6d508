-- ===== src/Krpc/Compact.antt =====
-- The readers of src/krpc.rs on what its writer produces: the compact node lists of a response.
use dht_crawler.Base.{
  ℕ, zero, suc, ◌+◌, ◌/◌, ◌%◌, ◌≤◌, ◌≡◌, refl, ap, ◌∙◌, Bool, true, false, ◌&&◌, if◌then◌else◌,
  List, [], ◌∷◌, ◌++◌, length, length-append, take, drop, get_or, take-append, drop-append,
  get_or-drop, All, arith, Bool-cases, inl, inr, some,
}
use dht_crawler.Net.{NetMode, IpAddr, v4, v6, NodeTuple, IsNodeTuple, IsIpAddr, is_ipv4, is_ipv6}
use dht_crawler.Addr.{is_valid_node_addr}
use dht_crawler.Krpc.Bencode.{compact_len-length}
use dht_crawler.Krpc.{
  DhtResponse, node_of_v4, node_of_v6, to_be_bytes, from_be_bytes, chunks_exact, chunks_fuel,
  visit_node, visit_chunks, visit_family, for_each_response_node, compact_addr, compact_nodes,
  compact_len, not_ipv6_only, not_ipv4_only,
}

-- The nodes of one family that the filter accepts, in order.
pub accepted : Bool → List NodeTuple → List NodeTuple
accepted ipv6 [] = []
accepted ipv6 (node ∷ nodes) =
    if (if ipv6 then is_ipv6 node.addr else is_ipv4 node.addr) && is_valid_node_addr node.addr
    then node ∷ accepted ipv6 nodes
    else accepted ipv6 nodes

-- One call of `visit` for each node, counted.
pub visit_each : {S : Type 0} → (S → NodeTuple → S) → S × ℕ → List NodeTuple → S × ℕ
visit_each visit acc [] = acc
visit_each visit (s, count) (node ∷ nodes) = visit_each visit (visit s node, count + 1) nodes

node_of_v4-split :
    (chunk : List ℕ)
    → node_of_v4 chunk ≡ record {
      id = take 20 chunk;
      addr = record {
        ip =
            v4
              (get_or (drop 20 chunk) 0 0)
              (get_or (drop 20 chunk) 1 0)
              (get_or (drop 20 chunk) 2 0)
              (get_or (drop 20 chunk) 3 0);
        port = from_be_bytes (get_or (drop 20 chunk) 4 0) (get_or (drop 20 chunk) 5 0);
      };
    }
unfolding node_of_v4
node_of_v4-split chunk = rw (
  get_or-drop 20 0 chunk 0,
  get_or-drop 20 1 chunk 0,
  get_or-drop 20 2 chunk 0,
  get_or-drop 20 3 chunk 0,
  get_or-drop 20 4 chunk 0,
  get_or-drop 20 5 chunk 0,
)

be_bytes_back : (port : ℕ) → from_be_bytes (port / 256) (port % 256) ≡ port
be_bytes_back port = omega arith

node_of_v4-compact :
    (id : List ℕ) (a b c d port : ℕ)
    → length id ≡ 20
    → node_of_v4 (id ++ (a ∷ b ∷ c ∷ d ∷ to_be_bytes port))
      ≡ record { id = id; addr = record { ip = v4 a b c d; port = port } }
node_of_v4-compact id a b c d port h =
    let rest : List ℕ = a ∷ b ∷ c ∷ d ∷ to_be_bytes port in
    rw (node_of_v4-split (id ++ rest), take-append 20 id rest h, drop-append 20 id rest h)
      (rw (be_bytes_back port))

node_of_v6-split :
    (chunk : List ℕ)
    → node_of_v6 chunk ≡ record {
      id = take 20 chunk;
      addr = record {
        ip = v6 (take 16 (drop 20 chunk));
        port =
            from_be_bytes
              (get_or (drop 16 (drop 20 chunk)) 0 0)
              (get_or (drop 16 (drop 20 chunk)) 1 0);
      };
    }
unfolding node_of_v6
node_of_v6-split chunk = rw (
  get_or-drop 20 16 chunk 0,
  get_or-drop 20 17 chunk 0,
  get_or-drop 16 0 (drop 20 chunk) 0,
  get_or-drop 16 1 (drop 20 chunk) 0,
)

node_of_v6-compact :
    (id octets : List ℕ) (port : ℕ)
    → length id ≡ 20
    → length octets ≡ 16
    → node_of_v6 (id ++ (octets ++ to_be_bytes port))
      ≡ record { id = id; addr = record { ip = v6 octets; port = port } }
node_of_v6-compact id octets port h k =
    let rest : List ℕ = octets ++ to_be_bytes port in
    rw
      (
        node_of_v6-split (id ++ rest),
        take-append 20 id rest h,
        drop-append 20 id rest h,
        take-append 16 octets (to_be_bytes port) k,
        drop-append 16 octets (to_be_bytes port) k,
      )
      (rw (be_bytes_back port))

-- A full first chunk.
chunks_fuel-cons :
    (f n : ℕ) (chunk rest : List ℕ)
    → length chunk ≡ n
    → chunks_fuel (suc f) n (chunk ++ rest) ≡ chunk ∷ chunks_fuel f n rest
unfolding chunks_fuel
chunks_fuel-cons f n chunk rest h =
    rw (take-append n chunk rest h, drop-append n chunk rest h)
      (ground (arith, length-append chunk rest))

chunks_fuel-nil : (f : ℕ) → chunks_fuel f 26 [] ≡ []
unfolding chunks_fuel
chunks_fuel-nil zero = refl
chunks_fuel-nil (suc f) = refl

chunks_fuel-nil_v6 : (f : ℕ) → chunks_fuel f 38 [] ≡ []
unfolding chunks_fuel
chunks_fuel-nil_v6 zero = refl
chunks_fuel-nil_v6 (suc f) = refl

compact_v4-length :
    (id : List ℕ) (a b c d port : ℕ)
    → length id ≡ 20
    → length (id ++ (a ∷ b ∷ c ∷ d ∷ to_be_bytes port)) ≡ 26
compact_v4-length id a b c d port h =
    length-append id (a ∷ b ∷ c ∷ d ∷ to_be_bytes port) ∙ omega arith

compact_v6-length :
    (id octets : List ℕ) (port : ℕ)
    → length id ≡ 20
    → length octets ≡ 16
    → length (id ++ (octets ++ to_be_bytes port)) ≡ 38
compact_v6-length id octets port h k =
    omega (
      arith,
      length-append id (octets ++ to_be_bytes port),
      length-append octets (to_be_bytes port),
    )

module _ {S : Type 0} (visit : S → NodeTuple → S) where
  -- One node visited, or passed over, before the rest.
  visit_each-if :
      (acc : S × ℕ) (node : NodeTuple) (nodes : List NodeTuple)
      → visit_each visit (visit_node visit acc node) nodes
        ≡ visit_each visit acc (if is_valid_node_addr node.addr then node ∷ nodes else nodes)
  unfolding visit_each visit_node
  visit_each-if (s, count) node nodes = elim (Bool-cases (is_valid_node_addr node.addr)) [
    | inl valid ↦ rw valid
    | inr invalid ↦ rw invalid
  ]

  -- The reader takes the first full chunk apart and goes on.
  visit_chunks-cons :
      (parse : List ℕ → NodeTuple) (f n : ℕ) (acc : S × ℕ) (chunk rest : List ℕ) (node : NodeTuple)
      → length chunk ≡ n
      → parse chunk ≡ node
      → visit_chunks parse visit acc (chunks_fuel (suc f) n (chunk ++ rest))
        ≡ visit_chunks parse visit (visit_node visit acc node) (chunks_fuel f n rest)
  unfolding visit_chunks
  visit_chunks-cons parse f n acc chunk rest node h p =
      rw (chunks_fuel-cons f n chunk rest h)
        (ap (λ x. visit_chunks parse visit (visit_node visit acc x) (chunks_fuel f n rest)) p)

  module _ (port : ℕ) (id rest : List ℕ) (nodes : List NodeTuple) (hid : length id ≡ 20) where
    abbrev node_at : IpAddr → NodeTuple
    node_at ip = record { id = id; addr = record { ip = ip; port = port } }

    cons_v4 :
        (ip : IpAddr) (f : ℕ) (acc : S × ℕ)
        → length (compact_addr ip port false id ++ rest) ≤ f
        → ((g : ℕ) (acc' : S × ℕ)
            → length rest ≤ g
            → visit_chunks node_of_v4 visit acc' (chunks_fuel g 26 rest)
              ≡ visit_each visit acc' nodes)
        → visit_chunks node_of_v4 visit acc
            (chunks_fuel f 26 (compact_addr ip port false id ++ rest))
          ≡ visit_each visit acc (
              if is_ipv4 (node_at ip).addr && is_valid_node_addr (node_at ip).addr
              then node_at ip ∷ nodes
              else nodes)
    unfolding compact_addr is_ipv4
    cons_v4 (v6 octets) f acc k ih = ih f acc k
    cons_v4 (v4 a b c d) zero acc k ih =
        let chunk : List ℕ = id ++ (a ∷ b ∷ c ∷ d ∷ to_be_bytes port) in
        absurd (omega (arith, length-append chunk rest, compact_v4-length id a b c d port hid))
    cons_v4 (v4 a b c d) (suc f) acc k ih =
        let chunk : List ℕ = id ++ (a ∷ b ∷ c ∷ d ∷ to_be_bytes port) in
        let size = compact_v4-length id a b c d port hid in
        visit_chunks-cons node_of_v4 f 26 acc chunk rest (node_at (v4 a b c d)) size
          (node_of_v4-compact id a b c d port hid)
        ∙ ih f (visit_node visit acc (node_at (v4 a b c d)))
            (omega (arith, length-append chunk rest, size))
        ∙ visit_each-if acc (node_at (v4 a b c d)) nodes

    cons_v6 :
        (ip : IpAddr) (f : ℕ) (acc : S × ℕ)
        → IsIpAddr ip
        → length (compact_addr ip port true id ++ rest) ≤ f
        → ((g : ℕ) (acc' : S × ℕ)
            → length rest ≤ g
            → visit_chunks node_of_v6 visit acc' (chunks_fuel g 38 rest)
              ≡ visit_each visit acc' nodes)
        → visit_chunks node_of_v6 visit acc
            (chunks_fuel f 38 (compact_addr ip port true id ++ rest))
          ≡ visit_each visit acc (
              if is_ipv6 (node_at ip).addr && is_valid_node_addr (node_at ip).addr
              then node_at ip ∷ nodes
              else nodes)
    unfolding compact_addr is_ipv6
    cons_v6 (v4 a b c d) f acc w k ih = ih f acc k
    cons_v6 (v6 octets) zero acc w k ih =
        let chunk : List ℕ = id ++ (octets ++ to_be_bytes port) in
        absurd (omega (arith, length-append chunk rest, compact_v6-length id octets port hid w.0))
    cons_v6 (v6 octets) (suc f) acc w k ih =
        let chunk : List ℕ = id ++ (octets ++ to_be_bytes port) in
        let size = compact_v6-length id octets port hid w.0 in
        visit_chunks-cons node_of_v6 f 38 acc chunk rest (node_at (v6 octets)) size
          (node_of_v6-compact id octets port hid w.0)
        ∙ ih f (visit_node visit acc (node_at (v6 octets)))
            (omega (arith, length-append chunk rest, size))
        ∙ visit_each-if acc (node_at (v6 octets)) nodes

  visit_chunks-compact_v4 :
      (nodes : List NodeTuple) (f : ℕ) (acc : S × ℕ)
      → All IsNodeTuple nodes
      → length (compact_nodes false nodes) ≤ f
      → visit_chunks node_of_v4 visit acc (chunks_fuel f 26 (compact_nodes false nodes))
        ≡ visit_each visit acc (accepted false nodes)
  unfolding visit_chunks visit_each compact_nodes accepted
  visit_chunks-compact_v4 [] f acc h k = rw (chunks_fuel-nil f)
  visit_chunks-compact_v4 (node ∷ nodes) f acc h k =
      cons_v4 node.addr.port node.id (compact_nodes false nodes) (accepted false nodes) h.0.id_ok
        node.addr.ip f acc k (λ g acc' k'. visit_chunks-compact_v4 nodes g acc' h.1 k')

  visit_chunks-compact_v6 :
      (nodes : List NodeTuple) (f : ℕ) (acc : S × ℕ)
      → All IsNodeTuple nodes
      → length (compact_nodes true nodes) ≤ f
      → visit_chunks node_of_v6 visit acc (chunks_fuel f 38 (compact_nodes true nodes))
        ≡ visit_each visit acc (accepted true nodes)
  unfolding visit_chunks visit_each compact_nodes accepted
  visit_chunks-compact_v6 [] f acc h k = rw (chunks_fuel-nil_v6 f)
  visit_chunks-compact_v6 (node ∷ nodes) f acc h k =
      cons_v6 node.addr.port node.id (compact_nodes true nodes) (accepted true nodes) h.0.id_ok
        node.addr.ip f acc h.0.addr_ok.ip_ok k
        (λ g acc' k'. visit_chunks-compact_v6 nodes g acc' h.1 k')

compact_v4-mod :
    (nodes : List NodeTuple) → All IsNodeTuple nodes → length (compact_nodes false nodes) % 26 ≡ 0
unfolding compact_len
compact_v4-mod nodes h = omega (arith, compact_len-length false nodes h)

compact_v6-mod :
    (nodes : List NodeTuple) → All IsNodeTuple nodes → length (compact_nodes true nodes) % 38 ≡ 0
unfolding compact_len
compact_v6-mod nodes h = omega (arith, compact_len-length true nodes h)

module _ {S : Type 0} (visit : S → NodeTuple → S) (nodes : List NodeTuple)
    (h : All IsNodeTuple nodes) where
  visit_family-compact_v4 :
      (enabled : Bool) (acc : S × ℕ)
      → visit_family enabled 26 node_of_v4 (some (compact_nodes false nodes)) visit acc
        ≡ visit_each visit acc (if enabled then accepted false nodes else [])
  unfolding visit_family chunks_exact visit_each
  visit_family-compact_v4 false acc = refl
  visit_family-compact_v4 true acc =
      rw (compact_v4-mod nodes h) (visit_chunks-compact_v4 visit nodes _ acc h (omega arith))

  visit_family-compact_v6 :
      (enabled : Bool) (acc : S × ℕ)
      → visit_family enabled 38 node_of_v6 (some (compact_nodes true nodes)) visit acc
        ≡ visit_each visit acc (if enabled then accepted true nodes else [])
  unfolding visit_family chunks_exact visit_each
  visit_family-compact_v6 false acc = refl
  visit_family-compact_v6 true acc =
      rw (compact_v6-mod nodes h) (visit_chunks-compact_v6 visit nodes _ acc h (omega arith))

-- Reading a response whose node lists were written by `compact_nodes` visits exactly the nodes of
-- each family that the filter accepts, IPv4 first and each family in its order, as far as the mode
-- asks for the family; the count is the number of visits.
pub for_each_response_node-compact :
    {S : Type 0} (visit : S → NodeTuple → S) (s : S) (netmode : NetMode) (response : DhtResponse)
    (nodes nodes6 : List NodeTuple)
    → All IsNodeTuple nodes
    → All IsNodeTuple nodes6
    → response.nodes ≡ some (compact_nodes false nodes)
    → response.nodes6 ≡ some (compact_nodes true nodes6)
    → for_each_response_node response netmode visit s
      ≡ visit_each visit
          (visit_each visit (s, 0) (if not_ipv6_only netmode then accepted false nodes else []))
          (if not_ipv4_only netmode then accepted true nodes6 else [])
unfolding for_each_response_node
for_each_response_node-compact visit s netmode response nodes nodes6 h h6 e e6 =
    rw (e, e6)
      (visit_family-compact_v6 visit nodes6 h6 (not_ipv4_only netmode) _
        ∙ ap
            (λ acc.
              visit_each visit acc (if not_ipv4_only netmode then accepted true nodes6 else []))
            (visit_family-compact_v4 visit nodes h (not_ipv6_only netmode) (s, 0)))
