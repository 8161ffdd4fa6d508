-- ===== src/Addr/Tests.antt =====
-- The address filter of src/addr.rs at concrete addresses.
use dht_crawler.Base.{ℕ, ◌≡◌, refl, true, false, [], ◌∷◌, arith}
use dht_crawler.Net.{SocketAddr, v4, v6}
use dht_crawler.Addr.{is_valid_node_addr, is_valid_ipv4_node_addr}
use dht_crawler.Addr.Blocks.{
  outside_all, refused_blocks, to_u32, is_valid_ipv4_node_addr-outside_all,
}

abbrev at_port : ℕ → ℕ → ℕ → ℕ → ℕ → SocketAddr
at_port a b c d port = record { ip = v4 a b c d; port = port }

public_address : is_valid_node_addr (at_port 8 8 8 8 6881) ≡ true
unfolding is_valid_node_addr
public_address = refl

port_zero : is_valid_node_addr (at_port 8 8 8 8 0) ≡ false
unfolding is_valid_node_addr
port_zero = refl

private_address : is_valid_node_addr (at_port 10 0 0 1 6881) ≡ false
unfolding is_valid_node_addr
private_address = refl

-- Blocks of special purpose that the filter lets through.
this_network : is_valid_node_addr (at_port 0 1 2 3 6881) ≡ true
unfolding is_valid_node_addr
this_network = refl

protocol_assignments : is_valid_node_addr (at_port 192 0 0 1 6881) ≡ true
unfolding is_valid_node_addr
protocol_assignments = refl

relay_anycast : is_valid_node_addr (at_port 192 88 99 1 6881) ≡ true
unfolding is_valid_node_addr
relay_anycast = refl

unique_local :
    is_valid_node_addr (record {
      ip = v6 (0xfc ∷ 0 ∷ 0 ∷ 0 ∷ 0 ∷ 0 ∷ 0 ∷ 0 ∷ 0 ∷ 0 ∷ 0 ∷ 0 ∷ 0 ∷ 0 ∷ 0 ∷ 1 ∷ []);
      port = 6881;
    })
    ≡ false
unfolding is_valid_node_addr
unique_local = refl

is_valid_ipv4_node_addr-outside_all_example :
    is_valid_ipv4_node_addr 100 64 0 1 ≡ outside_all (to_u32 100 64 0 1) refused_blocks
is_valid_ipv4_node_addr-outside_all_example =
    is_valid_ipv4_node_addr-outside_all 100 64 0 1 (omega arith) (omega arith) (omega arith)
      (omega arith)
