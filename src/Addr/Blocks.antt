-- ===== src/Addr/Blocks.antt =====
-- src/addr.rs: the octet tests of the IPv4 filter against a list of address blocks in prefix notation.
use dht_crawler.Base.{
  ℕ, ◌+◌, ◌-◌, ◌*◌, ◌/◌, ◌^◌, ◌<◌, ◌≡◌, refl, Bool, true, not, ◌&&◌, ◌||◌, ◌==◌, List, [], ◌∷◌,
  arith, all_below, all_below_sound, bit_and,
}
use dht_crawler.Net.{IsByte}
use dht_crawler.Addr.{
  is_valid_ipv4_node_addr, is_unspecified, is_loopback, is_private, is_link_local, is_multicast,
  is_broadcast, is_documentation, is_cgnat, is_benchmark, is_reserved,
}

-- `a.b.c.d/len`
pub record Block : Type 0 where
  pub network : ℕ
  pub len : ℕ

-- The address as a 32-bit number.
abbrev pub to_u32 : ℕ → ℕ → ℕ → ℕ → ℕ
to_u32 a b c d = a * 2 ^ 24 + b * 2 ^ 16 + c * 2 ^ 8 + d

abbrev pub block : ℕ → ℕ → ℕ → ℕ → ℕ → Block
block a b c d len = record { network = to_u32 a b c d; len = len }

-- The first `len` bits agree.
abbrev pub in_block : ℕ → Block → Bool
in_block n k = n / 2 ^ (32 - k.len) == k.network / 2 ^ (32 - k.len)

pub outside_all : ℕ → List Block → Bool
outside_all n [] = true
outside_all n (k ∷ ks) = not (in_block n k) && outside_all n ks

-- The blocks that the filter is to refuse, which are not all that the registries list as of special
-- purpose.
abbrev pub refused_blocks : List Block
refused_blocks =
    block 0 0 0 0 32
    ∷ block 127 0 0 0 8
    ∷ block 10 0 0 0 8
    ∷ block 172 16 0 0 12
    ∷ block 192 168 0 0 16
    ∷ block 169 254 0 0 16
    ∷ block 224 0 0 0 4
    ∷ block 255 255 255 255 32
    ∷ block 192 0 2 0 24
    ∷ block 198 51 100 0 24
    ∷ block 203 0 113 0 24
    ∷ block 100 64 0 0 10
    ∷ block 198 18 0 0 15
    ∷ block 240 0 0 0 4
    ∷ []

cgnat_table :
    all_below 256
      (λ x. (bit_and x 192 / 64) == (x / 64) && (bit_and x 192 == bit_and x 192 / 64 * 64))
    ≡ true
unfolding all_below
cgnat_table = refl

cgnat_bits : (b : ℕ) → b < 256 → bit_and b 192 ≡ (b / 64) * 64
cgnat_bits b h = ground (arith, all_below_sound 256 _ b cgnat_table h)

not-or3 : (x y z r : Bool) → (not (x || (y || z)) && r) ≡ (not x && (not y && (not z && r)))
not-or3 x y z r = ground arith

and-true : (x : Bool) → (x && true) ≡ x
and-true x = ground arith

module _ (a b c d : ℕ) (ha : IsByte a) (hb : IsByte b) (hc : IsByte c) (hd : IsByte d) where
  abbrev n : ℕ
  n = to_u32 a b c d

  unspecified_block : is_unspecified a b c d ≡ in_block n (block 0 0 0 0 32)
  unfolding is_unspecified
  unspecified_block = ground arith

  loopback_block : is_loopback a ≡ in_block n (block 127 0 0 0 8)
  unfolding is_loopback
  loopback_block = ground arith

  private_blocks : is_private a b ≡ (
      in_block n (block 10 0 0 0 8)
      || (in_block n (block 172 16 0 0 12) || in_block n (block 192 168 0 0 16)))
  unfolding is_private
  private_blocks = ground arith

  link_local_block : is_link_local a b ≡ in_block n (block 169 254 0 0 16)
  unfolding is_link_local
  link_local_block = ground arith

  multicast_block : is_multicast a ≡ in_block n (block 224 0 0 0 4)
  unfolding is_multicast
  multicast_block = ground arith

  broadcast_block : is_broadcast a b c d ≡ in_block n (block 255 255 255 255 32)
  unfolding is_broadcast
  broadcast_block = ground arith

  documentation_blocks : is_documentation a b c ≡ (
      in_block n (block 192 0 2 0 24)
      || (in_block n (block 198 51 100 0 24) || in_block n (block 203 0 113 0 24)))
  unfolding is_documentation
  documentation_blocks = ground arith

  cgnat_block : is_cgnat a b ≡ in_block n (block 100 64 0 0 10)
  unfolding is_cgnat
  cgnat_block = ground (arith, cgnat_bits b hb)

  benchmark_block : is_benchmark a b ≡ in_block n (block 198 18 0 0 15)
  unfolding is_benchmark
  benchmark_block = ground arith

  reserved_block : is_reserved a ≡ in_block n (block 240 0 0 0 4)
  unfolding is_reserved
  reserved_block = ground arith

  -- An IPv4 address of four octets is accepted exactly when, as a 32-bit number, it lies in none of
  -- these fourteen blocks: 0.0.0.0/32, 127.0.0.0/8, 10.0.0.0/8, 172.16.0.0/12, 192.168.0.0/16,
  -- 169.254.0.0/16, 224.0.0.0/4, 255.255.255.255/32, 192.0.2.0/24, 198.51.100.0/24, 203.0.113.0/24,
  -- 100.64.0.0/10, 198.18.0.0/15 and 240.0.0.0/4.
  pub is_valid_ipv4_node_addr-outside_all :
      is_valid_ipv4_node_addr a b c d ≡ outside_all (to_u32 a b c d) refused_blocks
  unfolding is_valid_ipv4_node_addr outside_all
  is_valid_ipv4_node_addr-outside_all = rw (
    unspecified_block, loopback_block, private_blocks, link_local_block, multicast_block,
    broadcast_block, documentation_blocks, cgnat_block, benchmark_block, reserved_block, not-or3,
    not-or3, and-true,
  )
