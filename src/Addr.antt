-- ===== src/Addr.antt =====
-- src/addr.rs: which addresses a node may have. The tests on `Ipv4Addr` and `Ipv6Addr` are those
-- of the standard library, as it documents them.
pub mod Blocks
pub mod Tests
use dht_crawler.Base.{
  ℕ, Bool, true, false, not, ◌&&◌, ◌||◌, ◌==◌, leb, if◌then◌else◌, List, [], ◌∷◌, get_or, bit_and,
}
use dht_crawler.Net.{
  NetMode, ipv4_only, ipv6_only, dual_stack, IpAddr, v4, v6, SocketAddr, is_ipv4, is_ipv6,
}

unfoldable pub addr_allowed_by_netmode : SocketAddr → NetMode → Bool
unfolding is_ipv4 is_ipv6
addr_allowed_by_netmode addr ipv4_only = is_ipv4 addr
addr_allowed_by_netmode addr ipv6_only = is_ipv6 addr
addr_allowed_by_netmode addr dual_stack = true

is_unspecified : ℕ → ℕ → ℕ → ℕ → Bool
is_unspecified a b c d = a == 0 && b == 0 && c == 0 && d == 0

is_loopback : ℕ → Bool
is_loopback a = a == 127

is_private : ℕ → ℕ → Bool
is_private a b = a == 10 || ((a == 172 && leb 16 b && leb b 31) || (a == 192 && b == 168))

is_link_local : ℕ → ℕ → Bool
is_link_local a b = a == 169 && b == 254

is_multicast : ℕ → Bool
is_multicast a = leb 224 a && leb a 239

is_broadcast : ℕ → ℕ → ℕ → ℕ → Bool
is_broadcast a b c d = a == 255 && b == 255 && c == 255 && d == 255

is_documentation : ℕ → ℕ → ℕ → Bool
is_documentation a b c =
    (a == 192 && b == 0 && c == 2)
    || ((a == 198 && b == 51 && c == 100) || (a == 203 && b == 0 && c == 113))

is_cgnat : ℕ → ℕ → Bool
is_cgnat a b = a == 100 && bit_and b 192 == 64

is_benchmark : ℕ → ℕ → Bool
is_benchmark a b = a == 198 && (b == 18 || b == 19)

is_reserved : ℕ → Bool
is_reserved a = leb 240 a

unfoldable pub is_valid_ipv4_node_addr : ℕ → ℕ → ℕ → ℕ → Bool
unfolding is_unspecified is_loopback is_private is_link_local is_multicast is_broadcast
    is_documentation is_cgnat is_benchmark is_reserved
is_valid_ipv4_node_addr a b c d =
    not (is_unspecified a b c d)
    && (not (is_loopback a)
        && (not (is_private a b)
            && (not (is_link_local a b)
                && (not (is_multicast a)
                    && (not (is_broadcast a b c d)
                        && (not (is_documentation a b c)
                            && (not (is_cgnat a b)
                                && (not (is_benchmark a b) && not (is_reserved a)))))))))

all_zero : List ℕ → Bool
all_zero [] = true
all_zero (x ∷ xs) = x == 0 && all_zero xs

-- `::1`: all octets but the last are zero.
is_loopback_v6 : List ℕ → Bool
is_loopback_v6 [] = false
is_loopback_v6 (x ∷ []) = x == 1
is_loopback_v6 (x ∷ y ∷ ys) = x == 0 && is_loopback_v6 (y ∷ ys)

unfoldable pub is_valid_ipv6_node_addr : List ℕ → Bool
unfolding all_zero is_loopback_v6
is_valid_ipv6_node_addr octets =
    let o0 = get_or octets 0 0 in
    let o1 = get_or octets 1 0 in
    let o2 = get_or octets 2 0 in
    let o3 = get_or octets 3 0 in
    let is_unique_local = bit_and o0 0xfe == 0xfc in
    let is_unicast_link_local = o0 == 0xfe && bit_and o1 0xc0 == 0x80 in
    let is_documentation = o0 == 0x20 && o1 == 0x01 && o2 == 0x0d && o3 == 0xb8 in
    not (all_zero octets)
    && (not (is_loopback_v6 octets)
        && (not (o0 == 0xff)
            && (not is_unique_local && (not is_unicast_link_local && not is_documentation))))

unfoldable pub is_valid_ip : IpAddr → Bool
unfolding is_valid_ipv4_node_addr is_valid_ipv6_node_addr
is_valid_ip (v4 a b c d) = is_valid_ipv4_node_addr a b c d
is_valid_ip (v6 octets) = is_valid_ipv6_node_addr octets

unfoldable pub is_valid_node_addr : SocketAddr → Bool
unfolding is_valid_ip
is_valid_node_addr addr = if addr.port == 0 then false else is_valid_ip addr.ip
