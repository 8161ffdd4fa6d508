-- ===== src/Net.antt =====
-- Addresses and nodes: src/types.rs (NetMode, NodeTuple) and the socket addresses of the standard
-- library. A byte is a number below 256. The flow label and the scope of an IPv6 socket address,
-- which this program neither reads nor sets, are not part of the model.
use dht_crawler.Base.{
  ℕ, ◌<◌, ◌≡◌, ◌==◌, ltb, not, ◌&&◌, ◌||◌, List, [], ◌∷◌, Bool, true, false, All, length,
  ℕ_discrete,
}

pub data NetMode : Type 0 where
  ipv4_only ipv6_only dual_stack : NetMode

-- `v6` holds the sixteen octets of the address.
pub data IpAddr : Type 0 where
  v4 : ℕ → ℕ → ℕ → ℕ → IpAddr
  v6 : List ℕ → IpAddr

pub record SocketAddr : Type 0 where
  pub ip : IpAddr
  pub port : ℕ

pub record NodeTuple : Type 0 where
  pub id : List ℕ
  pub addr : SocketAddr

ip_is_ipv4 : IpAddr → Bool
ip_is_ipv4 (v4 a b c d) = true
ip_is_ipv4 (v6 octets) = false

unfoldable pub is_ipv4 : SocketAddr → Bool
unfolding ip_is_ipv4
is_ipv4 addr = ip_is_ipv4 addr.ip

unfoldable pub ip_is_ipv6 : IpAddr → Bool
ip_is_ipv6 (v4 a b c d) = false
ip_is_ipv6 (v6 octets) = true

unfoldable pub is_ipv6 : SocketAddr → Bool
unfolding ip_is_ipv6
is_ipv6 addr = ip_is_ipv6 addr.ip

abbrev pub IsByte : ℕ → Type 0
IsByte b = b < 256

-- The number of octets and their range, which the types of the source guarantee.
abbrev pub IsIpAddr : IpAddr → Type 0
IsIpAddr (v4 a b c d) = IsByte a × IsByte b × IsByte c × IsByte d
IsIpAddr (v6 octets) = (length octets ≡ 16) × All IsByte octets

pub record IsSocketAddr (addr : SocketAddr) : Type 0 where
  pub ip_ok : IsIpAddr addr.ip
  pub port_ok : addr.port < 65536

pub record IsNodeTuple (node : NodeTuple) : Type 0 where
  pub id_ok : length node.id ≡ 20
  pub addr_ok : IsSocketAddr node.addr

unfoldable pub ip_discrete : Discrete IpAddr
ip_discrete = hlevel ℕ_discrete

unfoldable pub addr_discrete : Discrete SocketAddr
addr_discrete = hlevel (ip_discrete, ℕ_discrete)

-- The order of octets, and that of addresses: IPv4 before IPv6.
unfoldable pub octets_lt : List ℕ → List ℕ → Bool
octets_lt xs [] = false
octets_lt [] (y ∷ ys) = true
octets_lt (x ∷ xs) (y ∷ ys) = ltb x y || (x == y && octets_lt xs ys)

unfoldable pub ip_lt : IpAddr → IpAddr → Bool
unfolding octets_lt
ip_lt (v4 a b c d) (v4 a' b' c' d') = octets_lt (a ∷ b ∷ c ∷ d ∷ []) (a' ∷ b' ∷ c' ∷ d' ∷ [])
ip_lt (v4 a b c d) (v6 octets) = true
ip_lt (v6 octets) (v4 a b c d) = false
ip_lt (v6 octets) (v6 octets') = octets_lt octets octets'

unfoldable pub addr_lt : SocketAddr → SocketAddr → Bool
unfolding ip_lt
addr_lt a b = ip_lt a.ip b.ip || (not (ip_lt b.ip a.ip) && ltb a.port b.port)
