-- ===== src/RoutingSnapshot/Parting.antt =====
-- src/routing_snapshot.rs: of two ids that differ first in a bit, the one with the bit of the target is
-- the nearer to it.
use dht_crawler.Base.{
  ℕ, zero, suc, ◌+◌, ◌-◌, ◌*◌, ◌/◌, ◌%◌, ◌<◌, ◌==◌, false, List, [], ◌∷◌, ◌≡◌, sym, ◌∙◌, length,
  get_or, take, arith, All,
}
use dht_crawler.Net.{IsByte}
use dht_crawler.RoutingSnapshot.{Nodes, bit_clear, xor_distance_cmp}
use Prim.Native.Nat.{lt}
use dht_crawler.RoutingSnapshot.Bits.{shift, mask-shift, nearer}
use dht_crawler.RoutingSnapshot.Distance.{xor_distance_cmp-lt}

-- Twenty octets.
abbrev pub IsNodeId : List ℕ → Type 0
IsNodeId id = (length id ≡ 20) × All IsByte id

abbrev pub HasIds : Nodes → Type 0
HasIds = All (λ node. IsNodeId node.id)

pub get_or-IsByte : (octets : List ℕ) (i : ℕ) → All IsByte octets → get_or octets i 0 < 256
get_or-IsByte [] i h = omega arith
get_or-IsByte (x ∷ octets) zero h = h.0
get_or-IsByte (x ∷ octets) (suc i) h = get_or-IsByte octets i h.1

-- The bit of an id at a place of an octet.
abbrev pub bit_value : ℕ → ℕ → List ℕ → ℕ
bit_value byte place id = shift (7 - place) (get_or id byte 0) % 2

-- Ids that agree up to a bit, which is 0 in the first and 1 in the second.
pub record Parted (byte place : ℕ) (x y : List ℕ) : Type 0 where
  pub byte_ok : byte < 20
  pub place_ok : place < 8
  pub before : take byte x ≡ take byte y
  pub above : shift (suc (7 - place)) (get_or x byte 0) ≡ shift (suc (7 - place)) (get_or y byte 0)
  pub is_clear : bit_value byte place x ≡ 0
  pub is_set : bit_value byte place y ≡ 1

pub bit_clear-bit_value :
    (byte place : ℕ) (id : List ℕ)
    → place < 8
    → IsNodeId id
    → bit_clear (byte * 8 + place) id ≡ (bit_value byte place id == 0)
bit_clear-bit_value byte place id below h =
    let the_byte : (byte * 8 + place) / 8 ≡ byte = omega (arith, below) in
    let the_place : (byte * 8 + place) % 8 ≡ place = omega (arith, below) in
    rw (the_byte, the_place) (mask-shift place (get_or id byte 0) below (get_or-IsByte id byte h.1))

-- The id that has the bit of the target is the nearer.
pub Parted-clear :
    (byte place : ℕ) (x y target : List ℕ)
    → Parted byte place x y
    → IsNodeId x
    → IsNodeId y
    → IsNodeId target
    → bit_value byte place target ≡ 0
    → xor_distance_cmp x y target ≡ lt
Parted-clear byte place x y target h hx hy ht clear =
    xor_distance_cmp-lt byte x y target h.before (omega (arith, h.byte_ok, hx.0))
      (omega (arith, h.byte_ok, hy.0)) (omega (arith, h.byte_ok, ht.0))
      (nearer (7 - place) (get_or x byte 0) (get_or y byte 0) (get_or target byte 0)
        (get_or-IsByte x byte hx.1) (get_or-IsByte y byte hy.1) (get_or-IsByte target byte ht.1)
        h.above (h.is_clear ∙ sym clear) (λ same. omega (arith, h.is_set, clear, same)))

pub Parted-set :
    (byte place : ℕ) (x y target : List ℕ)
    → Parted byte place x y
    → IsNodeId x
    → IsNodeId y
    → IsNodeId target
    → bit_value byte place target ≡ 1
    → xor_distance_cmp y x target ≡ lt
Parted-set byte place x y target h hx hy ht set =
    xor_distance_cmp-lt byte y x target (sym h.before) (omega (arith, h.byte_ok, hy.0))
      (omega (arith, h.byte_ok, hx.0)) (omega (arith, h.byte_ok, ht.0))
      (nearer (7 - place) (get_or y byte 0) (get_or x byte 0) (get_or target byte 0)
        (get_or-IsByte y byte hy.1) (get_or-IsByte x byte hx.1) (get_or-IsByte target byte ht.1)
        (sym h.above) (h.is_set ∙ sym set) (λ same. omega (arith, h.is_clear, set, same)))

-- A bit is 0 or 1.
pub not_clear : (n : ℕ) → (n % 2 == 0) ≡ false → n % 2 ≡ 1
not_clear n h = ground (arith, h)
