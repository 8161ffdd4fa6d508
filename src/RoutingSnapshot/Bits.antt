-- ===== src/RoutingSnapshot/Bits.antt =====
-- src/routing_snapshot.rs: at the first bit in which two octets differ, the smaller has 0 and the
-- larger 1.
use dht_crawler.Base.{
  ℕ, zero, suc, ◌+◌, ◌/◌, ◌%◌, ◌≤◌, ◌-◌, ◌<◌, ◌^◌, ◌==◌, bit_and, bit_xor, Bool, true, false, sym,
  ap, ◌∙◌, ◌≢◌, dec_le, not, ◌&&◌, ◌||◌, ltb, ◌≡◌, refl, arith, all_below, all_below_sound,
}
use dht_crawler.RoutingSnapshot.{leading_zeros}

-- The octet without its last `places` bits.
unfoldable pub shift : ℕ → ℕ → ℕ
shift zero x = x
shift (suc places) x = shift places (x / 2)

pub shift-le : (places x y : ℕ) → x ≤ y → shift places x ≤ shift places y
unfolding shift
shift-le zero x y h = h
shift-le (suc places) x y h = shift-le places (x / 2) (y / 2) (omega arith)

pub shift-suc : (places x : ℕ) → shift (suc places) x ≡ shift places x / 2
unfolding shift
shift-suc zero x = refl
shift-suc (suc places) x = shift-suc places (x / 2)

abbrev pub parts_at : ℕ → ℕ → ℕ → Bool
parts_at place x y =
    ltb place 8
    && (bit_and x (2 ^ (7 - place)) == 0)
    && not (bit_and y (2 ^ (7 - place)) == 0)
    && (shift (suc (7 - place)) x == shift (suc (7 - place)) y)

abbrev pub parts : ℕ → ℕ → Bool
parts x y = parts_at (leading_zeros (bit_xor x y)) x y

abbrev parts_row : ℕ → Bool
parts_row x = all_below 256 (λ y. not (ltb x y) || parts x y)

parts_table : all_below 256 parts_row ≡ true
unfolding all_below leading_zeros shift
parts_table = refl

pub parts_lem : (x y : ℕ) → x < 256 → y < 256 → x < y → parts x y ≡ true
parts_lem x y hx hy lt = ground (
  arith,
  all_below_sound 256 (λ y. not (ltb x y) || parts x y) y
      (all_below_sound 256 parts_row x parts_table hx) hy,
)

abbrev iff_bool : Bool → Bool → Bool
iff_bool true b = b
iff_bool false b = not b

iff_bool-eq : (a b : Bool) → iff_bool a b ≡ true → a ≡ b
iff_bool-eq true b h = sym h
iff_bool-eq false false h = refl
iff_bool-eq false true h = absurd cc

-- A bit of an octet, by a mask and by a shift.
abbrev same_bit : ℕ → ℕ → Bool
same_bit place x = iff_bool (bit_and x (2 ^ (7 - place)) == 0) (shift (7 - place) x % 2 == 0)

same_bits : all_below 8 (λ place. all_below 256 (same_bit place)) ≡ true
unfolding all_below shift
same_bits = refl

pub mask-shift :
    (place x : ℕ)
    → place < 8
    → x < 256
    → (bit_and x (2 ^ (7 - place)) == 0) ≡ (shift (7 - place) x % 2 == 0)
mask-shift place x hp hx = iff_bool-eq _ _ (
    all_below_sound 256 (same_bit place) x
      (all_below_sound 8 (λ place. all_below 256 (same_bit place)) place same_bits hp) hx)

-- The law of `bit_xor` for the last digit of octets.
abbrev xor_law : ℕ → ℕ → Bool
xor_law x y =
    (bit_xor x y / 2 == bit_xor (x / 2) (y / 2)) && (bit_xor x y % 2 == (x % 2 + y % 2) % 2)

abbrev xor_row : ℕ → Bool
xor_row x = all_below 256 (xor_law x)

xor_table : all_below 256 xor_row ≡ true
unfolding all_below
xor_table = refl

xor_law_lem : (x y : ℕ) → x < 256 → y < 256 → xor_law x y ≡ true
xor_law_lem x y hx hy =
    all_below_sound 256 (xor_law x) y (all_below_sound 256 xor_row x xor_table hx) hy

pub xor-half : (x y : ℕ) → x < 256 → y < 256 → bit_xor x y / 2 ≡ bit_xor (x / 2) (y / 2)
xor-half x y hx hy = ground (arith, xor_law_lem x y hx hy)

pub xor-last : (x y : ℕ) → x < 256 → y < 256 → bit_xor x y % 2 ≡ (x % 2 + y % 2) % 2
xor-last x y hx hy = ground (arith, xor_law_lem x y hx hy)

shift-bound : (places x : ℕ) → x < 256 → shift places x < 256
unfolding shift
shift-bound zero x h = h
shift-bound (suc places) x h = shift-bound places (x / 2) (omega arith)

shift-xor :
    (places x y : ℕ)
    → x < 256
    → y < 256
    → shift places (bit_xor x y) ≡ bit_xor (shift places x) (shift places y)
unfolding shift
shift-xor zero x y hx hy = refl
shift-xor (suc places) x y hx hy =
    rw (xor-half x y hx hy) (shift-xor places (x / 2) (y / 2) (omega arith) (omega arith))

shift-lt : (places x y : ℕ) → shift places x < shift places y → x < y
shift-lt places x y h = elim (dec_le y x) [
  | yes le ↦ absurd (omega (arith, shift-le places y x le))
  | no above ↦ omega (arith, above)
]

-- Of two octets that agree above a bit, the one with the target's bit is the nearer.
pub nearer :
    (places x y t : ℕ)
    → x < 256
    → y < 256
    → t < 256
    → shift (suc places) x ≡ shift (suc places) y
    → shift places x % 2 ≡ shift places t % 2
    → shift places y % 2 ≢ shift places t % 2
    → bit_xor x t < bit_xor y t
nearer places x y t hx hy ht above same differ =
    let xs = shift-bound places x hx in
    let ys = shift-bound places y hy in
    let ts = shift-bound places t ht in
    let halves : shift places x / 2 ≡ shift places y / 2 =
      sym (shift-suc places x) ∙ above ∙ shift-suc places y in
    let half : bit_xor (shift places x) (shift places t) / 2
        ≡ bit_xor (shift places y) (shift places t) / 2 =
      xor-half _ _ xs ts
      ∙ ap (λ h. bit_xor h (shift places t / 2)) halves
      ∙ sym (xor-half _ _ ys ts) in
    let last_x = xor-last (shift places x) (shift places t) xs ts in
    let last_y = xor-last (shift places y) (shift places t) ys ts in
    shift-lt places (bit_xor x t) (bit_xor y t) (
      rw (shift-xor places x t hx ht, shift-xor places y t hy ht)
        (omega (arith, half, last_x, last_y, same, differ)))
