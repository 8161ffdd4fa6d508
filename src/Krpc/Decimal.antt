-- ===== src/Krpc/Decimal.antt =====
-- `push_usize` of src/krpc.rs against decimal notation, written and read.
use native.Mathlib.Nat.{pow-suc}
use dht_crawler.Base.{
  ℕ, zero, suc, ◌+◌, ◌-◌, ◌*◌, ◌/◌, ◌%◌, ◌^◌, ◌<◌, ◌≡◌, refl, ap, ◌∙◌, ltb, if◌then◌else◌,
  Bool-cases, inl, inr, List, [], ◌∷◌, ◌++◌, append_assoc, append-nil, arith,
}
use dht_crawler.Krpc.{push_digits, push_usize}

decimal_fuel : ℕ → ℕ → List ℕ
decimal_fuel zero n = []
decimal_fuel (suc f) n =
    let more = decimal_fuel f (n / 10) in
    if ltb n 10 then (b'0' + n) ∷ [] else more ++ ((b'0' + n % 10) ∷ [])

-- Decimal notation, with no leading zero.
unfoldable pub decimal : ℕ → List ℕ
unfolding decimal_fuel
decimal n = decimal_fuel (suc n) n

-- What a reader of decimal notation computes.
pub read_decimal : ℕ → List ℕ → ℕ
read_decimal acc [] = acc
read_decimal acc (d ∷ ds) = read_decimal (acc * 10 + (d - b'0')) ds

read_decimal-snoc :
    (acc d : ℕ) (xs : List ℕ)
    → read_decimal acc (xs ++ d ∷ []) ≡ read_decimal acc xs * 10 + (d - b'0')
unfolding read_decimal
read_decimal-snoc acc d [] = refl
read_decimal-snoc acc d (x ∷ xs) = read_decimal-snoc (acc * 10 + (x - b'0')) d xs

read_decimal_digit : (n : ℕ) → read_decimal 0 ((b'0' + n) ∷ []) ≡ n
unfolding read_decimal
read_decimal_digit n = omega arith

read_decimal-decimal_fuel : (f n : ℕ) → n < f → read_decimal 0 (decimal_fuel f n) ≡ n
unfolding decimal_fuel
read_decimal-decimal_fuel zero n h = elim h [ ]
read_decimal-decimal_fuel (suc f) n h = elim (Bool-cases (ltb n 10)) [
  | inl small ↦ rw small (read_decimal_digit n)
  | inr big ↦
      rw (big, read_decimal-snoc 0 (b'0' + n % 10) (decimal_fuel f (n / 10)))
        (ground (arith, read_decimal-decimal_fuel f (n / 10)))
]

div-ten-lt : (v room : ℕ) → v < 10 ^ suc room → v / 10 < 10 ^ room
div-ten-lt v room h = omega (arith, pow-suc 10 room)

push_digits-decimal_fuel :
    (room f v : ℕ) (ds : List ℕ)
    → v < 10 ^ room
    → v < f
    → 0 < room
    → push_digits room v ds ≡ decimal_fuel f v ++ ds
unfolding push_digits decimal_fuel
push_digits-decimal_fuel zero f v ds h k p = elim p [ ]
push_digits-decimal_fuel (suc room) zero v ds h k p = elim k [ ]
push_digits-decimal_fuel (suc zero) (suc f) v ds h k p = ground arith
push_digits-decimal_fuel (suc (suc room)) (suc f) v ds h k p = elim (Bool-cases (ltb v 10)) [
  | inl small ↦ rw small (ground arith)
  | inr big ↦
      let digit = b'0' + v % 10 in
      let ih =
        push_digits-decimal_fuel (suc room) f (v / 10) (digit ∷ ds) (div-ten-lt v (suc room) h)
          (ground arith) (omega arith) in
      rw (big, append_assoc (decimal_fuel f (v / 10))) (ground (arith, ih))
]

-- The digits of a number below 10^20, and so of every 64-bit number, are its decimal notation.
pub push_usize-decimal : (n : ℕ) → n < 10 ^ 20 → push_usize n ≡ decimal n
unfolding push_usize decimal
push_usize-decimal n h =
    push_digits-decimal_fuel 20 (suc n) n [] h (omega arith) (omega arith) ∙ append-nil _

-- Reading back what `push_usize` writes gives the number, for every number below 10^20.
pub read_decimal-push_usize : (n : ℕ) → n < 10 ^ 20 → read_decimal 0 (push_usize n) ≡ n
unfolding decimal
read_decimal-push_usize n h =
    ap (read_decimal 0) (push_usize-decimal n h) ∙ read_decimal-decimal_fuel (suc n) n (omega arith)
