-- ===== src/Budget/Exact.antt =====
-- Whole numbers as the numbers of the token bucket: an instance of `Float`, for the tests. A second
-- is one nanosecond here, so that the tests stay short.
use dht_crawler.Base.{ℕ, ◌+◌, ◌-◌, ◌*◌, ◌/◌, min, max, ltb, leb, true, false, ◌≡◌, refl, arith}
use dht_crawler.Budget.{Float}

pub le_refl : (a : ℕ) → leb a a ≡ true
le_refl a = ground arith

pub le_trans : (a b c : ℕ) → leb a b ≡ true → leb b c ≡ true → leb a c ≡ true
le_trans a b c h k = ground arith

pub le_of_not_lt : (a b : ℕ) → ltb a b ≡ false → leb b a ≡ true
le_of_not_lt a b h = ground arith

pub le_of_lt : (a b : ℕ) → ltb a b ≡ true → leb a b ≡ true
le_of_lt a b h = ground arith

pub nonneg : (n : ℕ) → leb 0 n ≡ true
nonneg n = ground arith

pub sub-le : (a b : ℕ) → leb (a - b) a ≡ true
sub-le a b = ground arith

pub min-le_left : (a b : ℕ) → leb (min a b) a ≡ true
min-le_left a b = ground arith

pub min-le_right : (a b : ℕ) → leb (min a b) b ≡ true
min-le_right a b = ground arith

pub le-min : (a b c : ℕ) → leb c a ≡ true → leb c b ≡ true → leb c (min a b) ≡ true
le-min a b c h k = ground arith

pub le-max_right : (a b : ℕ) → leb b (max a b) ≡ true
le-max_right a b = ground arith

abbrev pub exact : Float
exact = record {
  T = ℕ;
  of_nat = λ n. n;
  secs = λ n. n;
  add = λ a b. a + b;
  sub = λ a b. a - b;
  mul = λ a b. a * b;
  div = λ a b. a / b;
  fmin = min;
  fmax = max;
  floor_usize = λ n. n;
  lt = ltb;
  le = leb;
  le_refl = le_refl;
  le_trans = le_trans;
  le_of_not_lt = le_of_not_lt;
  le_of_lt = le_of_lt;
  of_nat-nonneg = nonneg;
  add-nonneg = λ a b h k. nonneg (a + b);
  mul-nonneg = λ a b h k. nonneg (a * b);
  sub-nonneg = λ a b h. nonneg (a - b);
  sub-le = λ a b h. sub-le a b;
  fmin-le_left = min-le_left;
  fmin-le_right = min-le_right;
  le-fmin = le-min;
  le-fmax_right = le-max_right;
  of_nat-mono = λ m n. refl;
  floor_usize-le = λ a h. le_refl a;
}
