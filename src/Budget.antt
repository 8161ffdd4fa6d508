-- ===== src/Budget.antt =====
-- src/budget.rs: the token bucket. The double-precision numbers are a parameter, `Float`: the
-- finite numbers that the bucket computes with, and the laws of them that the proofs need. Times
-- are nanoseconds; the difference of two times stops at zero, as `checked_duration_since` does.
pub mod Invariant
pub mod Grants
pub mod Exact
pub mod Tests
use dht_crawler.Base.{
  ℕ, zero, suc, ◌-◌, ◌*◌, ◌==◌, Bool, true, false, ◌||◌, if◌then◌else◌, ◌≡◌, List, [], ◌∷◌, min,
}

-- Double-precision numbers without NaN. Operations may round; the laws hold under rounding.
pub record Float : Type 1 where
  pub T : Type 0
  pub of_nat : ℕ → T
  pub secs : ℕ → T
  pub add : T → T → T
  pub sub : T → T → T
  pub mul : T → T → T
  pub div : T → T → T
  pub fmin : T → T → T
  pub fmax : T → T → T
  -- `x.floor() as usize`
  pub floor_usize : T → ℕ
  pub lt : T → T → Bool
  pub le : T → T → Bool
  pub le_refl : (a : T) → le a a ≡ true
  pub le_trans : (a b c : T) → le a b ≡ true → le b c ≡ true → le a c ≡ true
  pub le_of_not_lt : (a b : T) → lt a b ≡ false → le b a ≡ true
  pub le_of_lt : (a b : T) → lt a b ≡ true → le a b ≡ true
  pub of_nat-nonneg : (n : ℕ) → le (of_nat 0) (of_nat n) ≡ true
  pub add-nonneg :
      (a b : T) → le (of_nat 0) a ≡ true → le (of_nat 0) b ≡ true → le (of_nat 0) (add a b) ≡ true
  pub mul-nonneg :
      (a b : T) → le (of_nat 0) a ≡ true → le (of_nat 0) b ≡ true → le (of_nat 0) (mul a b) ≡ true
  pub sub-nonneg : (a b : T) → le b a ≡ true → le (of_nat 0) (sub a b) ≡ true
  pub sub-le : (a b : T) → le (of_nat 0) b ≡ true → le (sub a b) a ≡ true
  pub fmin-le_left : (a b : T) → le (fmin a b) a ≡ true
  pub fmin-le_right : (a b : T) → le (fmin a b) b ≡ true
  pub le-fmin : (a b c : T) → le c a ≡ true → le c b ≡ true → le c (fmin a b) ≡ true
  pub le-fmax_right : (a b : T) → le b (fmax a b) ≡ true
  pub of_nat-mono : (m n : ℕ) → of_nat (min m n) ≡ fmin (of_nat m) (of_nat n)
  pub floor_usize-le : (a : T) → le (of_nat 0) a ≡ true → le (of_nat (floor_usize a)) a ≡ true

module _ (F : Float) where
  open F use {T, of_nat, secs, add, sub, mul, div, fmin, fmax, floor_usize, lt, le}

  pub record RateBucket : Type 0 where
    pub rate_per_sec : T
    pub capacity : T
    pub tokens : T
    pub last_refill : ℕ

  unfoldable pub new : T → T → Bool → ℕ → RateBucket
  new rate_per_sec capacity initially_full now =
      let capacity' = if le rate_per_sec (of_nat 0) then of_nat 0 else fmax capacity (of_nat 1) in
      record {
        rate_per_sec = rate_per_sec;
        capacity = capacity';
        tokens = if initially_full then capacity' else of_nat 0;
        last_refill = now;
      }

  unfoldable pub per_second : ℕ → ℕ → Bool → ℕ → RateBucket
  unfolding new
  per_second rate_per_sec burst initially_full now =
      new (of_nat rate_per_sec) (of_nat burst) initially_full now

  unfoldable pub per_minute : ℕ → ℕ → Bool → ℕ → RateBucket
  unfolding new
  per_minute rate_per_minute burst initially_full now =
      new (div (of_nat rate_per_minute) (of_nat 60)) (of_nat burst) initially_full now

  unfoldable pub refill : ℕ → RateBucket → RateBucket
  refill now b =
      let elapsed = secs (now - b.last_refill) in
      if lt (of_nat 0) elapsed
      then record b {
        tokens = fmin (add b.tokens (mul elapsed b.rate_per_sec)) b.capacity;
        last_refill = now;
      }
      else b

  unfoldable pub set_per_second_rate : ℕ → ℕ → RateBucket → RateBucket
  unfolding refill
  set_per_second_rate rate_per_sec now b =
      let b' = refill now b in
      let rate = of_nat rate_per_sec in
      record b' {
        rate_per_sec = rate;
        tokens = if le rate (of_nat 0) then of_nat 0 else fmin b'.tokens b'.capacity;
      }

  -- `self.rate_per_sec <= 0.0 || self.capacity <= 0.0`
  unfoldable pub disabled : RateBucket → Bool
  disabled b = le b.rate_per_sec (of_nat 0) || le b.capacity (of_nat 0)

  unfoldable pub try_take_exact : ℕ → ℕ → RateBucket → RateBucket × Bool
  unfolding disabled refill
  try_take_exact count now b =
      let b' = refill now b in
      if count == 0
      then (b, true)
      else if disabled b
      then (b, false)
      else if lt b'.tokens (of_nat count)
      then (b', false)
      else (record b' { tokens = sub b'.tokens (of_nat count) }, true)

  unfoldable pub try_take_one : ℕ → RateBucket → RateBucket × Bool
  unfolding try_take_exact
  try_take_one now b = try_take_exact 1 now b

  unfoldable pub try_take : ℕ → ℕ → RateBucket → RateBucket × ℕ
  unfolding disabled refill
  try_take limit now b =
      let b' = refill now b in
      let taken = min (floor_usize b'.tokens) limit in
      if limit == 0 || disabled b
      then (b, 0)
      else (record b' { tokens = sub b'.tokens (of_nat taken) }, taken)

  unfoldable pub refund : ℕ → RateBucket → RateBucket
  refund count b = record b { tokens = fmin (add b.tokens (of_nat count)) b.capacity }

  unfoldable pub refund_one : RateBucket → RateBucket
  unfolding refund
  refund_one b = refund 1 b

  -- The calls that its owner makes after `new`, each with the time of the call.
  pub data Call : Type 0 where
    sets_rate : ℕ → ℕ → Call
    takes_exact : ℕ → ℕ → Call
    takes : ℕ → ℕ → Call
    refunds : ℕ → Call

  pub step : RateBucket → Call → RateBucket
  step b (sets_rate rate now) = set_per_second_rate rate now b
  step b (takes_exact count now) = (try_take_exact count now b).0
  step b (takes limit now) = (try_take limit now b).0
  step b (refunds count) = refund count b

  pub run : RateBucket → List Call → RateBucket
  run b [] = b
  run b (c ∷ cs) = run (step b c) cs
