-- ===== src/Budget/Grants.antt =====
-- src/budget.rs: what the calls grant.
use dht_crawler.Base.{
  ℕ, ◌+◌, ◌≤◌, Bool, true, false, ◌||◌, ◌==◌, if◌then◌else◌, ◌≡◌, refl, List, [], ◌∷◌, arith,
  Bool-cases, inl, inr, ◌≢◌,
}
use dht_crawler.Budget.{
  Float, RateBucket, Call, sets_rate, takes_exact, takes, refunds, refill, disabled, try_take_exact,
  try_take, refund, step,
}
use dht_crawler.Budget.Invariant.{Inv, Le, refill-Inv, floor-le, refill-capacity}

module _ (F : Float) where
  open F use {T, of_nat, sub, le, lt}

  -- The tokens after the refill, which the capacity bounds.
  refilled :
      (n now : ℕ) (b : RateBucket F)
      → Inv F b
      → Le F (of_nat n) (refill F now b).tokens
      → Le F (of_nat n) b.capacity
  refilled n now b v h =
      rw (← refill-capacity F now b) (F.le_trans _ _ _ h (refill-Inv F now b v).bounded)

  -- A take of up to `limit` tokens grants no more than was asked for, no more than the bucket holds
  -- after its refill, and so no more than its capacity.
  pub try_take-bounded :
      (limit now : ℕ) (b : RateBucket F)
      → Inv F b
      → ((try_take F limit now b).1 ≤ limit)
        × Le F (of_nat (try_take F limit now b).1) (refill F now b).tokens
        × Le F (of_nat (try_take F limit now b).1) b.capacity
  unfolding try_take
  try_take-bounded limit now b v = elim (Bool-cases (limit == 0 || disabled F b)) [
    | inl off ↦
        let none_held = (refill-Inv F now b v).tokens_ok in
        rw off (omega arith, none_held, refilled 0 now b v none_held)
    | inr on ↦
        let held = floor-le F (refill F now b) limit (refill-Inv F now b v) in
        rw on (omega arith, held, refilled _ now b v held)
  ]

  -- A take of exactly `count` tokens, of at least one, succeeds only if the capacity covers it.
  pub try_take_exact-bounded :
      (count now : ℕ) (b : RateBucket F)
      → Inv F b
      → count ≢ 0
      → (try_take_exact F count now b).1 ≡ true
      → Le F (of_nat count) b.capacity
  unfolding try_take_exact
  try_take_exact-bounded count now b v h e =
      elim (Bool-cases (lt (refill F now b).tokens (of_nat count))) [
        | inl short ↦ absurd (ground arith)
        | inr enough ↦ refilled count now b v (F.le_of_not_lt _ _ enough)
      ]

  -- The tokens that a call hands out.
  pub granted : RateBucket F → Call F → ℕ
  granted b (sets_rate rate now) = 0
  granted b (takes_exact count now) = if (try_take_exact F count now b).1 then count else 0
  granted b (takes limit now) = (try_take F limit now b).1
  granted b (refunds count) = 0

  pub total_granted : RateBucket F → List (Call F) → ℕ
  unfolding granted
  total_granted b [] = 0
  total_granted b (c ∷ cs) = granted b c + total_granted (step F b c) cs

  unfoldable pub is_sets_rate : Call F → Bool
  is_sets_rate (sets_rate rate now) = true
  is_sets_rate (takes_exact count now) = false
  is_sets_rate (takes limit now) = false
  is_sets_rate (refunds count) = false

  unfoldable pub any_sets_rate : List (Call F) → Bool
  unfolding is_sets_rate
  any_sets_rate [] = false
  any_sets_rate (c ∷ cs) = is_sets_rate c || any_sets_rate cs

  refill-rate : (now : ℕ) (b : RateBucket F) → (refill F now b).rate_per_sec ≡ b.rate_per_sec
  unfolding refill
  refill-rate now b = ground arith

  step-rate :
      (b : RateBucket F) (c : Call F)
      → is_sets_rate c ≡ false
      → (step F b c).rate_per_sec ≡ b.rate_per_sec
  unfolding step is_sets_rate try_take_exact try_take refund
  step-rate b (sets_rate rate now) h = cc
  step-rate b (takes_exact count now) h = ground (arith, refill-rate now b)
  step-rate b (takes limit now) h = ground (arith, refill-rate now b)
  step-rate b (refunds count) h = refl

  granted_stopped :
      (b : RateBucket F) (c : Call F) → le b.rate_per_sec (of_nat 0) ≡ true → granted b c ≡ 0
  unfolding granted try_take_exact try_take
  granted_stopped b (sets_rate rate now) h = refl
  granted_stopped b (takes_exact count now) h = ground arith
  granted_stopped b (takes limit now) h = ground arith
  granted_stopped b (refunds count) h = refl

  -- While its rate is zero a bucket grants nothing, whatever is taken or refunded, until a call
  -- sets the rate.
  pub total_granted_stopped :
      (b : RateBucket F) (cs : List (Call F))
      → le b.rate_per_sec (of_nat 0) ≡ true
      → any_sets_rate cs ≡ false
      → total_granted b cs ≡ 0
  unfolding total_granted any_sets_rate
  total_granted_stopped b [] h k = refl
  total_granted_stopped b (c ∷ cs) h k = elim (Bool-cases (is_sets_rate c)) [
    | inl sets ↦ absurd (ground arith)
    | inr keeps ↦
        let later =
          total_granted_stopped (step F b c) cs (rw (step-rate b c keeps) h) (ground arith) in
        omega (arith, granted_stopped b c h, later)
  ]
