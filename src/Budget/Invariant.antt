-- ===== src/Budget/Invariant.antt =====
-- src/budget.rs: the tokens stay between zero and the capacity, which no call changes.
use dht_crawler.Base.{
  ℕ, ◌-◌, min, Bool, true, false, ◌||◌, ◌==◌, if◌then◌else◌, ◌≡◌, refl, ◌∙◌, List, [], ◌∷◌, arith,
  Bool-cases, inl, inr,
}
use dht_crawler.Budget
use dht_crawler.Budget.{
  Float, RateBucket, Call, sets_rate, takes_exact, takes, refunds, new, refill, set_per_second_rate,
  try_take_exact, try_take, refund, step, run,
}

module _ (F : Float) where
  open F use {T, of_nat, add, sub, mul, fmin, fmax, floor_usize, le, lt}

  abbrev pub Le : T → T → Type 0
  Le a b = le a b ≡ true

  pub record Inv (b : RateBucket F) : Type 0 where
    pub rate_ok : Le (of_nat 0) b.rate_per_sec
    pub capacity_ok : Le (of_nat 0) b.capacity
    pub tokens_ok : Le (of_nat 0) b.tokens
    pub bounded : Le b.tokens b.capacity

  fmin-nonneg : (a b : T) → Le (of_nat 0) a → Le (of_nat 0) b → Le (of_nat 0) (fmin a b)
  fmin-nonneg a b h k = F.le-fmin a b (of_nat 0) h k

  pub refill-Inv : (now : ℕ) (b : RateBucket F) → Inv b → Inv (refill F now b)
  unfolding refill
  refill-Inv now b v =
      let elapsed = F.secs (now - b.last_refill) in
      elim (Bool-cases (lt (of_nat 0) elapsed)) [
        | inl later ↦ rw later (record {
          rate_ok = v.rate_ok;
          capacity_ok = v.capacity_ok;
          tokens_ok =
              fmin-nonneg _ _
                (F.add-nonneg _ _ v.tokens_ok (F.mul-nonneg _ _ (F.le_of_lt _ _ later) v.rate_ok))
                v.capacity_ok;
          bounded = F.fmin-le_right _ _;
        })
        | inr same ↦ rw same v
      ]

  pub refund-Inv : (count : ℕ) (b : RateBucket F) → Inv b → Inv (refund F count b)
  unfolding refund
  refund-Inv count b v = record {
    rate_ok = v.rate_ok;
    capacity_ok = v.capacity_ok;
    tokens_ok =
        fmin-nonneg _ _ (F.add-nonneg _ _ v.tokens_ok (F.of_nat-nonneg count)) v.capacity_ok;
    bounded = F.fmin-le_right _ _;
  }

  -- Tokens are spent only as far as they are there.
  spend-Inv :
      (amount : T) (b : RateBucket F)
      → Inv b
      → Le (of_nat 0) amount
      → Le amount b.tokens
      → Inv (record b { tokens = sub b.tokens amount })
  spend-Inv amount b v h k = record {
    rate_ok = v.rate_ok;
    capacity_ok = v.capacity_ok;
    tokens_ok = F.sub-nonneg _ _ k;
    bounded = F.le_trans _ _ _ (F.sub-le _ _ h) v.bounded;
  }

  pub set_per_second_rate-Inv :
      (rate now : ℕ) (b : RateBucket F) → Inv b → Inv (set_per_second_rate F rate now b)
  unfolding set_per_second_rate
  set_per_second_rate-Inv rate now b v =
      let b' = refill F now b in
      let v' = refill-Inv now b v in
      elim (Bool-cases (le (of_nat rate) (of_nat 0))) [
        | inl stopped ↦ rw stopped (record {
          rate_ok = F.of_nat-nonneg rate;
          capacity_ok = v'.capacity_ok;
          tokens_ok = F.of_nat-nonneg 0;
          bounded = v'.capacity_ok;
        })
        | inr running ↦ rw running (record {
          rate_ok = F.of_nat-nonneg rate;
          capacity_ok = v'.capacity_ok;
          tokens_ok = fmin-nonneg _ _ v'.tokens_ok v'.capacity_ok;
          bounded = F.fmin-le_right _ _;
        })
      ]

  pub try_take_exact-Inv :
      (count now : ℕ) (b : RateBucket F) → Inv b → Inv (try_take_exact F count now b).0
  unfolding try_take_exact
  try_take_exact-Inv count now b v = elim (Bool-cases (count == 0)) [
    | inl nothing ↦ rw nothing v
    | inr some_count ↦ elim (Bool-cases (Budget.disabled F b)) [
      | inl off ↦ rw (some_count, off) v
      | inr on ↦ elim (Bool-cases (lt (refill F now b).tokens (of_nat count))) [
        | inl short ↦ rw (some_count, on, short) (refill-Inv now b v)
        | inr enough ↦
            rw (some_count, on, enough)
              (spend-Inv (of_nat count) (refill F now b) (refill-Inv now b v)
                (F.of_nat-nonneg count) (F.le_of_not_lt _ _ enough))
      ]
    ]
  ]

  -- What a take grants is there: at most the tokens, and so at most the capacity.
  pub floor-le :
      (b : RateBucket F) (limit : ℕ)
      → Inv b
      → Le (of_nat (min (floor_usize b.tokens) limit)) b.tokens
  floor-le b limit v =
      rw (F.of_nat-mono (floor_usize b.tokens) limit)
        (F.le_trans _ _ _ (F.fmin-le_left _ _) (F.floor_usize-le _ v.tokens_ok))

  pub try_take-Inv : (limit now : ℕ) (b : RateBucket F) → Inv b → Inv (try_take F limit now b).0
  unfolding try_take
  try_take-Inv limit now b v = elim (Bool-cases (limit == 0 || Budget.disabled F b)) [
    | inl off ↦ rw off v
    | inr on ↦ rw on (
        spend-Inv _ (refill F now b) (refill-Inv now b v) (F.of_nat-nonneg _)
          (floor-le (refill F now b) limit (refill-Inv now b v)))
  ]

  step-Inv : (b : RateBucket F) (c : Call F) → Inv b → Inv (step F b c)
  unfolding step
  step-Inv b (sets_rate rate now) v = set_per_second_rate-Inv rate now b v
  step-Inv b (takes_exact count now) v = try_take_exact-Inv count now b v
  step-Inv b (takes limit now) v = try_take-Inv limit now b v
  step-Inv b (refunds count) v = refund-Inv count b v

  run-Inv : (b : RateBucket F) (cs : List (Call F)) → Inv b → Inv (run F b cs)
  unfolding run
  run-Inv b [] v = v
  run-Inv b (c ∷ cs) v = run-Inv (step F b c) cs (step-Inv b c v)

  filled-Inv :
      (rate capacity : T) (full : Bool) (now : ℕ)
      → Le (of_nat 0) rate
      → Le (of_nat 0) capacity
      → Inv (record {
        rate_per_sec = rate;
        capacity = capacity;
        tokens = if full then capacity else of_nat 0;
        last_refill = now;
      })
  filled-Inv rate capacity true now h k = record {
    rate_ok = h;
    capacity_ok = k;
    tokens_ok = k;
    bounded = F.le_refl capacity;
  }
  filled-Inv rate capacity false now h k = record {
    rate_ok = h;
    capacity_ok = k;
    tokens_ok = F.of_nat-nonneg 0;
    bounded = k;
  }

  pub new-Inv :
      (rate capacity : T) (full : Bool) (now : ℕ)
      → Le (of_nat 0) rate
      → Inv (new F rate capacity full now)
  unfolding new
  new-Inv rate capacity full now h = elim (Bool-cases (le rate (of_nat 0))) [
    | inl off ↦ rw off (filled-Inv rate (of_nat 0) full now h (F.of_nat-nonneg 0))
    | inr on ↦ rw on (
        filled-Inv rate (fmax capacity (of_nat 1)) full now h
          (F.le_trans _ _ _ (F.of_nat-nonneg 1) (F.le-fmax_right capacity (of_nat 1))))
  ]

  pub refill-capacity : (now : ℕ) (b : RateBucket F) → (refill F now b).capacity ≡ b.capacity
  unfolding refill
  refill-capacity now b = ground arith

  step-capacity : (b : RateBucket F) (c : Call F) → (step F b c).capacity ≡ b.capacity
  unfolding step set_per_second_rate try_take_exact try_take refund
  step-capacity b (sets_rate rate now) = refill-capacity now b
  step-capacity b (takes_exact count now) = ground (arith, refill-capacity now b)
  step-capacity b (takes limit now) = ground (arith, refill-capacity now b)
  step-capacity b (refunds count) = refl

  run-capacity : (b : RateBucket F) (cs : List (Call F)) → (run F b cs).capacity ≡ b.capacity
  unfolding run
  run-capacity b [] = refl
  run-capacity b (c ∷ cs) = run-capacity (step F b c) cs ∙ step-capacity b c

  -- After any calls on a new bucket whose rate is not negative, the tokens lie between zero and
  -- the capacity that the bucket was made with.
  pub run-new-bounded :
      (rate capacity : T) (full : Bool) (now : ℕ) (cs : List (Call F))
      → Le (of_nat 0) rate
      → Inv (run F (new F rate capacity full now) cs)
        × ((run F (new F rate capacity full now) cs).capacity
            ≡ (new F rate capacity full now).capacity)
  run-new-bounded rate capacity full now cs h =
      (run-Inv _ cs (new-Inv rate capacity full now h), run-capacity _ cs)
