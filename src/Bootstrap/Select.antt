-- ===== src/Bootstrap/Select.antt =====
-- `BootstrapSourcePool::select` of src/bootstrap.rs against its meaning: the first sources that are
-- not backing off, or the one whose backoff ends first if all are.
use dht_crawler.Base.{
  ℕ, zero, suc, ◌≤◌, ◌<◌, max, true, false, ◌||◌, ltb, leb, if◌then◌else◌, ◌≡◌, refl, ap, ◌∙◌, sym,
  subst, ◌≢◌, ◌⊎◌, inl, inr, List, [], ◌∷◌, ◌++◌, append_assoc, append-nil, length, length-append,
  take, take-append, Option, none, some, is_some, arith, Bool-cases, Option-cases,
}
use mathlib.Core.Logic.{if_pos, if_neg}
use dht_crawler.Base.Assoc.{insert, elem, get-insert}
use dht_crawler.Net.{SocketAddr, addr_discrete}
use dht_crawler.Bootstrap.{
  BootstrapSourceState, BootstrapSourcePool, Selecting, state_of, backoff_after, earlier,
  select_candidate, select_step, select_loop, fall_back, selecting, select,
}

abbrev States : Type 0
States = List (SocketAddr × BootstrapSourceState)

-- The end of the backoff that holds a source back now.
pub blocked : States → ℕ → SocketAddr → Option ℕ
blocked states now addr = backoff_after (state_of addr states).backoff_until now

-- The distinct candidates that are not held back, in their order.
pub eligible : States → ℕ → List SocketAddr → List SocketAddr → List SocketAddr
eligible states now seen [] = []
eligible states now seen (addr ∷ rest) =
    let old = elem addr_discrete addr seen in
    let later = eligible states now (if old then seen else addr ∷ seen) rest in
    if old || is_some (blocked states now addr) then later else addr ∷ later

-- The earlier end of two; the first comer keeps its place among equals.
sooner : SocketAddr → ℕ → Option (SocketAddr × ℕ) → Option (SocketAddr × ℕ)
sooner addr until none = some (addr, until)
sooner addr until (some (other, current)) =
    if leb current until then some (other, current) else some (addr, until)

sooner-earlier :
    (addr : SocketAddr) (until : ℕ) (best : Option (SocketAddr × ℕ))
    → sooner addr until best ≡ earlier addr until best
unfolding sooner earlier
sooner-earlier addr until none = refl
sooner-earlier addr until (some (other, current)) = elim (Bool-cases (ltb until current)) [
  | inl takes ↦ let passed : leb current until ≡ false = ground arith in rw (takes, passed) refl
  | inr keeps ↦ let stays : leb current until ≡ true = ground arith in rw (keeps, stays) refl
]

wait_for : Option ℕ → SocketAddr → Option (SocketAddr × ℕ) → Option (SocketAddr × ℕ)
wait_for none addr best = best
wait_for (some until) addr best = sooner addr until best

-- The distinct candidate whose backoff ends first.
pub first_to_end :
    States
    → ℕ
    → List SocketAddr
    → Option (SocketAddr × ℕ)
    → List SocketAddr
    → Option (SocketAddr × ℕ)
unfolding wait_for
first_to_end states now seen best [] = best
first_to_end states now seen best (addr ∷ rest) =
    let old = elem addr_discrete addr seen in
    first_to_end states now (if old then seen else addr ∷ seen)
      (if old then best else wait_for (blocked states now addr) addr best) rest

pub state_of-insert :
    (addr other : SocketAddr) (states : States)
    → state_of other (insert addr_discrete addr (state_of addr states) states)
      ≡ state_of other states
unfolding state_of
state_of-insert addr other states = elim (addr_discrete addr other) [
  | yes p ↦ rw (get-insert addr_discrete addr other, if_pos _ p, p)
  | no n ↦ rw (get-insert addr_discrete addr other, if_neg _ n)
]

append-cons-ne-nil :
    (xs : List SocketAddr) (x : SocketAddr) (ys : List SocketAddr) → xs ++ (x ∷ ys) ≢ []
append-cons-ne-nil [] x ys h = cc
append-cons-ne-nil (w ∷ xs) x ys h = cc

take_all : {A : Type 0} (n : ℕ) (xs : List A) → length xs ≤ n → take n xs ≡ xs
take_all zero [] h = refl
take_all zero (x ∷ xs) h = absurd (omega arith)
take_all (suc n) [] h = refl
take_all (suc n) (x ∷ xs) h = ap (◌∷◌ x) (take_all n xs (omega arith))

module _ (max_nodes now : ℕ) (states : States) where
  -- The loop runs over states with the same backoffs as at its start.
  abbrev Agrees : States → Type 0
  Agrees current = (addr : SocketAddr) → state_of addr current ≡ state_of addr states

  -- The loop's result: all that is eligible, or the first of it where the loop returned early.
  abbrev Outcome : Selecting → List SocketAddr → Selecting → Type 0
  Outcome s cs r =
      let total = s.selected ++ eligible states now s.seen cs in
      (r.selected ≡ take (max 1 max_nodes) total)
      × (((r.returned ≡ true) × (total ≢ []))
          ⊎ ((r.returned ≡ false)
              × (r.selected ≡ total)
              × (r.earliest_backoff ≡ first_to_end states now s.seen s.earliest_backoff cs)))

  loop_goes_on :
      (addr : SocketAddr) (rest : List SocketAddr) (s : Selecting)
      → (select_step max_nodes now addr s).returned ≡ false
      → select_loop max_nodes now (addr ∷ rest) s
        ≡ select_loop max_nodes now rest (select_step max_nodes now addr s)
  unfolding select_loop
  loop_goes_on addr rest s h = simp h

  loop_returns :
      (addr : SocketAddr) (rest : List SocketAddr) (s : Selecting)
      → (select_step max_nodes now addr s).returned ≡ true
      → select_loop max_nodes now (addr ∷ rest) s ≡ select_step max_nodes now addr s
  unfolding select_loop
  loop_returns addr rest s h = simp h

  after_held : SocketAddr → ℕ → Selecting → Selecting
  after_held addr until s = record s {
    seen = addr ∷ s.seen;
    earliest_backoff = sooner addr until s.earliest_backoff;
    states = insert addr_discrete addr (state_of addr s.states) s.states;
  }

  after_free : SocketAddr → Selecting → Selecting
  after_free addr s = record s {
    selected = s.selected ++ (addr ∷ []);
    seen = addr ∷ s.seen;
    states = insert addr_discrete addr (state_of addr s.states) s.states;
    returned = leb max_nodes (length (s.selected ++ (addr ∷ [])));
  }

  module _ (addr : SocketAddr) (s : Selecting) where
    step_old : elem addr_discrete addr s.seen ≡ true → select_step max_nodes now addr s ≡ s
    unfolding select_step
    step_old h = simp h

    module _ (new : elem addr_discrete addr s.seen ≡ false) (agrees : Agrees s.states) where
      step_held :
          (until : ℕ)
          → blocked states now addr ≡ some until
          → select_step max_nodes now addr s ≡ after_held addr until s
      unfolding select_step select_candidate blocked after_held
      step_held until h = simp (new, agrees addr, h, sooner-earlier addr until s.earliest_backoff)

      step_free :
          blocked states now addr ≡ none → select_step max_nodes now addr s ≡ after_free addr s
      unfolding select_step select_candidate blocked after_free
      step_free h = simp (new, agrees addr, h)

  Agrees-insert :
      (addr : SocketAddr) (current : States)
      → Agrees current
      → Agrees (insert addr_discrete addr (state_of addr current) current)
  Agrees-insert addr current h other = state_of-insert addr other current ∙ h other

  -- The sources taken so far and the one in hand fill the round.
  full_round :
      (xs later : List SocketAddr) (addr : SocketAddr)
      → length xs < max 1 max_nodes
      → leb max_nodes (length (xs ++ (addr ∷ []))) ≡ true
      → xs ++ (addr ∷ []) ≡ take (max 1 max_nodes) (xs ++ (addr ∷ later))
  full_round xs later addr room full =
      let size = length-append xs (addr ∷ []) in
      sym (
        ap (take (max 1 max_nodes)) (sym (append_assoc xs (addr ∷ []) later))
        ∙ take-append (max 1 max_nodes) (xs ++ (addr ∷ [])) later (ground (arith, size)))

  more_room :
      (xs : List SocketAddr) (addr : SocketAddr)
      → length xs < max 1 max_nodes
      → leb max_nodes (length (xs ++ (addr ∷ []))) ≡ false
      → length (xs ++ (addr ∷ [])) < max 1 max_nodes
  more_room xs addr room more = ground (arith, length-append xs (addr ∷ []))

  module _ (addr : SocketAddr) (rest : List SocketAddr) (s s' : Selecting)
      (step : select_step max_nodes now addr s ≡ s') where
    by_going_on :
        s'.returned ≡ false
        → Outcome s (addr ∷ rest) (select_loop max_nodes now rest s')
        → Outcome s (addr ∷ rest) (select_loop max_nodes now (addr ∷ rest) s)
    by_going_on running = subst (Outcome s (addr ∷ rest)) (
        sym (
          loop_goes_on addr rest s (ap (λ r. r.returned) step ∙ running)
          ∙ ap (select_loop max_nodes now rest) step))

    by_returning :
        s'.returned ≡ true
        → Outcome s (addr ∷ rest) s'
        → Outcome s (addr ∷ rest) (select_loop max_nodes now (addr ∷ rest) s)
    by_returning returned =
        subst (Outcome s (addr ∷ rest))
          (sym (loop_returns addr rest s (ap (λ r. r.returned) step ∙ returned) ∙ step))

  select_loop-Outcome :
      (cs : List SocketAddr) (s : Selecting)
      → Agrees s.states
      → s.returned ≡ false
      → length s.selected < max 1 max_nodes
      → Outcome s cs (select_loop max_nodes now cs s)
  unfolding eligible first_to_end after_held after_free
  select_loop-Outcome [] s agrees running room =
      unfold select_loop in
      rw (append-nil s.selected)
        (sym (take_all (max 1 max_nodes) s.selected (omega arith)), inr (running, refl, refl))
  select_loop-Outcome (addr ∷ rest) s agrees running room =
      elim (Bool-cases (elem addr_discrete addr s.seen)) [
        | inl old ↦
            by_going_on addr rest s s (step_old addr s old) running
              (simp old (select_loop-Outcome rest s agrees running room))
        | inr new ↦ elim (Option-cases (blocked states now addr)) [
          | inr (until, held) ↦
              by_going_on addr rest s (after_held addr until s)
                (step_held addr s new agrees until held) running
                (simp (new, held)
                  (select_loop-Outcome rest (after_held addr until s)
                    (Agrees-insert addr s.states agrees) running room))
          | inl free ↦
              let step = step_free addr s new agrees free in
              let later = eligible states now (addr ∷ s.seen) rest in
              elim (Bool-cases (leb max_nodes (length (s.selected ++ (addr ∷ []))))) [
                | inl full ↦ by_returning addr rest s (after_free addr s) step full (
                    simp (new, free)
                      (
                        full_round s.selected later addr room full,
                        inl (full, append-cons-ne-nil s.selected addr later),
                      ))
                | inr more ↦ by_going_on addr rest s (after_free addr s) step more (
                    simp (new, free)
                      (rw (append_assoc s.selected (addr ∷ []) later) at (
                        select_loop-Outcome rest (after_free addr s)
                          (Agrees-insert addr s.states agrees) more
                          (more_room s.selected addr room more))))
              ]
        ]
      ]

-- The choice that `select` stands for: the first `max_nodes` candidates that are not backing off, at
-- least one; if there is none, and a node was asked for, the one whose backoff ends first.
pub choice : List SocketAddr → Option (SocketAddr × ℕ) → ℕ → List SocketAddr
choice (addr ∷ rest) earliest max_nodes = take (max 1 max_nodes) (addr ∷ rest)
choice [] none max_nodes = []
choice [] (some (addr, until)) max_nodes = if ltb 0 max_nodes then addr ∷ [] else []

fall_back-choice :
    (max_nodes : ℕ) (total : List SocketAddr) (earliest : Option (SocketAddr × ℕ))
    → total ≡ take (max 1 max_nodes) total
    → fall_back max_nodes total earliest ≡ choice total earliest max_nodes
unfolding fall_back choice
fall_back-choice max_nodes [] none h = refl
fall_back-choice max_nodes [] (some (addr, until)) h = refl
fall_back-choice max_nodes (addr ∷ rest) earliest h = h

choice-cons :
    (total : List SocketAddr) (earliest : Option (SocketAddr × ℕ)) (max_nodes : ℕ)
    → total ≢ []
    → choice total earliest max_nodes ≡ take (max 1 max_nodes) total
unfolding choice
choice-cons [] earliest max_nodes h = absurd (h refl)
choice-cons (addr ∷ rest) earliest max_nodes h = refl

-- `select` gives the distinct candidates that are not backing off now, in their order, the first
-- `max_nodes` of them and one at least; if all are backing off and `max_nodes` is positive, it gives
-- the one whose backoff ends first, and of equals the first.
pub select-choice :
    (candidates : List SocketAddr) (max_nodes now : ℕ) (pool : BootstrapSourcePool)
    → (select candidates max_nodes now pool).1
      ≡ choice
          (eligible pool.states now [] candidates)
          (first_to_end pool.states now [] none candidates)
          max_nodes
unfolding select
select-choice candidates max_nodes now pool =
    let start = selecting pool.states in
    let (chosen, ending) =
      select_loop-Outcome max_nodes now pool.states candidates start (λ addr. refl) refl
        (omega arith) in
    elim ending [
      | inl (returned, nonempty) ↦ rw (returned, chosen) (sym (choice-cons _ _ max_nodes nonempty))
      | inr (finished, all, earliest) ↦
          rw (finished, all, earliest) (fall_back-choice max_nodes _ _ (sym all ∙ chosen))
    ]
