-- ===== src/Bootstrap/History.antt =====
-- src/bootstrap.rs: the backoff of a source after any calls of BootstrapSourcePool.
use dht_crawler.Base.{
  ℕ, suc, ◌+◌, ◌-◌, ◌*◌, ◌^◌, min, ◌≡◌, ◌≢◌, refl, ap, sym, subst, ◌∙◌, List, [], ◌∷◌, Option, none,
  some, arith, ite,
}
use dht_crawler.Base.Assoc.{get, insert}
use dht_crawler.Net.{SocketAddr, addr_discrete}
use dht_crawler.Bootstrap.{
  BootstrapSourceState, BootstrapSourcePool, state_of, new_pool, select, mark_attempt, mark_success,
  mark_timeout, duration_max, u32_max,
}
use dht_crawler.Bootstrap.States.{
  here_first, elsewhere_second, state_of-insert_self, state_of-insert_other, select-state_of,
}

-- A call of the pool, with its arguments.
pub data Call : Type 0 where
  attempt : SocketAddr → ℕ → Call
  success : SocketAddr → ℕ → Call
  timeout : SocketAddr → ℕ → Call
  selection : List SocketAddr → ℕ → ℕ → Call

unfoldable pub answer : Call → BootstrapSourcePool → BootstrapSourcePool
answer (attempt addr now) pool = mark_attempt addr now pool
answer (success addr now) pool = mark_success addr now pool
answer (timeout addr now) pool = mark_timeout addr now pool
answer (selection candidates max_nodes now) pool = (select candidates max_nodes now pool).0

-- The pool after some calls, the latest of which stands first.
unfoldable pub run : List Call → BootstrapSourcePool → BootstrapSourcePool
unfolding answer
run [] pool = pool
run (call ∷ earlier) pool = answer call (run earlier pool)

-- How often the source has timed out since it last answered.
unfoldable pub streak : SocketAddr → List Call → ℕ
streak addr [] = 0
streak addr (attempt other now ∷ earlier) = streak addr earlier
streak addr (success other now ∷ earlier) = ite (addr_discrete other addr) 0 (streak addr earlier)
streak addr (timeout other now ∷ earlier) =
    ite (addr_discrete other addr) (suc (streak addr earlier)) (streak addr earlier)
streak addr (selection candidates max_nodes now ∷ earlier) = streak addr earlier

-- The base time doubled once for each timeout before, sixteen times at most, cut at the longest
-- `Duration` and at the maximum.
unfoldable pub delay : ℕ → ℕ → ℕ → ℕ
delay base longest before = min (min (base * 2 ^ min before 16) duration_max) longest

-- The end of the backoff that the last timeout of the source began, if it has not answered since.
unfoldable pub backed_off : ℕ → ℕ → SocketAddr → List Call → Option ℕ
unfolding streak delay
backed_off base longest addr [] = none
backed_off base longest addr (attempt other now ∷ earlier) = backed_off base longest addr earlier
backed_off base longest addr (success other now ∷ earlier) =
    ite (addr_discrete other addr) none (backed_off base longest addr earlier)
backed_off base longest addr (timeout other now ∷ earlier) =
    ite (addr_discrete other addr) (some (now + delay base longest (streak addr earlier)))
      (backed_off base longest addr earlier)
backed_off base longest addr (selection candidates max_nodes now ∷ earlier) =
    backed_off base longest addr earlier

run-settings :
    (calls : List Call) (pool : BootstrapSourcePool)
    → ((run calls pool).backoff_base ≡ pool.backoff_base)
      × ((run calls pool).backoff_max ≡ pool.backoff_max)
unfolding run answer mark_attempt mark_success mark_timeout select
run-settings [] pool = (refl, refl)
run-settings (attempt other now ∷ earlier) pool = run-settings earlier pool
run-settings (success other now ∷ earlier) pool = run-settings earlier pool
run-settings (timeout other now ∷ earlier) pool = run-settings earlier pool
run-settings (selection candidates max_nodes now ∷ earlier) pool = run-settings earlier pool

-- After a timeout the count has one more, up to the largest `u32`, and the backoff is the delay.
counted : (n : ℕ) → min (min n u32_max + 1) u32_max ≡ min (suc n) u32_max
counted n = omega arith

none_counted : min 0 u32_max ≡ 0
none_counted = omega arith

exponent : (n : ℕ) → min (min (min n u32_max + 1) u32_max - 1) 16 ≡ min n 16
exponent n = omega arith

abbrev pub HasHistory : ℕ → ℕ → SocketAddr → List Call → BootstrapSourcePool → Type 0
HasHistory base longest addr calls pool =
    ((state_of addr pool.states).fail_count ≡ min (streak addr calls) u32_max)
    × ((state_of addr pool.states).backoff_until ≡ backed_off base longest addr calls)

module _ (base longest now : ℕ) (earlier : List Call) (pool : BootstrapSourcePool) where
  -- A call about another source leaves the history of this one as it was.
  history_other :
      (call : Call) (other addr : SocketAddr) (state : BootstrapSourceState)
      → other ≢ addr
      → streak addr (call ∷ earlier) ≡ streak addr earlier
      → backed_off base longest addr (call ∷ earlier) ≡ backed_off base longest addr earlier
      → HasHistory base longest addr earlier pool
      → HasHistory base longest addr
          (call ∷ earlier)
          (record pool { states = insert addr_discrete other state pool.states })
  history_other call other addr state differ same_count same_end (count, until) =
      let same = state_of-insert_other other addr state pool.states differ in
      (
        ap (λ s. s.fail_count) same ∙ count ∙ ap (λ n. min n u32_max) (sym same_count),
        ap (λ s. s.backoff_until) same ∙ until ∙ sym same_end,
      )

  attempt-HasHistory :
      (other addr : SocketAddr)
      → HasHistory base longest addr earlier pool
      → HasHistory base longest addr (attempt other now ∷ earlier) (mark_attempt other now pool)
  unfolding mark_attempt streak backed_off
  attempt-HasHistory other addr h = elim (addr_discrete other addr) [
    | yes same ↦
        subst
          (λ a.
            HasHistory base longest a earlier pool
            → HasHistory base longest a (attempt other now ∷ earlier) (mark_attempt other now pool))
          same
          (λ h.
            let here = state_of-insert_self other _ pool.states in
            (ap (λ s. s.fail_count) here ∙ h.0, ap (λ s. s.backoff_until) here ∙ h.1))
          h
    | no differ ↦ history_other (attempt other now) other addr _ differ refl refl h
  ]

  success-HasHistory :
      (other addr : SocketAddr)
      → HasHistory base longest addr earlier pool
      → HasHistory base longest addr (success other now ∷ earlier) (mark_success other now pool)
  unfolding mark_success streak backed_off
  success-HasHistory other addr h = elim (addr_discrete other addr) [
    | yes same ↦
        subst
          (λ a.
            HasHistory base longest a (success other now ∷ earlier) (mark_success other now pool))
          same
          (let here = state_of-insert_self other _ pool.states in
            (
              ap (λ s. s.fail_count) here
                  ∙ sym (ap (λ n. min n u32_max) (here_first other _ _) ∙ none_counted),
              ap (λ s. s.backoff_until) here ∙ sym (here_first other _ _),
            ))
    | no differ ↦
        history_other (success other now) other addr _ differ
          (elsewhere_second other addr _ _ differ) (elsewhere_second other addr _ _ differ) h
  ]

  timeout-HasHistory :
      (other addr : SocketAddr)
      → pool.backoff_base ≡ base
      → pool.backoff_max ≡ longest
      → HasHistory base longest addr earlier pool
      → HasHistory base longest addr (timeout other now ∷ earlier) (mark_timeout other now pool)
  unfolding mark_timeout streak backed_off delay
  timeout-HasHistory other addr same_base same_longest h = elim (addr_discrete other addr) [
    | yes same ↦
        subst
          (λ a.
            HasHistory base longest a earlier pool
            → HasHistory base longest a (timeout other now ∷ earlier) (mark_timeout other now pool))
          same
          (λ h.
            let n = streak other earlier in
            let here = state_of-insert_self other _ pool.states in
            (
              ap (λ s. s.fail_count) here
                  ∙ ap (λ c. min (c + 1) u32_max) h.0
                  ∙ counted n
                  ∙ sym (ap (λ n. min n u32_max) (here_first other _ _)),
              ap (λ s. s.backoff_until) here
                  ∙ rw (h.0, same_base, same_longest, exponent n) (sym (here_first other _ _)),
            ))
          h
    | no differ ↦
        history_other (timeout other now) other addr _ differ
          (elsewhere_second other addr _ _ differ) (elsewhere_second other addr _ _ differ) h
  ]

-- After any calls of a new pool, a source backs off until the time that its last timeout set, unless
-- it has answered since: for the base time doubled once for each timeout before that one since its
-- last answer, sixteen times at most, cut at the longest `Duration` and then at the maximum. Its
-- count is that of the timeouts since its last answer, up to the largest `u32`. The other calls,
-- and those about other sources, do not count.
pub run-HasHistory :
    (hosts : List (List ℕ)) (base longest : ℕ) (calls : List Call) (addr : SocketAddr)
    → HasHistory base longest addr calls (run calls (new_pool hosts base longest))
unfolding run answer streak backed_off new_pool state_of get
run-HasHistory hosts base longest [] addr = (refl, refl)
run-HasHistory hosts base longest (attempt other now ∷ earlier) addr =
    attempt-HasHistory base longest now earlier (run earlier (new_pool hosts base longest)) other
      addr (run-HasHistory hosts base longest earlier addr)
run-HasHistory hosts base longest (success other now ∷ earlier) addr =
    success-HasHistory base longest now earlier (run earlier (new_pool hosts base longest)) other
      addr (run-HasHistory hosts base longest earlier addr)
run-HasHistory hosts base longest (timeout other now ∷ earlier) addr =
    let settings = run-settings earlier (new_pool hosts base longest) in
    timeout-HasHistory base longest now earlier (run earlier (new_pool hosts base longest)) other
      addr settings.0 settings.1 (run-HasHistory hosts base longest earlier addr)
run-HasHistory hosts base longest (selection candidates max_nodes now ∷ earlier) addr =
    let before = run earlier (new_pool hosts base longest) in
    let same = select-state_of candidates max_nodes now addr before in
    let (count, until) = run-HasHistory hosts base longest earlier addr in
    (ap (λ s. s.fail_count) same ∙ count, ap (λ s. s.backoff_until) same ∙ until)
