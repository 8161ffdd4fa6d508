-- ===== src/Bootstrap.antt =====
-- src/bootstrap.rs: when to bootstrap, and from which sources. Times and durations are nanoseconds.
-- `resolve_bootstrap_nodes`, which asks the resolver of the host, is left out.
pub mod Select
pub mod Backoff
pub mod States
pub mod History
pub mod Tests
use dht_crawler.Base.{
  ℕ, ◌+◌, ◌-◌, ◌*◌, ◌^◌, min, Bool, true, false, ◌&&◌, ◌==◌, ltb, leb, if◌then◌else◌, List, [], ◌∷◌,
  ◌++◌, length, Option, none, some,
}
use dht_crawler.Base.Assoc.{get, insert, elem}
use dht_crawler.Net.{SocketAddr, addr_discrete}
use dht_crawler.CrawlConfig.{ResolvedCrawlConfig}

pub record BootstrapGate : Type 0 where
  pub last_bootstrap : Option ℕ

pub new_gate : BootstrapGate
new_gate = record { last_bootstrap = none }

too_early : Option ℕ → ℕ → ℕ → Bool
too_early none now interval = false
too_early (some last) now interval = ltb (now - last) interval

pub should_bootstrap : ℕ → ResolvedCrawlConfig → ℕ → BootstrapGate → BootstrapGate × Bool
unfolding too_early
should_bootstrap pool_len config now gate =
    if config.bootstrap_max_nodes_per_round == 0
    then (gate, false)
    else if leb config.low_watermark pool_len
    then (gate, false)
    else if too_early gate.last_bootstrap now config.bootstrap_interval
    then (gate, false)
    else (record gate { last_bootstrap = some now }, true)

pub record BootstrapSourceState : Type 0 where
  pub last_attempt : Option ℕ
  pub last_success : Option ℕ
  pub fail_count : ℕ
  pub backoff_until : Option ℕ

abbrev pub default_state : BootstrapSourceState
default_state = record {
  last_attempt = none;
  last_success = none;
  fail_count = 0;
  backoff_until = none;
}

pub record BootstrapSourcePool : Type 0 where
  pub hosts : List (List ℕ)
  pub states : List (SocketAddr × BootstrapSourceState)
  pub backoff_base : ℕ
  pub backoff_max : ℕ

-- `new`; a host name is the list of its bytes.
unfoldable pub new_pool : List (List ℕ) → ℕ → ℕ → BootstrapSourcePool
new_pool hosts backoff_base backoff_max = record {
  hosts = hosts;
  states = [];
  backoff_base = backoff_base;
  backoff_max = backoff_max;
}

abbrev or_default : Option BootstrapSourceState → BootstrapSourceState
or_default none = default_state
or_default (some state) = state

-- The state that `entry(addr).or_default()` yields.
pub state_of : SocketAddr → List (SocketAddr × BootstrapSourceState) → BootstrapSourceState
state_of addr states = or_default (get addr_discrete addr states)

-- The variables of the loop of `select`; `returned` marks the early return.
pub record Selecting : Type 0 where
  pub selected : List SocketAddr
  pub seen : List SocketAddr
  pub earliest_backoff : Option (SocketAddr × ℕ)
  pub states : List (SocketAddr × BootstrapSourceState)
  pub returned : Bool

-- `backoff_until > now`, if there is a backoff
pub backoff_after : Option ℕ → ℕ → Option ℕ
backoff_after none now = none
backoff_after (some until) now = if ltb now until then some until else none

earlier : SocketAddr → ℕ → Option (SocketAddr × ℕ) → Option (SocketAddr × ℕ)
earlier addr until none = some (addr, until)
earlier addr until (some (other, current)) =
    if ltb until current then some (addr, until) else some (other, current)

select_candidate : ℕ → SocketAddr → Option ℕ → Selecting → Selecting
unfolding earlier
select_candidate max_nodes addr (some until) s = record s {
  earliest_backoff = earlier addr until s.earliest_backoff;
}
select_candidate max_nodes addr none s =
    let selected = s.selected ++ (addr ∷ []) in
    record s { selected = selected; returned = leb max_nodes (length selected) }

select_step : ℕ → ℕ → SocketAddr → Selecting → Selecting
unfolding select_candidate state_of backoff_after
select_step max_nodes now addr s =
    let state = state_of addr s.states in
    let s' = record s { seen = addr ∷ s.seen; states = insert addr_discrete addr state s.states } in
    if elem addr_discrete addr s.seen
    then s
    else select_candidate max_nodes addr (backoff_after state.backoff_until now) s'

select_loop : ℕ → ℕ → List SocketAddr → Selecting → Selecting
unfolding select_step
select_loop max_nodes now [] s = s
select_loop max_nodes now (addr ∷ rest) s =
    let s' = select_step max_nodes now addr s in
    let later = select_loop max_nodes now rest s' in if s'.returned then s' else later

-- What follows the loop.
fall_back : ℕ → List SocketAddr → Option (SocketAddr × ℕ) → List SocketAddr
fall_back max_nodes (addr ∷ selected) earliest = addr ∷ selected
fall_back max_nodes [] none = []
fall_back max_nodes [] (some (addr, until)) = if ltb 0 max_nodes then addr ∷ [] else []

abbrev selecting : List (SocketAddr × BootstrapSourceState) → Selecting
selecting states = record {
  selected = [];
  seen = [];
  earliest_backoff = none;
  states = states;
  returned = false;
}

pub select : List SocketAddr → ℕ → ℕ → BootstrapSourcePool → BootstrapSourcePool × List SocketAddr
unfolding select_loop fall_back
select candidates max_nodes now pool =
    let s = select_loop max_nodes now candidates (selecting pool.states) in
    (
      record pool { states = s.states },
      if s.returned then s.selected else fall_back max_nodes s.selected s.earliest_backoff,
    )

pub mark_attempt : SocketAddr → ℕ → BootstrapSourcePool → BootstrapSourcePool
unfolding state_of
mark_attempt addr now pool =
    let state = state_of addr pool.states in
    let state' = record state { last_attempt = some now } in
    record pool { states = insert addr_discrete addr state' pool.states }

pub mark_success : SocketAddr → ℕ → BootstrapSourcePool → BootstrapSourcePool
unfolding state_of
mark_success addr now pool =
    let state = state_of addr pool.states in
    let state' = record state { last_success = some now; fail_count = 0; backoff_until = none } in
    record pool { states = insert addr_discrete addr state' pool.states }

-- `Duration::MAX` in nanoseconds, and the largest `u32`.
abbrev pub duration_max : ℕ
duration_max = (2 ^ 64 - 1) * 1000000000 + 999999999

abbrev pub u32_max : ℕ
u32_max = 2 ^ 32 - 1

pub mark_timeout : SocketAddr → ℕ → BootstrapSourcePool → BootstrapSourcePool
unfolding state_of
mark_timeout addr now pool =
    let state = state_of addr pool.states in
    let fail_count = min (state.fail_count + 1) u32_max in
    let multiplier = 2 ^ min (fail_count - 1) 16 in
    let backoff = min (min (pool.backoff_base * multiplier) duration_max) pool.backoff_max in
    let state' = record state { fail_count = fail_count; backoff_until = some (now + backoff) } in
    record pool { states = insert addr_discrete addr state' pool.states }
