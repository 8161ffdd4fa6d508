-- ===== src/Bootstrap/States.antt =====
-- src/bootstrap.rs: the states of the sources after a write of one, and after a selection.
use dht_crawler.Base.{
  ℕ, ◌≡◌, ◌≢◌, refl, ap, ◌∙◌, List, [], ◌∷◌, Option, none, some, arith, inl, inr, ite, Bool-cases,
}
use mathlib.Core.Logic.{if_pos, if_neg}
use dht_crawler.Base.Assoc.{insert, get-insert, elem}
use dht_crawler.Net.{SocketAddr, addr_discrete}
use dht_crawler.Bootstrap.{
  BootstrapSourceState, BootstrapSourcePool, Selecting, state_of, select, select_loop, select_step,
  select_candidate, selecting,
}
use dht_crawler.Bootstrap.Select.{state_of-insert}

abbrev pub States : Type 0
States = List (SocketAddr × BootstrapSourceState)

pub state_of-insert_any :
    (other addr : SocketAddr) (state : BootstrapSourceState) (states : States)
    → state_of addr (insert addr_discrete other state states)
      ≡ ite (addr_discrete other addr) state (state_of addr states)
unfolding state_of
state_of-insert_any other addr state states =
    ground (arith, get-insert addr_discrete other addr state states)

select_candidate-states :
    (max_nodes : ℕ) (candidate : SocketAddr) (held : Option ℕ) (s : Selecting)
    → (select_candidate max_nodes candidate held s).states ≡ s.states
unfolding select_candidate
select_candidate-states max_nodes candidate none s = refl
select_candidate-states max_nodes candidate (some until) s = refl

-- A selection adds sources without a history, and changes none.
select_step-state_of :
    (max_nodes now : ℕ) (candidate addr : SocketAddr) (s : Selecting)
    → state_of addr (select_step max_nodes now candidate s).states ≡ state_of addr s.states
unfolding select_step
select_step-state_of max_nodes now candidate addr s =
    elim (Bool-cases (elem addr_discrete candidate s.seen)) [
      | inl old ↦ rw old refl
      | inr new ↦ rw new (
          ap (state_of addr) (select_candidate-states max_nodes candidate _ _)
          ∙ state_of-insert candidate addr s.states)
    ]

select_loop-state_of :
    (max_nodes now : ℕ) (candidates : List SocketAddr) (addr : SocketAddr) (s : Selecting)
    → state_of addr (select_loop max_nodes now candidates s).states ≡ state_of addr s.states
unfolding select_loop
select_loop-state_of max_nodes now [] addr s = refl
select_loop-state_of max_nodes now (candidate ∷ rest) addr s =
    let step = select_step-state_of max_nodes now candidate addr s in
    elim (Bool-cases (select_step max_nodes now candidate s).returned) [
      | inl done ↦ rw done step
      | inr more ↦ rw more (
          select_loop-state_of max_nodes now rest addr (select_step max_nodes now candidate s)
          ∙ step)
    ]

pub select-state_of :
    (candidates : List SocketAddr) (max_nodes now : ℕ) (addr : SocketAddr)
    (pool : BootstrapSourcePool)
    → state_of addr (select candidates max_nodes now pool).0.states ≡ state_of addr pool.states
unfolding select
select-state_of candidates max_nodes now addr pool =
    select_loop-state_of max_nodes now candidates addr (selecting pool.states)

pub here_first : {A : Type 0} (addr : SocketAddr) (x y : A) → ite (addr_discrete addr addr) x y ≡ x
here_first addr x y = if_pos (addr_discrete addr addr) refl x y

pub elsewhere_second :
    {A : Type 0} (other addr : SocketAddr) (x y : A)
    → other ≢ addr
    → ite (addr_discrete other addr) x y ≡ y
elsewhere_second other addr x y h = if_neg (addr_discrete other addr) h x y

pub state_of-insert_self :
    (addr : SocketAddr) (state : BootstrapSourceState) (states : States)
    → state_of addr (insert addr_discrete addr state states) ≡ state
state_of-insert_self addr state states =
    state_of-insert_any addr addr state states ∙ here_first addr state (state_of addr states)

pub state_of-insert_other :
    (other addr : SocketAddr) (state : BootstrapSourceState) (states : States)
    → other ≢ addr
    → state_of addr (insert addr_discrete other state states) ≡ state_of addr states
state_of-insert_other other addr state states h =
    state_of-insert_any other addr state states
    ∙ elsewhere_second other addr state (state_of addr states) h
