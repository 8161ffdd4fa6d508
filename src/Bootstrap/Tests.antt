-- ===== src/Bootstrap/Tests.antt =====
-- The bootstrap sources of src/bootstrap.rs at concrete candidates.
use dht_crawler.Base.{ℕ, List, ◌≡◌, refl, [], ◌∷◌, none, some, arith, ℕ_discrete}
use dht_crawler.Base.Assoc.{get, remove, elem}
use dht_crawler.Net.{v4, SocketAddr, addr_discrete, ip_discrete}
use dht_crawler.CrawlConfig.{ResolvedCrawlConfig, from_options}
use dht_crawler.Options.{default_crawl_options}
use dht_crawler.Bootstrap.{
  BootstrapSourcePool, new_gate, select, state_of, new_pool, mark_attempt, mark_timeout,
  mark_success,
}
use dht_crawler.Bootstrap.Select.{choice, eligible, first_to_end, select-choice}
use dht_crawler.Bootstrap.Backoff.{rounds, Spaced, rounds-Spaced}
use dht_crawler.Bootstrap.History.{
  attempt, success, timeout, selection, Call, run, answer, streak, delay, backed_off, HasHistory,
  run-HasHistory,
}

abbrev source : ℕ → SocketAddr
source n = record { ip = v4 8 8 8 n; port = 6881 }

abbrev pool : BootstrapSourcePool
pool = record { hosts = []; states = []; backoff_base = 300; backoff_max = 3600 }

-- A source that has timed out twice is passed over.
abbrev tired : BootstrapSourcePool
tired = run (timeout (source 1) 20 ∷ timeout (source 1) 0 ∷ []) pool

passes_over :
    (select (source 1 ∷ source 2 ∷ source 2 ∷ source 3 ∷ []) 2 100 tired).1
    ≡ source 2 ∷ source 3 ∷ []
unfolding select run answer mark_timeout mark_success get remove elem addr_discrete ip_discrete
    ℕ_discrete
passes_over = refl

falls_back : (select (source 1 ∷ []) 2 100 tired).1 ≡ source 1 ∷ []
unfolding select run answer mark_timeout mark_success get remove elem addr_discrete ip_discrete
    ℕ_discrete
falls_back = refl

select-choice_example :
    (select (source 1 ∷ source 2 ∷ []) 2 100 tired).1
    ≡ choice
        (eligible tired.states 100 [] (source 1 ∷ source 2 ∷ []))
        (first_to_end tired.states 100 [] none (source 1 ∷ source 2 ∷ []))
        2
select-choice_example = select-choice (source 1 ∷ source 2 ∷ []) 2 100 tired

-- The latest call first: an answer at 40 ends the first streak, and timeouts at 100, 400 and 1000
-- make another, between calls about a second source and a selection.
abbrev history : List Call
history =
    timeout (source 1) 1000
    ∷ selection (source 1 ∷ source 2 ∷ []) 2 900
    ∷ timeout (source 1) 400
    ∷ timeout (source 2) 300
    ∷ attempt (source 1) 200
    ∷ timeout (source 1) 100
    ∷ success (source 1) 40
    ∷ timeout (source 1) 10
    ∷ []

third_delay : backed_off 300 3600 (source 1) history ≡ some 2200
unfolding backed_off streak delay addr_discrete ip_discrete ℕ_discrete
third_delay = refl

after_history : (state_of (source 1) (run history pool).states).backoff_until ≡ some 2200
unfolding run answer select mark_attempt mark_timeout mark_success get remove elem addr_discrete
    ip_discrete ℕ_discrete
after_history = refl

run-HasHistory_example : HasHistory 300 3600 (source 1) history (run history (new_pool [] 300 3600))
run-HasHistory_example = run-HasHistory [] 300 3600 history (source 1)

abbrev config : ResolvedCrawlConfig
config = record (from_options default_crawl_options) {
  bootstrap_max_nodes_per_round = 3;
  low_watermark = 10;
  bootstrap_interval = 300;
}

rounds-Spaced_example :
    Spaced config none (rounds config new_gate ((0, 5) ∷ (0, 200) ∷ (12, 310) ∷ (4, 400) ∷ []))
unfolding new_gate from_options
rounds-Spaced_example =
    rounds-Spaced config ((0, 5) ∷ (0, 200) ∷ (12, 310) ∷ (4, 400) ∷ []) new_gate (omega arith)
