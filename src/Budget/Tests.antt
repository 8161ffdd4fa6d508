-- ===== src/Budget/Tests.antt =====
-- Runs of the token bucket of src/budget.rs, and its theorems at concrete inputs.
use dht_crawler.Base.{◌≤◌, ◌≡◌, refl, false, List, [], ◌∷◌, arith}
use dht_crawler.Budget.{
  RateBucket, Call, sets_rate, takes_exact, takes, refunds, new, per_second, refill, disabled,
  try_take, try_take_exact, run,
}
use dht_crawler.Budget.Exact.{exact}
use dht_crawler.Budget.Invariant.{Inv, Le, run-new-bounded}
use dht_crawler.Budget.Grants.{
  try_take-bounded, try_take_exact-bounded, total_granted, any_sets_rate, is_sets_rate,
  total_granted_stopped,
}

program : Unit {0}
unfolding new per_second refill disabled try_take try_take_exact
program = tt

-- A bucket of ten tokens that fills by two each second, empty at the start.
abbrev bucket : RateBucket exact
bucket = record { rate_per_sec = 2; capacity = 10; tokens = 0; last_refill = 0 }

bucket_made : per_second exact 2 10 false 0 ≡ bucket
unfolding program
bucket_made = refl

-- After three seconds six tokens are there, and a take of up to four gets four.
takes_four : (try_take exact 4 3 bucket).1 ≡ 4
unfolding program
takes_four = refl

takes_all : (try_take exact 100 60 bucket).1 ≡ 10
unfolding program
takes_all = refl

bucket-Inv : Inv exact bucket
bucket-Inv = record { rate_ok = refl; capacity_ok = refl; tokens_ok = refl; bounded = refl }

abbrev calls : List (Call exact)
calls = takes 4 3 ∷ takes_exact 9 4 ∷ sets_rate 0 5 ∷ refunds 20 ∷ []

run-new-bounded_example :
    Inv exact (run exact (new exact 2 10 false 0) calls)
    × ((run exact (new exact 2 10 false 0) calls).capacity ≡ (new exact 2 10 false 0).capacity)
run-new-bounded_example = run-new-bounded exact 2 10 false 0 calls refl

try_take-bounded_example :
    ((try_take exact 4 3 bucket).1 ≤ 4)
    × Le exact (try_take exact 4 3 bucket).1 (refill exact 3 bucket).tokens
    × Le exact (try_take exact 4 3 bucket).1 10
try_take-bounded_example = try_take-bounded exact 4 3 bucket bucket-Inv

try_take_exact-bounded_example : Le exact 6 10
unfolding program
try_take_exact-bounded_example =
    try_take_exact-bounded exact 6 3 bucket bucket-Inv (omega arith) refl

total_granted_stopped_example :
    total_granted exact
      (record bucket { rate_per_sec = 0 })
      (takes 4 3 ∷ refunds 5 ∷ takes_exact 2 9 ∷ [])
    ≡ 0
unfolding any_sets_rate is_sets_rate
total_granted_stopped_example =
    total_granted_stopped exact (record bucket { rate_per_sec = 0 })
      (takes 4 3 ∷ refunds 5 ∷ takes_exact 2 9 ∷ []) refl refl
