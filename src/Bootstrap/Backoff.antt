-- ===== src/Bootstrap/Backoff.antt =====
-- src/bootstrap.rs: how long the gate keeps the rounds of bootstrapping apart.
use dht_crawler.Base.{
  ℕ, ◌+◌, ◌≤◌, ◌<◌, true, false, if◌then◌else◌, ◌≡◌, ap, List, [], ◌∷◌, Option, none, some, arith,
  inl, inr, ◌⊎◌,
}
use dht_crawler.CrawlConfig.{ResolvedCrawlConfig}
use dht_crawler.Bootstrap.{BootstrapGate, too_early, should_bootstrap}

-- The times at which a sequence of calls, each with the pool's length and its time, is let through.
pub rounds : ResolvedCrawlConfig → BootstrapGate → List (ℕ × ℕ) → List (ℕ × ℕ)
rounds config gate [] = []
rounds config gate ((pool_len, now) ∷ calls) =
    let (gate', open_now) = should_bootstrap pool_len config now gate in
    let later = rounds config gate' calls in if open_now then (pool_len, now) ∷ later else later

abbrev pub FarFrom : ℕ → Option ℕ → ℕ → Type 0
FarFrom interval none now = Unit
FarFrom interval (some last) now = last + interval ≤ now

-- Each round is at least the interval after the one before it, and finds the pool below its mark.
abbrev pub Spaced : ResolvedCrawlConfig → Option ℕ → List (ℕ × ℕ) → Type 0
Spaced config last [] = Unit
Spaced config last ((pool_len, now) ∷ later) =
    FarFrom config.bootstrap_interval last now
    × (pool_len < config.low_watermark)
    × Spaced config (some now) later

FarFrom-of_not_too_early :
    (interval now : ℕ) (last : Option ℕ)
    → too_early last now interval ≡ false
    → 0 < interval
    → FarFrom interval last now
unfolding too_early
FarFrom-of_not_too_early interval now none e h = tt
FarFrom-of_not_too_early interval now (some last) e h = ground arith

module _ (config : ResolvedCrawlConfig) (pool_len now : ℕ) (gate : BootstrapGate) where
  open_now :
      should_bootstrap pool_len config now gate ≡ (record gate { last_bootstrap = some now }, true)
      → 0 < config.bootstrap_interval
      → FarFrom config.bootstrap_interval gate.last_bootstrap now
        × (pool_len < config.low_watermark)
  unfolding should_bootstrap
  open_now e h =
      let opened : (should_bootstrap pool_len config now gate).1 ≡ true = ap (λ r. r.1) e in
      let on_time : too_early gate.last_bootstrap now config.bootstrap_interval ≡ false =
        ground arith in
      (FarFrom-of_not_too_early _ now gate.last_bootstrap on_time h, ground arith)

  -- The gate is open and notes the time, or is closed and stays as it was.
  gate_cases :
      (should_bootstrap pool_len config now gate
        ≡ (record gate { last_bootstrap = some now }, true))
      ⊎ (should_bootstrap pool_len config now gate ≡ (gate, false))
  unfolding should_bootstrap
  gate_cases = ground arith

-- However often the gate is asked, the rounds it lets through are spaced by the interval and start
-- only while the pool is below its low watermark; the interval is positive.
pub rounds-Spaced :
    (config : ResolvedCrawlConfig) (calls : List (ℕ × ℕ)) (gate : BootstrapGate)
    → 0 < config.bootstrap_interval
    → Spaced config gate.last_bootstrap (rounds config gate calls)
unfolding rounds
rounds-Spaced config [] gate h = tt
rounds-Spaced config ((pool_len, now) ∷ calls) gate h = elim (gate_cases config pool_len now gate) [
  | inl lets ↦
      let (far, low) = open_now config pool_len now gate lets h in
      rw lets (far, low, rounds-Spaced config calls (record gate { last_bootstrap = some now }) h)
  | inr keeps ↦ rw keeps (rounds-Spaced config calls gate h)
]
