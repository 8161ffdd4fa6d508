-- ===== src/NodePool/Recent/Sift.antt =====
-- The sifts of `RecentProbes` in src/node_pool.rs only move elements, and so does nothing else to
-- the map than name their places.
use dht_crawler.Base.{
  ℕ, zero, suc, ◌+◌, ◌-◌, ◌*◌, ◌/◌, ◌<◌, ◌||◌, ◌==◌, leb, length, arith, Bool-cases, inl, inr, List,
}
use dht_crawler.Net.{SocketAddr}
use dht_crawler.NodePool.Recent.{
  RecentProbes, expiry_at, entry_le, swap, sift_up, sift_down, smaller_child,
}
use dht_crawler.NodePool.Recent.Steps.{Agree, Moves, Moves-refl, Moves-trans, swap-Moves}

pub sift_up-Moves :
    (fuel index : ℕ) (p : RecentProbes)
    → Agree p
    → index < length p.expiry
    → Moves p (sift_up fuel index p)
unfolding sift_up
sift_up-Moves zero index p a h = Moves-refl a
sift_up-Moves (suc fuel) index p a h =
    let parent = (index - 1) / 2 in
    elim (Bool-cases
      (index == 0 || entry_le (expiry_at p.expiry parent) (expiry_at p.expiry index))) [
        | inl stop ↦ rw stop (Moves-refl a)
        | inr on ↦
            let low : parent < index = ground arith in
            let step = swap-Moves p parent index a (omega arith) (omega arith) h in
            rw on (
              Moves-trans step (
                sift_up-Moves fuel parent (swap parent index p) step.agree
                  (omega (arith, step.size))))
      ]

pub smaller_child_bounds :
    (index : ℕ) (expiry : List (ℕ × SocketAddr))
    → index * 2 + 1 < length expiry
    → (index < smaller_child index expiry) × (smaller_child index expiry < length expiry)
unfolding smaller_child
smaller_child_bounds index expiry h = ground arith

pub sift_down-Moves :
    (fuel index : ℕ) (p : RecentProbes) → Agree p → Moves p (sift_down fuel index p)
unfolding sift_down
sift_down-Moves zero index p a = Moves-refl a
sift_down-Moves (suc fuel) index p a =
    let child = smaller_child index p.expiry in
    elim (Bool-cases (
      leb (length p.expiry) (index * 2 + 1)
      || entry_le (expiry_at p.expiry index) (expiry_at p.expiry child))) [
        | inl stop ↦ rw stop (Moves-refl a)
        | inr on ↦
            let bounds = smaller_child_bounds index p.expiry (ground arith) in
            let step = swap-Moves p index child a (omega arith) (omega arith) bounds.1 in
            rw on (Moves-trans step (sift_down-Moves fuel child (swap index child p) step.agree))
      ]
