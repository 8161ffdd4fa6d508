-- ===== src/NodePool/Recent/Due.antt =====
-- `expire` of `RecentProbes` in src/node_pool.rs: each of its rounds lowers the number of the
-- elements that are due.
use dht_crawler.Base.{
  ℕ, zero, suc, ◌≤◌, ◌<◌, ◌≡◌, refl, true, false, leb, if◌then◌else◌, List, [], ◌∷◌, length, set,
  arith, Bool-cases, inl, inr,
}
use dht_crawler.Net.{SocketAddr}
use dht_crawler.NodePool.Recent.{
  RecentProbes, expiry_at, due, has_due, head_deadline, expire_head, expire_loop, expire,
}
use dht_crawler.NodePool.Recent.Steps.{no_element}
use dht_crawler.NodePool.Recent.Totals.{total, total-set, sift_down-total, remove_at-total}
use dht_crawler.NodePool.Recent.Deadlines.{Inv}
use dht_crawler.NodePool.Recent.Expiry.{head_entry, expire_head-Expires, nonempty_of_due}

due_weight : ℕ → ℕ × SocketAddr → ℕ
due_weight now (t, a) = if leb t now then 1 else 0

-- How many elements of the heap are due.
pub due_count : ℕ → RecentProbes → ℕ
unfolding due_weight
due_count now p = total (due_weight now) p.expiry

pub due_count-length : (now : ℕ) (p : RecentProbes) → due_count now p ≤ length p.expiry
unfolding due_count total due_weight
due_count-length now p = go p.expiry
  where
    go : (xs : List (ℕ × SocketAddr)) → total (due_weight now) xs ≤ length xs
    go [] = omega arith
    go (x ∷ xs) = ground (arith, go xs)

pub has_due-none : (now : ℕ) (p : RecentProbes) → due_count now p ≤ 0 → has_due now p ≡ false
unfolding due_count has_due total due_weight due
has_due-none now p h = go p.expiry h
  where
    go : (xs : List (ℕ × SocketAddr)) → total (due_weight now) xs ≤ 0 → due xs now ≡ false
    go [] h = refl
    go (x ∷ xs) h = ground arith

head_weight :
    (now : ℕ) (p : RecentProbes) → has_due now p ≡ true → due_weight now (expiry_at p.expiry 0) ≡ 1
unfolding has_due due_weight due
head_weight now p h = go p.expiry h
  where
    go : (xs : List (ℕ × SocketAddr)) → due xs now ≡ true → due_weight now (expiry_at xs 0) ≡ 1
    go [] h = cc
    go (x ∷ xs) h = ground arith

expire_head-due_count :
    (now : ℕ) (p : RecentProbes) (count : ℕ)
    → Inv p
    → has_due now p ≡ true
    → due_count now (expire_head (head_deadline p) now (p, count)).0 < due_count now p
unfolding expire_head head_deadline due_count
expire_head-due_count now p count v h =
    let nonempty = nonempty_of_due now p h in
    let weight = head_weight now p h in
    let (d, entry, _) = head_entry now p count v nonempty in
    elim (Bool-cases (leb d now)) [
      | inl over ↦
          let left = remove_at-total (due_weight now) 0 p nonempty in
          rw (entry, expire_head) (simp over (omega (arith, left, weight)))
      | inr live ↦
          let head = expiry_at p.expiry 0 in
          let late : RecentProbes = record p { expiry = set p.expiry 0 (d, head.1) } in
          let sifted = sift_down-total (due_weight now) (length p.expiry) 0 late in
          let written = total-set (due_weight now) p.expiry 0 (d, head.1) no_element nonempty in
          let no_weight : due_weight now (d, head.1) ≡ 0 = unfold due_weight in rw live refl in
          rw (entry, expire_head) (simp live (omega (arith, sifted, written, weight, no_weight)))
    ]

expire_loop-due_count :
    (rounds now : ℕ) (s : RecentProbes × ℕ)
    → Inv s.0
    → due_count now (expire_loop rounds now s).0 ≤ due_count now s.0
unfolding expire_loop
expire_loop-due_count zero now s v = omega arith
expire_loop-due_count (suc rounds) now (p, count) v = elim (Bool-cases (has_due now p)) [
  | inl due_now ↦
      let step = expire_head-Expires now p count v (nonempty_of_due now p due_now) in
      let fewer = expire_head-due_count now p count v due_now in
      let rest =
        expire_loop-due_count rounds now (expire_head (head_deadline p) now (p, count)) step.inv in
      rw due_now (omega (arith, fewer, rest))
  | inr none_due ↦ rw none_due (omega arith)
]

-- If an element is due, fewer are due after `expire`.
pub expire-due_count :
    (now : ℕ) (p : RecentProbes)
    → Inv p
    → has_due now p ≡ true
    → due_count now (expire now p).0 < due_count now p
unfolding expire expire_loop
expire-due_count now p v h =
    let step = expire_head-Expires now p 0 v (nonempty_of_due now p h) in
    let fewer = expire_head-due_count now p 0 v h in
    let rest = expire_loop-due_count 255 now (expire_head (head_deadline p) now (p, 0)) step.inv in
    rw h (omega (arith, fewer, rest))
