-- ===== src/NodePool/Recent/Expiry.antt =====
-- `expire` of `RecentProbes` in src/node_pool.rs.
use dht_crawler.Base.{
  ◌⊎◌, ℕ, zero, suc, ◌+◌, ◌≤◌, ◌<◌, ◌≡◌, refl, ap, sym, ◌∙◌, Bool, true, false, ltb, leb, List, [],
  ◌∷◌, length, length-set, set, Option, none, some, arith, Bool-cases, inl, inr,
}
use dht_crawler.Base.Assoc.{get}
use dht_crawler.Base.Places.{get_elem?-set}
use dht_crawler.Net.{SocketAddr, addr_discrete}
use dht_crawler.NodePool.Recent.{
  RecentProbe, RecentProbes, expiry_at, live_after, is_recent, remove_at, sift_down, due, has_due,
  head_deadline, expire_head, expire_loop, expire,
}
use dht_crawler.NodePool.Recent.Linked.{retime-Linked}
use dht_crawler.NodePool.Recent.Steps.{Agree, deadline, deadline_of, entry_of, place_of, element}
use dht_crawler.NodePool.Recent.Sift.{sift_down-Moves}
use dht_crawler.NodePool.Recent.Removal.{remove_at-Removes}
use dht_crawler.NodePool.Recent.Deadlines.{Inv, Removes-Inv}

abbrev live_deadline : Option ℕ → ℕ → Bool
live_deadline none now = false
live_deadline (some d) now = ltb now d

live_after-deadline :
    (o : Option RecentProbe) (now : ℕ) → live_after o now ≡ live_deadline (deadline o) now
unfolding live_after
live_after-deadline none now = refl
live_after-deadline (some probe) now = refl

pub is_recent-deadline_of :
    (a : SocketAddr) (now : ℕ) (p : RecentProbes)
    → is_recent a now p ≡ live_deadline (deadline_of a p) now
unfolding is_recent
is_recent-deadline_of a now p = live_after-deadline (get addr_discrete a p.entries) now

-- Only what is over by `now` is gone: from then on the same addresses count as recent. Each removed
-- entry is counted.
pub record Expires (now : ℕ) (s s' : RecentProbes × ℕ) : Type 0 where
  pub inv : Inv s'.0
  pub recent : (a : SocketAddr) (t : ℕ) → now ≤ t → is_recent a t s'.0 ≡ is_recent a t s.0
  pub subset :
      (a : SocketAddr) → (deadline_of a s'.0 ≡ none) ⊎ (deadline_of a s'.0 ≡ deadline_of a s.0)
  pub counted : s'.1 + length s'.0.entries ≡ s.1 + length s.0.entries
  pub cap : s'.0.capacity ≡ s.0.capacity

Expires-refl : (now : ℕ) (s : RecentProbes × ℕ) → Inv s.0 → Expires now s s
Expires-refl now s v = record {
  inv = v;
  recent = λ a t h. refl;
  subset = λ a. inr refl;
  counted = refl;
  cap = refl;
}

Expires-trans :
    {now : ℕ} {s s' s'' : RecentProbes × ℕ}
    → Expires now s s'
    → Expires now s' s''
    → Expires now s s''
Expires-trans f g = record {
  inv = g.inv;
  recent = λ a t h. g.recent a t h ∙ f.recent a t h;
  subset = λ a. ground (arith, f.subset a, g.subset a);
  counted = g.counted ∙ f.counted;
  cap = g.cap ∙ f.cap;
}

module _ (now : ℕ) (p : RecentProbes) (count : ℕ) (v : Inv p) (nonempty : 0 < length p.expiry) where
  abbrev head : ℕ × SocketAddr
  head = expiry_at p.expiry 0

  pub head_entry :
      (d : ℕ) × (entry_of p head.1 ≡ some (record { expires_at = d; heap_index = 0 }))
      × (head.0 ≤ d)
  head_entry = v.agree.linked.has_entry 0 head.0 head.1 (element p 0 nonempty)

  abbrev d : ℕ
  d = head_entry.0

  gone_recent :
      d ≤ now → (a : SocketAddr) (t : ℕ) → now ≤ t → is_recent a t (remove_at 0 p) ≡ is_recent a t p
  gone_recent over a t h =
      let gone = remove_at-Removes p 0 v.agree nonempty in
      is_recent-deadline_of a t (remove_at 0 p)
      ∙ ground (arith, gone.deadlines a, is_recent-deadline_of a t p, head_entry.1)

  retimed : RecentProbes
  retimed = record p { expiry = set p.expiry 0 (d, head.1) }

  retimed-Agree : Agree retimed
  unfolding retimed
  retimed-Agree = record {
    linked =
        retime-Linked (place_of p) _ (entry_of p) 0 head.0 d head.1 v.agree.linked
          (element p 0 nonempty) head_entry.1
          (λ i. get_elem?-set p.expiry 0 i (d, head.1) nonempty);
    uniq = v.agree.uniq;
    sizes = v.agree.sizes ∙ sym (length-set p.expiry 0 (d, head.1));
  }

  removing_Expires : d ≤ now → Expires now (p, count) (remove_at 0 p, count + 1)
  removing_Expires over =
      let gone = remove_at-Removes p 0 v.agree nonempty in
      record {
        inv = Removes-Inv v gone;
        recent = gone_recent over;
        subset = λ a. ground (arith, gone.deadlines a);
        counted = omega (arith, gone.size, gone.agree.sizes, v.agree.sizes);
        cap = gone.cap;
      }

  postponing_Expires : Expires now (p, count) (sift_down (length p.expiry) 0 retimed, count)
  unfolding retimed
  postponing_Expires =
      let moves = sift_down-Moves (length p.expiry) 0 retimed retimed-Agree in
      let q = sift_down (length p.expiry) 0 retimed in
      let same_size : length q.entries ≡ length p.entries =
        moves.agree.sizes ∙ moves.size ∙ length-set p.expiry 0 (d, head.1) ∙ sym v.agree.sizes in
      record {
        inv = record {
          agree = moves.agree;
          positive = omega (arith, moves.cap, v.positive);
          bounded = omega (arith, moves.cap, same_size, v.bounded);
        };
        recent = λ a t h.
            is_recent-deadline_of a t q
            ∙ (ap (λ o. live_deadline o t) (moves.deadlines a))
            ∙ sym (is_recent-deadline_of a t p);
        subset = λ a. inr (moves.deadlines a);
        counted = omega (arith, same_size);
        cap = moves.cap;
      }

  pub expire_head-Expires : Expires now (p, count) (expire_head (head_deadline p) now (p, count))
  unfolding expire_head head_deadline retimed
  expire_head-Expires = elim (Bool-cases (leb d now)) [
    | inl over ↦ rw (head_entry.1, expire_head) (simp over (removing_Expires (ground arith)))
    | inr live ↦ rw (head_entry.1, expire_head) (simp live postponing_Expires)
  ]

pub nonempty_of_due : (now : ℕ) (p : RecentProbes) → has_due now p ≡ true → 0 < length p.expiry
unfolding has_due
nonempty_of_due now p h = go p.expiry h
  where
    go : (expiry : List (ℕ × SocketAddr)) → due expiry now ≡ true → 0 < length expiry
    go [] h = cc
    go (e ∷ rest) h = omega arith

expire_loop-Expires :
    (rounds now : ℕ) (s : RecentProbes × ℕ) → Inv s.0 → Expires now s (expire_loop rounds now s)
unfolding expire_loop
expire_loop-Expires zero now s v = Expires-refl now s v
expire_loop-Expires (suc rounds) now (p, count) v = elim (Bool-cases (has_due now p)) [
  | inl due_now ↦
      let step = expire_head-Expires now p count v (nonempty_of_due now p due_now) in
      rw due_now (
        Expires-trans step
          (expire_loop-Expires rounds now (expire_head (head_deadline p) now (p, count)) step.inv))
  | inr none_due ↦ rw none_due (Expires-refl now (p, count) v)
]

-- `expire` removes only what is over by `now`, counts what it removes, and keeps the map and the
-- heap in agreement and within the capacity.
pub expire-Expires : (now : ℕ) (p : RecentProbes) → Inv p → Expires now (p, 0) (expire now p)
unfolding expire
expire-Expires now p v = expire_loop-Expires 256 now (p, 0) v
