-- ===== src/Scheduler/Queue/Expiring.antt =====
-- `expire` of `PendingHashQueue` in src/scheduler.rs drops exactly the hashes whose time is over.
use dht_crawler.Base.{
  ℕ, zero, suc, ◌+◌, ◌≤◌, ◌<◌, ◌≡◌, refl, ap, subst, ◌∙◌, true, false, ltb, leb, if◌then◌else◌,
  leb→le, [], ◌∷◌, length, Option, none, some, arith, Bool-cases, Option-cases, inl, inr,
}
use mathlib.Core.Logic.{if_pos, if_neg}
use mathlib.Core.Option.{some-injective}
use dht_crawler.Base.Assoc.{get, remove, get-remove, length-remove}
use dht_crawler.Base.Ordered.{first_key_value, get-first_key_value}
use dht_crawler.Scheduler.{Hash, Key, hash_discrete, key_discrete, key_lt, QueuedHash}
use dht_crawler.Scheduler.Queue.{
  Index, PendingHashQueue, remove_found, remove_hash, expire_loop, expire,
}
use dht_crawler.Scheduler.Queue.Indexes.{entry_at, hash_at}
use dht_crawler.Scheduler.Queue.Invariant.{Inv}
use dht_crawler.Scheduler.Queue.Storing.{remove_found-Inv}
use dht_crawler.Scheduler.Queue.Least.{first-none, first-least}

-- An entry that is not over before `now`.
abbrev pub unexpired : ℕ → Option QueuedHash → Option QueuedHash
unexpired now none = none
unexpired now (some e) = if ltb e.expires_at now then none else some e

-- What stays is what is not over, and the rest is counted.
pub record Drops (now : ℕ) (s s' : PendingHashQueue × ℕ) : Type 0 where
  pub inv : Inv s'.0
  pub entries : (h : Hash) → entry_at h s'.0.entries ≡ unexpired now (entry_at h s.0.entries)
  pub counted : s'.1 + length s'.0.entries ≡ s.1 + length s.0.entries
  pub sequence : s'.0.sequence ≡ s.0.sequence

empty_at : (m : Index) (k : Key) → length m ≤ 0 → hash_at k m ≡ none
unfolding get
empty_at [] k h = refl
empty_at (x ∷ m) k h = absurd (omega arith)

-- Nothing is over if the first key is not.
none-Drops :
    (now : ℕ) (q : PendingHashQueue) (count : ℕ)
    → Inv q
    → ((h : Hash) (e : QueuedHash) → entry_at h q.entries ≡ some e → now ≤ e.expires_at)
    → Drops now (q, count) (q, count)
none-Drops now q count v later = record {
  inv = v;
  entries = λ h. elim (Option-cases (entry_at h q.entries)) [
    | inl absent ↦ rw absent refl
    | inr (e, at) ↦
        let kept : ltb e.expires_at now ≡ false = ground (arith, later h e at) in rw (at, kept) refl
  ];
  counted = refl;
  sequence = refl;
}

module _ (q : PendingHashQueue) (v : Inv q) (key : Key) (hash : Hash)
    (first : first_key_value key_lt q.expiry ≡ some (key, hash)) where
  first_entry :
      (e : QueuedHash) × (entry_at hash q.entries ≡ some e)
      × (some (e.expires_at, e.order_key.1) ≡ some key)
  first_entry =
      v.expiry_ok.to_entry key hash
        (get-first_key_value key_lt key_discrete q.expiry key hash v.expiry_ok.uniq first)

  first_times : (h : Hash) (e : QueuedHash) → entry_at h q.entries ≡ some e → key.0 ≤ e.expires_at
  first_times h e at =
      first-least q.expiry key (e.expires_at, e.order_key.1) hash h first
        (v.expiry_ok.to_index h e _ at refl)

  -- One round drops the first hash, which is over.
  round :
      (now : ℕ)
      → key.0 < now
      → let q' = (remove_hash hash q).0 in
        Inv q'
        × ((h : Hash)
            → unexpired now (entry_at h q'.entries) ≡ unexpired now (entry_at h q.entries))
        × (suc (length q'.entries) ≡ length q.entries)
        × (suc (length q'.expiry) ≡ length q.expiry)
        × (q'.sequence ≡ q.sequence)
  unfolding remove_hash remove_found
  round now over =
      let (e, at, same) = first_entry in
      let key_is = some-injective (e.expires_at, e.order_key.1) key same in
      let dead : ltb e.expires_at now ≡ true = ground (arith, ap (λ k. k.0) key_is) in
      let there = v.expiry_ok.to_index hash e _ at refl in
      rw (at, remove_found)
        (
          remove_found-Inv q v hash e at,
          (λ h. elim (hash_discrete hash h) [
            | yes here ↦
                let gone : entry_at h (remove hash_discrete hash q.entries) ≡ none =
                  rw (get-remove hash_discrete hash h q.entries, if_pos _ here) in
                let before : entry_at h q.entries ≡ some e =
                  subst (λ x. entry_at x q.entries ≡ some e) here at in
                rw (gone, before, dead) refl
            | no apart ↦ rw (get-remove hash_discrete hash h q.entries, if_neg _ apart) refl
          ]),
          length-remove hash_discrete hash q.entries v.uniq at,
          length-remove key_discrete _ q.expiry v.expiry_ok.uniq there,
          refl,
        )

expire_loop-Drops :
    (fuel now : ℕ) (q : PendingHashQueue) (count : ℕ)
    → Inv q
    → length q.expiry ≤ fuel
    → Drops now (q, count) (expire_loop fuel now (q, count))
unfolding expire_loop
expire_loop-Drops zero now q count v h = none-Drops now q count v (λ hash e at. absurd (
    ground (
      arith,
      v.expiry_ok.to_index hash e _ at refl,
      empty_at q.expiry (e.expires_at, e.order_key.1) (omega arith),
    )))
expire_loop-Drops (suc fuel) now q count v h =
    elim (Option-cases (first_key_value key_lt q.expiry)) [
      | inl empty ↦
          rw (empty, expire_loop)
            (none-Drops now q count v (λ hash e at. absurd (
              ground (
                arith,
                v.expiry_ok.to_index hash e _ at refl,
                first-none q.expiry (e.expires_at, e.order_key.1) empty,
              ))))
      | inr ((key, hash), first) ↦ elim (Bool-cases (leb now key.0)) [
        | inl live ↦
            rw (first, live, expire_loop)
              (none-Drops now q count v (λ h' e at.
                omega (arith, first_times q v key hash first h' e at, leb→le now key.0 live)))
        | inr over ↦
            let (v', same, fewer, shorter, seq) = round q v key hash first now (ground arith) in
            let rest =
              expire_loop-Drops fuel now (remove_hash hash q).0 (count + 1) v'
                (omega (arith, shorter)) in
            rw (first, over, expire_loop)
              (record {
                inv = rest.inv;
                entries = λ h'. rest.entries h' ∙ same h';
                counted = omega (arith, rest.counted, fewer);
                sequence = rest.sequence ∙ seq;
              })
      ]
    ]

-- `expire` drops exactly the hashes whose time is over before `now`, whatever their class, counts
-- them, and keeps the indexes true; every other entry stays as it is.
pub expire-Drops : (now : ℕ) (q : PendingHashQueue) → Inv q → Drops now (q, 0) (expire now q)
unfolding expire
expire-Drops now q v = expire_loop-Drops (length q.expiry) now q 0 v (omega arith)
