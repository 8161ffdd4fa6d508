-- ===== src/Scheduler/Queue/Promoting.antt =====
-- `promote_ready` of `PendingHashQueue` in src/scheduler.rs makes exactly the waiting hashes ready
-- whose time has come.
use dht_crawler.Base.{
  ℕ, zero, suc, ◌≤◌, ◌<◌, ◌≡◌, refl, sym, ap, subst, ◌∙◌, Bool, true, false, not, ltb, ltb→lt,
  if◌then◌else◌, [], ◌∷◌, length, Option, none, some, arith, Bool-cases, Option-cases, inl, inr,
}
use mathlib.Core.Logic.{if_pos, if_neg}
use mathlib.Core.Option.{some-injective}
use dht_crawler.Base.Assoc.{get, insert, get-insert, Uniq-insert, length-remove, length-insert_old}
use dht_crawler.Base.Ordered.{first_key_value, get-first_key_value}
use dht_crawler.Scheduler.{Hash, Key, hash_discrete, key_discrete, key_lt, QueuedHash}
use dht_crawler.Scheduler.Queue.{
  Index, PendingHashQueue, insert_if, promote_entry, promote_first, promote_loop, promote_ready,
}
use dht_crawler.Scheduler.Queue.Indexes.{
  Entries, entry_at, hash_at, IsIndex, keep-IsIndex, drop-IsIndex, gain-IsIndex,
}
use dht_crawler.Scheduler.Queue.Invariant.{
  Inv, Numbered, Stamped, key_if, expiry_key, retry_expiry_key, waiting_key, ready_fresh_key,
  ready_retry_key, ready_fresh-Stamped, ready_retry-Stamped,
}
use dht_crawler.Scheduler.Queue.Least.{first-none, first-least}

-- An entry once its time has come.
abbrev pub promoted : ℕ → Option QueuedHash → Option QueuedHash
promoted now none = none
promoted now (some e) = some (record e { ready = if ltb now e.ready_at then e.ready else true })

pub record Promotes (now : ℕ) (q q' : PendingHashQueue) : Type 0 where
  pub inv : Inv q'
  pub entries : (h : Hash) → entry_at h q'.entries ≡ promoted now (entry_at h q.entries)
  pub sequence : q'.sequence ≡ q.sequence
  pub dispatches : q'.fresh_dispatches ≡ q.fresh_dispatches

change-Numbered :
    (sequence : ℕ) (entries : Entries) (h : Hash) (e e' : QueuedHash)
    → Numbered sequence entries
    → entry_at h entries ≡ some e
    → e'.info_hash ≡ e.info_hash
    → e'.order_key ≡ e.order_key
    → Numbered sequence (insert hash_discrete h e' entries)
change-Numbered sequence entries h e e' v at same_name same_key =
    let old : (x : Hash) (f : QueuedHash)
        → entry_at x (insert hash_discrete h e' entries) ≡ some f
        → (f' : QueuedHash) × (entry_at x entries ≡ some f')
          × (f.info_hash ≡ f'.info_hash)
          × (f.order_key ≡ f'.order_key) =
      λ x f there. elim (hash_discrete h x) [
        | yes here ↦
            let new : e' ≡ f = ground (arith, get-insert hash_discrete h x e' entries) in
            (
              e,
              subst (λ y. entry_at y entries ≡ some e) here at,
              ap (λ y. y.info_hash) (sym new) ∙ same_name,
              ap (λ y. y.order_key) (sym new) ∙ same_key,
            )
        | no apart ↦ (f, ground (arith, get-insert hash_discrete h x e' entries), refl, refl)
      ] in
    record {
      named = λ x f there. let (f', at', name, _) = old x f there in name ∙ v.named x f' at';
      seq_bound = λ x f there.
          let (f', at', _, key) = old x f there in
          omega (arith, v.seq_bound x f' at', ap (λ k. k.1) key);
      seq_inj = λ x y f g at_x at_y same.
          let (f', at_f, _, key_f) = old x f at_x in
          let (g', at_g, _, key_g) = old y g at_y in
          v.seq_inj x y f' g' at_f at_g
            (omega (arith, ap (λ k. k.1) key_f, ap (λ k. k.1) key_g, same));
    }

module _ (key_of : QueuedHash → Option Key) (stamped : Stamped key_of) (index : Index)
    (entries : Entries) (sequence : ℕ) (numbered : Numbered sequence entries)
    (v : IsIndex key_of index entries) (h : Hash) (e e' : QueuedHash)
    (at : entry_at h entries ≡ some e) (no_key : key_of e ≡ none) where
  -- An entry that had no key in an index may come into it.
  joined-IsIndex :
      (cond : Bool) (k : Key)
      → k.1 ≡ e.order_key.1
      → key_of e' ≡ key_if cond k
      → IsIndex key_of (insert_if cond k h index) (insert hash_discrete h e' entries)
  joined-IsIndex true k number named =
      gain-IsIndex key_of index entries v h e e' k at no_key named
        (elim (Option-cases (hash_at k index)) [
          | inl free ↦ free
          | inr (h', taken) ↦
              let (x, there, key_x) = v.to_entry k h' taken in
              let same : h' ≡ h =
                numbered.seq_inj h' h x e there at (sym (stamped x k key_x) ∙ number) in
              let old : x ≡ e =
                some-injective x e (sym there ∙ ap (λ y. entry_at y entries) same ∙ at) in
              absurd (ground (arith, ap key_of old, key_x, no_key))
        ])
  joined-IsIndex false k number named =
      keep-IsIndex key_of index entries v h e e' at (named ∙ sym no_key)

module _ (q : PendingHashQueue) (v : Inv q) (key : Key) (hash : Hash)
    (first : first_key_value key_lt q.waiting ≡ some (key, hash)) where
  there : hash_at key q.waiting ≡ some hash
  there = get-first_key_value key_lt key_discrete q.waiting key hash v.waiting_ok.uniq first

  first_entry :
      (e : QueuedHash) × (entry_at hash q.entries ≡ some e)
      × (e.ready ≡ false)
      × ((e.ready_at, e.order_key.1) ≡ key)
  first_entry =
      let (e, at, named) = v.waiting_ok.to_entry key hash there in
      elim (Bool-cases e.ready) [
        | inl ready ↦ absurd (ground arith)
        | inr unready ↦ (e, at, unready, ground arith)
      ]

  first_times :
      (h : Hash) (e : QueuedHash)
      → entry_at h q.entries ≡ some e
      → e.ready ≡ false
      → key.0 ≤ e.ready_at
  first_times h e at unready =
      first-least q.waiting key (e.ready_at, e.order_key.1) hash h first
        (v.waiting_ok.to_index h e _ at (rw unready refl))

  round :
      (now : ℕ)
      → key.0 ≤ now
      → let q' = promote_first key hash q in
        Inv q'
        × ((h : Hash) → promoted now (entry_at h q'.entries) ≡ promoted now (entry_at h q.entries))
        × (suc (length q'.waiting) ≡ length q.waiting)
        × (q'.sequence ≡ q.sequence)
        × (q'.fresh_dispatches ≡ q.fresh_dispatches)
  unfolding promote_first promote_entry
  round now come =
      let (e, at, unready, key_is) = first_entry in
      let e' : QueuedHash = record e { ready = true } in
      let time_is : e.ready_at ≡ key.0 = ap (λ k. k.0) key_is in
      rw (at, promote_entry)
        (
          record {
            positive = v.positive;
            bounded =
                omega
                  (arith, length-insert_old hash_discrete hash e' e q.entries v.uniq at, v.bounded);
            uniq = Uniq-insert hash_discrete hash e' q.entries v.uniq;
            numbered = change-Numbered q.sequence q.entries hash e e' v.numbered at refl refl;
            expiry_ok = keep-IsIndex expiry_key q.expiry q.entries v.expiry_ok hash e e' at refl;
            retry_expiry_ok =
                keep-IsIndex retry_expiry_key q.retry_expiry q.entries v.retry_expiry_ok hash e e'
                  at refl;
            waiting_ok =
                drop-IsIndex waiting_key q.waiting q.entries v.waiting_ok hash e e' key at
                  (rw unready (ap some key_is)) refl;
            ready_fresh_ok =
                joined-IsIndex ready_fresh_key ready_fresh-Stamped q.ready_fresh q.entries
                  q.sequence v.numbered v.ready_fresh_ok hash e e' at (rw unready refl)
                  (not e.is_retry) e.order_key refl refl;
            ready_retry_ok =
                joined-IsIndex ready_retry_key ready_retry-Stamped q.ready_retry q.entries
                  q.sequence v.numbered v.ready_retry_ok hash e e' at (rw unready refl) e.is_retry
                  key (ap (λ k. k.1) (sym key_is)) (ap (key_if e.is_retry) key_is);
          },
          (λ h. elim (hash_discrete hash h) [
            | yes here ↦
                let now_ready : entry_at h (insert hash_discrete hash e' q.entries) ≡ some e' =
                  rw (get-insert hash_discrete hash h e' q.entries, if_pos _ here) in
                let before : entry_at h q.entries ≡ some e =
                  subst (λ x. entry_at x q.entries ≡ some e) here at in
                let passed : ltb now e.ready_at ≡ false = ground arith in
                rw (now_ready, before, passed) refl
            | no apart ↦ rw (get-insert hash_discrete hash h e' q.entries, if_neg _ apart) refl
          ]),
          length-remove key_discrete key q.waiting v.waiting_ok.uniq there,
          refl,
          refl,
        )

-- Nothing is promoted if no waiting hash's time has come.
none-Promotes :
    (now : ℕ) (q : PendingHashQueue)
    → Inv q
    → ((h : Hash) (e : QueuedHash)
        → entry_at h q.entries ≡ some e
        → e.ready ≡ false
        → now < e.ready_at)
    → Promotes now q q
none-Promotes now q v later = record {
  inv = v;
  entries = λ h. elim (Option-cases (entry_at h q.entries)) [
    | inl absent ↦ rw absent refl
    | inr (e, at) ↦
        let same : (if ltb now e.ready_at then e.ready else true) ≡ e.ready =
          elim (Bool-cases e.ready) [
            | inl ready ↦ rw ready (ground arith)
            | inr unready ↦
                let waits : ltb now e.ready_at ≡ true = ground (arith, later h e at unready) in
                rw waits refl
          ] in
        rw at (sym (ap (λ b. some (record e { ready = b })) same))
  ];
  sequence = refl;
  dispatches = refl;
}

empty_at : (m : Index) (k : Key) → length m ≤ 0 → hash_at k m ≡ none
unfolding get
empty_at [] k h = refl
empty_at (x ∷ m) k h = absurd (omega arith)

waiting_of :
    (q : PendingHashQueue)
    → Inv q
    → (h : Hash) (e : QueuedHash) → entry_at h q.entries ≡ some e
    → e.ready ≡ false
    → hash_at (e.ready_at, e.order_key.1) q.waiting ≡ some h
waiting_of q v h e at unready = v.waiting_ok.to_index h e _ at (rw unready refl)

promote_loop-Promotes :
    (fuel now : ℕ) (q : PendingHashQueue)
    → Inv q
    → length q.waiting ≤ fuel
    → Promotes now q (promote_loop fuel now q)
unfolding promote_loop
promote_loop-Promotes zero now q v h = none-Promotes now q v (λ hash e at unready. absurd (
    ground (
      arith,
      waiting_of q v hash e at unready,
      empty_at q.waiting (e.ready_at, e.order_key.1) (omega arith),
    )))
promote_loop-Promotes (suc fuel) now q v h =
    elim (Option-cases (first_key_value key_lt q.waiting)) [
      | inl empty ↦
          rw (empty, promote_loop)
            (none-Promotes now q v (λ hash e at unready. absurd (
              ground (
                arith,
                waiting_of q v hash e at unready,
                first-none q.waiting (e.ready_at, e.order_key.1) empty,
              ))))
      | inr ((key, hash), first) ↦ elim (Bool-cases (ltb now key.0)) [
        | inl live ↦
            rw (first, live, promote_loop)
              (none-Promotes now q v (λ h' e at unready.
                omega
                  (arith, first_times q v key hash first h' e at unready, ltb→lt now key.0 live)))
        | inr come ↦
            let (v', same, shorter, seq, count) = round q v key hash first now (ground arith) in
            let rest =
              promote_loop-Promotes fuel now (promote_first key hash q) v'
                (omega (arith, shorter)) in
            rw (first, come, promote_loop)
              (record {
                inv = rest.inv;
                entries = λ h'. rest.entries h' ∙ same h';
                sequence = rest.sequence ∙ seq;
                dispatches = rest.dispatches ∙ count;
              })
      ]
    ]

-- `promote_ready` makes every waiting hash ready whose time has come by `now`, and no other, and
-- keeps the indexes true.
pub promote_ready-Promotes :
    (now : ℕ) (q : PendingHashQueue) → Inv q → Promotes now q (promote_ready now q)
unfolding promote_ready
promote_ready-Promotes now q v = promote_loop-Promotes (length q.waiting) now q v (omega arith)
