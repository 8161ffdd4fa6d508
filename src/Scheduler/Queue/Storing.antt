-- ===== src/Scheduler/Queue/Storing.antt =====
-- `insert` and `remove` of `PendingHashQueue` in src/scheduler.rs keep the indexes true.
use dht_crawler.Base.{
  ℕ, ◌+◌, ◌%◌, ◌^◌, ◌<◌, ◌≡◌, refl, sym, ap, ◌∙◌, Bool, true, false, not, ◌&&◌, length, Option,
  none, some, arith, Option-cases, inl, inr,
}
use dht_crawler.Base.Assoc.{
  insert, remove, get-insert, get-remove, Uniq-insert, Uniq-remove, length-insert_new,
  length-remove,
}
use dht_crawler.Scheduler.{Hash, Key, hash_discrete, key_discrete, QueuedHash}
use dht_crawler.Scheduler.Queue.{Index, PendingHashQueue, insert_if, insert_entry, remove_found}
use dht_crawler.Scheduler.Queue.Indexes.{
  Entries, entry_at, hash_at, IsIndex, skip-IsIndex, add-IsIndex, remove-IsIndex,
}
use dht_crawler.Scheduler.Queue.Invariant.{
  Inv, Numbered, Stamped, key_if, expiry_key, retry_expiry_key, waiting_key, ready_fresh_key,
  ready_retry_key, expiry-Stamped, retry_expiry-Stamped, waiting-Stamped, ready_fresh-Stamped,
  ready_retry-Stamped,
}

module _ (key_of : QueuedHash → Option Key) (stamped : Stamped key_of) (index : Index)
    (entries : Entries) (sequence : ℕ) (numbered : Numbered sequence entries)
    (v : IsIndex key_of index entries) where
  -- A key with a number to come is free.
  pub key_free : (k : Key) → sequence < k.1 → hash_at k index ≡ none
  key_free k h = elim (Option-cases (hash_at k index)) [
    | inl free ↦ free
    | inr (hash, taken) ↦
        let (e, at, named) = v.to_entry k hash taken in
        absurd (omega (arith, stamped e k named, numbered.seq_bound hash e at))
  ]

  stored-IsIndex :
      (cond : Bool) (k : Key) (h : Hash) (e : QueuedHash)
      → entry_at h entries ≡ none
      → sequence < k.1
      → key_of e ≡ key_if cond k
      → IsIndex key_of (insert_if cond k h index) (insert hash_discrete h e entries)
  stored-IsIndex true k h e absent later shape =
      add-IsIndex key_of index entries v h e k absent shape (key_free k later)
  stored-IsIndex false k h e absent later shape =
      skip-IsIndex key_of index entries v h e absent shape

  taken-IsIndex :
      (cond : Bool) (k : Key) (h : Hash) (e : QueuedHash)
      → entry_at h entries ≡ some e
      → k.1 ≡ e.order_key.1
      → key_of e ≡ key_if cond k
      → IsIndex key_of (remove key_discrete k index) (remove hash_discrete h entries)
  taken-IsIndex cond k h e at number shape =
      remove-IsIndex key_of index entries v h e k at (λ k' named. ground (arith, shape, named))
        (λ h' taken.
          let (e', at', named) = v.to_entry k h' taken in
          numbered.seq_inj h' h e' e at' at (sym (stamped e' k named) ∙ number))

insert-Numbered :
    (sequence : ℕ) (entries : Entries) (entry : QueuedHash)
    → Numbered sequence entries
    → entry.order_key.1 ≡ sequence + 1
    → Numbered (sequence + 1) (insert hash_discrete entry.info_hash entry entries)
insert-Numbered sequence entries entry v number = record {
  named = λ h e at. elim (hash_discrete entry.info_hash h) [
    | yes here ↦
        let new : entry ≡ e =
          ground (arith, get-insert hash_discrete entry.info_hash h entry entries) in
        ap (λ x. x.info_hash) (sym new) ∙ here
    | no apart ↦
        v.named h e (ground (arith, get-insert hash_discrete entry.info_hash h entry entries))
  ];
  seq_bound = λ h e at. elim (hash_discrete entry.info_hash h) [
    | yes here ↦
        let new : entry ≡ e =
          ground (arith, get-insert hash_discrete entry.info_hash h entry entries) in
        omega (arith, ap (λ x. x.order_key.1) new, number)
    | no apart ↦
        let old =
          v.seq_bound h e
            (ground (arith, get-insert hash_discrete entry.info_hash h entry entries)) in
        omega (arith, old)
  ];
  seq_inj = λ h h' e e' at at' same. elim (hash_discrete entry.info_hash h) [
    | yes here ↦
        let new : entry ≡ e =
          ground (arith, get-insert hash_discrete entry.info_hash h entry entries) in
        elim (hash_discrete entry.info_hash h') [
          | yes here' ↦ sym here ∙ here'
          | no apart' ↦
              let old =
                v.seq_bound h' e'
                  (ground (arith, get-insert hash_discrete entry.info_hash h' entry entries)) in
              absurd (omega (arith, ap (λ x. x.order_key.1) new, number, old, same))
        ]
    | no apart ↦
        let before : entry_at h entries ≡ some e =
          ground (arith, get-insert hash_discrete entry.info_hash h entry entries) in
        elim (hash_discrete entry.info_hash h') [
          | yes here' ↦
              let new : entry ≡ e' =
                ground (arith, get-insert hash_discrete entry.info_hash h' entry entries) in
              absurd
                (omega (arith, ap (λ x. x.order_key.1) new, number, v.seq_bound h e before, same))
          | no apart' ↦
              v.seq_inj h h' e e' before
                (ground (arith, get-insert hash_discrete entry.info_hash h' entry entries)) same
        ]
  ];
}

module _ (q : PendingHashQueue) (v : Inv q) where
  -- A new hash, where there is room, comes into every index of its class.
  pub insert_entry-Inv :
      (old : QueuedHash)
      → entry_at old.info_hash q.entries ≡ none
      → length q.entries < q.capacity
      → q.sequence + 1 < 2 ^ 64
      → Inv (insert_entry old q)
  unfolding insert_entry
  insert_entry-Inv old absent room small =
      let number : (q.sequence + 1) % 2 ^ 64 ≡ q.sequence + 1 = omega arith in
      let entry : QueuedHash = record old { order_key = (old.latest_at, q.sequence + 1) } in
      let next : q.sequence < q.sequence + 1 = omega arith in
      rw number (record {
        positive = v.positive;
        bounded =
            omega (arith, length-insert_new hash_discrete entry.info_hash entry q.entries absent);
        uniq = Uniq-insert hash_discrete entry.info_hash entry q.entries v.uniq;
        numbered = insert-Numbered q.sequence q.entries entry v.numbered refl;
        expiry_ok =
            stored-IsIndex expiry_key expiry-Stamped q.expiry q.entries q.sequence v.numbered
              v.expiry_ok true _ entry.info_hash entry absent next refl;
        retry_expiry_ok =
            stored-IsIndex retry_expiry_key retry_expiry-Stamped q.retry_expiry q.entries q.sequence
              v.numbered v.retry_expiry_ok entry.is_retry _ entry.info_hash entry absent next refl;
        waiting_ok =
            stored-IsIndex waiting_key waiting-Stamped q.waiting q.entries q.sequence v.numbered
              v.waiting_ok (not entry.ready) _ entry.info_hash entry absent next refl;
        ready_fresh_ok =
            stored-IsIndex ready_fresh_key ready_fresh-Stamped q.ready_fresh q.entries q.sequence
              v.numbered v.ready_fresh_ok (entry.ready && not entry.is_retry) _ entry.info_hash
              entry absent next refl;
        ready_retry_ok =
            stored-IsIndex ready_retry_key ready_retry-Stamped q.ready_retry q.entries q.sequence
              v.numbered v.ready_retry_ok (entry.ready && entry.is_retry) _ entry.info_hash entry
              absent next refl;
      })

  -- A removed hash leaves every index.
  pub remove_found-Inv :
      (h : Hash) (e : QueuedHash)
      → entry_at h q.entries ≡ some e
      → Inv (remove_found (some e) h q).0
  unfolding remove_found
  remove_found-Inv h e at = record {
    positive = v.positive;
    bounded = omega (arith, length-remove hash_discrete h q.entries v.uniq at, v.bounded);
    uniq = Uniq-remove hash_discrete h q.entries v.uniq;
    numbered = record {
      named = λ h' e' at'.
          v.numbered.named h' e' (ground (arith, get-remove hash_discrete h h' q.entries));
      seq_bound = λ h' e' at'.
          v.numbered.seq_bound h' e' (ground (arith, get-remove hash_discrete h h' q.entries));
      seq_inj = λ h1 h2 e1 e2 at1 at2.
          v.numbered.seq_inj h1 h2 e1 e2 (ground (arith, get-remove hash_discrete h h1 q.entries))
            (ground (arith, get-remove hash_discrete h h2 q.entries));
    };
    expiry_ok =
        taken-IsIndex expiry_key expiry-Stamped q.expiry q.entries q.sequence v.numbered v.expiry_ok
          true _ h e at refl refl;
    retry_expiry_ok =
        taken-IsIndex retry_expiry_key retry_expiry-Stamped q.retry_expiry q.entries q.sequence
          v.numbered v.retry_expiry_ok e.is_retry _ h e at refl refl;
    waiting_ok =
        taken-IsIndex waiting_key waiting-Stamped q.waiting q.entries q.sequence v.numbered
          v.waiting_ok (not e.ready) _ h e at refl refl;
    ready_fresh_ok =
        taken-IsIndex ready_fresh_key ready_fresh-Stamped q.ready_fresh q.entries q.sequence
          v.numbered v.ready_fresh_ok (e.ready && not e.is_retry) _ h e at refl refl;
    ready_retry_ok =
        taken-IsIndex ready_retry_key ready_retry-Stamped q.ready_retry q.entries q.sequence
          v.numbered v.ready_retry_ok (e.ready && e.is_retry) _ h e at refl refl;
  }
