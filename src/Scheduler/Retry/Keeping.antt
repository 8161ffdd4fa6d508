-- ===== src/Scheduler/Retry/Keeping.antt =====
-- `record`, `observe_event` and `remember` of `RetryHistory` in src/scheduler.rs: no lifetime is
-- extended, and no hash in its lifetime is forgotten.
use dht_crawler.Base.{
  ℕ, ◌≤◌, ◌≡◌, ◌≢◌, refl, sym, ap, subst, ◌∙◌, max, Bool, leb, length, Option, none, some, arith,
  Bool-cases, inl, inr,
}
use mathlib.Core.Logic.{if_pos, if_neg}
use mathlib.Core.Option.{some-injective}
use dht_crawler.Base.Assoc.{insert, get-insert, Uniq-insert, length-insert_new, length-insert_old}
use dht_crawler.Options.{MetadataOptions}
use dht_crawler.Scheduler.{Hash, hash_discrete, HashDiscovered, QueuedHash}
use dht_crawler.Scheduler.Retry.{
  RetryState, RetryHistory, RetryKey, retry_key_discrete, new_state, count_failure, record_state,
  record_result, expire, observe, addr_of_node, grant_attempt, observe_state, observe_event,
  observe_peers, observe_nodes, remember_state, remember,
}
use dht_crawler.Scheduler.Retry.States.{
  IsState, observe-IsState, grant_attempt-IsState, observe_peers-IsState, observe_nodes-IsState,
}
use dht_crawler.Scheduler.Retry.Lifetimes.{Inv, state_at, listed, alive, expire-Forgets}

-- The hashes that had a state keep one, with the same end of its lifetime.
pub record Keeps (states : Hash → Option RetryState) (history : RetryHistory) : Type 0 where
  pub inv : Inv history
  pub kept :
      (h : Hash) (s : RetryState)
      → states h ≡ some s
      → (s' : RetryState) × (state_at h history ≡ some s')
        × (s'.retry.expires_at ≡ s.retry.expires_at)

Keeps-refl : (history : RetryHistory) → Inv history → Keeps (λ h. state_at h history) history
Keeps-refl history v = record { inv = v; kept = λ h s at. (s, at, refl) }

-- A state changes within its lifetime.
changed-Keeps :
    (history : RetryHistory) (h : Hash) (s s' : RetryState)
    → Inv history
    → state_at h history ≡ some s
    → s'.retry.expires_at ≡ s.retry.expires_at
    → IsState s'
    → Keeps
        (λ x. state_at x history)
        (record history { entries = insert hash_discrete h s' history.entries })
changed-Keeps history h s s' v at same ok = record {
  inv = record {
    uniq = Uniq-insert hash_discrete h s' history.entries v.uniq;
    uniq_expiry = v.uniq_expiry;
    to_expiry = λ x t there. elim (hash_discrete h x) [
      | yes here ↦
          let new : s' ≡ t = ground (arith, get-insert hash_discrete h x s' history.entries) in
          let key : RetryKey = (s.retry.expires_at, h) in
          let key' : RetryKey = (t.retry.expires_at, x) in
          let whole : key ≡ key' = ground (arith, ap (λ y. y.retry.expires_at) new, same, here) in
          subst (λ k. listed k history ≡ some tt) whole (v.to_expiry h s at)
      | no apart ↦ v.to_expiry x t (ground (arith, get-insert hash_discrete h x s' history.entries))
    ];
    to_state = λ k u there.
        let (t, at_t, time) = v.to_state k u there in
        elim (hash_discrete h k.1) [
          | yes here ↦
              let old : s ≡ t =
                some-injective s t (sym at ∙ ap (λ x. state_at x history) here ∙ at_t) in
              (
                s',
                rw (get-insert hash_discrete h k.1 s' history.entries, if_pos _ here),
                same ∙ ap (λ y. y.retry.expires_at) old ∙ time,
              )
          | no apart ↦
              (t, rw (get-insert hash_discrete h k.1 s' history.entries, if_neg _ apart) at_t, time)
        ];
    states = λ x t there. elim (hash_discrete h x) [
      | yes here ↦
          let new : s' ≡ t = ground (arith, get-insert hash_discrete h x s' history.entries) in
          subst IsState new ok
      | no apart ↦ v.states x t (ground (arith, get-insert hash_discrete h x s' history.entries))
    ];
  };
  kept = λ x t at_t. elim (hash_discrete h x) [
    | yes here ↦
        let old : s ≡ t = some-injective s t (sym at ∙ ap (λ y. state_at y history) here ∙ at_t) in
        (
          s',
          rw (get-insert hash_discrete h x s' history.entries, if_pos _ here),
          same ∙ ap (λ y. y.retry.expires_at) old,
        )
    | no apart ↦
        (t, rw (get-insert hash_discrete h x s' history.entries, if_neg _ apart) at_t, refl)
  ];
}

-- A new state comes with its key.
added-Keeps :
    (history : RetryHistory) (h : Hash) (s : RetryState)
    → Inv history
    → state_at h history ≡ none
    → IsState s
    → Keeps
        (λ x. state_at x history)
        (record {
          entries = insert hash_discrete h s history.entries;
          expiry = insert retry_key_discrete (s.retry.expires_at, h) tt history.expiry;
        })
added-Keeps history h s v absent ok =
    let key : RetryKey = (s.retry.expires_at, h) in
    record {
      inv = record {
        uniq = Uniq-insert hash_discrete h s history.entries v.uniq;
        uniq_expiry = Uniq-insert retry_key_discrete key tt history.expiry v.uniq_expiry;
        to_expiry = λ x t there. elim (hash_discrete h x) [
          | yes here ↦
              let new : s ≡ t = ground (arith, get-insert hash_discrete h x s history.entries) in
              let key' : RetryKey = (t.retry.expires_at, x) in
              let whole : key ≡ key' = ground (arith, ap (λ y. y.retry.expires_at) new, here) in
              rw (get-insert retry_key_discrete key key' tt history.expiry, if_pos _ whole)
          | no apart ↦
              let key' : RetryKey = (t.retry.expires_at, x) in
              let other : key ≢ key' = λ same. apart (ap (λ k. k.1) same) in
              rw (get-insert retry_key_discrete key key' tt history.expiry, if_neg _ other)
                (v.to_expiry x t (ground (arith, get-insert hash_discrete h x s history.entries)))
        ];
        to_state = λ k u there. elim (retry_key_discrete key k) [
          | yes same ↦ (
            s,
            rw (get-insert hash_discrete h k.1 s history.entries, if_pos _ (ap (λ y. y.1) same)),
            ap (λ y. y.0) same,
          )
          | no other ↦
              let before : listed k history ≡ some u =
                ground (arith, get-insert retry_key_discrete key k tt history.expiry) in
              let (t, at_t, time) = v.to_state k u before in
              let apart : h ≢ k.1 = λ here. ground (arith, absent, at_t) in
              (t, rw (get-insert hash_discrete h k.1 s history.entries, if_neg _ apart) at_t, time)
        ];
        states = λ x t there. elim (hash_discrete h x) [
          | yes here ↦
              let new : s ≡ t = ground (arith, get-insert hash_discrete h x s history.entries) in
              subst IsState new ok
          | no apart ↦ v.states x t (ground (arith, get-insert hash_discrete h x s history.entries))
        ];
      };
      kept = λ x t at_t.
          let apart : h ≢ x = λ here. ground (arith, absent, at_t) in
          (t, rw (get-insert hash_discrete h x s history.entries, if_neg _ apart) at_t, refl);
    }

counted-IsState :
    (s : RetryState) (now : ℕ) (failed : Bool) (delay : ℕ) (policy : MetadataOptions)
    → IsState s
    → IsState (record s { retry = count_failure now failed delay policy s.retry })
unfolding count_failure
counted-IsState s now failed delay policy ok = record {
  peers_bounded = ok.peers_bounded;
  peers_distinct = ok.peers_distinct;
  sources_bounded = ok.sources_bounded;
  sources_distinct = ok.sources_distinct;
  extra_bounded = ok.extra_bounded;
}

new-IsState : (now : ℕ) (policy : MetadataOptions) → IsState (new_state now policy)
unfolding new_state
new-IsState now policy = record {
  peers_bounded = omega arith;
  peers_distinct = tt;
  sources_bounded = omega arith;
  sources_distinct = tt;
  extra_bounded = omega arith;
}

module _ (hash : Hash) (now : ℕ) (failed : Bool) (delay : ℕ) (policy : MetadataOptions) where
  record_state-Keeps :
      (history : RetryHistory) (found : Option RetryState)
      → Inv history
      → state_at hash history ≡ found
      → let result = (record_state found hash now failed delay policy history).0 in
        Keeps (λ h. state_at h history) result
        × (length result.entries ≤ max (length history.entries) policy.retry_history_capacity)
  unfolding record_state count_failure
  record_state-Keeps history (some s) v at = (
    changed-Keeps history hash s _ v at refl
        (counted-IsState s now failed delay policy (v.states hash s at)),
    omega (
      arith,
      length-insert_old hash_discrete hash
          (record s { retry = count_failure now failed delay policy s.retry }) s history.entries
          v.uniq at,
    ),
  )
  record_state-Keeps history none v absent =
      elim (Bool-cases (leb policy.retry_history_capacity (length history.entries))) [
        | inl full ↦ rw full (Keeps-refl history v, omega arith)
        | inr room ↦
            let s = new_state now policy in
            let s' : RetryState = record s {
              retry = count_failure now failed delay policy s.retry;
            } in
            rw room (
              added-Keeps history hash s' v absent
                  (counted-IsState s now failed delay policy (new-IsState now policy)),
              ground (arith, length-insert_new hash_discrete hash s' history.entries absent),
            )
      ]

  -- On a history with its invariant, recording a result forgets only what is over by `now` and leaves
  -- the end of every other lifetime as it was, the recorded hash's too; the history then has no
  -- more entries than its capacity, or than the expiry left.
  pub record_result-Keeps :
      (history : RetryHistory)
      → Inv history
      → let result = (record_result hash now failed delay policy history).0 in
        Keeps (λ h. alive now (state_at h history)) result
        × (length result.entries
            ≤ max (length (expire now history).entries) policy.retry_history_capacity)
  unfolding record_result
  record_result-Keeps history v =
      let forgets = expire-Forgets now history v in
      let (keeps, bounded) = record_state-Keeps (expire now history) _ forgets.inv refl in
      (
        record { inv = keeps.inv; kept = λ h s at. keeps.kept h s (forgets.entries h ∙ at) },
        bounded,
      )

-- Observing an event keeps the invariant, with at most two extra attempts for a hash, and leaves the
-- end of every lifetime that is not over by `now` as it was.
pub observe_event-Keeps :
    (event : HashDiscovered) (now : ℕ) (policy : MetadataOptions) (history : RetryHistory)
    → Inv history
    → Keeps (λ h. alive now (state_at h history)) (observe_event event now policy history).0
unfolding observe_event observe_state
observe_event-Keeps event now policy history v =
    let forgets = expire-Forgets now history v in
    let later = expire now history in
    let keeps = go later (state_at event.info_hash later) forgets.inv refl in
    record { inv = keeps.inv; kept = λ h s at. keeps.kept h s (forgets.entries h ∙ at) }
  where
    go :
        (h : RetryHistory) (found : Option RetryState)
        → Inv h
        → state_at event.info_hash h ≡ found
        → Keeps (λ x. state_at x h) (observe_state found event now policy h).0
    go h none v at = Keeps-refl h v
    go h (some s) v at =
        let (seen, novel) = observe event.peer_addr (addr_of_node event.source_node) s in
        let ok =
          observe-IsState event.peer_addr (addr_of_node event.source_node) s
            (v.states event.info_hash s at) in
        let (ok', same) = grant_attempt-IsState now policy seen novel ok in
        changed-Keeps h event.info_hash s (grant_attempt now policy (seen, novel)) v at same ok'

-- Remembering the addresses of an entry changes no lifetime, and keeps what is remembered in bounds.
pub remember-Keeps :
    (entry : QueuedHash) (history : RetryHistory)
    → Inv history
    → Keeps (λ h. state_at h history) (remember entry history)
unfolding remember remember_state
remember-Keeps entry history v = go (state_at entry.info_hash history) refl
  where
    go :
        (found : Option RetryState)
        → state_at entry.info_hash history ≡ found
        → Keeps (λ h. state_at h history) (remember_state found entry history)
    go none at = Keeps-refl history v
    go (some s) at =
        let (ok, same) = observe_peers-IsState entry.peers s (v.states entry.info_hash s at) in
        let (ok', same') =
          observe_nodes-IsState entry.source_nodes (observe_peers entry.peers s) ok in
        changed-Keeps history entry.info_hash s
          (observe_nodes entry.source_nodes (observe_peers entry.peers s)) v at
          (ap (λ r. r.expires_at) (same' ∙ same)) ok'
