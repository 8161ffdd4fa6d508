-- ===== src/Discovery/Actor/Moving.antt =====
-- The ways of a node in src/discovery.rs that is asked, answers or leaves.
use dht_crawler.Base.{
  ◌≡◌, ◌≢◌, refl, sym, ap, subst, ◌∙◌, inl, inr, Option, none, some, arith, Option-cases,
}
use mathlib.Core.Option.{some-injective}
use dht_crawler.Base.Assoc.{
  insert, remove, get-insert_self, get-insert_other, get-remove_self, get-remove_other, Uniq-insert,
  Uniq-remove, get-insert_cases, get-remove_cases, remove-insert,
}
use dht_crawler.Net.{SocketAddr, addr_discrete}
use dht_crawler.Discovery.Actor.{
  DueKey, due_key_discrete, SampleNode, PendingSample, Nodes, Due, Pending,
}
use dht_crawler.Discovery.Actor.Waiting.{Waiting, node_at, pending_at}

module _ (nodes : Nodes) (due : Due) (pending : Pending) (a : SocketAddr) where
  -- A queued node becomes loose.
  pub unqueued-Waiting :
      (e : SampleNode) (k : DueKey)
      → Waiting none nodes due pending
      → node_at a nodes ≡ some e
      → e.due ≡ some k
      → Waiting
          (some a)
          (insert addr_discrete a (record e { due = none }) nodes)
          (remove due_key_discrete k due)
          pending
  unqueued-Waiting e k v at queued = record {
    uniq_nodes = Uniq-insert addr_discrete a e nodes v.uniq_nodes;
    uniq_due = Uniq-remove due_key_discrete k due v.uniq_due;
    uniq_pending = v.uniq_pending;
    to_due = λ x f j h d. elim (get-insert_cases addr_discrete a x _ f nodes h) [
      | inl (here, same) ↦ absurd (ground (arith, ap (λ y. y.due) same, d))
      | inr (apart, before) ↦
          let (still, there) = v.to_due x f j before d in
          let other : k ≢ j =
            λ same. apart (sym (v.to_due a e k at queued).1 ∙ ap (λ y. y.2) same ∙ there) in
          (get-remove_other due_key_discrete k j due other ∙ still, there)
    ];
    idle = λ x f h d. elim (get-insert_cases addr_discrete a x _ f nodes h) [
      | inl (here, same) ↦ inr (ap some here)
      | inr (apart, before) ↦ elim (v.idle x f before d) [
        | inl asked ↦ inl asked
        | inr no_one ↦ absurd (cc)
      ]
    ];
    to_node = λ j u h.
        let (other, before) = get-remove_cases due_key_discrete k j u due h in
        let (f, there, d) = v.to_node j u before in
        let apart : a ≢ j.2 =
          λ here. other (some-injective k j (one_due j.2 here f there (some j) d)) in
        (f, get-insert_other addr_discrete a j.2 _ nodes apart ∙ there, d);
    awaited = λ x p h.
        let (f, there, d) = v.awaited x p h in
        let apart : a ≢ x = λ here. ground (arith, one_due x here f there none d) in
        (f, get-insert_other addr_discrete a x _ nodes apart ∙ there, d);
    unawaited = λ x same. elim (Option-cases (pending_at x pending)) [
      | inl free ↦ free
      | inr (p, asked) ↦
          let (f, there, d) = v.awaited x p asked in
          absurd (ground (arith, one_due x (some-injective a x same) f there none d))
    ];
  }
    where
      one_due :
          (x : SocketAddr)
          → a ≡ x
          → (f : SampleNode) → node_at x nodes ≡ some f
          → (o : Option DueKey) → f.due ≡ o
          → some k ≡ o
      one_due x here f there o d =
          sym queued
          ∙ ap (λ y. y.due) (some-injective e f (sym at ∙ ap (λ y. node_at y nodes) here ∙ there))
          ∙ d

  -- A node whose answer came, or did not come, is loose.
  pub answered-Waiting :
      Waiting none nodes due pending → Waiting (some a) nodes due (remove addr_discrete a pending)
  answered-Waiting v = record {
    uniq_nodes = v.uniq_nodes;
    uniq_due = v.uniq_due;
    uniq_pending = Uniq-remove addr_discrete a pending v.uniq_pending;
    to_due = v.to_due;
    idle = λ x f h d. elim (addr_discrete a x) [
      | yes here ↦ inr (ap some here)
      | no apart ↦ elim (v.idle x f h d) [
        | inl asked ↦ inl (rw (get-remove_other addr_discrete a x pending apart) asked)
        | inr no_one ↦ absurd (cc)
      ]
    ];
    to_node = v.to_node;
    awaited = λ x p h. v.awaited x p (get-remove_cases addr_discrete a x p pending h).1;
    unawaited = λ x same.
        subst (λ y. pending_at y (remove addr_discrete a pending) ≡ none) (some-injective a x same)
          (get-remove_self addr_discrete a pending);
  }

  -- A request was sent to a loose node.
  pub asked-Waiting :
      (e : SampleNode) (p : PendingSample)
      → Waiting (some a) nodes due pending
      → node_at a nodes ≡ some e
      → e.due ≡ none
      → Waiting none nodes due (insert addr_discrete a p pending)
  asked-Waiting e p v at idle = record {
    uniq_nodes = v.uniq_nodes;
    uniq_due = v.uniq_due;
    uniq_pending = Uniq-insert addr_discrete a p pending v.uniq_pending;
    to_due = v.to_due;
    idle = λ x f h d. elim (addr_discrete a x) [
      | yes here ↦ inl (rw (get-insert_self addr_discrete a x p pending here) refl)
      | no apart ↦ elim (v.idle x f h d) [
        | inl asked ↦ inl (rw (get-insert_other addr_discrete a x p pending apart) asked)
        | inr same ↦ absurd (apart (some-injective a x same))
      ]
    ];
    to_node = v.to_node;
    awaited = λ x q h. elim (get-insert_cases addr_discrete a x p q pending h) [
      | inl (here, _) ↦ (e, ap (λ y. node_at y nodes) (sym here) ∙ at, idle)
      | inr (apart, before) ↦ v.awaited x q before
    ];
    unawaited = λ x same. absurd (cc);
  }

  -- A loose node leaves.
  pub left-Waiting :
      (e : SampleNode)
      → Waiting (some a) nodes due pending
      → node_at a nodes ≡ some e
      → e.due ≡ none
      → Waiting none (remove addr_discrete a nodes) due pending
  left-Waiting e v at idle = record {
    uniq_nodes = Uniq-remove addr_discrete a nodes v.uniq_nodes;
    uniq_due = v.uniq_due;
    uniq_pending = v.uniq_pending;
    to_due = λ x f k h d. v.to_due x f k (get-remove_cases addr_discrete a x f nodes h).1 d;
    idle = λ x f h d.
        let (apart, before) = get-remove_cases addr_discrete a x f nodes h in
        elim (v.idle x f before d) [
          | inl asked ↦ inl asked
          | inr same ↦ absurd (apart (some-injective a x same))
        ];
    to_node = λ j u h.
        let (f, there, d) = v.to_node j u h in
        let apart : a ≢ j.2 = λ here. ground (arith, at, there, here, d, idle) in
        (f, get-remove_other addr_discrete a j.2 nodes apart ∙ there, d);
    awaited = λ x p h.
        let (f, there, d) = v.awaited x p h in
        let apart : a ≢ x = λ here. ground (arith, v.unawaited a refl, h, here) in
        (f, get-remove_other addr_discrete a x nodes apart ∙ there, d);
    unawaited = λ x same. absurd (cc);
  }

  -- The loose node is none.
  pub absent-Waiting :
      Waiting (some a) nodes due pending → node_at a nodes ≡ none → Waiting none nodes due pending
  absent-Waiting v absent = record {
    uniq_nodes = v.uniq_nodes;
    uniq_due = v.uniq_due;
    uniq_pending = v.uniq_pending;
    to_due = v.to_due;
    idle = λ x f h d. elim (v.idle x f h d) [
      | inl asked ↦ inl asked
      | inr same ↦ absurd (ground (arith, h, absent, some-injective a x same))
    ];
    to_node = v.to_node;
    awaited = v.awaited;
    unawaited = λ x same. absurd (cc);
  }

-- A queued node leaves.
pub dropped-Waiting :
    (nodes : Nodes) (due : Due) (pending : Pending) (a : SocketAddr) (e : SampleNode) (k : DueKey)
    → Waiting none nodes due pending
    → node_at a nodes ≡ some e
    → e.due ≡ some k
    → Waiting none (remove addr_discrete a nodes) (remove due_key_discrete k due) pending
dropped-Waiting nodes due pending a e k v at queued =
    let e' : SampleNode = record e { due = none } in
    subst (λ x. Waiting none x (remove due_key_discrete k due) pending)
      (remove-insert addr_discrete a e' nodes)
      (left-Waiting (insert addr_discrete a e' nodes) (remove due_key_discrete k due) pending a e'
        (unqueued-Waiting nodes due pending a e k v at queued)
        (get-insert_self addr_discrete a a e' nodes refl) refl)
