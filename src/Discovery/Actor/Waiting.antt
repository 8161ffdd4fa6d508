-- ===== src/Discovery/Actor/Waiting.antt =====
-- The nodes of src/discovery.rs wait: each is queued, awaits an answer, or is `loose` in the middle of
-- an operation. The lemmas are the ways between these.
use dht_crawler.Base.{
  ◌≡◌, ◌≢◌, refl, sym, ap, subst, ◌∙◌, ◌⊎◌, inl, inr, true, is_some, [], Option, none, some, arith,
  Option-cases,
}
use mathlib.Core.Option.{some-injective}
use dht_crawler.Base.Assoc.{
  get, insert, get-insert_self, get-insert_other, Uniq, Uniq-insert, get-insert_cases,
}
use dht_crawler.Net.{SocketAddr, NodeTuple, addr_discrete}
use dht_crawler.Discovery.Actor.{
  DueKey, due_key_discrete, SampleNode, PendingSample, Nodes, Due, Pending,
}

abbrev pub node_at : SocketAddr → Nodes → Option SampleNode
node_at a nodes = get addr_discrete a nodes

abbrev pub queued_at : DueKey → Due → Option (Unit {0})
queued_at k due = get due_key_discrete k due

abbrev pub pending_at : SocketAddr → Pending → Option PendingSample
pending_at a pending = get addr_discrete a pending

pub record Waiting (loose : Option SocketAddr) (nodes : Nodes) (due : Due) (pending : Pending)
    : Type 0 where
  pub uniq_nodes : Uniq addr_discrete nodes
  pub uniq_due : Uniq due_key_discrete due
  pub uniq_pending : Uniq addr_discrete pending
  pub to_due :
      (a : SocketAddr) (e : SampleNode) (k : DueKey)
      → node_at a nodes ≡ some e
      → e.due ≡ some k
      → (queued_at k due ≡ some tt) × (k.2 ≡ a)
  pub idle :
      (a : SocketAddr) (e : SampleNode)
      → node_at a nodes ≡ some e
      → e.due ≡ none
      → (is_some (pending_at a pending) ≡ true) ⊎ (loose ≡ some a)
  pub to_node :
      (k : DueKey) (u : Unit {0})
      → queued_at k due ≡ some u
      → (e : SampleNode) × (node_at k.2 nodes ≡ some e) × (e.due ≡ some k)
  pub awaited :
      (a : SocketAddr) (p : PendingSample)
      → pending_at a pending ≡ some p
      → (e : SampleNode) × (node_at a nodes ≡ some e) × (e.due ≡ none)
  pub unawaited : (a : SocketAddr) → loose ≡ some a → pending_at a pending ≡ none

pub empty-Waiting : Waiting none [] [] []
unfolding get
empty-Waiting = record {
  uniq_nodes = tt;
  uniq_due = tt;
  uniq_pending = tt;
  to_due = λ a e k h d. absurd (cc);
  idle = λ a e h d. absurd (cc);
  to_node = λ k u h. absurd (cc);
  awaited = λ a p h. absurd (cc);
  unawaited = λ a h. absurd (cc);
}

module _ (nodes : Nodes) (due : Due) (pending : Pending) (a : SocketAddr) where
  -- A node that is there gets new data, and stays where it is.
  pub changed-Waiting :
      (loose : Option SocketAddr) (e : SampleNode) (node : NodeTuple)
      → Waiting loose nodes due pending
      → node_at a nodes ≡ some e
      → Waiting loose (insert addr_discrete a (record e { node = node }) nodes) due pending
  changed-Waiting loose e node v at = record {
    uniq_nodes = Uniq-insert addr_discrete a e nodes v.uniq_nodes;
    uniq_due = v.uniq_due;
    uniq_pending = v.uniq_pending;
    to_due = λ x f k h d. elim (get-insert_cases addr_discrete a x _ f nodes h) [
      | inl (here, same) ↦
          subst (λ y. (queued_at k due ≡ some tt) × (k.2 ≡ y)) here
            (v.to_due a e k at (ap (λ y. y.due) same ∙ d))
      | inr (apart, before) ↦ v.to_due x f k before d
    ];
    idle = λ x f h d. elim (get-insert_cases addr_discrete a x _ f nodes h) [
      | inl (here, same) ↦
          subst (λ y. (is_some (pending_at y pending) ≡ true) ⊎ (loose ≡ some y)) here
            (v.idle a e at (ap (λ y. y.due) same ∙ d))
      | inr (apart, before) ↦ v.idle x f before d
    ];
    to_node = λ k u h. let (f, there, d) = v.to_node k u h in kept k.2 f there (λ y. y ≡ some k) d;
    awaited = λ x p h. let (f, there, d) = v.awaited x p h in kept x f there (λ y. y ≡ none) d;
    unawaited = v.unawaited;
  }
    where
      same_node : (x : SocketAddr) → a ≡ x → (f : SampleNode) → node_at x nodes ≡ some f → f ≡ e
      same_node x here f there =
          some-injective f e (sym there ∙ ap (λ y. node_at y nodes) (sym here) ∙ at)

      kept :
          (x : SocketAddr) (f : SampleNode)
          → node_at x nodes ≡ some f
          → (P : Option DueKey → Type 0) → P f.due
          → (g : SampleNode) × (node_at x (insert addr_discrete a (record e { node = node }) nodes)
              ≡ some g)
            × P g.due
      kept x f there P d = elim (addr_discrete a x) [
        | yes here ↦ (
          record e { node = node },
          get-insert_self addr_discrete a x (record e { node = node }) nodes here,
          subst P (ap (λ y. y.due) (same_node x here f there)) d,
        )
        | no apart ↦ (f, get-insert_other addr_discrete a x _ nodes apart ∙ there, d)
      ]

  -- A new node is loose.
  pub new-Waiting :
      (node : NodeTuple)
      → Waiting none nodes due pending
      → node_at a nodes ≡ none
      → Waiting
          (some a)
          (insert addr_discrete a (record { node = node; due = none }) nodes)
          due
          pending
  new-Waiting node v absent = record {
    uniq_nodes =
        Uniq-insert addr_discrete a (record { node = node; due = none }) nodes v.uniq_nodes;
    uniq_due = v.uniq_due;
    uniq_pending = v.uniq_pending;
    to_due = λ x f k h d. elim (get-insert_cases addr_discrete a x _ f nodes h) [
      | inl (here, same) ↦ absurd (ground (arith, ap (λ y. y.due) same, d))
      | inr (apart, before) ↦ v.to_due x f k before d
    ];
    idle = λ x f h d. elim (get-insert_cases addr_discrete a x _ f nodes h) [
      | inl (here, same) ↦ inr (ap some here)
      | inr (apart, before) ↦ settled x (v.idle x f before d)
    ];
    to_node = λ k u h.
        let (f, there, d) = v.to_node k u h in
        (f, get-insert_other addr_discrete a k.2 _ nodes (elsewhere k.2 f there) ∙ there, d);
    awaited = λ x p h.
        let (f, there, d) = v.awaited x p h in
        (f, get-insert_other addr_discrete a x _ nodes (elsewhere x f there) ∙ there, d);
    unawaited = λ x same. elim (Option-cases (pending_at x pending)) [
      | inl free ↦ free
      | inr (p, asked) ↦
          let (f, there, d) = v.awaited x p asked in
          absurd (elsewhere x f there (some-injective a x same))
    ];
  }
    where
      elsewhere : (x : SocketAddr) (f : SampleNode) → node_at x nodes ≡ some f → a ≢ x
      elsewhere x f there here = ground (arith, absent, there, here)

      settled :
          (x : SocketAddr)
          → (is_some (pending_at x pending) ≡ true) ⊎ (◌≡◌ {A = Option SocketAddr} none (some x))
          → (is_some (pending_at x pending) ≡ true) ⊎ (some a ≡ some x)
      settled x (inl asked) = inl asked
      settled x (inr no_one) = absurd (cc)

  -- A loose node is queued.
  pub queued-Waiting :
      (e : SampleNode) (k : DueKey)
      → Waiting (some a) nodes due pending
      → node_at a nodes ≡ some e
      → e.due ≡ none
      → k.2 ≡ a
      → Waiting none
          (insert addr_discrete a (record e { due = some k }) nodes)
          (insert due_key_discrete k tt due)
          pending
  queued-Waiting e k v at idle place = record {
    uniq_nodes = Uniq-insert addr_discrete a e nodes v.uniq_nodes;
    uniq_due = Uniq-insert due_key_discrete k tt due v.uniq_due;
    uniq_pending = v.uniq_pending;
    to_due = λ x f j h d. elim (get-insert_cases addr_discrete a x _ f nodes h) [
      | inl (here, same) ↦
          let key = some-injective k j (ap (λ y. y.due) same ∙ d) in
          (get-insert_self due_key_discrete k j tt due key, sym (ap (λ y. y.2) key) ∙ place ∙ here)
      | inr (apart, before) ↦
          let (queued, there) = v.to_due x f j before d in
          let other : k ≢ j = λ same. apart (sym place ∙ ap (λ y. y.2) same ∙ there) in
          (get-insert_other due_key_discrete k j tt due other ∙ queued, there)
    ];
    idle = λ x f h d. elim (get-insert_cases addr_discrete a x _ f nodes h) [
      | inl (here, same) ↦ absurd (ground (arith, ap (λ y. y.due) same, d))
      | inr (apart, before) ↦ elim (v.idle x f before d) [
        | inl asked ↦ inl asked
        | inr same ↦ absurd (apart (some-injective a x same))
      ]
    ];
    to_node = λ j u h. elim (get-insert_cases due_key_discrete k j tt u due h) [
      | inl (same, _) ↦ (
        record e { due = some k },
        get-insert_self addr_discrete a j.2 (record e { due = some k }) nodes
            (sym place ∙ ap (λ y. y.2) same),
        ap some same,
      )
      | inr (other, before) ↦
          let (f, there, d) = v.to_node j u before in
          let apart : a ≢ j.2 = λ here. ground (arith, at, there, here, d, idle) in
          (f, get-insert_other addr_discrete a j.2 _ nodes apart ∙ there, d)
    ];
    awaited = λ x p h.
        let (f, there, d) = v.awaited x p h in
        let apart : a ≢ x = λ here. ground (arith, v.unawaited a refl, h, here) in
        (f, get-insert_other addr_discrete a x _ nodes apart ∙ there, d);
    unawaited = λ x same. absurd (cc);
  }
