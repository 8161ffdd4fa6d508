-- ===== src/Discovery/Actor/Admitting.antt =====
-- The operations on nodes in src/discovery.rs keep the invariant: entering a cooldown, and admission.
use dht_crawler.Base.{
  ℕ, suc, ◌+◌, ◌%◌, ◌^◌, ◌≤◌, ◌≡◌, ◌≢◌, max, refl, sym, ap, subst, ◌∙◌, inl, inr, leb, ltb, not,
  ◌||◌, length, Option, none, some, arith, Option-cases, Bool-cases,
}
use dht_crawler.Base.Assoc.{
  insert, remove, get-insert_self, get-insert_other, get-remove_self, get-insert_cases,
  get-remove_cases, Uniq-insert, length-remove, length-insert_new, length-insert_old,
  length-remove_le, get-remove_absent,
}
use dht_crawler.Base.Ordered.{first_key_value, get-first_key_value}
use dht_crawler.Net.{SocketAddr, NodeTuple, addr_discrete}
use dht_crawler.Addr.{addr_allowed_by_netmode, is_valid_node_addr}
use dht_crawler.Budget.{Float}
use dht_crawler.Discovery.Actor.{
  DueKey, due_key_discrete, due_key_lt, cool_key_discrete, SampleNode, without_key, DiscoveryActor,
  schedule, schedule_entry, cool_entry, enter_cooldown, first_due, add_node, replace_node,
  admit_entry, admit_cooled, admit_node,
}
use dht_crawler.Discovery.Actor.Waiting.{
  node_at, queued_at, changed-Waiting, new-Waiting, queued-Waiting,
}
use dht_crawler.Discovery.Actor.Moving.{left-Waiting, absent-Waiting, dropped-Waiting}
use dht_crawler.Discovery.Actor.Cooling.{cooled_at, cooled-Cooling, released-Cooling}
use dht_crawler.Discovery.Actor.Invariant.{Inv, Loose}

module _ (F : Float) where
  -- An address with a node has no cooldown.
  uncooled_of :
      (a : SocketAddr) (s : DiscoveryActor F)
      → ((c : NodeTuple × ℕ) → cooled_at a s.cooldowns ≡ some c → node_at a s.nodes ≡ none)
      → (e : SampleNode) → node_at a s.nodes ≡ some e
      → cooled_at a s.cooldowns ≡ none
  uncooled_of a s apart e at = elim (Option-cases (cooled_at a s.cooldowns)) [
    | inl free ↦ free
    | inr (c, cooled) ↦ absurd (ground (arith, apart c cooled, at))
  ]

  cool_entry-Inv :
      (a : SocketAddr) (until : ℕ) (s : DiscoveryActor F) (found : Option SampleNode)
      → Loose F a s
      → node_at a s.nodes ≡ found
      → Inv F (cool_entry F found a until s)
  unfolding cool_entry
  cool_entry-Inv a until s none v absent = record {
    waiting = absent-Waiting s.nodes s.due s.pending a v.waiting absent;
    cooling = v.cooling;
    apart = v.apart;
    named = v.named;
    few = v.few;
    room = omega (arith, v.room);
  }
  cool_entry-Inv a until s (some e) v at =
      let free : cooled_at a s.cooldowns ≡ none = uncooled_of a s (v.apart a) e at in
      subst
        (λ d. Inv F (record s {
          nodes = remove addr_discrete a s.nodes;
          due = without_key d s.due;
          cooldowns = insert addr_discrete a (e.node, until) s.cooldowns;
          cooldown_expiry = insert cool_key_discrete (until, a) tt s.cooldown_expiry;
        }))
        (sym (v.unqueued e at))
        (record {
          waiting = left-Waiting s.nodes s.due s.pending a e v.waiting at (v.unqueued e at);
          cooling = cooled-Cooling s.cooldowns s.cooldown_expiry v.cooling a e.node until free;
          apart = λ x c h.
              elim (get-insert_cases addr_discrete a x (e.node, until) c s.cooldowns h) [
                | inl (here, _) ↦
                    subst (λ y. node_at y (remove addr_discrete a s.nodes) ≡ none) here
                      (get-remove_self addr_discrete a s.nodes)
                | inr (_, before) ↦ get-remove_absent addr_discrete a x s.nodes (v.apart x c before)
              ];
          named = λ x f h. v.named x f (get-remove_cases addr_discrete a x f s.nodes h).1;
          few = omega (arith, v.few, length-remove_le addr_discrete a s.nodes v.waiting.uniq_nodes);
          room =
              omega
                (arith, v.room, length-insert_new addr_discrete a (e.node, until) s.cooldowns free);
        })

  -- A loose node enters its cooldown.
  pub enter_cooldown-Inv :
      (a : SocketAddr) (until : ℕ) (s : DiscoveryActor F)
      → Loose F a s
      → Inv F (enter_cooldown F a until s)
  unfolding enter_cooldown
  enter_cooldown-Inv a until s v = cool_entry-Inv a until s (node_at a s.nodes) v refl

  add_node-Inv :
      (node : NodeTuple) (now : ℕ) (s : DiscoveryActor F)
      → Inv F s
      → node_at node.addr s.nodes ≡ none
      → cooled_at node.addr s.cooldowns ≡ none
      → suc (length s.nodes) ≤ max s.options.sample_max_nodes 1
      → Inv F (add_node F node now s)
  unfolding add_node schedule schedule_entry
  add_node-Inv node now s v absent free place =
      let a = node.addr in
      let e : SampleNode = record { node = node; due = none } in
      let key : DueKey = (now, (s.sequence + 1) % 2 ^ 64, a) in
      let e' : SampleNode = record { node = node; due = some key } in
      let there = get-insert_self addr_discrete a a e s.nodes refl in
      let grown = insert addr_discrete a e s.nodes in
      rw there (record {
        waiting =
            queued-Waiting grown s.due s.pending a e key
              (new-Waiting s.nodes s.due s.pending a node v.waiting absent) there refl refl;
        cooling = v.cooling;
        apart = λ x c h.
            let other : a ≢ x = λ here. ground (arith, free, h, here) in
            get-insert_other addr_discrete a x e' grown other
            ∙ get-insert_other addr_discrete a x e s.nodes other
            ∙ v.apart x c h;
        named = λ x f h. elim (get-insert_cases addr_discrete a x e' f grown h) [
          | inl (here, same) ↦ ground (arith, here, ap (λ y. y.node.addr) same)
          | inr (other, before) ↦
              v.named x f (sym (get-insert_other addr_discrete a x e s.nodes other) ∙ before)
        ];
        few = omega (
          arith,
          place,
          length-insert_old addr_discrete a e' e grown
              (Uniq-insert addr_discrete a e s.nodes v.waiting.uniq_nodes) there,
          length-insert_new addr_discrete a e s.nodes absent,
        );
        room = v.room;
      })

  -- A cooldown is taken out with its time.
  pub taken_out-Inv :
      (a : SocketAddr) (node : NodeTuple) (until : ℕ) (s : DiscoveryActor F)
      → Inv F s
      → cooled_at a s.cooldowns ≡ some (node, until)
      → Inv F (record s {
        cooldowns = remove addr_discrete a s.cooldowns;
        cooldown_expiry = remove cool_key_discrete (until, a) s.cooldown_expiry;
      })
  taken_out-Inv a node until s v at = record {
    waiting = v.waiting;
    cooling = released-Cooling s.cooldowns s.cooldown_expiry v.cooling a node until at;
    apart = λ x c h. v.apart x c (get-remove_cases addr_discrete a x c s.cooldowns h).1;
    named = v.named;
    few = v.few;
    room = omega (arith, v.room, length-remove addr_discrete a s.cooldowns v.cooling.uniq at);
  }

  pub first_due-queued :
      (now : ℕ) (s : DiscoveryActor F) (key : DueKey)
      → Inv F s
      → first_due F now s ≡ some key
      → queued_at key s.due ≡ some tt
  unfolding first_due
  first_due-queued now s key v first = elim (Option-cases (first_key_value due_key_lt s.due)) [
    | inl empty ↦ absurd (ground (arith, empty, first))
    | inr ((k, u), found) ↦
        let same : k ≡ key = ground (arith, found, first) in
        subst (λ x. queued_at x s.due ≡ some tt) same
          (get-first_key_value due_key_lt due_key_discrete s.due k u v.waiting.uniq_due found)
  ]

  replace_node-Inv :
      (found : Option DueKey) (node : NodeTuple) (now : ℕ) (s : DiscoveryActor F)
      → first_due F now s ≡ found
      → Inv F s
      → node_at node.addr s.nodes ≡ none
      → cooled_at node.addr s.cooldowns ≡ none
      → Inv F (replace_node F found node now s)
  unfolding replace_node first_due
  replace_node-Inv none node now s first v absent free = v
  replace_node-Inv (some key) node now s first v absent free =
      let queued = first_due-queued now s key v first in
      let (e, at, due) = v.waiting.to_node key tt queued in
      let size = length-remove addr_discrete key.2 s.nodes v.waiting.uniq_nodes at in
      add_node-Inv node now
        (record s {
          due = remove due_key_discrete key s.due;
          nodes = remove addr_discrete key.2 s.nodes;
        })
        (record {
          waiting = dropped-Waiting s.nodes s.due s.pending key.2 e key v.waiting at due;
          cooling = v.cooling;
          apart = λ x c h. get-remove_absent addr_discrete key.2 x s.nodes (v.apart x c h);
          named = λ x f h. v.named x f (get-remove_cases addr_discrete key.2 x f s.nodes h).1;
          few = omega (arith, size, v.few);
          room = v.room;
        })
        (get-remove_absent addr_discrete key.2 node.addr s.nodes absent) free
        (omega (arith, size, v.few))

  admit_entry-Inv :
      (found : Option SampleNode) (node : NodeTuple) (now : ℕ) (s : DiscoveryActor F)
      → node_at node.addr s.nodes ≡ found
      → Inv F s
      → cooled_at node.addr s.cooldowns ≡ none
      → Inv F (admit_entry F found node now s)
  unfolding admit_entry
  admit_entry-Inv (some e) node now s at v free =
      let e' : SampleNode = record e { node = node } in
      record {
        waiting = changed-Waiting s.nodes s.due s.pending node.addr none e node v.waiting at;
        cooling = v.cooling;
        apart = λ x c h.
            let other : node.addr ≢ x = λ here. ground (arith, free, h, here) in
            get-insert_other addr_discrete node.addr x e' s.nodes other ∙ v.apart x c h;
        named = λ x f h. elim (get-insert_cases addr_discrete node.addr x e' f s.nodes h) [
          | inl (here, same) ↦ ground (arith, here, ap (λ y. y.node.addr) same)
          | inr (_, before) ↦ v.named x f before
        ];
        few = omega (
          arith,
          v.few,
          length-insert_old addr_discrete node.addr e' e s.nodes v.waiting.uniq_nodes at,
        );
        room = v.room;
      }
  admit_entry-Inv none node now s absent v free =
      elim (Bool-cases (leb (max s.options.sample_max_nodes 1) (length s.nodes))) [
        | inl full ↦ rw full (replace_node-Inv (first_due F now s) node now s refl v absent free)
        | inr place ↦ rw place (add_node-Inv node now s v absent free (ground arith))
      ]

  admit_cooled-Inv :
      (found : Option (NodeTuple × ℕ)) (node : NodeTuple) (now : ℕ) (s : DiscoveryActor F)
      → cooled_at node.addr s.cooldowns ≡ found
      → Inv F s
      → Inv F (admit_cooled F found node now s)
  unfolding admit_cooled
  admit_cooled-Inv none node now s free v =
      admit_entry-Inv (node_at node.addr s.nodes) node now s refl v free
  admit_cooled-Inv (some (old, until)) node now s at v =
      let s' : DiscoveryActor F = record s {
        cooldowns = remove addr_discrete node.addr s.cooldowns;
        cooldown_expiry = remove cool_key_discrete (until, node.addr) s.cooldown_expiry;
      } in
      elim (Bool-cases (ltb now until)) [
        | inl cooling ↦ rw cooling v
        | inr over ↦ rw over (
            admit_entry-Inv (node_at node.addr s.nodes) node now s' refl
              (taken_out-Inv node.addr old until s v at)
              (get-remove_self addr_discrete node.addr s.cooldowns))
      ]

  pub admit_node-Inv :
      (node : NodeTuple) (now : ℕ) (s : DiscoveryActor F)
      → Inv F s
      → Inv F (admit_node F node now s)
  unfolding admit_node
  admit_node-Inv node now s v =
      elim (Bool-cases
        (not (is_valid_node_addr node.addr) || not (addr_allowed_by_netmode node.addr s.netmode))) [
          | inl refused ↦ rw refused v
          | inr accepted ↦
              rw accepted (admit_cooled-Inv (cooled_at node.addr s.cooldowns) node now s refl v)
        ]
