-- ===== src/Discovery/Actor/Held.antt =====
-- Cooldowns of src/discovery.rs: a node that cools down stays out until its time is over.
use dht_crawler.Base.{
  ℕ, ◌<◌, ◌≡◌, ◌≢◌, max, refl, ap, ◌∙◌, inl, inr, true, leb, ltb, not, ◌||◌, length, Option, none,
  some, arith, Bool-cases,
}
use dht_crawler.Base.Assoc.{
  insert, remove, get-insert_self, get-insert_other, get-remove_other, get-remove_absent,
}
use dht_crawler.Net.{SocketAddr, NodeTuple, addr_discrete}
use dht_crawler.Addr.{addr_allowed_by_netmode, is_valid_node_addr}
use dht_crawler.Budget.{Float}
use dht_crawler.Discovery.Actor.{
  DueKey, due_key_discrete, cool_key_discrete, SampleNode, DiscoveryActor, schedule, schedule_entry,
  cool_entry, enter_cooldown, first_due, add_node, replace_node, admit_entry, admit_cooled,
  admit_node,
}
use dht_crawler.Discovery.Actor.Waiting.{node_at}
use dht_crawler.Discovery.Actor.Cooling.{cooled_at}

module _ (F : Float) (a : SocketAddr) (c : NodeTuple × ℕ) where
  pub record Held (s : DiscoveryActor F) : Type 0 where
    pub cooled : cooled_at a s.cooldowns ≡ some c
    pub out : node_at a s.nodes ≡ none

  cool_entry-Held :
      (b : SocketAddr) (until : ℕ) (s : DiscoveryActor F) (found : Option SampleNode)
      → node_at b s.nodes ≡ found
      → Held s
      → Held (cool_entry F found b until s)
  unfolding cool_entry
  cool_entry-Held b until s none absent v = v
  cool_entry-Held b until s (some e) at v =
      let other : b ≢ a = λ here. ground (arith, at, v.out, here) in
      record {
        cooled = get-insert_other addr_discrete b a (e.node, until) s.cooldowns other ∙ v.cooled;
        out = get-remove_absent addr_discrete b a s.nodes v.out;
      }

  pub enter_cooldown-Held :
      (b : SocketAddr) (until : ℕ) (s : DiscoveryActor F)
      → Held s
      → Held (enter_cooldown F b until s)
  unfolding enter_cooldown
  enter_cooldown-Held b until s v = cool_entry-Held b until s (node_at b s.nodes) refl v

  add_node-Held :
      (node : NodeTuple) (now : ℕ) (s : DiscoveryActor F)
      → node.addr ≢ a
      → Held s
      → Held (add_node F node now s)
  unfolding add_node schedule schedule_entry
  add_node-Held node now s other v =
      let e : SampleNode = record { node = node; due = none } in
      let grown = insert addr_discrete node.addr e s.nodes in
      rw (get-insert_self addr_discrete node.addr node.addr e s.nodes refl) (record {
        cooled = v.cooled;
        out =
            get-insert_other addr_discrete node.addr a _ grown other
            ∙ get-insert_other addr_discrete node.addr a e s.nodes other
            ∙ v.out;
      })

  replace_node-Held :
      (found : Option DueKey) (node : NodeTuple) (now : ℕ) (s : DiscoveryActor F)
      → node.addr ≢ a
      → Held s
      → Held (replace_node F found node now s)
  unfolding replace_node
  replace_node-Held none node now s other v = v
  replace_node-Held (some key) node now s other v =
      add_node-Held node now
        (record s {
          due = remove due_key_discrete key s.due;
          nodes = remove addr_discrete key.2 s.nodes;
        })
        other
        (record { cooled = v.cooled; out = get-remove_absent addr_discrete key.2 a s.nodes v.out })

  admit_entry-Held :
      (found : Option SampleNode) (node : NodeTuple) (now : ℕ) (s : DiscoveryActor F)
      → node.addr ≢ a
      → Held s
      → Held (admit_entry F found node now s)
  unfolding admit_entry
  admit_entry-Held (some e) node now s other v = record {
    cooled = v.cooled;
    out = get-insert_other addr_discrete node.addr a _ s.nodes other ∙ v.out;
  }
  admit_entry-Held none node now s other v =
      elim (Bool-cases (leb (max s.options.sample_max_nodes 1) (length s.nodes))) [
        | inl full ↦ rw full (replace_node-Held (first_due F now s) node now s other v)
        | inr place ↦ rw place (add_node-Held node now s other v)
      ]

  -- A node in its cooldown is not admitted again before the end, nor is its cooldown changed.
  pub admit_node-Held :
      (node : NodeTuple) (now : ℕ) (s : DiscoveryActor F)
      → now < c.1
      → Held s
      → Held (admit_node F node now s)
  unfolding admit_node admit_cooled
  admit_node-Held node now s early v =
      elim (Bool-cases
        (not (is_valid_node_addr node.addr) || not (addr_allowed_by_netmode node.addr s.netmode))) [
          | inl refused ↦ rw refused v
          | inr accepted ↦ elim (addr_discrete node.addr a) [
            | yes here ↦
                let cooled = ap (λ x. cooled_at x s.cooldowns) here ∙ v.cooled in
                let cooling : ltb now c.1 ≡ true = ground arith in rw (accepted, cooled, cooling) v
            | no other ↦ rw accepted (elsewhere (cooled_at node.addr s.cooldowns) other)
          ]
        ]
    where
      elsewhere :
          (found : Option (NodeTuple × ℕ)) → node.addr ≢ a → Held (admit_cooled F found node now s)
      elsewhere none other = admit_entry-Held (node_at node.addr s.nodes) node now s other v
      elsewhere (some (old, until)) other = elim (Bool-cases (ltb now until)) [
        | inl cooling ↦ rw cooling v
        | inr over ↦ rw over (
            admit_entry-Held (node_at node.addr s.nodes) node now
              (record s {
                cooldowns = remove addr_discrete node.addr s.cooldowns;
                cooldown_expiry = remove cool_key_discrete (until, node.addr) s.cooldown_expiry;
              })
              other
              (record {
                cooled = get-remove_other addr_discrete node.addr a s.cooldowns other ∙ v.cooled;
                out = v.out;
              }))
      ]
