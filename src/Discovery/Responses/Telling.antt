-- ===== src/Discovery/Responses/Telling.antt =====
-- `emit_hash` of src/discovery.rs: a hash is told of once for each of its sources.
use dht_crawler.Base.{
  ℕ, ◌≤◌, ◌≡◌, refl, inl, inr, Bool, true, false, if◌then◌else◌, List, [], ◌∷◌, ◌++◌, Bool-cases,
}
use dht_crawler.Net.{NodeTuple}
use dht_crawler.Budget.{Float, RateBucket, try_take_one}
use dht_crawler.Scheduler.{HashSource, announce, get_peers, sample}
use dht_crawler.Discovery.Dedup.{duplicate, contains}
use dht_crawler.Discovery.Dedup.Expiring.{sources_of, contains-Answers}
use dht_crawler.Discovery.Dedup.Expiring
use dht_crawler.Discovery.Dedup.Inserting.{insert-Inserts}
use dht_crawler.Discovery.Actor.{DiscoveryActor}
use dht_crawler.Discovery.Responses.{
  Surroundings, budget_of, with_budget, event_of, tell, emit_hash,
}

module _ (F : Float) (env : Surroundings) (hash : List ℕ) (node : NodeTuple) (source : HashSource)
    (now : ℕ) where
  pub record Tells (s : DiscoveryActor F) (result : DiscoveryActor F × Bool) : Type 0 where
    pub inv : Expiring.Inv now result.0.dedup
    pub events :
        result.0.told
        ≡ (if result.1 then s.told ++ (event_of F env hash node source now ∷ []) else s.told)
    pub new : result.1 ≡ true → (contains hash node.addr source now s.dedup).1 ≡ false
    pub known : result.1 ≡ true → duplicate (sources_of hash result.0.dedup) node.addr source ≡ true

  with_budget-told :
      (source : HashSource) (budget : RateBucket F) (s : DiscoveryActor F)
      → ((with_budget F env source budget s).told ≡ s.told)
        × ((with_budget F env source budget s).dedup ≡ s.dedup)
  with_budget-told announce budget s = (refl, refl)
  with_budget-told get_peers budget s = (refl, refl)
  with_budget-told sample budget s = (refl, refl)

  tell-Tells :
      (s t : DiscoveryActor F)
      → Expiring.Inv now t.dedup
      → t.told ≡ s.told
      → (contains hash node.addr source now s.dedup).1 ≡ false
      → Tells s (tell F env hash node source now t)
  unfolding tell
  tell-Tells s t v told new = elim (Bool-cases (env.passes (env.hex hash))) [
    | inr stopped ↦
        rw stopped
          (record { inv = v; events = told; new = λ h. absurd (cc); known = λ h. absurd (cc) })
    | inl passes ↦ elim (Bool-cases (env.accepts (event_of F env hash node source now))) [
      | inr full ↦
          rw (passes, full)
            (record { inv = v; events = told; new = λ h. absurd (cc); known = λ h. absurd (cc) })
      | inl taken ↦
          let inserted = insert-Inserts hash node.addr source now t.dedup v in
          rw (passes, taken)
            (record {
              inv = inserted.inv;
              events = rw told refl;
              new = λ h. new;
              known = λ h. inserted.known;
            })
    ]
  ]

  -- `emit_hash`, at a time that is not before the last operation on the known hashes, hands one event to
  -- the channel where it answers yes, and none where it answers no. It answers yes only for a hash
  -- and a source that are not known then, and that are known after it.
  pub emit_hash-Tells :
      (clock : ℕ) (s : DiscoveryActor F)
      → Expiring.Inv clock s.dedup
      → clock ≤ now
      → Tells s (emit_hash F env hash node source now s)
  unfolding emit_hash
  emit_hash-Tells clock s v later =
      let (dedup, known) = contains hash node.addr source now s.dedup in
      let v1 = (contains-Answers clock now s.dedup v later hash node.addr source).2 in
      let s1 : DiscoveryActor F = record s { dedup = dedup } in
      let (budget, granted) = try_take_one F now (budget_of F env source s) in
      let s2 = with_budget F env source budget s1 in
      let (told, same) = with_budget-told source budget s1 in
      let v2 : Expiring.Inv now s2.dedup = rw same v1 in
      elim (Bool-cases known) [
        | inl old ↦
            rw old
              (record { inv = v1; events = refl; new = λ h. absurd (cc); known = λ h. absurd (cc) })
        | inr new ↦ elim (Bool-cases granted) [
          | inr refused ↦
              rw (new, refused)
                (record {
                  inv = v2;
                  events = told;
                  new = λ h. absurd (cc);
                  known = λ h. absurd (cc);
                })
          | inl given ↦ rw (new, given) (tell-Tells s s2 v2 told new)
        ]
      ]
