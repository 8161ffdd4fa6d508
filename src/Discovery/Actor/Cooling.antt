-- ===== src/Discovery/Actor/Cooling.antt =====
-- The cooldowns of src/discovery.rs and their index by time.
use dht_crawler.Base.{ℕ, ◌≡◌, ◌≢◌, sym, ap, ◌∙◌, inl, inr, Option, none, some, arith}
use mathlib.Core.Option.{some-injective}
use dht_crawler.Base.Assoc.{
  get, insert, remove, get-insert_self, get-insert_other, get-remove_other, get-insert_cases,
  get-remove_cases, Uniq, Uniq-insert, Uniq-remove,
}
use dht_crawler.Net.{SocketAddr, NodeTuple, addr_discrete}
use dht_crawler.Discovery.Actor.{CoolKey, cool_key_discrete, Cooldowns, CooldownExpiry}

abbrev pub cooled_at : SocketAddr → Cooldowns → Option (NodeTuple × ℕ)
cooled_at a cooldowns = get addr_discrete a cooldowns

pub record Cooling (cooldowns : Cooldowns) (expiry : CooldownExpiry) : Type 0 where
  pub uniq : Uniq addr_discrete cooldowns
  pub uniq_expiry : Uniq cool_key_discrete expiry
  pub to_expiry :
      (a : SocketAddr) (c : NodeTuple × ℕ)
      → cooled_at a cooldowns ≡ some c
      → get cool_key_discrete (c.1, a) expiry ≡ some tt
  pub to_cooldown :
      (k : CoolKey) (u : Unit {0})
      → get cool_key_discrete k expiry ≡ some u
      → (n : NodeTuple) × (cooled_at k.1 cooldowns ≡ some (n, k.0))

module _ (cooldowns : Cooldowns) (expiry : CooldownExpiry) (v : Cooling cooldowns expiry)
    (a : SocketAddr) where
  pub cooled-Cooling :
      (n : NodeTuple) (until : ℕ)
      → cooled_at a cooldowns ≡ none
      → Cooling
          (insert addr_discrete a (n, until) cooldowns)
          (insert cool_key_discrete (until, a) tt expiry)
  cooled-Cooling n until absent = record {
    uniq = Uniq-insert addr_discrete a (n, until) cooldowns v.uniq;
    uniq_expiry = Uniq-insert cool_key_discrete (until, a) tt expiry v.uniq_expiry;
    to_expiry = λ x c h. elim (get-insert_cases addr_discrete a x (n, until) c cooldowns h) [
      | inl (here, same) ↦
          let key : CoolKey = (until, a) in
          let key' : CoolKey = (c.1, x) in
          let whole : key ≡ key' = ground (arith, here, ap (λ y. y.1) same) in
          get-insert_self cool_key_discrete key key' tt expiry whole
      | inr (apart, before) ↦
          let key : CoolKey = (until, a) in
          let key' : CoolKey = (c.1, x) in
          let other : key ≢ key' = λ same. apart (ap (λ y. y.1) same) in
          get-insert_other cool_key_discrete key key' tt expiry other ∙ v.to_expiry x c before
    ];
    to_cooldown = λ k u h. elim (get-insert_cases cool_key_discrete (until, a) k tt u expiry h) [
      | inl (same, _) ↦ (
        n,
        get-insert_self addr_discrete a k.1 (n, until) cooldowns (ap (λ y. y.1) same)
            ∙ ap (λ y. some (n, y.0)) same,
      )
      | inr (other, before) ↦
          let (m, there) = v.to_cooldown k u before in
          let apart : a ≢ k.1 = λ here. ground (arith, absent, there, here) in
          (m, get-insert_other addr_discrete a k.1 (n, until) cooldowns apart ∙ there)
    ];
  }

  pub released-Cooling :
      (n : NodeTuple) (until : ℕ)
      → cooled_at a cooldowns ≡ some (n, until)
      → Cooling (remove addr_discrete a cooldowns) (remove cool_key_discrete (until, a) expiry)
  released-Cooling n until at = record {
    uniq = Uniq-remove addr_discrete a cooldowns v.uniq;
    uniq_expiry = Uniq-remove cool_key_discrete (until, a) expiry v.uniq_expiry;
    to_expiry = λ x c h.
        let (apart, before) = get-remove_cases addr_discrete a x c cooldowns h in
        let key : CoolKey = (until, a) in
        let key' : CoolKey = (c.1, x) in
        let other : key ≢ key' = λ same. apart (ap (λ y. y.1) same) in
        get-remove_other cool_key_discrete key key' expiry other ∙ v.to_expiry x c before;
    to_cooldown = λ k u h.
        let (other, before) = get-remove_cases cool_key_discrete (until, a) k u expiry h in
        let (m, there) = v.to_cooldown k u before in
        let key : CoolKey = (until, a) in
        let apart : a ≢ k.1 = λ here.
          let time : until ≡ k.0 =
            ap (λ y. y.1)
              (some-injective (n, until) (m, k.0)
                (sym at ∙ ap (λ y. cooled_at y cooldowns) here ∙ there)) in
          let whole : key ≡ k = ground (arith, time, here) in other whole in
        (m, get-remove_other addr_discrete a k.1 cooldowns apart ∙ there);
  }
