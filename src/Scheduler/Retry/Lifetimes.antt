-- ===== src/Scheduler/Retry/Lifetimes.antt =====
-- `RetryHistory` of src/scheduler.rs: its map and its index by time agree, and it forgets a hash
-- exactly at the end of its lifetime.
use dht_crawler.Base.{
  ℕ, zero, suc, ◌≤◌, ◌<◌, ◌≡◌, ◌≢◌, refl, sym, ap, subst, ◌∙◌, true, false, ltb, ltb→lt,
  if◌then◌else◌, List, [], ◌∷◌, length, Option, none, some, arith, Bool-cases, Option-cases, inl,
  inr,
}
use mathlib.Core.Logic.{if_pos, if_neg}
use mathlib.Core.Option.{some-injective}
use dht_crawler.Base.Assoc.{get, remove, get-remove, Uniq, Uniq-remove, length-remove}
use dht_crawler.Base.Ordered.{first_key_value, get-first_key_value}
use dht_crawler.Scheduler.{Hash, hash_discrete}
use dht_crawler.Scheduler.Retry.{
  RetryState, RetryHistory, RetryKey, retry_key_discrete, retry_key_lt, new, drop_first,
  expire_loop, expire,
}
use dht_crawler.Scheduler.Retry.States.{IsState}

abbrev pub state_at : Hash → RetryHistory → Option RetryState
state_at h history = get hash_discrete h history.entries

abbrev pub listed : RetryKey → RetryHistory → Option (Unit {0})
listed k history = get retry_key_discrete k history.expiry

pub record Inv (history : RetryHistory) : Type 0 where
  pub uniq : Uniq hash_discrete history.entries
  pub uniq_expiry : Uniq retry_key_discrete history.expiry
  pub to_expiry :
      (h : Hash) (s : RetryState)
      → state_at h history ≡ some s
      → listed (s.retry.expires_at, h) history ≡ some tt
  pub to_state :
      (k : RetryKey) (u : Unit {0})
      → listed k history ≡ some u
      → (s : RetryState) × (state_at k.1 history ≡ some s) × (s.retry.expires_at ≡ k.0)
  pub states : (h : Hash) (s : RetryState) → state_at h history ≡ some s → IsState s

pub new-Inv : Inv new
unfolding new get
new-Inv = record {
  uniq = tt;
  uniq_expiry = tt;
  to_expiry = λ h s at. absurd (ground arith);
  to_state = λ k u at. absurd (ground arith);
  states = λ h s at. absurd (ground arith);
}

first-none :
    (m : List (RetryKey × Unit {0})) (j : RetryKey)
    → first_key_value retry_key_lt m ≡ none
    → get retry_key_discrete j m ≡ none
unfolding first_key_value get
first-none [] j h = refl
first-none (entry ∷ m) j h = absurd (ground arith)

first-least :
    (m : List (RetryKey × Unit {0})) (k j : RetryKey) (u w : Unit {0})
    → first_key_value retry_key_lt m ≡ some (k, u)
    → get retry_key_discrete j m ≡ some w
    → k.0 ≤ j.0
unfolding first_key_value get
first-least [] k j u w first at = absurd (ground arith)
first-least ((i, x) ∷ m) k j u w first at = elim (Option-cases (first_key_value retry_key_lt m)) [
  | inl alone ↦ ground (arith, alone, first-none m j alone)
  | inr (other, found) ↦
      let rest = first-least m other.0 j other.1 w found in
      elim (Bool-cases (retry_key_lt other.0 i)) [
        | inl takes ↦ ground (arith, found, takes, rest)
        | inr keeps ↦ ground (arith, found, keeps, rest)
      ]
]

-- A hash and its key leave together.
pub taken-Inv :
    (history : RetryHistory) (h : Hash) (s : RetryState)
    → Inv history
    → state_at h history ≡ some s
    → Inv (record {
      entries = remove hash_discrete h history.entries;
      expiry = remove retry_key_discrete (s.retry.expires_at, h) history.expiry;
    })
taken-Inv history h s v at = record {
  uniq = Uniq-remove hash_discrete h history.entries v.uniq;
  uniq_expiry = Uniq-remove retry_key_discrete (s.retry.expires_at, h) history.expiry v.uniq_expiry;
  to_expiry = λ h' s' at'.
      let elsewhere : h ≢ h' =
        λ same. ground (arith, get-remove hash_discrete h h' history.entries) in
      let before : state_at h' history ≡ some s' =
        ground (arith, get-remove hash_discrete h h' history.entries) in
      let key : RetryKey = (s.retry.expires_at, h) in
      let key' : RetryKey = (s'.retry.expires_at, h') in
      let apart : key ≢ key' = λ same. elsewhere (ap (λ k. k.1) same) in
      rw (get-remove retry_key_discrete key key' history.expiry, if_neg _ apart)
        (v.to_expiry h' s' before);
  to_state = λ k u there.
      let key : RetryKey = (s.retry.expires_at, h) in
      let apart : key ≢ k = λ same.
        ground (arith, get-remove retry_key_discrete (s.retry.expires_at, h) k history.expiry) in
      let before : listed k history ≡ some u =
        ground (arith, get-remove retry_key_discrete (s.retry.expires_at, h) k history.expiry) in
      let (s', at', time) = v.to_state k u before in
      let elsewhere : h ≢ k.1 = λ same.
        let old : s ≡ s' = some-injective s s' (sym at ∙ ap (λ x. state_at x history) same ∙ at') in
        let whole : key ≡ k = ground (arith, ap (λ x. x.retry.expires_at) old, time, same) in
        apart whole in
      (s', rw (get-remove hash_discrete h k.1 history.entries, if_neg _ elsewhere) at', time);
  states =
      λ h' s' at'. v.states h' s' (ground (arith, get-remove hash_discrete h h' history.entries));
}

-- A state that lives on after `now`.
abbrev pub alive : ℕ → Option RetryState → Option RetryState
alive now none = none
alive now (some s) = if ltb now s.retry.expires_at then some s else none

pub record Forgets (now : ℕ) (history history' : RetryHistory) : Type 0 where
  pub inv : Inv history'
  pub entries : (h : Hash) → state_at h history' ≡ alive now (state_at h history)

none-Forgets :
    (now : ℕ) (history : RetryHistory)
    → Inv history
    → ((h : Hash) (s : RetryState) → state_at h history ≡ some s → now < s.retry.expires_at)
    → Forgets now history history
none-Forgets now history v later = record {
  inv = v;
  entries = λ h. elim (Option-cases (state_at h history)) [
    | inl absent ↦ rw absent refl
    | inr (s, at) ↦
        let lives : ltb now s.retry.expires_at ≡ true = ground (arith, later h s at) in
        rw (at, lives) refl
  ];
}

module _ (history : RetryHistory) (v : Inv history) (key : RetryKey) (u : Unit {0})
    (first : first_key_value retry_key_lt history.expiry ≡ some (key, u)) where
  there : listed key history ≡ some u
  there =
      get-first_key_value retry_key_lt retry_key_discrete history.expiry key u v.uniq_expiry first

  first_times :
      (h : Hash) (s : RetryState) → state_at h history ≡ some s → key.0 ≤ s.retry.expires_at
  first_times h s at =
      first-least history.expiry key (s.retry.expires_at, h) u tt first (v.to_expiry h s at)

  round :
      (now : ℕ)
      → key.0 ≤ now
      → Inv (drop_first key history)
        × ((h : Hash)
            → alive now (state_at h (drop_first key history)) ≡ alive now (state_at h history))
        × (suc (length (drop_first key history).expiry) ≡ length history.expiry)
  unfolding drop_first
  round now over =
      let (s, at, time) = v.to_state key u there in
      let dead : ltb now s.retry.expires_at ≡ false = ground arith in
      (
        subst
            (λ t. Inv (record {
              entries = remove hash_discrete key.1 history.entries;
              expiry = remove retry_key_discrete (t, key.1) history.expiry;
            }))
            time (taken-Inv history key.1 s v at),
        (λ h. elim (hash_discrete key.1 h) [
          | yes here ↦
              let gone : get hash_discrete h (remove hash_discrete key.1 history.entries) ≡ none =
                rw (get-remove hash_discrete key.1 h history.entries, if_pos _ here) in
              let before : state_at h history ≡ some s =
                subst (λ x. state_at x history ≡ some s) here at in
              rw (gone, before, dead) refl
          | no apart ↦ rw (get-remove hash_discrete key.1 h history.entries, if_neg _ apart) refl
        ]),
        length-remove retry_key_discrete key history.expiry v.uniq_expiry there,
      )

empty_at :
    (m : List (RetryKey × Unit {0})) (k : RetryKey)
    → length m ≤ 0
    → get retry_key_discrete k m ≡ none
unfolding get
empty_at [] k h = refl
empty_at (x ∷ m) k h = absurd (omega arith)

expire_loop-Forgets :
    (fuel now : ℕ) (history : RetryHistory)
    → Inv history
    → length history.expiry ≤ fuel
    → Forgets now history (expire_loop fuel now history)
unfolding expire_loop
expire_loop-Forgets zero now history v h = none-Forgets now history v (λ hash s at. absurd (
    ground (
      arith,
      v.to_expiry hash s at,
      empty_at history.expiry (s.retry.expires_at, hash) (omega arith),
    )))
expire_loop-Forgets (suc fuel) now history v h =
    elim (Option-cases (first_key_value retry_key_lt history.expiry)) [
      | inl empty ↦
          rw (empty, expire_loop)
            (none-Forgets now history v (λ hash s at. absurd (
              ground (
                arith,
                v.to_expiry hash s at,
                first-none history.expiry (s.retry.expires_at, hash) empty,
              ))))
      | inr ((key, u), first) ↦ elim (Bool-cases (ltb now key.0)) [
        | inl live ↦
            rw (first, live, expire_loop)
              (none-Forgets now history v (λ hash s at.
                omega (arith, first_times history v key u first hash s at, ltb→lt now key.0 live)))
        | inr over ↦
            let (v', same, shorter) = round history v key u first now (ground arith) in
            let rest =
              expire_loop-Forgets fuel now (drop_first key history) v' (omega (arith, shorter)) in
            rw (first, over, expire_loop)
              (record { inv = rest.inv; entries = λ h'. rest.entries h' ∙ same h' })
      ]
    ]

-- `expire` forgets exactly the hashes whose lifetime is over by `now`, leaves every other state as it
-- is, and keeps the invariant.
pub expire-Forgets :
    (now : ℕ) (history : RetryHistory) → Inv history → Forgets now history (expire now history)
unfolding expire
expire-Forgets now history v =
    expire_loop-Forgets (length history.expiry) now history v (omega arith)
