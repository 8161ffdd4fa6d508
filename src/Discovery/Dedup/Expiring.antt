-- ===== src/Discovery/Dedup/Expiring.antt =====
-- `HashDedup::contains` of src/discovery.rs: a hash counts until its time is over, and no longer.
use dht_crawler.Base.{
  ℕ, suc, ◌+◌, ◌≤◌, ◌<◌, ◌≡◌, refl, sym, ap, subst, ◌∙◌, inl, inr, true, false, leb, is_some,
  if◌then◌else◌, [], ◌∷◌, length, All, Option, none, some, ite, arith, Bool-cases, Option-cases,
}
use native.Mathlib.Nat.{le_refl}
use mathlib.Core.Logic.{if_pos, if_neg}
use dht_crawler.Base.Assoc.{
  get, remove, get-remove, get-remove_other, Uniq, Uniq-remove, length-remove,
}
use dht_crawler.Net.{SocketAddr, addr_discrete}
use dht_crawler.Scheduler.{Hash, hash_discrete, HashSource}
use dht_crawler.Discovery.Dedup.{
  Sources, Entries, Expiry, HashDedup, new, expire, duplicate, contains,
}

-- The time at which a hash is dropped.
unfoldable pub ends_at : Hash → Expiry → Option ℕ
ends_at h [] = none
ends_at h ((at, j) ∷ q) = ite (hash_discrete j h) (some at) (ends_at h q)

-- No hash stands twice, and the times are in order.
abbrev pub Ordered : Expiry → Type 0
Ordered [] = Unit {0}
Ordered ((at, j) ∷ q) = (ends_at j q ≡ none) × All (λ x. at ≤ x.0) q × Ordered q

-- At most four sources, and no address twice.
pub record IsSources (sources : Sources) : Type 0 where
  pub few : length sources ≤ 4
  pub uniq : Uniq addr_discrete sources

-- The map and the queue hold the same hashes.
pub record Agree (entries : Entries) (expiry : Expiry) : Type 0 where
  pub uniq : Uniq hash_discrete entries
  pub listed : (h : Hash) → is_some (ends_at h expiry) ≡ is_some (get hash_discrete h entries)
  pub ordered : Ordered expiry
  pub sizes : length expiry ≡ length entries
  pub sources : (h : Hash) (ss : Sources) → get hash_discrete h entries ≡ some ss → IsSources ss

pub record Inv (clock : ℕ) (dedup : HashDedup) : Type 0 where
  pub agree : Agree dedup.entries dedup.expiry
  pub ends : All (λ x. x.0 ≤ clock + dedup.ttl) dedup.expiry
  pub bounded : length dedup.entries ≤ dedup.capacity
  pub positive : 0 < dedup.capacity

pub new-Inv : (clock capacity ttl : ℕ) → Inv clock (new capacity ttl)
unfolding new get ends_at
new-Inv clock capacity ttl = record {
  agree = record {
    uniq = tt;
    listed = λ h. refl;
    ordered = tt;
    sizes = refl;
    sources = λ h ss at. absurd (ground arith);
  };
  ends = tt;
  bounded = omega arith;
  positive = omega arith;
}

pub ends_at-le :
    (t at : ℕ) (h : Hash) (q : Expiry) → All (λ x. t ≤ x.0) q → ends_at h q ≡ some at → t ≤ at
unfolding ends_at
ends_at-le t at h [] later e = absurd (ground arith)
ends_at-le t at h ((u, j) ∷ q) later e = ground (arith, later.0, ends_at-le t at h q later.1)

-- The first of the queue leaves with its hash.
pub popped-Agree :
    (at : ℕ) (old : Hash) (q : Expiry) (entries : Entries)
    → Agree entries ((at, old) ∷ q)
    → Agree (remove hash_discrete old entries) q
      × (suc (length (remove hash_discrete old entries)) ≡ length entries)
unfolding ends_at
popped-Agree at old q entries v =
    let there : is_some (get hash_discrete old entries) ≡ true =
      rw (sym (v.listed old), if_pos (hash_discrete old old) refl) refl in
    elim (Option-cases (get hash_discrete old entries)) [
      | inl absent ↦ absurd (ground (arith, there, absent))
      | inr (ss, found) ↦
          let shorter = length-remove hash_discrete old entries v.uniq found in
          (
            record {
              uniq = Uniq-remove hash_discrete old entries v.uniq;
              listed = λ h. elim (hash_discrete old h) [
                | yes here ↦
                    let gone : get hash_discrete h (remove hash_discrete old entries) ≡ none =
                      rw (get-remove hash_discrete old h entries, if_pos _ here) in
                    let over : ends_at h q ≡ none =
                      subst (λ x. ends_at x q ≡ none) here v.ordered.0 in
                    rw (gone, over) refl
                | no apart ↦
                    let before : is_some (ends_at h q) ≡ is_some (get hash_discrete h entries) =
                      (rw (if_neg (hash_discrete old h) apart) at (v.listed h)) in
                    rw (get-remove_other hash_discrete old h entries apart) before
              ];
              ordered = v.ordered.2;
              sizes = omega (arith, v.sizes, shorter);
              sources = λ h found_ss at_h.
                  v.sources h found_ss
                    (ground (arith, at_h, get-remove hash_discrete old h entries));
            },
            shorter,
          )
    ]

-- What is left of a hash at `now`: its sources, if its time is not over.
abbrev pub live {ℓ} : {A : Type ℓ} → ℕ → Option ℕ → Option A → Option A
live now none found = none
live now (some at) found = if leb at now then none else found

pub record Expires (now : ℕ) (entries : Entries) (q : Expiry) (P : ℕ × Hash → Type 0)
    (after : Entries × Expiry) : Type 0 where
  pub agree : Agree after.0 after.1
  pub sources :
      (h : Hash)
      → get hash_discrete h after.0 ≡ live now (ends_at h q) (get hash_discrete h entries)
  pub times : (h : Hash) → ends_at h after.1 ≡ live now (ends_at h q) (ends_at h q)
  pub within : All P after.1
  pub shorter : length after.0 ≤ length entries

none_of : {A : Type 0} (o : Option A) → false ≡ is_some o → o ≡ none
none_of none h = refl
none_of (some a) h = absurd (cc)

live-all :
    {A : Type 0} (now : ℕ) (ends : Option ℕ) (found : Option A)
    → (ends ≡ none → found ≡ none)
    → ((t : ℕ) → ends ≡ some t → leb t now ≡ false)
    → live now ends found ≡ found
live-all now none found absent late = sym (absent refl)
live-all now (some t) found absent late = rw (late t refl) refl

expire-Expires :
    (now : ℕ) (P : ℕ × Hash → Type 0) (q : Expiry) (entries : Entries)
    → Agree entries q
    → All P q
    → Expires now entries q P (expire now q entries)
unfolding expire ends_at
expire-Expires now P [] entries v w = record {
  agree = v;
  sources = λ h. none_of (get hash_discrete h entries) (v.listed h);
  times = λ h. refl;
  within = tt;
  shorter = omega arith;
}
expire-Expires now P ((at, old) ∷ q) entries v w = elim (Bool-cases (leb at now)) [
  | inr later ↦
      let late : (h : Hash) (t : ℕ) → ends_at h ((at, old) ∷ q) ≡ some t → leb t now ≡ false =
        λ h t here.
          (let low = ends_at-le at t h ((at, old) ∷ q) (le_refl at, v.ordered.1) here in
            ground (arith, low, later)) in
      rw later (record {
        agree = v;
        sources = λ h. sym (
            live-all now (ends_at h ((at, old) ∷ q)) (get hash_discrete h entries)
              (λ none_at. none_of (get hash_discrete h entries) (rw none_at at (v.listed h)))
              (λ t here. late h t here));
        times = λ h. sym (
            live-all now (ends_at h ((at, old) ∷ q)) (ends_at h ((at, old) ∷ q))
              (λ none_at. none_at) (λ t here. late h t here));
        within = w;
        shorter = omega arith;
      })
  | inl over ↦
      let (v', shorter) = popped-Agree at old q entries v in
      let rest = expire-Expires now P q (remove hash_discrete old entries) v' w.1 in
      rw over (record {
        agree = rest.agree;
        sources = λ h. rest.sources h ∙ elim (hash_discrete old h) [
          | yes here ↦
              rw
                (
                  if_pos (hash_discrete old h) here,
                  subst (λ x. ends_at x q ≡ none) here v.ordered.0,
                  over,
                )
                refl
          | no apart ↦
              rw
                (
                  if_neg (hash_discrete old h) apart,
                  get-remove_other hash_discrete old h entries apart,
                )
                refl
        ];
        times = λ h. rest.times h ∙ elim (hash_discrete old h) [
          | yes here ↦
              rw
                (
                  if_pos (hash_discrete old h) here,
                  subst (λ x. ends_at x q ≡ none) here v.ordered.0,
                  over,
                )
                refl
          | no apart ↦ rw (if_neg (hash_discrete old h) apart) refl
        ];
        within = rest.within;
        shorter = omega (arith, rest.shorter, shorter);
      })
]

pub ends-later : (q : Expiry) (a b : ℕ) → a ≤ b → All (λ x. x.0 ≤ a) q → All (λ x. x.0 ≤ b) q
ends-later [] a b h w = tt
ends-later (x ∷ q) a b h w = (omega (arith, w.0), ends-later q a b h w.1)

abbrev pub sources_of : Hash → HashDedup → Option Sources
sources_of h dedup = get hash_discrete h dedup.entries

abbrev pub end_of : Hash → HashDedup → Option ℕ
end_of h dedup = ends_at h dedup.expiry

-- Asked at a time that is not before the last operation, `contains` drops exactly the hashes whose
-- time is over, and answers for what is left: a hash that is not there is new, an address that told
-- of it is new only if it now samples what it had asked for before, and a fifth address is never
-- new.
pub contains-Answers :
    (clock now : ℕ) (dedup : HashDedup)
    → Inv clock dedup
    → clock ≤ now
    → (hash : Hash) (addr : SocketAddr) (source : HashSource)
    → let (dedup', answer) = contains hash addr source now dedup in
      (answer ≡ duplicate (live now (end_of hash dedup) (sources_of hash dedup)) addr source)
      × ((h : Hash)
          → (sources_of h dedup' ≡ live now (end_of h dedup) (sources_of h dedup))
            × (end_of h dedup' ≡ live now (end_of h dedup) (end_of h dedup)))
      × Inv now dedup'
unfolding contains
contains-Answers clock now dedup v later hash addr source =
    let gone =
      expire-Expires now (λ x. x.0 ≤ now + dedup.ttl) dedup.expiry dedup.entries v.agree
        (ends-later dedup.expiry (clock + dedup.ttl) (now + dedup.ttl) (omega arith) v.ends) in
    (
      ap (λ x. duplicate x addr source) (gone.sources hash),
      (λ h. (gone.sources h, gone.times h)),
      record {
        agree = gone.agree;
        ends = gone.within;
        bounded = omega (arith, gone.shorter, v.bounded);
        positive = v.positive;
      },
    )
