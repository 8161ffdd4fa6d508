-- ===== src/Discovery/Dedup/Adding.antt =====
-- What `HashDedup::insert` of src/discovery.rs writes: the sources of one hash, and a new hash.
use dht_crawler.Base.{
  ℕ, suc, ◌≤◌, ◌≡◌, ◌≢◌, refl, sym, ap, subst, ◌∙◌, inl, inr, true, false, not, ◌&&◌, ltb, is_some,
  [], ◌∷◌, ◌++◌, length, length-append, All, All-append, Option, none, some, ite, arith, Bool-cases,
  Option-cases,
}
use mathlib.Core.Logic.{if_pos, if_neg}
use mathlib.Core.Option.{some-injective}
use dht_crawler.Base.Assoc.{
  get, insert as put, get-insert_self, get-insert_other, Uniq, Uniq-insert, length-insert_new,
  length-insert_old,
}
use dht_crawler.Net.{SocketAddr, addr_discrete}
use dht_crawler.Scheduler.{Hash, hash_discrete, HashSource, announce, get_peers, sample}
use dht_crawler.Discovery.Dedup.{
  Sources, Entries, Expiry, is_get_peers, is_sample, duplicate, overwrite, add_source,
}
use dht_crawler.Discovery.Dedup.Expiring.{ends_at, Ordered, IsSources, Agree}

overwrite-other :
    (addr j : SocketAddr) (source : HashSource) (ss : Sources)
    → addr ≢ j
    → get addr_discrete j (overwrite addr source ss) ≡ get addr_discrete j ss
unfolding overwrite get
overwrite-other addr j source [] apart = refl
overwrite-other addr j source ((old, s) ∷ ss) apart = elim (addr_discrete old addr) [
  | yes here ↦
      let elsewhere : old ≢ j = λ same. apart (sym here ∙ same) in
      rw (if_pos (addr_discrete old addr) here) (
        if_neg (addr_discrete old j) elsewhere _ _
        ∙ sym (if_neg (addr_discrete old j) elsewhere _ _))
  | no other ↦
      rw (if_neg (addr_discrete old addr) other)
        (ap (λ x. ite (addr_discrete old j) (some s) x) (overwrite-other addr j source ss apart))
]

overwrite_lem :
    (addr : SocketAddr) (source : HashSource) (ss : Sources) (previous : HashSource)
    → get addr_discrete addr ss ≡ some previous
    → (get addr_discrete addr (overwrite addr source ss) ≡ some source)
      × (length (overwrite addr source ss) ≡ length ss)
unfolding overwrite get
overwrite_lem addr source [] previous h = absurd (ground arith)
overwrite_lem addr source ((old, s) ∷ ss) previous h = elim (addr_discrete old addr) [
  | yes here ↦
      rw (if_pos (addr_discrete old addr) here)
        (rw (if_pos (addr_discrete old addr) here) refl, refl)
  | no other ↦
      let rest =
        overwrite_lem addr source ss previous (rw (if_neg (addr_discrete old addr) other) at h) in
      rw (if_neg (addr_discrete old addr) other)
        (rw (if_neg (addr_discrete old addr) other) rest.0, ap suc rest.1)
]

overwrite-Uniq :
    (addr : SocketAddr) (source : HashSource) (ss : Sources)
    → Uniq addr_discrete ss
    → Uniq addr_discrete (overwrite addr source ss)
unfolding overwrite
overwrite-Uniq addr source [] u = tt
overwrite-Uniq addr source ((old, s) ∷ ss) u = elim (addr_discrete old addr) [
  | yes here ↦ rw (if_pos (addr_discrete old addr) here) u
  | no other ↦ rw (if_neg (addr_discrete old addr) other) (
    overwrite-other addr old source ss (λ same. other (sym same)) ∙ u.0,
    overwrite-Uniq addr source ss u.1,
  )
]

get-snoc :
    (j addr : SocketAddr) (source : HashSource) (ss : Sources)
    → get addr_discrete j ss ≡ none
    → get addr_discrete j (ss ++ ((addr, source) ∷ []))
      ≡ ite (addr_discrete addr j) (some source) none
unfolding get
get-snoc j addr source [] h = refl
get-snoc j addr source ((old, s) ∷ ss) h = ground (arith, get-snoc j addr source ss)

snoc-Uniq :
    (addr : SocketAddr) (source : HashSource) (ss : Sources)
    → Uniq addr_discrete ss
    → get addr_discrete addr ss ≡ none
    → Uniq addr_discrete (ss ++ ((addr, source) ∷ []))
unfolding get
snoc-Uniq addr source [] u h = (refl, tt)
snoc-Uniq addr source ((old, s) ∷ ss) u h =
    (ground (arith, get-snoc old addr source ss u.0), snoc-Uniq addr source ss u.1 (ground arith))

pub covered_again : (source : HashSource) → not (is_get_peers source && is_sample source) ≡ true
covered_again announce = refl
covered_again get_peers = refl
covered_again sample = refl

covered_asked : (previous : HashSource) → not (is_get_peers previous && false) ≡ true
covered_asked announce = refl
covered_asked get_peers = refl
covered_asked sample = refl

-- A source that was added is covered.
pub add_source-covers :
    (addr : SocketAddr) (source : HashSource) (ss : Sources)
    → IsSources ss
    → IsSources (add_source (get addr_discrete addr ss) addr source ss)
      × (duplicate (some (add_source (get addr_discrete addr ss) addr source ss)) addr source
          ≡ true)
unfolding add_source
add_source-covers addr source ss v = elim (Option-cases (get addr_discrete addr ss)) [
  | inr (previous, found) ↦ elim (Bool-cases (is_sample source)) [
    | inl sampled ↦
        let (at, size) = overwrite_lem addr source ss previous found in
        rw (found, sampled)
          (
            record {
              few = omega (arith, size, v.few);
              uniq = overwrite-Uniq addr source ss v.uniq;
            },
            rw at (covered_again source),
          )
    | inr asked ↦ rw (found, asked) (v, rw (found, asked) (covered_asked previous))
  ]
  | inl new ↦ elim (Bool-cases (ltb (length ss) 4)) [
    | inl room ↦
        rw (new, room)
          (
            record {
              few = ground (arith, length-append ss ((addr, source) ∷ []));
              uniq = snoc-Uniq addr source ss v.uniq new;
            },
            rw (get-snoc addr addr source ss new, if_pos (addr_discrete addr addr) refl)
                (covered_again source),
          )
    | inr full ↦ rw (new, full) (v, rw new (ground arith))
  ]
]

-- More sources for a hash that is there.
pub updated-Agree :
    (h : Hash) (ss ss' : Sources) (entries : Entries) (q : Expiry)
    → Agree entries q
    → get hash_discrete h entries ≡ some ss
    → IsSources ss'
    → Agree (put hash_discrete h ss' entries) q
      × (length (put hash_discrete h ss' entries) ≡ length entries)
updated-Agree h ss ss' entries q v at ok =
    let size = length-insert_old hash_discrete h ss' ss entries v.uniq at in
    (
      record {
        uniq = Uniq-insert hash_discrete h ss' entries v.uniq;
        listed = λ k. elim (hash_discrete h k) [
          | yes here ↦
              rw (get-insert_self hash_discrete h k ss' entries here) (
                v.listed k
                ∙ ap is_some (subst (λ x. get hash_discrete x entries ≡ some ss) here at))
          | no apart ↦ rw (get-insert_other hash_discrete h k ss' entries apart) (v.listed k)
        ];
        ordered = v.ordered;
        sizes = omega (arith, v.sizes, size);
        sources = λ k xs there. elim (hash_discrete h k) [
          | yes here ↦
              subst IsSources
                (some-injective ss' xs
                  (sym (get-insert_self hash_discrete h k ss' entries here) ∙ there))
                ok
          | no apart ↦
              v.sources k xs (sym (get-insert_other hash_discrete h k ss' entries apart) ∙ there)
        ];
      },
      size,
    )

pub ends_at-other :
    (j h : Hash) (at : ℕ) (q : Expiry) → j ≢ h → ends_at h ((at, j) ∷ q) ≡ ends_at h q
unfolding ends_at
ends_at-other j h at q apart = rw (if_neg (hash_discrete j h) apart) refl

abbrev pub or_else : Option ℕ → Option ℕ → Option ℕ
or_else none other = other
or_else (some t) other = some t

pub ends_at-snoc :
    (h k : Hash) (at : ℕ) (q : Expiry)
    → ends_at h (q ++ ((at, k) ∷ []))
      ≡ or_else (ends_at h q) (ite (hash_discrete k h) (some at) none)
unfolding ends_at
ends_at-snoc h k at [] = refl
ends_at-snoc h k at ((t, j) ∷ q) = ground (arith, ends_at-snoc h k at q)

Ordered-snoc :
    (q : Expiry) (at : ℕ) (k : Hash)
    → Ordered q
    → All (λ x. x.0 ≤ at) q
    → ends_at k q ≡ none
    → Ordered (q ++ ((at, k) ∷ []))
unfolding ends_at
Ordered-snoc [] at k o w new = (refl, tt, tt)
Ordered-snoc ((t, j) ∷ q) at k o w new = elim (hash_discrete j k) [
  | yes here ↦ absurd (ground (arith, new, here))
  | no apart ↦ (
    rw (ends_at-snoc j k at q, o.0, if_neg (hash_discrete k j) (λ same. apart (sym same))) refl,
    All-append (λ x. t ≤ x.0) q ((at, k) ∷ []) o.1 (w.0, tt),
    Ordered-snoc q at k o.2 w.1 (rw (if_neg (hash_discrete j k) apart) at new),
  )
]

ends_or :
    {A : Type 0} (ends : Option ℕ) (found : Option A)
    → is_some ends ≡ is_some found
    → is_some (or_else ends none) ≡ is_some found
ends_or none found h = h
ends_or (some t) found h = h

-- A new hash with its first source.
pub added-Agree :
    (h : Hash) (ss : Sources) (at : ℕ) (entries : Entries) (q : Expiry)
    → Agree entries q
    → get hash_discrete h entries ≡ none
    → ends_at h q ≡ none
    → All (λ x. x.0 ≤ at) q
    → IsSources ss
    → Agree (put hash_discrete h ss entries) (q ++ ((at, h) ∷ []))
added-Agree h ss at entries q v new unlisted w ok = record {
  uniq = Uniq-insert hash_discrete h ss entries v.uniq;
  listed = λ k. elim (hash_discrete h k) [
    | yes here ↦
        rw
          (
            get-insert_self hash_discrete h k ss entries here,
            ends_at-snoc k h at q,
            subst (λ x. ends_at x q ≡ none) here unlisted,
            if_pos (hash_discrete h k) here,
          )
          refl
    | no apart ↦
        rw
          (
            get-insert_other hash_discrete h k ss entries apart,
            ends_at-snoc k h at q,
            if_neg (hash_discrete h k) apart,
          )
          (ends_or (ends_at k q) (get hash_discrete k entries) (v.listed k))
  ];
  ordered = Ordered-snoc q at h v.ordered w unlisted;
  sizes = omega (
    arith,
    v.sizes,
    length-append q ((at, h) ∷ []),
    length-insert_new hash_discrete h ss entries new,
  );
  sources = λ k xs there. elim (hash_discrete h k) [
    | yes here ↦
        subst IsSources
          (some-injective ss xs (sym (get-insert_self hash_discrete h k ss entries here) ∙ there))
          ok
    | no apart ↦ v.sources k xs (sym (get-insert_other hash_discrete h k ss entries apart) ∙ there)
  ];
}
