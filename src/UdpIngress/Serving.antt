-- ===== src/UdpIngress/Serving.antt =====
-- A round over the workers in src/udp_ingress.rs: who is asked, and what the answers mean.
use dht_crawler.Base.{
  ℕ, zero, suc, ◌≡◌, ◌≤◌, ◌<◌, ◌+◌, ◌-◌, ◌%◌, inl, inr, refl, sym, ap, subst, ◌∙◌, ltb,
  if◌then◌else◌, List, length, get_elem?, set, some, arith, Bool-cases, Option-cases,
}
use mathlib.Core.Option.{some-injective}
use native.Mathlib.Nat.{mod-lt, mod-eq_of_lt, mod-eq-sub-mod}
use dht_crawler.Base.Places.{get_elem?-ne-none, lt_of_get_elem?}
use dht_crawler.UdpBuffer.{ArrayQueue}
use dht_crawler.UdpIngress.{
  Parcel, Sending, sent, full, closed, WorkerHandle, Round, taken, gone, choked, answered, ask,
  offer,
}

-- The offset at which a round that starts at `preferred` comes to a place.
offset_of : ℕ → ℕ → ℕ → ℕ
offset_of count preferred index =
    if ltb index preferred then index + count - preferred else index - preferred

offset_of_lem :
    (count preferred index : ℕ)
    → preferred < count
    → index < count
    → (offset_of count preferred index < count)
      × ((preferred + offset_of count preferred index) % count ≡ index)
unfolding offset_of
offset_of_lem count preferred index p i = elim (Bool-cases (ltb index preferred)) [
  | inl wraps ↦
      let sum : preferred + (index + count - preferred) ≡ index + count = ground arith in
      let less : index + count - count ≡ index = omega arith in
      let round : (index + count) % count ≡ index =
        mod-eq-sub-mod {n = index + count} {m = count} (omega arith)
        ∙ ap (λ x. x % count) less
        ∙ mod-eq_of_lt i in
      rw wraps (ground arith, ap (λ x. x % count) sum ∙ round)
  | inr straight ↦
      let sum : preferred + (index - preferred) ≡ index = ground arith in
      rw straight (omega arith, ap (λ x. x % count) sum ∙ mod-eq_of_lt i)
]

module _ (A : ArrayQueue) (H : WorkerHandle) where
  open H use {W, try_send, full-returned, closed-returned}

  -- One worker has taken the parcel.
  abbrev pub Takes : Parcel → List W → List W → Type 0
  Takes p ws ws' =
      (index : ℕ) × (attempt : ℕ) × (w : W) × (w' : W) × (get_elem? ws index ≡ some w)
      × (try_send attempt p w ≡ sent w')
      × (ws' ≡ set ws index w')

  abbrev pub IsFull : Parcel → W → Type 0
  IsFull p w = (attempt : ℕ) × (try_send attempt p w ≡ full p)

  -- The places of the offsets from `offset` on, `remaining` of them, are those of full workers.
  abbrev FullFrom : ℕ → ℕ → ℕ → Parcel → List W → Type 0
  FullFrom remaining preferred offset p ws =
      (at : ℕ) (w : W)
      → offset ≤ at
      → at < offset + remaining
      → get_elem? ws ((preferred + at) % length ws) ≡ some w
      → IsFull p w

  -- What a round has found.
  abbrev Found : ℕ → ℕ → ℕ → Parcel → List W → Round A H → Type 0
  Found remaining preferred offset p ws (taken ws') = Takes p ws ws'
  Found remaining preferred offset p ws (gone index q attempt) =
      (q ≡ p)
      × ((asked : ℕ) × (w : W) × (get_elem? ws index ≡ some w) × (try_send asked p w ≡ closed p))
  Found remaining preferred offset p ws (choked q attempt) =
      (q ≡ p) × FullFrom remaining preferred offset p ws

  extend_round :
      (remaining preferred offset : ℕ) (p : Parcel) (ws : List W) (r : Round A H) (w : W)
      → get_elem? ws ((preferred + offset) % length ws) ≡ some w
      → IsFull p w
      → Found remaining preferred (offset + 1) p ws r
      → Found (suc remaining) preferred offset p ws r
  extend_round remaining preferred offset p ws (taken ws') w there busy h = h
  extend_round remaining preferred offset p ws (gone index q attempt) w there busy h = h
  extend_round remaining preferred offset p ws (choked q attempt) w there busy h = (
    h.0,
    λ at u low high here. elim (Bool-cases (ltb offset at)) [
      | inl after ↦ h.1 at u (ground arith) (omega arith) here
      | inr first ↦
          let now : at ≡ offset = ground arith in
          subst (IsFull p)
            (some-injective w u
              (sym there ∙ ap (λ x. get_elem? ws ((preferred + x) % length ws)) (sym now) ∙ here))
            busy
    ],
  )

  offer-Found :
      (remaining preferred offset attempt : ℕ) (p : Parcel) (ws : List W)
      → 0 < length ws
      → Found remaining preferred offset p ws (offer A H remaining preferred offset attempt p ws)
  unfolding offer ask answered
  offer-Found zero preferred offset attempt p ws some_worker =
      (refl, λ at w low high there. absurd (omega arith))
  offer-Found (suc remaining) preferred offset attempt p ws some_worker =
      let index = (preferred + offset) % length ws in
      elim (Option-cases (get_elem? ws index)) [
        | inl nobody ↦
            absurd (get_elem?-ne-none ws index (mod-lt (preferred + offset) some_worker) nobody)
        | inr (w, there) ↦ rw there (
            go w there (offer-Found remaining preferred (offset + 1) (attempt + 1) p ws some_worker)
              (try_send attempt p w) refl)
      ]
    where
      go :
          (w : W)
          → get_elem? ws ((preferred + offset) % length ws) ≡ some w
          → Found remaining preferred
              (offset + 1)
              p
              ws
              (offer A H remaining preferred (offset + 1) (attempt + 1) p ws)
          → (r : Sending W) → try_send attempt p w ≡ r
          → Found (suc remaining) preferred offset p ws (
              answered A H r
                ((preferred + offset) % length ws)
                attempt
                ws
                (λ q. offer A H remaining preferred (offset + 1) (attempt + 1) q ws))
      go w there rest (sent w') e = (_, attempt, w, w', there, e, refl)
      go w there rest (full q) e =
          let same = full-returned attempt p q w e in
          subst
            (λ x.
              Found (suc remaining) preferred offset p ws
                (offer A H remaining preferred (offset + 1) (attempt + 1) x ws))
            (sym same)
            (extend_round remaining preferred offset p ws _ w there (attempt, e ∙ ap full same)
              rest)
      go w there rest (closed q) e =
          let same = closed-returned attempt p q w e in
          (same, (attempt, w, there, e ∙ ap closed same))

  -- The parcel meets a full queue at every worker.
  abbrev pub AllFull : Parcel → List W → Type 0
  AllFull p ws = (index : ℕ) (w : W) → get_elem? ws index ≡ some w → IsFull p w

  -- What a whole round says, which starts anywhere.
  abbrev pub Concludes : Parcel → List W → Round A H → Type 0
  Concludes p ws (taken ws') = Takes p ws ws'
  Concludes p ws (gone index q attempt) =
      (q ≡ p)
      × ((asked : ℕ) × (w : W) × (get_elem? ws index ≡ some w) × (try_send asked p w ≡ closed p))
  Concludes p ws (choked q attempt) = (q ≡ p) × AllFull p ws

  round-Concludes :
      (preferred : ℕ) (p : Parcel) (ws : List W) (r : Round A H)
      → preferred < length ws
      → Found (length ws) preferred 0 p ws r
      → Concludes p ws r
  round-Concludes preferred p ws (taken ws') h found = found
  round-Concludes preferred p ws (gone index q attempt) h found = found
  round-Concludes preferred p ws (choked q attempt) h found = (
    found.0,
    λ index w there.
        let (low, place) =
          offset_of_lem (length ws) preferred index h (lt_of_get_elem? ws index there) in
        found.1 (offset_of (length ws) preferred index) w (omega arith) (omega arith)
          (ap (get_elem? ws) place ∙ there),
  )

  pub offer-Concludes :
      (hash attempt : ℕ) (p : Parcel) (ws : List W)
      → 0 < length ws
      → Concludes p ws (offer A H (length ws) (hash % length ws) 0 attempt p ws)
  offer-Concludes hash attempt p ws some_worker =
      round-Concludes (hash % length ws) p ws _ (mod-lt hash some_worker)
        (offer-Found (length ws) (hash % length ws) 0 attempt p ws some_worker)
