-- ===== src/UdpIngress/Choices.antt =====
-- `process_udp_packet` of src/udp_ingress.rs: a packet goes to one worker, or its buffer back to the pool.
use dht_crawler.Base.{
  ℕ, zero, suc, ◌≡◌, ◌≤◌, ◌<◌, ◌+◌, ◌-◌, ◌==◌, ◌||◌, not, refl, ap, subst, ◌∙◌, ltb, List, [], ◌∷◌,
  length, length-take, length-set, get_elem?, get_or, set, Option, some, arith, Bool-cases,
  Option-cases, true, inl, inr,
}
use dht_crawler.Base.Places.{get_elem?-ne-none, lt_of_get_elem?}
use dht_crawler.Net.{SocketAddr}
use dht_crawler.UdpBuffer.{ArrayQueue, Buffer, max_dht_udp_packet, release}
use dht_crawler.UdpIngress.{
  Parcel, closed, WorkerHandle, swap_remove, Ingress, Round, taken, gone, choked, packet_too_large,
  invalid_packet, choked_workers, no_live_workers, Answer, ok, err, buf_of, conclude, select_worker,
  udp_received, udp_received_bytes, udp_invalid, udp_queue_full, process_udp_packet,
}
use dht_crawler.UdpIngress.Serving.{Takes, AllFull, Concludes, offer-Concludes}

length-swap_remove :
    {A : Type 0} (xs : List A) (index : ℕ)
    → 0 < length xs
    → suc (length (swap_remove index xs)) ≡ length xs
length-swap_remove xs index h = elim (Option-cases (get_elem? xs (length xs - 1))) [
  | inl nothing ↦ absurd (get_elem?-ne-none xs (length xs - 1) (omega arith) nothing)
  | inr (last, there) ↦
      rw there
        (omega (arith, length-take (length xs - 1) (set xs index last), length-set xs index last))
]

nil_of_length : {A : Type 0} (xs : List A) → (length xs == 0) ≡ true → xs ≡ []
nil_of_length [] h = refl
nil_of_length (x ∷ xs) h = absurd (ground arith)

module _ (A : ArrayQueue) (H : WorkerHandle) where
  open H use {W, try_send}

  -- Workers that answered that they are closed are taken out, one after the other, the last worker in
  -- the place of each.
  pub data Pruned (p : Parcel) : List W → List W → Type 0 where
    unpruned : {ws : List W} → Pruned p ws ws
    pruned :
        (index attempt : ℕ) (w : W) {ws ws' : List W}
        → get_elem? ws index ≡ some w
        → try_send attempt p w ≡ closed p
        → Pruned p (swap_remove index ws) ws'
        → Pruned p ws ws'

  -- What a packet comes to once its form is accepted.
  abbrev pub Serves : Parcel → Ingress A H → Ingress A H × Answer → Type 0
  Serves p s (s', ok) =
      ((ws : List W) × Pruned p s.workers ws × Takes A H p ws s'.workers)
      × (s'.pool ≡ s.pool)
      × (s'.stats ≡ s.stats)
  Serves p s (s', err choked_workers) =
      Pruned p s.workers s'.workers
      × AllFull A H p s'.workers
      × (0 < length s'.workers)
      × (s'.pool ≡ release A (buf_of A H p) s.pool)
      × (s'.stats ≡ udp_queue_full s.stats)
  Serves p s (s', err no_live_workers) =
      Pruned p s.workers []
      × (s'.workers ≡ [])
      × (s'.pool ≡ release A (buf_of A H p) s.pool)
      × (s'.stats ≡ s.stats)
  Serves p s (s', err packet_too_large) = ⊥
  Serves p s (s', err invalid_packet) = ⊥

  serve_pruned :
      (index attempt : ℕ) (w : W) (p : Parcel) (s : Ingress A H) (r : Ingress A H × Answer)
      → get_elem? s.workers index ≡ some w
      → try_send attempt p w ≡ closed p
      → Serves p (record s { workers = swap_remove index s.workers }) r
      → Serves p s r
  serve_pruned index attempt w p s (s', ok) there e h =
      ((h.0.0, pruned index attempt w there e h.0.1, h.0.2), h.1, h.2)
  serve_pruned index attempt w p s (s', err choked_workers) there e h =
      (pruned index attempt w there e h.0, h.1, h.2, h.3, h.4)
  serve_pruned index attempt w p s (s', err no_live_workers) there e h =
      (pruned index attempt w there e h.0, h.1, h.2, h.3)
  serve_pruned index attempt w p s (s', err packet_too_large) there e h = h
  serve_pruned index attempt w p s (s', err invalid_packet) there e h = h

  abbrev Ends : Parcel → Ingress A H → Option (Ingress A H × Answer) → Type 0
  Ends p s o = (r : Ingress A H × Answer) × (o ≡ some r) × Serves p s r

  select_worker-Ends :
      (fuel hash attempt : ℕ) (p : Parcel) (s : Ingress A H)
      → length s.workers < fuel
      → Ends p s (select_worker A H fuel hash attempt p s)
  unfolding select_worker
  select_worker-Ends zero hash attempt p s h = absurd (omega arith)
  select_worker-Ends (suc fuel) hash attempt p s h = elim (Bool-cases (length s.workers == 0)) [
    | inl nobody ↦ rw nobody (
      _,
      refl,
      (
        subst (Pruned p s.workers) (nil_of_length s.workers nobody) unpruned,
        nil_of_length s.workers nobody,
        refl,
        refl,
      ),
    )
    | inr somebody ↦ rw somebody (
        go _ (offer-Concludes A H hash attempt p s.workers (ground arith))
          (λ index attempt' below.
            select_worker-Ends fuel hash attempt' p
              (record s { workers = swap_remove index s.workers })
              (omega (arith, length-swap_remove s.workers index (omega arith))))
          (ground arith))
  ]
    where
      again : ℕ → Parcel → List W → Option (Ingress A H × Answer)
      again attempt' packet' workers' =
          select_worker A H fuel hash attempt' packet' (record s { workers = workers' })

      go :
          (r : Round A H)
          → Concludes A H p s.workers r
          → ((index attempt' : ℕ)
              → index < length s.workers
              → Ends p
                  (record s { workers = swap_remove index s.workers })
                  (again attempt' p (swap_remove index s.workers)))
          → 0 < length s.workers
          → Ends p s (conclude A H r s again)
      go (taken ws') c next some_worker = (_, refl, ((s.workers, unpruned, c), refl, refl))
      go (gone index q attempt') c next some_worker =
          let (same, (asked, w, there, e)) = c in
          let (r, ends, serves) = next index attempt' (lt_of_get_elem? s.workers index there) in
          (
            r,
            ap (λ x. again attempt' x (swap_remove index s.workers)) same ∙ ends,
            serve_pruned index asked w p s r there e serves,
          )
      go (choked q attempt') c next some_worker = (
        _,
        refl,
        (unpruned, c.1, some_worker, ap (λ x. release A (buf_of A H x) s.pool) c.0, refl),
      )

  -- The state with the packet counted.
  abbrev pub counted : ℕ → Ingress A H → Ingress A H
  counted size s = record s { stats = udp_received_bytes size (udp_received s.stats) }

  abbrev pub Drops : Buffer → Ingress A H → Ingress A H → Type 0
  Drops buf s s' =
      (s'.pool ≡ release A buf s.pool) × (s'.workers ≡ s.workers) × (s'.stats ≡ udp_invalid s.stats)

  -- The size and the first byte of a packet that is accepted.
  abbrev pub IsMessage : Buffer → ℕ → Type 0
  IsMessage buf size = (size ≤ 8192) × (0 < size) × (get_or buf 0 0 ≡ b'd')

  abbrev pub Handles : Parcel → ℕ → Ingress A H → Ingress A H × Answer → Type 0
  Handles p size s (s', err packet_too_large) = (8192 < size) × Drops (buf_of A H p) s s'
  Handles p size s (s', err invalid_packet) =
      (size ≤ 8192) × (¬ IsMessage (buf_of A H p) size) × Drops (buf_of A H p) s s'
  Handles p size s (s', ok) = IsMessage (buf_of A H p) size × Serves p s (s', ok)
  Handles p size s (s', err choked_workers) =
      IsMessage (buf_of A H p) size × Serves p s (s', err choked_workers)
  Handles p size s (s', err no_live_workers) =
      IsMessage (buf_of A H p) size × Serves p s (s', err no_live_workers)

  handled :
      (p : Parcel) (size : ℕ) (s : Ingress A H) (r : Ingress A H × Answer)
      → IsMessage (buf_of A H p) size
      → Serves p s r
      → Handles p size s r
  handled p size s (s', ok) m h = (m, h)
  handled p size s (s', err choked_workers) m h = (m, h)
  handled p size s (s', err no_live_workers) m h = (m, h)
  handled p size s (s', err packet_too_large) m h = absurd h
  handled p size s (s', err invalid_packet) m h = absurd h

  -- For every packet the handling ends. A packet that is too large, is empty or does not begin with
  -- `d` is counted as invalid, and its buffer goes back to the pool. Any other is taken by exactly
  -- one worker, and the buffer stays with it; or every worker that is left was asked and is full,
  -- or no worker is left, and the buffer goes back to the pool. Only workers that answered that
  -- they are closed are taken out.
  pub process_udp_packet-Handles :
      (hash : SocketAddr → ℕ) (buf : Buffer) (size : ℕ) (origin local : SocketAddr)
      (s : Ingress A H)
      → let p : Parcel = (record { buf = buf; len = size }, origin, local) in
        (r : Ingress A H × Answer) × (process_udp_packet A H hash buf size origin local s ≡ some r)
        × Handles p size (counted size s) r
  unfolding process_udp_packet
  process_udp_packet-Handles hash buf size origin local s =
      let p : Parcel = (record { buf = buf; len = size }, origin, local) in
      elim (Bool-cases (ltb max_dht_udp_packet size)) [
        | inl large ↦ rw large (_, refl, (ground arith, (refl, refl, refl)))
        | inr fits ↦ elim (Bool-cases (size == 0 || not (get_or buf 0 0 == b'd'))) [
          | inl other ↦
              rw (fits, other) (_, refl, (ground arith, (λ m. ground arith), (refl, refl, refl)))
          | inr message ↦
              let (r, ends, serves) =
                select_worker-Ends (length s.workers + 1) (hash origin) 0 p (counted size s)
                  (omega arith) in
              rw (fits, message) (r, ends, handled p size (counted size s) r (ground arith) serves)
        ]
      ]
