-- ===== src/UdpBuffer/Sizes.antt =====
-- src/udp_buffer.rs: every buffer of the pool has the pool's size, and the pool is bounded.
use dht_crawler.Base.{
  ℕ, zero, suc, ◌≤◌, ◌≡◌, refl, ap, ltb, ◌==◌, List, [], ◌∷◌, length, length-append, replicate, All,
  All-append, arith, Bool-cases, inl, inr,
}
use dht_crawler.UdpBuffer.{
  ArrayQueue, Buffer, rest_of, head_of, UdpBufferPool, alloc_buffer, fill, new, buffer_or_new,
  acquire, release,
}

abbrev pub IsSized : ℕ → Buffer → Type 0
IsSized capacity buf = length buf ≡ capacity

length-replicate : (n a : ℕ) → length (replicate n a) ≡ n
length-replicate zero a = refl
length-replicate (suc n) a = ap suc (length-replicate n a)

module _ (A : ArrayQueue) where
  open A use {
    T, new_queue, push, pop, content, limit, new-content, push-content, push-limit, pop-content,
    pop-result, pop-limit,
  }

  pub record Inv (pool : UdpBufferPool A) : Type 0 where
    pub sized : All (IsSized pool.buf_capacity) (content pool.free)
    pub bounded : length (content pool.free) ≤ limit pool.free

  push-ok :
      (capacity : ℕ) (buf : Buffer) (q : T)
      → IsSized capacity buf
      → All (IsSized capacity) (content q)
      → length (content q) ≤ limit q
      → All (IsSized capacity) (content (push buf q))
        × (length (content (push buf q)) ≤ limit (push buf q))
  push-ok capacity buf q size all h = elim (Bool-cases (ltb (length (content q)) (limit q))) [
    | inl room ↦
        rw (push-content buf q, push-limit buf q, room)
          (
            All-append (IsSized capacity) (content q) (buf ∷ []) all (size, tt),
            ground (arith, length-append (content q) (buf ∷ [])),
          )
    | inr full ↦ rw (push-content buf q, push-limit buf q, full) (all, h)
  ]

  fill-ok :
      (n : ℕ) (q : T)
      → All (IsSized 8192) (content q)
      → length (content q) ≤ limit q
      → All (IsSized 8192) (content (fill A n q))
        × (length (content (fill A n q)) ≤ limit (fill A n q))
  unfolding fill alloc_buffer
  fill-ok zero q all h = (all, h)
  fill-ok (suc n) q all h =
      let (all', h') = push-ok 8192 (replicate 8192 0) q (length-replicate 8192 0) all h in
      fill-ok n (push (replicate 8192 0) q) all' h'

  pub new-Inv : Inv (new A)
  unfolding new
  new-Inv =
      let (all, h) =
        fill-ok 512 (new_queue 4096) (rw (new-content 4096) tt)
          (rw (new-content 4096) (omega arith)) in
      record { sized = all; bounded = h }

  rest-ok :
      (capacity : ℕ) (bufs : List Buffer)
      → All (IsSized capacity) bufs
      → All (IsSized capacity) (rest_of bufs)
  rest-ok capacity [] all = tt
  rest-ok capacity (buf ∷ bufs) all = all.1

  rest-length : (bufs : List Buffer) → length (rest_of bufs) ≤ length bufs
  rest-length [] = omega arith
  rest-length (buf ∷ bufs) = omega arith

  found-IsSized :
      (capacity : ℕ) (bufs : List Buffer)
      → All (IsSized capacity) bufs
      → IsSized capacity (buffer_or_new A (head_of bufs) capacity)
  unfolding buffer_or_new alloc_buffer
  found-IsSized capacity [] all = length-replicate capacity 0
  found-IsSized capacity (buf ∷ bufs) all = all.0

  -- `acquire` always gives a buffer of the pool's size, from an empty pool too, and `release` takes
  -- any buffer back without breaking that: the pool stays within its bound and holds no other size.
  pub acquire-release-Inv :
      (pool : UdpBufferPool A) (buf : Buffer)
      → Inv pool
      → Inv (acquire A pool).0
        × (length (acquire A pool).1 ≡ pool.buf_capacity)
        × Inv (release A buf pool)
  unfolding acquire release
  acquire-release-Inv pool buf v = (
    record {
      sized = rw (pop-content pool.free) (rest-ok pool.buf_capacity (content pool.free) v.sized);
      bounded =
          rw (pop-content pool.free, pop-limit pool.free)
            (omega (arith, rest-length (content pool.free), v.bounded));
    },
    rw (pop-result pool.free) (found-IsSized pool.buf_capacity (content pool.free) v.sized),
    elim (Bool-cases (length buf == pool.buf_capacity)) [
      | inr other ↦ rw other v
      | inl same ↦
          let (all, h) = push-ok pool.buf_capacity buf pool.free (ground arith) v.sized v.bounded in
          rw same (record { sized = all; bounded = h })
    ],
  )
