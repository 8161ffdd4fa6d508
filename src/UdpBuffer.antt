-- ===== src/UdpBuffer.antt =====
-- src/udp_buffer.rs: the pool of receive buffers. A buffer is the list of its bytes. The queue of
-- crossbeam is a parameter, `ArrayQueue`, with what its documentation says: it is first in, first
-- out, `push` fails exactly on a full queue, and `pop` exactly on an empty one.
pub mod Sizes
pub mod Tests
use dht_crawler.Base.{
  ℕ, zero, suc, ◌≡◌, Bool, true, false, not, ltb, ◌==◌, if◌then◌else◌, List, [], ◌∷◌, ◌++◌, length,
  take, replicate, Option, none, some,
}

abbrev pub Buffer : Type 0
Buffer = List ℕ

abbrev pub rest_of : List Buffer → List Buffer
rest_of [] = []
rest_of (buf ∷ bufs) = bufs

abbrev pub head_of : List Buffer → Option Buffer
head_of [] = none
head_of (buf ∷ bufs) = some buf

pub record ArrayQueue : Type 1 where
  pub T : Type 0
  pub new_queue : ℕ → T
  pub push : Buffer → T → T
  pub pop : T → T × Option Buffer
  pub content : T → List Buffer
  pub limit : T → ℕ
  pub new-content : (n : ℕ) → content (new_queue n) ≡ []
  pub new-limit : (n : ℕ) → limit (new_queue n) ≡ n
  pub push-content :
      (buf : Buffer) (q : T)
      → content (push buf q)
        ≡ (if ltb (length (content q)) (limit q) then content q ++ (buf ∷ []) else content q)
  pub push-limit : (buf : Buffer) (q : T) → limit (push buf q) ≡ limit q
  pub pop-content : (q : T) → content (pop q).0 ≡ rest_of (content q)
  pub pop-result : (q : T) → (pop q).1 ≡ head_of (content q)
  pub pop-limit : (q : T) → limit (pop q).0 ≡ limit q

abbrev pub max_dht_udp_packet : ℕ
max_dht_udp_packet = 8192

abbrev pub initial_pool_size : ℕ
initial_pool_size = 512

abbrev pub max_pool_size : ℕ
max_pool_size = 4096

pub record UdpPacket : Type 0 where
  pub buf : Buffer
  pub len : ℕ

unfoldable pub payload : UdpPacket → List ℕ
payload packet = take packet.len packet.buf

unfoldable pub alloc_buffer : ℕ → Buffer
alloc_buffer capacity = replicate capacity 0

module _ (A : ArrayQueue) where
  open A use {T, new_queue, push, pop}

  -- `PoolInner`, which the clones of a pool share.
  pub record UdpBufferPool : Type 0 where
    pub free : T
    pub buf_capacity : ℕ

  unfoldable pub fill : ℕ → T → T
  unfolding alloc_buffer
  fill zero free = free
  fill (suc n) free = fill n (push (alloc_buffer max_dht_udp_packet) free)

  unfoldable pub new : UdpBufferPool
  unfolding fill
  new = record {
    free = fill initial_pool_size (new_queue max_pool_size);
    buf_capacity = max_dht_udp_packet;
  }

  unfoldable pub buffer_or_new : Option Buffer → ℕ → Buffer
  unfolding alloc_buffer
  buffer_or_new none capacity = alloc_buffer capacity
  buffer_or_new (some buf) capacity = buf

  unfoldable pub acquire : UdpBufferPool → UdpBufferPool × Buffer
  unfolding buffer_or_new
  acquire pool =
      let (free, found) = pop pool.free in
      (record pool { free = free }, buffer_or_new found pool.buf_capacity)

  unfoldable pub release : Buffer → UdpBufferPool → UdpBufferPool
  release buf pool =
      if not (length buf == pool.buf_capacity)
      then pool
      else record pool { free = push buf pool.free }
