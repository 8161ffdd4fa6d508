-- ===== src/UdpIngress.antt =====
-- `process_udp_packet` of src/udp_ingress.rs: the choice of a worker for a packet. The channels of
-- tokio are a parameter: `try_send` hands over a value or gives it back. Its first argument
-- numbers the attempts for a packet, since what other threads do may change the answer between two.
-- The hash of an address is a parameter too.
pub mod Serving
pub mod Choices
pub mod Tests
use dht_crawler.Base.{
  ℕ, zero, suc, ◌≡◌, ◌+◌, ◌-◌, ◌%◌, ◌^◌, ◌==◌, ltb, not, ◌||◌, if◌then◌else◌, List, [], ◌∷◌, length,
  get_elem?, get_or, set, take, Option, none, some,
}
use dht_crawler.Net.{SocketAddr}
use dht_crawler.UdpBuffer.{
  ArrayQueue, Buffer, UdpPacket, UdpBufferPool, max_dht_udp_packet, release,
}

abbrev pub Parcel : Type 0
Parcel = UdpPacket × SocketAddr × SocketAddr

-- What `try_send` answers: the sender after the value was taken, or the value that comes back.
pub data Sending (W : Type 0) : Type 0 where
  sent : W → Sending W
  full closed : Parcel → Sending W

-- A refused value comes back unchanged.
pub record WorkerHandle : Type 1 where
  pub W : Type 0
  pub try_send : ℕ → Parcel → W → Sending W
  pub full-returned : (attempt : ℕ) (p q : Parcel) (w : W) → try_send attempt p w ≡ full q → q ≡ p
  pub closed-returned :
      (attempt : ℕ) (p q : Parcel) (w : W) → try_send attempt p w ≡ closed q → q ≡ p

pub data ProcessUdpPacketError : Type 0 where
  packet_too_large invalid_packet choked_workers no_live_workers : ProcessUdpPacketError

pub data Answer : Type 0 where
  ok : Answer
  err : ProcessUdpPacketError → Answer

-- The counters of `DhtRuntimeStats` that are used here; an atomic counter wraps around.
pub record IngressStats : Type 0 where
  pub received : ℕ
  pub rx_bytes : ℕ
  pub invalid : ℕ
  pub queue_full : ℕ

unfoldable pub udp_received : IngressStats → IngressStats
udp_received stats = record stats { received = (stats.received + 1) % 2 ^ 64 }

unfoldable pub udp_received_bytes : ℕ → IngressStats → IngressStats
udp_received_bytes size stats = record stats { rx_bytes = (stats.rx_bytes + size) % 2 ^ 64 }

unfoldable pub udp_invalid : IngressStats → IngressStats
udp_invalid stats = record stats { invalid = (stats.invalid + 1) % 2 ^ 64 }

unfoldable pub udp_queue_full : IngressStats → IngressStats
udp_queue_full stats = record stats { queue_full = (stats.queue_full + 1) % 2 ^ 64 }

-- `Vec::swap_remove`
abbrev pub swap_in : {A : Type 0} → Option A → ℕ → List A → List A
swap_in none index xs = xs
swap_in (some last) index xs = take (length xs - 1) (set xs index last)

abbrev pub swap_remove : {A : Type 0} → ℕ → List A → List A
swap_remove index xs = swap_in (get_elem? xs (length xs - 1)) index xs

module _ (A : ArrayQueue) (H : WorkerHandle) where
  open H use {W, try_send}

  pub record Ingress : Type 0 where
    pub pool : UdpBufferPool A
    pub stats : IngressStats
    pub workers : List W

  -- How a round over the workers ends: the parcel is taken, the worker at an index is gone, or all
  -- are full. The numbers count the attempts so far.
  pub data Round : Type 0 where
    taken : List W → Round
    gone : ℕ → Parcel → ℕ → Round
    choked : Parcel → ℕ → Round

  -- The answer of the worker at an index.
  unfoldable pub answered : Sending W → ℕ → ℕ → List W → (Parcel → Round) → Round
  answered (sent worker) index attempt workers go_on = taken (set workers index worker)
  answered (full p) index attempt workers go_on = go_on p
  answered (closed p) index attempt workers go_on = gone index p (attempt + 1)

  -- An index is less than the number of workers, so that one stands there.
  unfoldable pub ask : Option W → ℕ → ℕ → Parcel → List W → (Parcel → Round) → Round
  unfolding answered
  ask none index attempt packet workers go_on = choked packet attempt
  ask (some worker) index attempt packet workers go_on =
      answered (try_send attempt packet worker) index attempt workers go_on

  -- The loop over the offsets, of which `remaining` are left.
  unfoldable pub offer : ℕ → ℕ → ℕ → ℕ → Parcel → List W → Round
  unfolding ask
  offer zero preferred offset attempt packet workers = choked packet attempt
  offer (suc remaining) preferred offset attempt packet workers =
      let index = (preferred + offset) % length workers in
      ask (get_elem? workers index) index attempt packet workers
        (λ p. offer remaining preferred (offset + 1) (attempt + 1) p workers)

  abbrev pub buf_of : Parcel → Buffer
  buf_of (packet, origin, local) = packet.buf

  -- The end of a round; a round that lost a worker is followed by another.
  unfoldable pub conclude :
      Round
      → Ingress
      → (ℕ → Parcel → List W → Option (Ingress × Answer))
      → Option (Ingress × Answer)
  conclude (taken workers) s again = some (record s { workers = workers }, ok)
  conclude (gone index packet attempt) s again = again attempt packet (swap_remove index s.workers)
  conclude (choked packet attempt) s again = some (
    record s { stats = udp_queue_full s.stats; pool = release A (buf_of packet) s.pool },
    err choked_workers,
  )

  -- The loop `'select_worker`; `none` means that the fuel ran out.
  unfoldable pub select_worker : ℕ → ℕ → ℕ → Parcel → Ingress → Option (Ingress × Answer)
  unfolding offer conclude
  select_worker zero hash attempt packet s = none
  select_worker (suc fuel) hash attempt packet s =
      let count = length s.workers in
      let rest =
        conclude (offer count (hash % count) 0 attempt packet s.workers) s
          (λ attempt' packet' workers'.
            select_worker fuel hash attempt' packet' (record s { workers = workers' })) in
      if count == 0
      then some (record s { pool = release A (buf_of packet) s.pool }, err no_live_workers)
      else rest

  -- A round that is followed by another has one worker less, so that one round more than there are
  -- workers is enough.
  unfoldable pub process_udp_packet :
      (SocketAddr → ℕ) → Buffer → ℕ → SocketAddr → SocketAddr → Ingress → Option (Ingress × Answer)
  unfolding select_worker udp_received udp_received_bytes udp_invalid
  process_udp_packet hash buf size origin_addr local_addr old =
      let s = record old { stats = udp_received_bytes size (udp_received old.stats) } in
      let dropped = record s { stats = udp_invalid s.stats; pool = release A buf s.pool } in
      if ltb max_dht_udp_packet size
      then some (dropped, err packet_too_large)
      else if size == 0 || not (get_or buf 0 0 == b'd')
      then some (dropped, err invalid_packet)
      else select_worker (length s.workers + 1) (hash origin_addr) 0
          (record { buf = buf; len = size }, origin_addr, local_addr) s
