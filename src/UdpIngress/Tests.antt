-- ===== src/UdpIngress/Tests.antt =====
-- Packets of src/udp_ingress.rs and three workers: one is closed, one has a full queue, one takes packets.
use dht_crawler.Base.{ℕ, ◌≡◌, refl, [], ◌∷◌, List, Option, none, some}
use dht_crawler.Net.{SocketAddr, v4}
use dht_crawler.UdpBuffer.{release}
use dht_crawler.UdpBuffer.Tests.{limited}
use dht_crawler.UdpIngress.{
  Parcel, Sending, sent, full, closed, WorkerHandle, Ingress, Answer, ok, err, choked_workers,
  no_live_workers, invalid_packet, answered, ask, offer, conclude, select_worker, udp_received,
  udp_received_bytes, udp_invalid, udp_queue_full, process_udp_packet,
}
use dht_crawler.UdpIngress.Choices.{counted, Handles, process_udp_packet-Handles}

-- The last has the parcels that it took.
data Worker : Type 0 where
  shut busy : Worker
  open_to : List Parcel → Worker

send : ℕ → Parcel → Worker → Sending Worker
send attempt p shut = closed p
send attempt p busy = full p
send attempt p (open_to ps) = sent (open_to (p ∷ ps))

full-returned_send : (attempt : ℕ) (p q : Parcel) (w : Worker) → send attempt p w ≡ full q → q ≡ p
unfolding send
full-returned_send attempt p q shut h = absurd (cc)
full-returned_send attempt p q busy h = cc
full-returned_send attempt p q (open_to ps) h = absurd (cc)

closed-returned_send :
    (attempt : ℕ) (p q : Parcel) (w : Worker) → send attempt p w ≡ closed q → q ≡ p
unfolding send
closed-returned_send attempt p q shut h = cc
closed-returned_send attempt p q busy h = absurd (cc)
closed-returned_send attempt p q (open_to ps) h = absurd (cc)

abbrev handle : WorkerHandle
handle = record {
  W = Worker;
  try_send = send;
  full-returned = full-returned_send;
  closed-returned = closed-returned_send;
}

abbrev peer : SocketAddr
peer = record { ip = v4 8 8 8 8; port = 6881 }

abbrev start : List Worker → Ingress limited handle
start workers = record {
  pool = record { free = ([], 2); buf_capacity = 3 };
  stats = record { received = 0; rx_bytes = 0; invalid = 0; queue_full = 0 };
  workers = workers;
}

program : Unit {0}
unfolding answered ask offer conclude select_worker udp_received udp_received_bytes udp_invalid
    udp_queue_full process_udp_packet release send
program = tt

abbrev run : List ℕ → ℕ → List Worker → Option (Ingress limited handle × Answer)
run buf size workers = process_udp_packet limited handle (λ a. 4) buf size peer peer (start workers)

answer_of : Option (Ingress limited handle × Answer) → Option (Answer × List Worker)
answer_of none = none
answer_of (some (s, a)) = some (a, s.workers)

abbrev parcel : Parcel
parcel = (record { buf = b'd' ∷ b'e' ∷ 0 ∷ []; len = 2 }, peer, peer)

-- The hash prefers the second worker, which is closed; the one that takes its place is full, and the first takes the packet.
third_choice :
    answer_of (run (b'd' ∷ b'e' ∷ 0 ∷ []) 2 (open_to [] ∷ shut ∷ busy ∷ []))
    ≡ some (ok, open_to (parcel ∷ []) ∷ busy ∷ [])
unfolding program answer_of
third_choice = refl

all_busy :
    answer_of (run (b'd' ∷ b'e' ∷ 0 ∷ []) 2 (busy ∷ shut ∷ []))
    ≡ some (err choked_workers, busy ∷ [])
unfolding program answer_of
all_busy = refl

nobody_left :
    answer_of (run (b'd' ∷ b'e' ∷ 0 ∷ []) 2 (shut ∷ shut ∷ [])) ≡ some (err no_live_workers, [])
unfolding program answer_of
nobody_left = refl

not_bencode : answer_of (run (b'x' ∷ 0 ∷ 0 ∷ []) 1 []) ≡ some (err invalid_packet, [])
unfolding program answer_of
not_bencode = refl

process_udp_packet-Handles_example :
    (r : Ingress limited handle × Answer) × (run
        (b'd' ∷ b'e' ∷ 0 ∷ [])
        2
        (open_to [] ∷ shut ∷ busy ∷ [])
      ≡ some r)
    × Handles limited handle parcel 2
        (counted limited handle 2 (start (open_to [] ∷ shut ∷ busy ∷ [])))
        r
process_udp_packet-Handles_example =
    process_udp_packet-Handles limited handle (λ a. 4) (b'd' ∷ b'e' ∷ 0 ∷ []) 2 peer peer
      (start (open_to [] ∷ shut ∷ busy ∷ []))
