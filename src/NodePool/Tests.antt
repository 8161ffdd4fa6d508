-- ===== src/NodePool/Tests.antt =====
-- The pool of src/node_pool.rs at concrete nodes.
use dht_crawler.Base.{
  ◌≤◌, false, ℕ, ◌≡◌, refl, true, length, replicate, none, some, ite, arith, ℕ_discrete,
}
use dht_crawler.Base.Assoc.{get, remove, elem, erase}
use dht_crawler.Net.{v4, SocketAddr, NodeTuple, addr_discrete, ip_discrete}
use dht_crawler.Addr.{is_valid_node_addr}
use dht_crawler.Budget.Exact.{exact}
use dht_crawler.NodePool.Recent
use dht_crawler.NodePool.Recent.{RecentProbes}
use dht_crawler.NodePool.Recent.Steps.{deadline_of}
use dht_crawler.NodePool.Recent.Recording.{Records}
use dht_crawler.NodePool.Recent.Deadlines
use dht_crawler.NodePool.Recent.Expiry.{Expires, expire-Expires}
use dht_crawler.NodePool.{
  NodePool, admitted, duplicate, new, admit, take_front_for_probe, restore_front,
}
use dht_crawler.NodePool.Invariant.{Inv, Inv-later, new-Inv, restore_front-Inv}
use dht_crawler.NodePool.Probing.{take_front_for_probe-Inv}
use dht_crawler.NodePool.Admission.{Admits, admit-Admits, admit-Inv}
use dht_crawler.NodePool.{slot_blocked, prepare_recent_slot}
use dht_crawler.NodePool.Slots.{prepare_recent_slot-free}
use dht_crawler.NodePool.Suppression.{admit-take_front_for_probe}

abbrev node : ℕ → NodeTuple
node n = record { id = replicate 20 n; addr = record { ip = v4 8 8 8 n; port = 6881 } }

abbrev micros : RecentProbes → ℕ
micros recent = length recent.expiry

-- Room for two nodes and for two recent probes, which count for a hundred nanoseconds.
abbrev empty : NodePool exact
empty = new exact 2 60 100 2 5

abbrev one : NodePool exact
one = (admit exact micros (node 1) 5 empty).0

-- The first node is out for a probe since 6.
abbrev probed : NodePool exact
probed = (take_front_for_probe exact micros 6 one).0

empty-Inv : Inv 5 empty
empty-Inv = new-Inv exact 2 60 100 2 5

one-Inv : Inv 5 one
one-Inv = admit-Inv exact micros (node 1) 5 empty empty-Inv

admit-Inv_example : Inv 5 (admit exact micros (node 2) 5 one).0
admit-Inv_example = admit-Inv exact micros (node 2) 5 one one-Inv

admit-Admits_example :
    Admits
      (admit exact micros (node 2) 5 one).1
      (record { node = node 2; queued_at = 5 })
      one.queue
      (admit exact micros (node 2) 5 one).0.queue
admit-Admits_example = admit-Admits exact micros (node 2) 5 one one-Inv

program : Unit {0}
unfolding new admit take_front_for_probe restore_front get remove elem erase addr_discrete
    ip_discrete ℕ_discrete is_valid_node_addr Recent.record_probe Recent.expire Recent.has_due
    Recent.is_recent Recent.new
program = tt

taken : (take_front_for_probe exact micros 6 one).1 ≡ some (node 1)
unfolding program
taken = refl

one_later : Inv 6 one
one_later = Inv-later one (omega arith) one-Inv

probed_ok : Inv 6 probed
probed_ok = take_front_for_probe-Inv exact micros 6 one one_later

take_front_for_probe-Inv_example : Inv 6 probed
take_front_for_probe-Inv_example = take_front_for_probe-Inv exact micros 6 one one_later

ttl : one.recent_ttl ≡ 100
unfolding program
ttl = refl

good : is_valid_node_addr (node 1).addr ≡ true
unfolding program
good = refl

admit-take_front_for_probe_example : (admit exact micros (node 1) 105 probed).1 ≡ duplicate
admit-take_front_for_probe_example =
    admit-take_front_for_probe exact micros 6 105 one (node 1) (node 1) one_later taken refl good
      (omega arith) (omega (arith, ttl))

-- Once the time to live is over, the node is admitted again.
welcome_again : (admit exact micros (node 1) 106 probed).1 ≡ admitted
unfolding program
welcome_again = refl

restored_Inv : Inv 6 (restore_front exact (node 1) 6 probed)
unfolding program
restored_Inv = restore_front-Inv exact 6 (node 1) 6 probed probed_ok (omega arith) refl

-- One probe is recorded, until 106.
abbrev recent : RecentProbes
recent = Recent.record_probe (node 1).addr 106 (Recent.new 2)

recent-Inv : Deadlines.Inv recent
unfolding Recent.new get
recent-Inv =
    Deadlines.record_probe-Inv (node 1).addr 106 (Recent.new 2) (Deadlines.new-Inv 2)
      (λ d h. absurd (ground arith))

unknown : deadline_of (node 2).addr recent ≡ none
unfolding program
unknown = refl

record_probe-Inv_example : Deadlines.Inv (Recent.record_probe (node 2).addr 50 recent)
record_probe-Inv_example =
    Deadlines.record_probe-Inv (node 2).addr 50 recent recent-Inv
      (λ d h. absurd (ground (arith, unknown)))

known : deadline_of (node 1).addr recent ≡ some 106
unfolding program
known = refl

-- A known address is given a later deadline.
not_later : (d : ℕ) → deadline_of (node 1).addr recent ≡ some d → d ≤ 120
not_later d h = ground (arith, known)

record_probe-Records_example :
    Records (node 1).addr 120 recent (Recent.record_probe (node 1).addr 120 recent)
record_probe-Records_example =
    Deadlines.record_probe-Records (node 1).addr 120 recent recent-Inv not_later
      (λ h. absurd (ground (arith, known)))

refreshed_deadline :
    deadline_of (node 1).addr (Recent.record_probe (node 1).addr 120 recent) ≡ some 120
unfolding program
refreshed_deadline = refl

forget-Inv_example :
    Deadlines.Inv (Recent.forget (node 1).addr recent)
    × ((a : SocketAddr)
        → deadline_of a (Recent.forget (node 1).addr recent)
          ≡ ite (addr_discrete (node 1).addr a) none (deadline_of a recent))
forget-Inv_example = Deadlines.forget-Inv (node 1).addr recent recent-Inv

expire-Expires_example : Expires 200 (recent, 0) (Recent.expire 200 recent)
expire-Expires_example = expire-Expires 200 recent recent-Inv

-- The one entry is gone at 200, and is counted.
expired : Recent.expire 200 recent ≡ (Recent.new 2, 1)
unfolding program
expired = refl

prepare_recent_slot-free_example :
    slot_blocked
      (node 2).addr
      200
      (prepare_recent_slot exact micros (node 2).addr 200 probed).recent
    ≡ false
prepare_recent_slot-free_example =
    prepare_recent_slot-free exact micros (node 2).addr 200 probed
      (Inv-later probed (omega arith) probed_ok)
