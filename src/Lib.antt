-- ===== src/Lib.antt =====
-- A verification library for dht-crawler, a crawler of the BitTorrent DHT written in Rust.
--
-- The program. An actor probes nodes of the DHT with find_node queries. The nodes that it hears of
-- pass the filters of src/addr.rs into the pool of src/node_pool.rs, which hands them out in the
-- order of their arrival and remembers for a while whom it has probed. Token buckets
-- (src/budget.rs) limit queries, answers and replacements; src/bootstrap.rs says when to ask the
-- bootstrap sources again, and which; src/crawl_config.rs brings the options of src/types.rs into
-- range. src/udp_ingress.rs hands each packet to one of the workers, and messages are written and
-- their compact fields read by src/krpc.rs. src/discovery.rs samples InfoHashes from nodes and emits
-- those that it has not emitted before. They wait in the queue of src/scheduler.rs until their
-- metadata is fetched; src/metadata.rs remembers the peers that failed. src/routing_snapshot.rs
-- finds the nodes that are nearest to a target.
--
-- The modules, and the code that each is about:
--   Base         shared: Boolean tests, lists with native lengths, association lists for hash maps and
--                sets, ordered maps (BTreeMap), lists as arrays
--   Net          IpAddr and SocketAddr of the standard library; NetMode, NodeTuple (src/types.rs)
--   Addr         src/addr.rs
--   Krpc         src/krpc.rs, and DhtResponse of src/protocol.rs
--   NodeId       src/node_id.rs
--   UdpBuffer    src/udp_buffer.rs: UdpBufferPool
--   Budget       src/budget.rs: RateBucket
--   Options      src/types.rs: the option structs and their defaults
--   CrawlConfig  src/crawl_config.rs: ResolvedCrawlConfig
--   Bootstrap    src/bootstrap.rs: BootstrapGate, BootstrapSourcePool
--   NodePool     src/node_pool.rs: NodePool; NodePool.Recent is its RecentProbes
--   Scheduler    src/scheduler.rs: the entries of the queue; Scheduler.Queue is PendingHashQueue,
--                Scheduler.Retry is RetryState and RetryHistory
--   Metadata     src/metadata.rs: PeerFailureCache
--   UdpIngress   src/udp_ingress.rs: process_udp_packet, and its counters in src/runtime_stats.rs
--   Discovery    src/discovery.rs: Discovery.Dedup is HashDedup, Discovery.Actor is DiscoveryActor
--                with admission and cooldowns, Discovery.Ticks its tick, and Discovery.Responses the
--                handling of an answer
--   RoutingSnapshot  src/routing_snapshot.rs: PrefixIndex, RoutingSnapshot
-- A struct is a record, and a method takes it as its last argument and gives back the new one, in a
-- pair with its result where it has one. Helpers by clauses stand for the branches of a method. The
-- file of a component holds its definitions; the files below it hold the proofs, and its Tests run
-- it at concrete inputs.
--
-- Conventions. Instants and durations are natural numbers of nanoseconds, so that a difference of
-- instants stops at zero as `checked_duration_since(..).unwrap_or_default()` does, and an addition
-- of instants does not overflow. Octets and code points are natural numbers; what a
-- theorem needs of their range is a hypothesis of it. The sequence number of the queue wraps around
-- at 2^64, and counters that saturate say so. A hash map is an association list with at most one
-- entry for a key. Where the source unwraps an entry, a missing one is left alone.
-- `sort_unstable_by` is modelled by a sort that keeps the order of equals.
--
-- Parameters. The numbers of the token bucket are a record `Float` of the operations on f64 with the
-- laws of IEEE arithmetic that the proofs use (order, monotone minimum, signs); Budget.Exact gives an
-- instance. `micros` is the time that an expiry is measured to take, which only feeds counters.
-- The queue of crossbeam under the buffers is the record `ArrayQueue` of its operations and its
-- documented behaviour, and the bytes that node_id.rs draws at random are an argument. A channel of
-- tokio is the record `WorkerHandle` of its try_send, and the hash of an address is an argument. What
-- the actor of discovery asks of its surroundings is an argument of its handlers: the text of a
-- hash, the filter, whether the channel of hashes takes one, the seeds that are drawn, and whether a
-- query is sent.
--
-- Fuel. The loops of the heap and of the queue recurse on fuel: a sift gets the length of the heap,
-- as its index halves, or grows below that length; `expire` of the recent probes has at most 256
-- rounds in the source itself; the loop that frees a slot gets the size of the heap, as each
-- expiry lowers the number of due elements; the loops of the queue get the size of the index that
-- they empty. A packet gets one round more than there are workers, as each further round has one
-- worker less; the tick of discovery has 256 rounds in the source itself. The trie is built on the
-- length of the range, since each part is shorter, and visited on the position of the branch, since
-- the parts of a branch stand before it.
--
-- Not modelled: sockets, tasks and channels (src/server.rs, src/crawl_engine.rs, the listener of
-- src/udp_ingress.rs, the loop of src/discovery.rs), the peer wire protocol (the fetcher of
-- src/metadata.rs), lookups (src/peer_lookup.rs), the reservoir of responsive nodes, the random draw
-- of the snapshot, the jobs of the scheduler, the other metrics, the Java bindings and the example.
pub mod Base
pub mod Net
pub mod Addr
pub mod Krpc
pub mod NodeId
pub mod UdpBuffer
pub mod Budget
pub mod Options
pub mod CrawlConfig
pub mod Bootstrap
pub mod NodePool
pub mod Scheduler
pub mod Metadata
pub mod UdpIngress
pub mod Discovery
pub mod RoutingSnapshot
