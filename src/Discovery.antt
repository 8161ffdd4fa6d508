-- ===== src/Discovery.antt =====
-- src/discovery.rs: the discovery of hashes by sampling. `Dedup` is HashDedup; the state of the actor
-- and its nodes are `Actor`, its tick is `Ticks`, and the answers that it gets are `Responses`.
pub mod Dedup
pub mod Actor
pub mod Ticks
pub mod Responses
pub mod Tests
