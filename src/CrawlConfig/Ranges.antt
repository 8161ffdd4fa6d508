-- ===== src/CrawlConfig/Ranges.antt =====
-- src/crawl_config.rs: the ranges in which the crawl finds its settings, whatever the options say.
use dht_crawler.Base.{ℕ, ◌≤◌, ◌<◌, ◌≡◌, List, [], ◌∷◌, length, arith, ◌⊎◌}
use dht_crawler.Options.{CrawlOptions}
use dht_crawler.CrawlConfig.{ResolvedCrawlConfig, from_options, nodes_or_default}

pub record InRange (config : ResolvedCrawlConfig) : Type 0 where
  pub burst_ok : (config.max_find_node_rate_per_sec ≡ 0) ⊎ (0 < config.burst)
  pub in_flight_ok : 0 < config.max_in_flight
  pub per_subnet_ok : 0 < config.max_in_flight_per_subnet
  pub timeout_ok : 0 < config.request_timeout
  pub pressure_ok : config.metadata_pressure_floor_percent ≤ 100
  pub pool_ok : 0 < config.pool_capacity
  pub watermark_ok : config.low_watermark ≤ config.pool_capacity
  pub probe_ttl_ok : 0 < config.recent_probe_ttl
  pub responsive_ok : 0 < config.responsive_capacity
  pub responsive_ttl_ok : 0 < config.responsive_ttl
  pub nodes_ok : 0 < length config.bootstrap_nodes
  pub backoff_ok : (0 < config.bootstrap_backoff_base) × (0 < config.bootstrap_backoff_max)
  pub random_ok : config.random_walk_percent ≤ 100
  pub sparse_ok : config.sparse_bucket_percent ≤ 100
  pub channels_ok :
      (0 < config.priority_event_channel_capacity) × (0 < config.discovery_event_channel_capacity)
  pub batches_ok : (0 < config.event_batch_limit) × (0 < config.node_batch_limit)
  pub snapshot_ok : (0 < config.routing_snapshot_size) × (0 < config.snapshot_refresh)

nodes_or_default-nonempty : (nodes : List (List ℕ)) → 0 < length (nodes_or_default nodes)
unfolding nodes_or_default
nodes_or_default-nonempty [] = omega arith
nodes_or_default-nonempty (node ∷ nodes) = omega arith

-- Whatever the options are, the settings of the crawl are in range: no capacity, timeout or batch is
-- zero, percentages go up to 100, the low watermark lies within the pool, there is a bootstrap
-- source, and the burst is positive unless the query rate is zero.
pub from_options-InRange : (options : CrawlOptions) → InRange (from_options options)
unfolding from_options
from_options-InRange options = record {
  burst_ok = ground arith;
  in_flight_ok = omega arith;
  per_subnet_ok = omega arith;
  timeout_ok = omega arith;
  pressure_ok = omega arith;
  pool_ok = omega arith;
  watermark_ok = omega arith;
  probe_ttl_ok = omega arith;
  responsive_ok = omega arith;
  responsive_ttl_ok = omega arith;
  nodes_ok = nodes_or_default-nonempty options.bootstrap.nodes;
  backoff_ok = (omega arith, omega arith);
  random_ok = omega arith;
  sparse_ok = omega arith;
  channels_ok = (omega arith, omega arith);
  batches_ok = (omega arith, omega arith);
  snapshot_ok = (omega arith, omega arith);
}
