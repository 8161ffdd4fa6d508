-- ===== src/CrawlConfig.antt =====
-- src/crawl_config.rs: the options as the crawl uses them. Durations are nanoseconds.
pub mod Ranges
pub mod Tests
use dht_crawler.Base.{ℕ, ◌*◌, ◌==◌, min, max, Bool, if◌then◌else◌, List, [], ◌∷◌}
use dht_crawler.Options.{CrawlOptions, default_bootstrap_options}

-- `Duration::from_secs` and `Duration::from_millis`
abbrev from_secs : ℕ → ℕ
from_secs n = n * 1000000000

abbrev from_millis : ℕ → ℕ
from_millis n = n * 1000000

pub record ResolvedCrawlConfig : Type 0 where
  pub max_find_node_rate_per_sec : ℕ
  pub burst : ℕ
  pub max_in_flight : ℕ
  pub request_timeout : ℕ
  pub max_new_destinations_per_minute : ℕ
  pub max_response_rate_per_sec : ℕ
  pub max_response_bytes_per_sec : ℕ
  pub max_response_rate_per_source : ℕ
  pub metadata_pressure_floor_percent : ℕ
  pub pool_capacity : ℕ
  pub max_replacements_per_minute : ℕ
  pub recent_probe_ttl : ℕ
  pub responsive_capacity : ℕ
  pub responsive_ttl : ℕ
  pub revisit_interval : ℕ
  pub low_watermark : ℕ
  pub max_in_flight_per_subnet : ℕ
  pub bootstrap_nodes : List (List ℕ)
  pub bootstrap_interval : ℕ
  pub bootstrap_max_nodes_per_round : ℕ
  pub bootstrap_backoff_base : ℕ
  pub bootstrap_backoff_max : ℕ
  pub random_walk_percent : ℕ
  pub sparse_bucket_percent : ℕ
  pub neighbor_sender_id : Bool
  pub priority_event_channel_capacity : ℕ
  pub discovery_event_channel_capacity : ℕ
  pub event_batch_limit : ℕ
  pub node_batch_limit : ℕ
  pub routing_snapshot_size : ℕ
  pub snapshot_refresh : ℕ

-- `nodes.clone()`, or the default ones if there are none
nodes_or_default : List (List ℕ) → List (List ℕ)
nodes_or_default [] = default_bootstrap_options.nodes
nodes_or_default (node ∷ nodes) = node ∷ nodes

unfoldable pub from_options : CrawlOptions → ResolvedCrawlConfig
unfolding nodes_or_default
from_options options =
    let capacity = max options.pool.capacity 1 in
    record {
      max_find_node_rate_per_sec = options.rate_limit.max_find_node_rate_per_sec;
      burst =
          if options.rate_limit.max_find_node_rate_per_sec == 0
          then 0
          else max options.rate_limit.burst 1;
      max_in_flight = max options.rate_limit.max_in_flight 1;
      request_timeout = from_secs (max options.rate_limit.request_timeout_secs 1);
      max_new_destinations_per_minute = options.rate_limit.max_new_destinations_per_minute;
      max_response_rate_per_sec = options.rate_limit.max_response_rate_per_sec;
      max_response_bytes_per_sec = options.rate_limit.max_response_bytes_per_sec;
      max_response_rate_per_source = options.rate_limit.max_response_rate_per_source;
      metadata_pressure_floor_percent = min options.rate_limit.metadata_pressure_floor_percent 100;
      pool_capacity = capacity;
      max_replacements_per_minute = options.rate_limit.max_replacements_per_minute;
      recent_probe_ttl = from_secs (max options.pool.recent_probe_ttl_secs 1);
      responsive_capacity = max options.pool.responsive_capacity 1;
      responsive_ttl = from_secs (max options.pool.responsive_ttl_secs 1);
      revisit_interval = from_secs options.pool.revisit_interval_secs;
      low_watermark = min options.pool.low_watermark capacity;
      max_in_flight_per_subnet = max options.rate_limit.max_in_flight_per_subnet 1;
      bootstrap_nodes = nodes_or_default options.bootstrap.nodes;
      bootstrap_interval = from_secs options.bootstrap.interval_secs;
      bootstrap_max_nodes_per_round = options.bootstrap.max_nodes_per_round;
      bootstrap_backoff_base = from_secs (max options.bootstrap.source_backoff_base_secs 1);
      bootstrap_backoff_max = from_secs (max options.bootstrap.source_backoff_max_secs 1);
      random_walk_percent = min options.target.random_walk_percent 100;
      sparse_bucket_percent = min options.target.sparse_bucket_percent 100;
      neighbor_sender_id = options.target.neighbor_sender_id;
      priority_event_channel_capacity = max options.scheduler.priority_event_channel_capacity 1;
      discovery_event_channel_capacity = max options.scheduler.discovery_event_channel_capacity 1;
      event_batch_limit = max options.scheduler.event_batch_limit 1;
      node_batch_limit = max options.scheduler.node_batch_limit 1;
      routing_snapshot_size = max options.scheduler.routing_snapshot_size 1;
      snapshot_refresh = from_millis (max options.scheduler.snapshot_refresh_millis 100);
    }
