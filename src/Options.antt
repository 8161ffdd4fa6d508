-- ===== src/Options.antt =====
-- src/types.rs: the options of the server and their defaults. A host name is the list of the bytes of
-- its text.
use dht_crawler.Base.{ℕ, ◌*◌, Bool, true, List, [], ◌∷◌, codes}
use dht_crawler.Net.{NetMode, ipv4_only}

pub record PoolOptions : Type 0 where
  pub capacity : ℕ
  pub recent_probe_ttl_secs : ℕ
  pub responsive_capacity : ℕ
  pub responsive_ttl_secs : ℕ
  pub revisit_interval_secs : ℕ
  pub low_watermark : ℕ

abbrev pub default_pool_options : PoolOptions
default_pool_options = record {
  capacity = 100000;
  recent_probe_ttl_secs = 600;
  responsive_capacity = 16384;
  responsive_ttl_secs = 900;
  revisit_interval_secs = 0;
  low_watermark = 10000;
}

pub record RateLimitOptions : Type 0 where
  pub max_find_node_rate_per_sec : ℕ
  pub burst : ℕ
  pub max_in_flight : ℕ
  pub request_timeout_secs : ℕ
  pub max_new_destinations_per_minute : ℕ
  pub max_response_rate_per_sec : ℕ
  pub max_response_bytes_per_sec : ℕ
  pub max_response_rate_per_source : ℕ
  pub metadata_pressure_floor_percent : ℕ
  pub max_replacements_per_minute : ℕ
  pub max_in_flight_per_subnet : ℕ

abbrev pub default_rate_limit_options : RateLimitOptions
default_rate_limit_options = record {
  max_find_node_rate_per_sec = 200;
  burst = 40;
  max_in_flight = 512;
  request_timeout_secs = 2;
  max_new_destinations_per_minute = 10000;
  max_response_rate_per_sec = 500;
  max_response_bytes_per_sec = 1024 * 1024;
  max_response_rate_per_source = 40;
  metadata_pressure_floor_percent = 25;
  max_replacements_per_minute = 25000;
  max_in_flight_per_subnet = 8;
}

pub record BootstrapOptions : Type 0 where
  pub nodes : List (List ℕ)
  pub interval_secs : ℕ
  pub max_nodes_per_round : ℕ
  pub source_backoff_base_secs : ℕ
  pub source_backoff_max_secs : ℕ

abbrev pub default_bootstrap_options : BootstrapOptions
default_bootstrap_options = record {
  nodes =
      codes "router.bittorrent.com:6881"
      ∷ codes "dht.transmissionbt.com:6881"
      ∷ codes "router.utorrent.com:6881"
      ∷ codes "dht.aelitis.com:6881"
      ∷ [];
  interval_secs = 300;
  max_nodes_per_round = 3;
  source_backoff_base_secs = 300;
  source_backoff_max_secs = 3600;
}

pub record TargetOptions : Type 0 where
  pub random_walk_percent : ℕ
  pub sparse_bucket_percent : ℕ
  pub neighbor_sender_id : Bool

abbrev pub default_target_options : TargetOptions
default_target_options = record {
  random_walk_percent = 70;
  sparse_bucket_percent = 30;
  neighbor_sender_id = true;
}

pub record SchedulerOptions : Type 0 where
  pub priority_event_channel_capacity : ℕ
  pub discovery_event_channel_capacity : ℕ
  pub event_batch_limit : ℕ
  pub node_batch_limit : ℕ
  pub routing_snapshot_size : ℕ
  pub snapshot_refresh_millis : ℕ

abbrev pub default_scheduler_options : SchedulerOptions
default_scheduler_options = record {
  priority_event_channel_capacity = 8192;
  discovery_event_channel_capacity = 16384;
  event_batch_limit = 256;
  node_batch_limit = 4096;
  routing_snapshot_size = 4096;
  snapshot_refresh_millis = 1000;
}

pub record CrawlOptions : Type 0 where
  pub pool : PoolOptions
  pub rate_limit : RateLimitOptions
  pub bootstrap : BootstrapOptions
  pub target : TargetOptions
  pub scheduler : SchedulerOptions

abbrev pub default_crawl_options : CrawlOptions
default_crawl_options = record {
  pool = default_pool_options;
  rate_limit = default_rate_limit_options;
  bootstrap = default_bootstrap_options;
  target = default_target_options;
  scheduler = default_scheduler_options;
}

pub record MetadataOptions : Type 0 where
  pub timeout_secs : ℕ
  pub max_queue_size : ℕ
  pub max_worker_count : ℕ
  pub peer_failure_cache_capacity : ℕ
  pub peer_failure_ttl_secs : ℕ
  pub retry_initial_delay_secs : ℕ
  pub retry_max_delay_secs : ℕ
  pub retry_max_attempts : ℕ
  pub retry_history_ttl_secs : ℕ
  pub retry_history_capacity : ℕ

abbrev pub default_metadata_options : MetadataOptions
default_metadata_options = record {
  timeout_secs = 4;
  max_queue_size = 10000;
  max_worker_count = 256;
  peer_failure_cache_capacity = 200000;
  peer_failure_ttl_secs = 60;
  retry_initial_delay_secs = 60;
  retry_max_delay_secs = 3600;
  retry_max_attempts = 5;
  retry_history_ttl_secs = 21600;
  retry_history_capacity = 100000;
}

pub record PeerLookupOptions : Type 0 where
  pub max_lookups_per_second : ℕ
  pub burst : ℕ
  pub max_active_lookups : ℕ
  pub max_queries : ℕ
  pub max_concurrent_queries : ℕ
  pub lookup_timeout_ms : ℕ
  pub query_timeout_ms : ℕ

abbrev pub default_peer_lookup_options : PeerLookupOptions
default_peer_lookup_options = record {
  max_lookups_per_second = 32;
  burst = 32;
  max_active_lookups = 64;
  max_queries = 12;
  max_concurrent_queries = 4;
  lookup_timeout_ms = 2000;
  query_timeout_ms = 500;
}

pub record DiscoveryOptions : Type 0 where
  pub enabled : Bool
  pub sample_queries_per_second : ℕ
  pub sample_burst : ℕ
  pub sample_max_in_flight : ℕ
  pub sample_query_timeout_secs : ℕ
  pub sample_min_interval_secs : ℕ
  pub sample_failure_backoff_secs : ℕ
  pub sample_no_new_backoff_secs : ℕ
  pub sample_max_nodes : ℕ
  pub sample_cooldown_capacity : ℕ
  pub hash_dedup_capacity : ℕ
  pub hash_dedup_ttl_secs : ℕ
  pub get_peers_hashes_per_second : ℕ
  pub get_peers_burst : ℕ
  pub sample_hashes_per_second : ℕ
  pub sample_hash_burst : ℕ

abbrev pub default_discovery_options : DiscoveryOptions
default_discovery_options = record {
  enabled = true;
  sample_queries_per_second = 4;
  sample_burst = 8;
  sample_max_in_flight = 16;
  sample_query_timeout_secs = 3;
  sample_min_interval_secs = 300;
  sample_failure_backoff_secs = 900;
  sample_no_new_backoff_secs = 1800;
  sample_max_nodes = 16384;
  sample_cooldown_capacity = 100000;
  hash_dedup_capacity = 100000;
  hash_dedup_ttl_secs = 900;
  get_peers_hashes_per_second = 8;
  get_peers_burst = 16;
  sample_hashes_per_second = 16;
  sample_hash_burst = 64;
}

pub record DhtOptions : Type 0 where
  pub port : ℕ
  pub netmode : NetMode
  pub hash_queue_capacity : ℕ
  pub metadata : MetadataOptions
  pub peer_lookup : PeerLookupOptions
  pub discovery : DiscoveryOptions
  pub crawl : CrawlOptions

abbrev pub default_dht_options : DhtOptions
default_dht_options = record {
  port = 6881;
  netmode = ipv4_only;
  hash_queue_capacity = 10000;
  metadata = default_metadata_options;
  peer_lookup = default_peer_lookup_options;
  discovery = default_discovery_options;
  crawl = default_crawl_options;
}
