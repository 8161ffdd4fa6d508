-- ===== src/CrawlConfig/Tests.antt =====
-- The settings of src/crawl_config.rs for concrete options.
use dht_crawler.Base.{◌≡◌, refl}
use dht_crawler.Options.{CrawlOptions, default_crawl_options}
use dht_crawler.CrawlConfig.{from_options}
use dht_crawler.CrawlConfig.Ranges.{InRange, from_options-InRange}

-- The options of the source's own test.
abbrev options : CrawlOptions
options = record default_crawl_options {
  pool = record default_crawl_options.pool { capacity = 42 };
}

small_pool : (from_options options).pool_capacity ≡ 42
unfolding from_options
small_pool = refl

small_watermark : (from_options options).low_watermark ≡ 42
unfolding from_options
small_watermark = refl

from_options-InRange_example : InRange (from_options options)
from_options-InRange_example = from_options-InRange options
