-- ===== src/Crawler/Config.antt =====
-- The fields of internal/config/config.go that the crawler and the frontier read, and
-- frontierConfig of cmd/crawler/main.go.
use lost_media_finder.Prelude.{ℕ, ◌*◌, List, [], ◌∷◌}
use lost_media_finder.Text.{Text, codes}
use lost_media_finder.Frontier.Types.{FrontierConfig, second, hour}

pub record Config : Type 0 where
  pub base_url : Text
  pub video_pattern : Text
  pub title_suffix : Text
  -- CutoffDate in Unix seconds
  pub cutoff_date : ℕ
  pub lease_timeout_sec : ℕ
  pub max_strikes : ℕ
  pub scheduler_batch_limit : ℕ
  pub rate_limit_backoff_sec : List ℕ
  pub strike_backoff_sec : List ℕ
  pub listing_base_ttl_hours : ℕ
  pub seed_ttl_hours : ℕ
  pub listing_max_ttl_hours : ℕ
  pub quarantine_listing_hours : ℕ

-- Load with an empty environment.
abbrev pub default_config : Config
default_config = record {
  base_url = codes "https://www.vidlii.com";
  video_pattern = codes "/watch?v=";
  title_suffix = codes " - VidLii";
  cutoff_date = 1704067199;
  lease_timeout_sec = 600;
  max_strikes = 5;
  scheduler_batch_limit = 100;
  rate_limit_backoff_sec = 300 ∷ 900 ∷ 2700 ∷ [];
  strike_backoff_sec = 60 ∷ 300 ∷ 1500 ∷ [];
  listing_base_ttl_hours = 72;
  seed_ttl_hours = 24;
  listing_max_ttl_hours = 21 * 24;
  quarantine_listing_hours = 7 * 24;
}

unfoldable pub frontier_config : Config → FrontierConfig
frontier_config c = record {
  lease_timeout = c.lease_timeout_sec * second;
  max_strikes = c.max_strikes;
  rate_limit_backoff = c.rate_limit_backoff_sec;
  strike_backoff = c.strike_backoff_sec;
  listing_base_ttl = c.listing_base_ttl_hours * hour;
  seed_ttl = c.seed_ttl_hours * hour;
  listing_max_ttl = c.listing_max_ttl_hours * hour;
  quarantine_listing = c.quarantine_listing_hours * hour;
  scheduler_batch_limit = c.scheduler_batch_limit;
}
