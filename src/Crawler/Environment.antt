-- ===== src/Crawler/Environment.antt =====
-- Load of internal/config/config.go. `getenv` is the environment once godotenv.Load is done.
use lost_media_finder.Prelude.{
  ℕ, suc, get_or, ◌-◌, ◌*◌, ◌%◌, ◌^◌, ltb, Option, none, some, ◌>>=◌, List, [], ◌∷◌, if◌then◌else◌,
  ℤ, pos, negsuc,
}
use lost_media_finder.Text.{Text, codes}
use lost_media_finder.Text.Lines.{split_byte, trim_space}
use lost_media_finder.Text.Integers.{atoi}
use lost_media_finder.Frontier.Types.{second}
use lost_media_finder.Crawler.Config.{Config}

abbrev pub str_of : Text → Text → Text
str_of [] def = def
str_of (c ∷ v) def = c ∷ v

abbrev pub int_of : Text → ℤ → ℤ
int_of [] def = def
int_of (c ∷ v) def = get_or (atoi (c ∷ v)) def

abbrev pub atoi_all : List Text → Option (List ℤ)
atoi_all [] = some []
atoi_all (p ∷ parts) = do n ← atoi (trim_space p); out ← atoi_all parts; some (n ∷ out)

abbrev pub int_slice_of : Text → List ℤ → List ℤ
int_slice_of [] def = def
int_slice_of (c ∷ raw) def = get_or (atoi_all (split_byte 44 (c ∷ raw))) def

-- An unset list of proxies is empty, not a list of one empty text.
abbrev pub static_urls_of : Text → List Text
static_urls_of [] = []
static_urls_of (c ∷ raw) = split_byte 44 (c ∷ raw)

-- Two's complement in 64 bits.
abbrev pub to_int64 : ℕ → ℤ
to_int64 u = if ltb u (2 ^ 63) then pos u else negsuc (2 ^ 64 - 1 - u)

-- `time.Duration(n) * time.Second`, which wraps around.
abbrev pub seconds : ℤ → ℤ
seconds (pos n) = to_int64 ((n * second) % 2 ^ 64)
seconds (negsuc n) = to_int64 ((2 ^ 64 - (suc n * second) % 2 ^ 64) % 2 ^ 64)

-- The whole Config of the source.
pub record Settings : Type 0 where
  pub workers : ℤ
  pub base_url : Text
  pub test_url : Text
  pub video_pattern : Text
  pub title_suffix : Text
  pub output_file : Text
  pub rate_limit : ℤ
  -- CutoffDate in Unix seconds
  pub cutoff_date : ℕ
  pub redis_addr : Text
  pub mongo_uri : Text
  pub mongo_db : Text
  pub mongo_col : Text
  pub login_url : Text
  pub username : Text
  pub password : Text
  pub metrics_port : Text
  pub static_proxy_urls : List Text
  pub rotating_proxy_url : Text
  pub lease_timeout_sec : ℤ
  pub max_strikes : ℤ
  pub scheduler_batch_limit : ℤ
  pub rate_limit_backoff_sec : List ℤ
  pub strike_backoff_sec : List ℤ
  pub listing_base_ttl_hours : ℤ
  pub seed_ttl_hours : ℤ
  pub listing_max_ttl_hours : ℤ
  pub quarantine_listing_hours : ℤ

module _ (getenv : Text → Text) where
  unfoldable pub get_env_str : Text → Text → Text
  get_env_str key def = str_of (getenv key) def

  unfoldable pub get_env_int : Text → ℤ → ℤ
  unfolding atoi
  get_env_int key def = int_of (getenv key) def

  unfoldable pub get_env_int_slice : Text → List ℤ → List ℤ
  unfolding atoi split_byte trim_space
  get_env_int_slice key def = int_slice_of (getenv key) def

  unfoldable pub load : Settings
  unfolding get_env_str get_env_int get_env_int_slice split_byte
  load = record {
    workers = get_env_int (codes "WORKERS") (pos 20);
    base_url = codes "https://www.vidlii.com";
    test_url = get_env_str (codes "TEST_URL") (codes "https://www.vidlii.com/user/rinkomania");
    video_pattern = codes "/watch?v=";
    title_suffix = codes " - VidLii";
    output_file = codes "targets.json";
    rate_limit = seconds (get_env_int (codes "RATE_LIMIT_SEC") (pos 15));
    cutoff_date = 1704067199;
    redis_addr = str_of (getenv (codes "REDIS_ADDR")) (codes "localhost:6379");
    mongo_uri = str_of (getenv (codes "MONGO_URI")) (codes "mongodb://localhost:27017");
    mongo_db = codes "vidlii";
    mongo_col = codes "videos";
    login_url = codes "https://www.vidlii.com/login";
    username = getenv (codes "VIDLII_USERNAME");
    password = getenv (codes "VIDLII_PASSWORD");
    metrics_port = codes "2112";
    static_proxy_urls = static_urls_of (getenv (codes "STATIC_PROXY_URLS"));
    rotating_proxy_url = getenv (codes "ROTATING_PROXY_URL");
    lease_timeout_sec = get_env_int (codes "LEASE_TIMEOUT_SEC") (pos 600);
    max_strikes = get_env_int (codes "MAX_STRIKES") (pos 5);
    scheduler_batch_limit = get_env_int (codes "SCHEDULER_BATCH_LIMIT") (pos 100);
    rate_limit_backoff_sec =
        get_env_int_slice (codes "RATE_LIMIT_BACKOFF_SEC") (pos 300 ∷ pos 900 ∷ pos 2700 ∷ []);
    strike_backoff_sec =
        get_env_int_slice (codes "STRIKE_BACKOFF_SEC") (pos 60 ∷ pos 300 ∷ pos 1500 ∷ []);
    listing_base_ttl_hours = get_env_int (codes "LISTING_BASE_TTL_HOURS") (pos 72);
    seed_ttl_hours = get_env_int (codes "SEED_TTL_HOURS") (pos 24);
    listing_max_ttl_hours = get_env_int (codes "LISTING_MAX_TTL_HOURS") (pos (21 * 24));
    quarantine_listing_hours = get_env_int (codes "QUARANTINE_LISTING_HOURS") (pos (7 * 24));
  }

abbrev pub natural : ℤ → Option ℕ
natural (pos n) = some n
natural (negsuc n) = none

abbrev pub naturals : List ℤ → Option (List ℕ)
naturals [] = some []
naturals (z ∷ zs) = do n ← natural z; ns ← naturals zs; some (n ∷ ns)

-- The settings that the rest of the model reads, where none of them is negative.
unfoldable pub config_of : Settings → Option Config
config_of s = do
  lease_timeout ← natural s.lease_timeout_sec
  strikes ← natural s.max_strikes
  limit ← natural s.scheduler_batch_limit
  rate_limit_backoff ← naturals s.rate_limit_backoff_sec
  strike_backoff ← naturals s.strike_backoff_sec
  base_ttl ← natural s.listing_base_ttl_hours
  seed_ttl ← natural s.seed_ttl_hours
  max_ttl ← natural s.listing_max_ttl_hours
  quarantine ← natural s.quarantine_listing_hours
  some (record {
    base_url = s.base_url;
    video_pattern = s.video_pattern;
    title_suffix = s.title_suffix;
    cutoff_date = s.cutoff_date;
    lease_timeout_sec = lease_timeout;
    max_strikes = strikes;
    scheduler_batch_limit = limit;
    rate_limit_backoff_sec = rate_limit_backoff;
    strike_backoff_sec = strike_backoff;
    listing_base_ttl_hours = base_ttl;
    seed_ttl_hours = seed_ttl;
    listing_max_ttl_hours = max_ttl;
    quarantine_listing_hours = quarantine;
  })
