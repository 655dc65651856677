-- ===== src/Frontier/Types.antt =====
-- The types and the configuration of internal/storage/frontier.go. A duration is its nanoseconds,
-- as time.Duration is, and an instant its Unix seconds; the configured values are natural numbers.
use lost_media_finder.Prelude.{◌≡◌, ◌⊎◌, inl, inr, refl, ℕ, ◌*◌, List, [], ◌∷◌}
use lost_media_finder.Text.{Text}

pub data AdmitResult : Type 0 where
  suppressed new due_revisit : AdmitResult

pub data FailClass : Type 0 where
  fail_rate_limited fail_strikeable : FailClass

pub data Disposition : Type 0 where
  delayed dead : Disposition

pub data UrlClass : Type 0 where
  class_video class_listing class_seed : UrlClass

pub record Job : Type 0 where
  pub id : Text
  pub url : Text
  pub class : UrlClass
  pub member : Text

-- What a method of the frontier returns as its error.
pub data FrontierError : Type 0 where
  stale_lease script_error unexpected_result : FrontierError

pub data Result {ℓ} (A : Type ℓ) : Type ℓ where
  ok : A → Result A
  err : FrontierError → Result A

pub Result-cases :
    {A : Type 0} (x : Result A) → ((a : A) × (x ≡ ok a)) ⊎ ((e : FrontierError) × (x ≡ err e))
Result-cases (ok a) = inl (a, refl)
Result-cases (err e) = inr (e, refl)

pub record FrontierStats : Type 0 where
  pub ready : ℕ
  pub processing : ℕ
  pub delayed : ℕ
  pub listings_scheduled : ℕ
  pub listings_pending : ℕ
  pub dead : ℕ
  pub strikes : ℕ

abbrev pub second : ℕ
second = 1000000000

abbrev pub hour : ℕ
hour = 3600 * second

pub record FrontierConfig : Type 0 where
  pub lease_timeout : ℕ
  pub max_strikes : ℕ
  pub rate_limit_backoff : List ℕ
  pub strike_backoff : List ℕ
  pub listing_base_ttl : ℕ
  pub seed_ttl : ℕ
  pub listing_max_ttl : ℕ
  pub quarantine_listing : ℕ
  pub scheduler_batch_limit : ℕ

abbrev pub default_frontier_config : FrontierConfig
default_frontier_config = record {
  lease_timeout = 600 * second;
  max_strikes = 5;
  rate_limit_backoff = 300 ∷ 900 ∷ 2700 ∷ [];
  strike_backoff = 60 ∷ 300 ∷ 1500 ∷ [];
  listing_base_ttl = 72 * hour;
  seed_ttl = 24 * hour;
  listing_max_ttl = 21 * (24 * hour);
  quarantine_listing = 7 * (24 * hour);
  scheduler_batch_limit = 100;
}

abbrev pub pending_score : ℕ
pending_score = 253402300799

abbrev pub promote_batch_limit : ℕ
promote_batch_limit = 100

abbrev pub reap_batch_limit : ℕ
reap_batch_limit = 100

abbrev pub sweep_batch_limit : ℕ
sweep_batch_limit = 100
