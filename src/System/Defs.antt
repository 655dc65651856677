-- ===== src/System/Defs.antt =====
-- The calls that the crawler makes on the frontier, as a step relation.
use lost_media_finder.Prelude.{ℕ, ◌+◌, ◌/◌, ◌<◌, ◌≡◌, Bool, true, none, some, List}
use lost_media_finder.Text.{Text}
use lost_media_finder.Text.Decimal.{print}
use lost_media_finder.Text.Search.{index_byte, contains_text}
use lost_media_finder.Redis.{Redis}
use lost_media_finder.Frontier.Types.{FailClass, Job, FrontierConfig, second, pending_score}
use lost_media_finder.Frontier.Member.{member, separator}
use lost_media_finder.Frontier.Keyspace.{Keyspace}
use lost_media_finder.Frontier.Methods.{
  Frontier, unix, class_of, admit_video, admit_listing, seed_listing, lease, ack, nack, fail,
  terminal, complete_listing, reap, sweep, promote, run_listing_scheduler,
}
use lost_media_finder.Crawler.Classify.{until_for, new_url_classifier}

-- What main.go builds the frontier from.
pub record Setup : Type 0 where
  pub cfg : FrontierConfig
  pub video_pattern : Text
  pub seed_urls : List Text

abbrev pub frontier : Setup → Frontier
frontier s = record {
  classify = some (new_url_classifier s.video_pattern s.seed_urls);
  cfg = s.cfg;
}

abbrev pub is_video : Setup → Text → Bool
is_video s url = contains_text url s.video_pattern

-- A clock reading after 1970, at which no deadline reaches PENDING (the year 9999).
pub record InTime (s : Setup) (now : ℕ) : Type 0 where
  pub begun : 0 < unix now
  pub revisit : unix now + s.cfg.listing_max_ttl / second < pending_score
  pub quarantine : unix (now + s.cfg.quarantine_listing) < pending_score

-- A job as Lease returns it.
pub record IsJob (s : Setup) (j : Job) : Type 0 where
  pub number : ℕ
  pub id_of : j.id ≡ print number
  pub member_of : j.member ≡ member number j.url
  pub class_of_url : j.class ≡ class_of (frontier s).classify j.url

module _ {r : Redis} (s : Setup) where
  pub data Step : Keyspace r → Keyspace r → Type 0 where
    -- admitURL
    admits_video :
        (now : ℕ) (url : Text) (k : Keyspace r)
        → is_video s url ≡ true
        → Step k (admit_video (frontier s) now url k).1
    admits_listing :
        (now : ℕ) (url : Text) (k : Keyspace r)
        → InTime s now
        → Step k (admit_listing (frontier s) now url k).1
    -- main: the seeded listing, and the startup's changes of the bloom filter, which forget nothing
    seeds : (url : Text) (k : Keyspace r) → Step k (seed_listing url k)
    changes_bloom :
        (b : r.Bloom) (k : Keyspace r)
        → ((url : Text) → r.bf_exists k.bloom url ≡ true → r.bf_exists b url ≡ true)
        → Step k (record k { bloom = b })
    -- worker
    leases : (now : ℕ) (k : Keyspace r) → Step k (lease (frontier s) now k).1
    -- handleOutcome: Ack for a video page, Terminal for a missing one
    acks : (j : Job) (k : Keyspace r) → IsJob s j → is_video s j.url ≡ true → Step k (ack j k).1
    nacks : (j : Job) (k : Keyspace r) → IsJob s j → Step k (nack j k).1
    fails :
        (now : ℕ) (j : Job) (class : FailClass) (k : Keyspace r)
        → InTime s now
        → IsJob s j
        → Step k (fail (frontier s) now j class k).1
    terminates :
        (now : ℕ) (j : Job) (reason : Text) (k : Keyspace r)
        → InTime s now
        → IsJob s j
        → index_byte reason separator ≡ none
        → Step k (terminal j reason (until_for j.class s.cfg.quarantine_listing now) k).1
    completes :
        (now : ℕ) (j : Job) (new_children : ℕ) (k : Keyspace r)
        → InTime s now
        → IsJob s j
        → Step k (complete_listing (frontier s) now j new_children k).1
    -- the reconcilers
    reaps : (now : ℕ) (k : Keyspace r) → Step k (reap now k).1
    sweeps : (k : Keyspace r) → Step k (sweep k).1
    promotes : (now : ℕ) (k : Keyspace r) → Step k (promote now k).1
    schedules :
        (now : ℕ) (k : Keyspace r)
        → InTime s now
        → Step k (run_listing_scheduler (frontier s) now k).1

  pub data Reach (start : Keyspace r) : Keyspace r → Type 0 where
    here : Reach start start
    next : {k k' : Keyspace r} → Reach start k → Step k k' → Reach start k'
