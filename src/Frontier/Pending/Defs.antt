-- ===== src/Frontier/Pending/Defs.antt =====
-- The invariant that ties the listing schedule to the live jobs.
use lost_media_finder.Prelude.{ℕ, ◌≡◌, Bool, false, Option, none, some, List, arith, ◌==◌, bit}
use lost_media_finder.Text.{Text, eq_text}
use lost_media_finder.Redis.{Redis}
use lost_media_finder.Frontier.Types.{pending_score}
use lost_media_finder.Frontier.Member.{member, after_separator, after_separator-member}
use lost_media_finder.Frontier.Keyspace.{Keyspace}
use lost_media_finder.Frontier.Sound.Defs.{live}

-- The member is a job for the URL.
unfoldable pub job_for : Text → Text → Bool
job_for url m = elim (after_separator m) [ none ↦ false | some u ↦ eq_text u url ]

pub job_for-member : (id : ℕ) (u v : Text) → job_for v (member id u) ≡ eq_text u v
unfolding job_for
job_for-member id u v = ground (arith, after_separator-member id u)

unfoldable pub is_pending : Option ℕ → Bool
is_pending none = false
is_pending (some s) = s == pending_score

-- Every listing URL has one live job while its score is PENDING, and none otherwise.
pub record Pairs (r : Redis) (video : Text → Bool) (ready processing : List Text)
    (delayed next : r.Zset) : Type 0 where
  pub at :
      (url : Text)
      → video url ≡ false
      → live r (job_for url) ready processing delayed ≡ bit (is_pending (r.zscore next url))

abbrev pub IsPaired : {r : Redis} → (Text → Bool) → Keyspace r → Type 0
IsPaired {r} video k = Pairs r video k.ready k.processing k.delayed k.listing_next
