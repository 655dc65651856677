-- ===== src/Frontier/Behaviour/Quarantine.antt =====
-- The entry that Fail of internal/storage/frontier.go leaves in `dead` at the last strike.
use lost_media_finder.Prelude.{ℕ, ◌+◌, ◌/◌, ◌≡◌, ◌≢◌, refl, ◌++◌}
use lost_media_finder.Text.{Text, codes}
use lost_media_finder.Text.Decimal.{print}
use lost_media_finder.Frontier.Types.{
  fail_strikeable, UrlClass, class_video, class_listing, class_seed,
}
use lost_media_finder.Frontier.Member.{dead_entry}
use lost_media_finder.Frontier.Methods.{Frontier, quarantine_until, reason_of}

-- The entry of a URL that used up its strikes: for good for a video, and for any other URL up to
-- the end of the quarantine in seconds.
pub data Exhausted (f : Frontier) (now : ℕ) (class : UrlClass) (entry : Text) : Type 0 where
  for_good : class ≡ class_video → entry ≡ codes "strikes_exhausted|0" → Exhausted f now class entry
  quarantined :
      class ≢ class_video
      → entry ≡ codes "strikes_exhausted|" ++ print ((now + f.cfg.quarantine_listing) / 1000000000)
      → Exhausted f now class entry

pub quarantine_until-Exhausted :
    (f : Frontier) (now : ℕ) (class : UrlClass)
    → Exhausted f now class (dead_entry (reason_of fail_strikeable) (quarantine_until f class now))
unfolding quarantine_until dead_entry print
quarantine_until-Exhausted f now class_video = for_good refl refl
quarantine_until-Exhausted f now class_listing = quarantined (λ h. cc) refl
quarantine_until-Exhausted f now class_seed = quarantined (λ h. cc) refl
