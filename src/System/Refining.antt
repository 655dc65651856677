-- ===== src/System/Refining.antt =====
-- The calls of internal/storage/frontier.go refine the operations of a bag of URLs.
use lost_media_finder.Prelude.{◌/◌, ◌≤◌, refl}
use lost_media_finder.Text.{Text}
use lost_media_finder.Redis.{Redis}
use lost_media_finder.Frontier.Types.{second}
use lost_media_finder.Frontier.Keyspace.{Keyspace}
use lost_media_finder.Frontier.Methods.{
  unix, unix_or_zero, base_ttl_of, admit_video, admit_listing, seed_listing, ack, fail, terminal,
  complete_listing,
}
use lost_media_finder.Frontier.Calls.{lease-keeps}
use lost_media_finder.Frontier.Sound.Defs.{live_jobs}
use lost_media_finder.Frontier.Pending.Defs.{job_for}
use lost_media_finder.Crawler.Classify.{until_for}
use lost_media_finder.System.Bag.{
  Same, Resolves, reap-Same, sweep-Same, promote-Same, nack-Same, ack-Resolves, terminal-Resolves,
  complete-Resolves,
}
use lost_media_finder.System.Counting.{Counts, lua_lease-Counts}
use lost_media_finder.System.Defs.{
  Setup, frontier, is_video, Step, Reach, admits_video, admits_listing, seeds, changes_bloom,
  leases, acks, nacks, fails, terminates, completes, reaps, sweeps, promotes, schedules,
}
use lost_media_finder.System.Jobs.{IsEmpty, reached}
use lost_media_finder.System.Changes.{
  Admits, Disposes, admit_video-Admits, admit_listing-Admits, schedule-grows, fail-Disposes,
}

module _ {r : Redis} (s : Setup) where
  -- What a call does to the bag.
  abbrev pub Effect : {k k' : Keyspace r} → Step s k k' → Type 0
  Effect (admits_video now u k is_v) = Admits u k (admit_video (frontier s) now u k)
  Effect (admits_listing now u k t) = Admits u k (admit_listing (frontier s) now u k)
  Effect {k' = k'} (seeds u k) = Same k k'
  Effect {k' = k'} (changes_bloom b k keeps) = Same k k'
  Effect {k' = k'} (leases now k) = Same k k'
  Effect (acks j k w is_v) = Resolves j.url k (ack j k)
  Effect {k' = k'} (nacks j k w) = Same k k'
  Effect (fails now j class k t w) = Disposes j.url k (fail (frontier s) now j class k)
  Effect (terminates now j reason k t w plain) =
      Resolves j.url k (terminal j reason (until_for j.class s.cfg.quarantine_listing now) k)
  Effect (completes now j n k t w) = Resolves j.url k (complete_listing (frontier s) now j n k)
  Effect {k' = k'} (reaps now k) = Same k k'
  Effect {k' = k'} (sweeps k) = Same k k'
  Effect {k' = k'} (promotes now k) = Same k k'
  Effect {k' = k'} (schedules now k t) =
      (url : Text) → live_jobs (job_for url) k ≤ live_jobs (job_for url) k'

  module _ {start : Keyspace r} (e : IsEmpty r start) where
    -- The frontier refines a bag that holds each URL as often as it has jobs in ready, processing and
    -- delayed. From a state that is reachable from an empty database, Lease, Nack, Reap, Sweep, Promote
    -- and SeedListing leave the bag as it is. AdmitVideo and AdmitListing leave it where they return
    -- Suppressed, add their URL once where they return New or DueRevisit, and do one of both where
    -- their script raises an error. Ack, Terminal and CompleteListing take their URL away once and
    -- succeed, or leave the bag and return ErrStaleLease. Fail takes its URL away once where it returns
    -- Dead, and else leaves the bag. RunListingScheduler takes nothing away.
    pub Step-Effect : {k k' : Keyspace r} → Reach s start k → (move : Step s k k') → Effect move
    unfolding seed_listing ack terminal complete_listing
    Step-Effect reach (admits_video now u k is_v) = admit_video-Admits s now u k
    Step-Effect reach (admits_listing now u k t) = admit_listing-Admits s now u k
    Step-Effect reach (seeds u k) = λ url. refl
    Step-Effect reach (changes_bloom b k keeps) = λ url. refl
    Step-Effect reach (leases now k) = λ url.
        lease-keeps (Counts url (live_jobs (job_for url) k)) (frontier s) now k (
          lua_lease-Counts url (live_jobs (job_for url) k) (unix now) (s.cfg.lease_timeout / second)
            k refl)
    Step-Effect reach (acks j k w is_v) = ack-Resolves (is_video s) k (reached e s reach) s j w
    Step-Effect reach (nacks j k w) = nack-Same (is_video s) k (reached e s reach) s j w
    Step-Effect reach (fails now j class k t w) =
        fail-Disposes s j w now class k (reached e s reach).sound
    Step-Effect reach (terminates now j reason k t w plain) =
        terminal-Resolves (is_video s) k (reached e s reach) s j w reason
          (unix_or_zero (until_for j.class s.cfg.quarantine_listing now))
    Step-Effect reach (completes now j n k t w) =
        complete-Resolves (is_video s) k (reached e s reach) s j w n (unix now)
          (base_ttl_of s.cfg j.class / second) (s.cfg.listing_max_ttl / second)
    Step-Effect reach (reaps now k) = reap-Same (is_video s) k (reached e s reach) now
    Step-Effect reach (sweeps k) = sweep-Same (is_video s) k (reached e s reach)
    Step-Effect reach (promotes now k) = promote-Same (is_video s) k (reached e s reach) now
    Step-Effect reach (schedules now k t) = schedule-grows s now k
