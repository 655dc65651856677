-- ===== src/System/Keeping.antt =====
-- No job is lost: it stays until one of the calls of internal/storage/frontier.go that end it.
use lost_media_finder.Prelude.{◌/◌, ◌<◌, ◌≡◌, ◌≢◌, false, arith}
use lost_media_finder.Text.{Text}
use lost_media_finder.Redis.{Redis}
use lost_media_finder.Frontier.Types.{Disposition, ok, pending_score, second}
use lost_media_finder.Frontier.Keyspace.{Keyspace}
use lost_media_finder.Frontier.Methods.{
  unix, unix_or_zero, quarantine_until, is_strikeable, ladder_of, reason_of, base_ttl_of,
  seed_listing, ack, fail, terminal, complete_listing,
}
use lost_media_finder.Frontier.Sound.Defs.{live_jobs, IsSound}
use lost_media_finder.Frontier.Pending.Defs.{job_for}
use lost_media_finder.Crawler.Classify.{until_for}
use lost_media_finder.Frontier.Calls.{
  admit_video-keeps, admit_listing-keeps, lease-keeps, promote-keeps, reap-keeps, sweep-keeps,
  run_listing_scheduler-keeps,
}
use lost_media_finder.System.Surviving.{
  Lives, promote_one-Lives, reap_one-Lives, sweep_one-Lives, lua_lease-Lives,
  admit_live_video-Lives, admit_live_listing-Lives, schedule_one-Lives,
}
use lost_media_finder.System.Resolving.{
  ack-Kept, nack-Lives, terminal-Kept, complete-Kept, fail-KeptAlive,
}
use lost_media_finder.System.Defs.{
  Setup, frontier, is_video, Step, Reach, admits_video, admits_listing, seeds, changes_bloom,
  leases, acks, nacks, fails, terminates, completes, reaps, sweeps, promotes, schedules, here, next,
}
use lost_media_finder.System.Jobs.{IsEmpty, listing_jobs, reached}
use lost_media_finder.System.Workers.{Reach-trans}

module _ {r : Redis} (s : Setup) (url : Text) where
  -- The step does not end a job of the URL: it is no Fail that returns Dead, and no Ack, Terminal or
  -- CompleteListing that succeeds, on one.
  abbrev pub Spares : {k k' : Keyspace r} → Step s k k' → Type 0
  Spares (admits_video now u k is_v) = Unit
  Spares (admits_listing now u k t) = Unit
  Spares (seeds u k) = Unit
  Spares (changes_bloom b k keeps) = Unit
  Spares (leases now k) = Unit
  Spares (acks j k w is_v) = (ack j k).0 ≡ ok tt → j.url ≢ url
  Spares (nacks j k w) = Unit
  Spares (fails now j class k t w) =
      (fail (frontier s) now j class k).0 ≡ ok Disposition.dead → j.url ≢ url
  Spares (terminates now j reason k t w plain) =
      (terminal j reason (until_for j.class s.cfg.quarantine_listing now) k).0 ≡ ok tt → j.url ≢ url
  Spares (completes now j n k t w) =
      (complete_listing (frontier s) now j n k).0 ≡ ok tt → j.url ≢ url
  Spares (reaps now k) = Unit
  Spares (sweeps k) = Unit
  Spares (promotes now k) = Unit
  Spares (schedules now k t) = Unit

  abbrev pub SparesAll : {start k : Keyspace r} → Reach s start k → Type 0
  SparesAll here = Unit
  SparesAll (next reach move) = SparesAll reach × Spares move

  abbrev Keeps : Keyspace r → Type 0
  Keeps = Lives url

  -- The invariant is for the new member of Fail, which stands nowhere yet.
  Step-Lives :
      {k k' : Keyspace r} (move : Step s k k') → IsSound k → Spares move → Keeps k → Keeps k'
  unfolding seed_listing ack fail terminal complete_listing
  Step-Lives (admits_video now u k is_v) sound spared h =
      admit_video-keeps Keeps (frontier s) now u k (λ _ h. h) (admit_live_video-Lives url u) h
  Step-Lives (admits_listing now u k t) sound spared h =
      admit_listing-keeps Keeps (frontier s) now u k (λ _ h. h)
        (admit_live_listing-Lives url u (unix now) pending_score) h
  Step-Lives (seeds u k) sound spared h = h
  Step-Lives (changes_bloom b k keeps) sound spared h = h
  Step-Lives (leases now k) sound spared h =
      lease-keeps Keeps (frontier s) now k
        (lua_lease-Lives url (unix now) (s.cfg.lease_timeout / second) k h)
  Step-Lives (acks j k w is_v) sound spared h = ack-Kept s url j w k h spared
  Step-Lives (nacks j k w) sound spared h = nack-Lives s url j w k h
  Step-Lives (fails now j class k t w) sound spared h =
      fail-KeptAlive s url j w (is_strikeable class) s.cfg.max_strikes (unix now) (reason_of class)
        (quarantine_until (frontier s) j.class now) (ladder_of s.cfg class) k sound h spared
  Step-Lives (terminates now j reason k t w plain) sound spared h =
      terminal-Kept s url j w reason (unix_or_zero (until_for j.class s.cfg.quarantine_listing now))
        k h spared
  Step-Lives (completes now j n k t w) sound spared h =
      complete-Kept s url j w n (unix now) (base_ttl_of s.cfg j.class / second)
        (s.cfg.listing_max_ttl / second) k h spared
  Step-Lives (reaps now k) sound spared h = reap-keeps Keeps now k (reap_one-Lives url) h
  Step-Lives (sweeps k) sound spared h = sweep-keeps Keeps k (sweep_one-Lives url) h
  Step-Lives (promotes now k) sound spared h = promote-keeps Keeps now k (promote_one-Lives url) h
  Step-Lives (schedules now k t) sound spared h =
      run_listing_scheduler-keeps Keeps (frontier s) now k
        (schedule_one-Lives url (unix now) pending_score) h

module _ {r : Redis} {start : Keyspace r} (e : IsEmpty r start) (s : Setup) (url : Text) where
  -- No job is lost: from every state that calls of the frontier reach from an empty database, a URL
  -- with a job in ready, processing or delayed has one after any further calls, unless a Fail on a job
  -- of the URL returns Dead or an Ack, Terminal or CompleteListing on one succeeds.
  pub job_kept :
      {k k' : Keyspace r} (reach : Reach s start k) (later : Reach s k k')
      → 0 < live_jobs (job_for url) k
      → SparesAll s url later
      → 0 < live_jobs (job_for url) k'
  job_kept reach here some_job spared = some_job
  job_kept reach (next later move) some_job (spared, spares) =
      Step-Lives s url move (reached e s (Reach-trans reach later)).sound spares
        (job_kept reach later some_job spared)

  -- From every such state, a listing URL with such a job has exactly one after any further calls,
  -- unless a Fail on a job of the URL returns Dead or an Ack, Terminal or CompleteListing on one
  -- succeeds.
  listing_kept :
      {k k' : Keyspace r} (reach : Reach s start k) (later : Reach s k k')
      → is_video s url ≡ false
      → 0 < live_jobs (job_for url) k
      → SparesAll s url later
      → live_jobs (job_for url) k' ≡ 1
  listing_kept reach later listing some_job spared = ground (
    arith,
    job_kept reach later some_job spared,
    listing_jobs e s (Reach-trans reach later) url listing,
  )
