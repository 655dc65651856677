-- ===== src/System/Tests.antt =====
-- Runs of the frontier on the in-memory server.
use lost_media_finder.Prelude.{◌≤◌, ◌*◌, ◌⊎◌, ℕ, ◌+◌, ◌≡◌, ◌≢◌, refl, none, some, arith, bit, ◌<◌}
use lost_media_finder.Text.{Text, codes, eq_text}
use lost_media_finder.Text.Members.{occurrences}
use lost_media_finder.Text.Search.{index_byte}
use lost_media_finder.Text.Decimal.{print}
use lost_media_finder.Redis.Memory.{memory}
use lost_media_finder.Frontier.Types.{
  Job, ok, second, default_frontier_config, class_listing, stale_lease, suppressed, new,
  fail_rate_limited, fail_strikeable, FrontierConfig,
}
use lost_media_finder.Frontier.Member.{split_member, separator, member, split_member-member}
use lost_media_finder.Frontier.Scripts.Admit.{lua_admit_listing, lua_lease, lua_admit_video}
use lost_media_finder.Frontier.Methods.{
  unix, admit_listing, lease, fail, terminal, complete_listing, admit_video,
}
use lost_media_finder.Frontier.Sound.Defs.{live_jobs}
use lost_media_finder.Frontier.Pending.Defs.{job_for, is_pending}
use lost_media_finder.System.Defs.{Setup, frontier, here}
use lost_media_finder.System.Scenario.{
  server, empty, empty-IsEmpty, setup, moment, user_page, admitted, in_work, Reach-in_work,
  user_page-listing, user_page-leased, user_job,
}
use lost_media_finder.Frontier.Types
use lost_media_finder.Frontier.Fencing.{
  acked, nacked, failed, resolve_job, resolved_once, resolve_job-stale,
}
use lost_media_finder.Frontier.Behaviour.Failing.{strikes_of, attempts_of, fail-last_strike}
use lost_media_finder.Frontier.Behaviour.Quarantine.{Exhausted}
use lost_media_finder.Frontier.Behaviour.Revisit.{complete_listing-schedules, Revisits}
use lost_media_finder.System.Once.{video_new_once}
use lost_media_finder.System.Blocking.{terminal-blocks, Refuses, Readmits}
use lost_media_finder.Frontier.Keyspace.{Keyspace}
use lost_media_finder.System.Readmission.{listing_suppressed, SameJobs}
use lost_media_finder.Frontier.Parts.{Parts}
use lost_media_finder.System.Jobs.{live-Parts, listing_jobs, leased_in_processing}

listing_jobs_example :
    live_jobs (job_for user_page) in_work
    ≡ bit (is_pending (server.zscore in_work.listing_next user_page))
listing_jobs_example = listing_jobs empty-IsEmpty setup Reach-in_work user_page user_page-listing

-- The count in that state is 1.
one_live_job : live_jobs (job_for user_page) in_work ≡ 1
unfolding empty memory admit_listing lease lua_admit_listing lua_lease job_for print index_byte
    eq_text
one_live_job = refl

user_page-waits : 0 < live_jobs (eq_text (member 1 user_page)) in_work
unfolding empty memory admit_listing lease lua_admit_listing lua_lease member eq_text print
user_page-waits = omega arith

live-Parts_example : Parts (member 1 user_page) × IsProp (Parts (member 1 user_page))
live-Parts_example =
    live-Parts empty-IsEmpty setup Reach-in_work (member 1 user_page) user_page-waits

leased_in_processing_example :
    (occurrences (member 1 user_page) in_work.processing ≡ 1)
    × (occurrences (member 1 user_page) in_work.ready ≡ 0)
    × (server.zscore in_work.delayed (member 1 user_page) ≡ none)
leased_in_processing_example =
    leased_in_processing empty-IsEmpty setup Reach-in_work (member 1 user_page) user_page-leased

resolved_once_example :
    resolve_job
      (frontier setup)
      nacked
      user_job
      (resolve_job (frontier setup) (failed moment fail_rate_limited) user_job in_work).1
    ≡ (
      some stale_lease,
      (resolve_job (frontier setup) (failed moment fail_rate_limited) user_job in_work).1,
    )
resolved_once_example =
    resolved_once (frontier setup) (failed moment fail_rate_limited) nacked user_job in_work

user_page-unleased : server.zscore admitted.lease (member 1 user_page) ≡ none
unfolding empty memory admit_listing lua_admit_listing member eq_text print
user_page-unleased = refl

resolve_job-stale_example :
    resolve_job (frontier setup) acked user_job admitted ≡ (some stale_lease, admitted)
resolve_job-stale_example =
    resolve_job-stale (frontier setup) acked user_job admitted user_page-unleased

split_member-member_example : split_member (member 12 (codes "a|b")) ≡ (print 12, codes "a|b")
split_member-member_example = split_member-member 12 (codes "a|b")

-- One strike is all that this configuration allows.
abbrev strict : Setup
strict = record setup { cfg = record default_frontier_config { max_strikes = 1 } }

fail-last_strike_example :
    ((fail (frontier strict) moment user_job fail_strikeable in_work).0 ≡ ok Types.dead)
    × ((entry : Text) × (server.hget
            (fail (frontier strict) moment user_job fail_strikeable in_work).1.dead
            user_page
          ≡ some entry)
        × Exhausted (frontier strict) moment class_listing entry)
    × (strikes_of (fail (frontier strict) moment user_job fail_strikeable in_work).1 user_page ≡ 0)
    × (attempts_of (fail (frontier strict) moment user_job fail_strikeable in_work).1 user_page ≡ 0)
    × (server.zscore
          (fail (frontier strict) moment user_job fail_strikeable in_work).1.lease
          (member 1 user_page)
        ≡ none)
fail-last_strike_example =
    fail-last_strike (frontier strict) moment user_job in_work user_page-leased (omega arith)

complete_listing-schedules_example :
    Revisits
      (frontier setup)
      moment
      user_job
      3
      in_work
      (complete_listing (frontier setup) moment user_job 3 in_work)
complete_listing-schedules_example =
    complete_listing-schedules (frontier setup) moment user_job 3 in_work user_page-leased

gone_plain : index_byte (codes "gone") separator ≡ none
unfolding index_byte
gone_plain = refl

-- The end of a quarantine of ten seconds.
abbrev deadline : ℕ
deadline = moment + 10 * second

abbrev over : Keyspace server
over = (terminal user_job (codes "gone") (some deadline) in_work).1

terminal-blocks_example :
    (((some deadline ≡ none)
        ⊎ ((t : ℕ) × (some deadline ≡ some t) × (unix (moment + 20 * second) < unix t)))
      × Refuses (frontier setup) (moment + 20 * second) user_page over)
    ⊎ (((t : ℕ) × (some deadline ≡ some t) × (unix t ≤ unix (moment + 20 * second)))
        × Readmits (frontier setup) (moment + 20 * second) user_page over)
terminal-blocks_example =
    terminal-blocks (frontier setup) user_job (codes "gone") (some deadline) (moment + 20 * second)
      in_work user_page-leased gone_plain (λ t h. ground (arith, h))

listing_suppressed_example :
    ((admit_listing (frontier setup) (moment + second) user_page in_work).0 ≡ ok suppressed)
    × SameJobs in_work (admit_listing (frontier setup) (moment + second) user_page in_work).1
listing_suppressed_example =
    listing_suppressed empty-IsEmpty setup Reach-in_work user_page (moment + second)
      user_page-listing (omega (arith, one_live_job)) (omega arith)

abbrev watch_page : Text
watch_page = codes "https://www.vidlii.com/watch?v=abc"

watch_page-new : (admit_video (frontier setup) moment watch_page empty).0 ≡ ok new
unfolding empty memory admit_video lua_admit_video
watch_page-new = refl

video_new_once_example :
    (admit_video
      (frontier setup)
      (moment + second)
      watch_page
      (admit_video (frontier setup) moment watch_page empty).1).0
    ≢ ok new
video_new_once_example =
    video_new_once setup watch_page moment (moment + second) empty
      (admit_video (frontier setup) moment watch_page empty).1 watch_page-new here
