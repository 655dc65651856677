-- ===== src/System/Resuming.antt =====
-- A listing job that waits, and one whose worker crashed, on the in-memory server.
use lost_media_finder.Prelude.{
  ℕ, ◌+◌, ◌*◌, ◌<◌, ◌≤◌, ◌≡◌, refl, true, ◌⊎◌, some, [], ◌∷◌, arith, length,
}
use lost_media_finder.Text.{eq_text, Text}
use lost_media_finder.Text.Decimal.{print}
use lost_media_finder.Redis.Memory.{memory}
use lost_media_finder.Frontier.Types.{
  second, reap_batch_limit, fail_strikeable, promote_batch_limit, ok,
}
use lost_media_finder.Frontier.Member.{member}
use lost_media_finder.Frontier.Keyspace.{Keyspace}
use lost_media_finder.Frontier.Scripts.Admit.{lua_admit_listing, lua_lease}
use lost_media_finder.Frontier.Methods.{unix, admit_listing, lease, reap, fail, promote}
use lost_media_finder.System.Defs.{frontier, Reach, here, next, leases, Step, IsJob, fails}
use lost_media_finder.System.Refining.{Effect, Step-Effect}
use lost_media_finder.System.Serving.{Serves, ready_served}
use lost_media_finder.Crawler.Config.{default_config, frontier_config}
use lost_media_finder.Crawler.Pages.{process}
use lost_media_finder.Crawler.Worker.{built, worker_turn}
use lost_media_finder.Frontier.Sound.Defs.{live_jobs}
use lost_media_finder.Frontier.Pending.Defs.{job_for}
use lost_media_finder.System.Workers.{setup_of}
use lost_media_finder.System.Explaining.{Explains}
use lost_media_finder.System.Ending.{Calm, Ends}
use lost_media_finder.System.Endings.{worker_turn-Ends}
use lost_media_finder.System.Turning.{
  reaped_meanwhile, reaped_meanwhile-Rely, ascii, fetch, world, leased_by_worker,
}
use lost_media_finder.Crawler.Classify.{new_url_classifier}
use lost_media_finder.Frontier.Scripts.Complete.{lua_fail}
use lost_media_finder.System.Scenario.{
  moment-InTime, server, setup, empty, empty-IsEmpty, moment, in_work, Reach-in_work,
  Reach-admitted, admitted, user_page, user_job,
}
use lost_media_finder.System.Promoting.{promote_complete}
use lost_media_finder.System.Recovery.{delayed_job_served, crashed_job_served}

admitted-ready : admitted.ready ≡ member 1 user_page ∷ []
unfolding empty memory admit_listing lua_admit_listing member eq_text print
admitted-ready = refl

ready_served_example : Serves setup (member 1 user_page) (next here (leases moment admitted))
ready_served_example =
    ready_served setup (member 1 user_page) [] [] (next here (leases moment admitted))
      admitted-ready (omega arith)

-- After the lease.
abbrev expiry : ℕ
expiry = moment + 3600 * second

in_work-lease : server.zscore in_work.lease (member 1 user_page) ≡ some (unix moment + 600)
unfolding empty memory admit_listing lease lua_admit_listing lua_lease member eq_text print
in_work-lease = refl

few_leases :
    length (server.zrange_by_score in_work.lease (unix expiry) reap_batch_limit) < reap_batch_limit
unfolding empty memory admit_listing lease lua_admit_listing lua_lease member eq_text print
few_leases = omega arith

abbrev reaped : Keyspace server
reaped = (reap expiry in_work).1

-- One call of Lease after Reap.
abbrev again : Reach setup reaped (lease (frontier setup) moment reaped).1
again = next here (leases moment reaped)

enough_leases :
    length in_work.ready
      + length (server.zrange_by_score in_work.lease (unix expiry) reap_batch_limit)
    ≤ 1
unfolding empty memory admit_listing lease lua_admit_listing lua_lease member eq_text print
enough_leases = omega arith

crashed_job_served_example : (new : ℕ) × Serves setup (member new user_page) again
crashed_job_served_example =
    crashed_job_served empty-IsEmpty setup Reach-in_work 1 user_page expiry (unix moment + 600)
      in_work-lease (omega arith) few_leases again enough_leases

reaped_meanwhile-Calm :
    Calm (setup_of default_config []) user_page reaped_meanwhile reaped_meanwhile-Rely
unfolding reaped_meanwhile-Rely
reaped_meanwhile-Calm = record { admits = λ i k. (tt, tt); resolves = λ k. ((tt, tt), tt) }

worker_turn-Ends_example :
    ((true ≡ true)
      × Explains default_config user_page
          (fetch user_page)
          (process ascii default_config user_page (fetch user_page))
      × Ends default_config [] reaped_meanwhile user_job
          (process ascii default_config user_page (fetch user_page))
          (record world { redis = (lease (built default_config []) moment admitted).1 })
          (worker_turn default_config [] ascii reaped_meanwhile true fetch world))
    ⊎ (0
        < live_jobs
            (job_for user_page)
            (worker_turn default_config [] ascii reaped_meanwhile true fetch world).redis)
worker_turn-Ends_example =
    worker_turn-Ends empty-IsEmpty default_config [] ascii reaped_meanwhile user_job
      reaped_meanwhile-Rely reaped_meanwhile-Calm true fetch world
      (unfold setup_of frontier_config in Reach-admitted) leased_by_worker

user_job-IsJob : IsJob setup user_job
unfolding new_url_classifier print
user_job-IsJob = record { number = 1; id_of = refl; member_of = refl; class_of_url = refl }

abbrev failed : Keyspace server
failed = (fail (frontier setup) moment user_job fail_strikeable in_work).1

Reach-failed : Reach setup empty failed
Reach-failed =
    next Reach-in_work (fails moment user_job fail_strikeable in_work moment-InTime user_job-IsJob)

failed-delayed : server.zscore failed.delayed (member 2 user_page) ≡ some (unix moment + 60)
unfolding empty memory admit_listing lease lua_admit_listing lua_lease member eq_text print fail
    lua_fail
failed-delayed = refl

few_delays :
    length (server.zrange_by_score failed.delayed (unix expiry) promote_batch_limit)
    < promote_batch_limit
unfolding empty memory admit_listing lease lua_admit_listing lua_lease member eq_text print fail
    lua_fail
few_delays = omega arith

promote_complete_example :
    ((promote expiry failed).0
      ≡ ok (length (server.zrange_by_score failed.delayed (unix expiry) promote_batch_limit)))
    × ((m : Text) (at : ℕ)
        → server.zscore (promote expiry failed).1.delayed m ≡ some at
        → unix expiry < at)
promote_complete_example = promote_complete empty-IsEmpty setup Reach-failed expiry few_delays

abbrev promoted : Keyspace server
promoted = (promote expiry failed).1

abbrev retried : Reach setup promoted (lease (frontier setup) moment promoted).1
retried = next here (leases moment promoted)

enough_retries :
    length failed.ready
      + length (server.zrange_by_score failed.delayed (unix expiry) promote_batch_limit)
    ≤ 1
unfolding empty memory admit_listing lease lua_admit_listing lua_lease member eq_text print fail
    lua_fail
enough_retries = omega arith

delayed_job_served_example : (new : ℕ) × Serves setup (member new user_page) retried
delayed_job_served_example =
    delayed_job_served empty-IsEmpty setup Reach-failed 2 user_page expiry (unix moment + 60)
      failed-delayed (omega arith) few_delays retried enough_retries

-- The failed job stays in the bag.
abbrev failing : Step setup in_work failed
failing = fails moment user_job fail_strikeable in_work moment-InTime user_job-IsJob

Step-Effect_example : Effect setup failing
Step-Effect_example = Step-Effect setup empty-IsEmpty Reach-in_work failing
