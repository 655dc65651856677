-- ===== src/System/Running.antt =====
-- The loops of the scheduler and of the workers on the in-memory server.
use lost_media_finder.Prelude.{
  inl, inr, ℕ, ◌+◌, ◌≡◌, refl, Bool, true, false, none, some, List, [], ◌∷◌, map, arith, ◌*◌, ◌<◌,
  ◌≤◌, length, ltb, ◌-◌,
}
use lost_media_finder.Text.{Text, eq_text}
use lost_media_finder.Redis.Memory.{memory}
use lost_media_finder.Frontier.Types.{second, default_frontier_config, FrontierConfig}
use lost_media_finder.Frontier.Scripts.Admit.{lua_admit_listing, lua_lease}
use lost_media_finder.Frontier.Methods.{Frontier, unix, admit_listing, lease, reap}
use lost_media_finder.Corpus.{each_video_url}
use lost_media_finder.Corpus.Batches.{call_all, concat, AllSized, each_video_url-pieces}
use lost_media_finder.Scheduler.{Host, drain}
use lost_media_finder.Scheduler.Loop.{drain_terminates, drain-zero_limit}
use lost_media_finder.Crawler.Config.{default_config, frontier_config}
use lost_media_finder.Crawler.Loop.{Turn, worker, worker_test, max_test_videos, take_turn}
use lost_media_finder.System.Defs.{frontier, Reach, here, next, leases, reaps}
use lost_media_finder.System.Crowding.{TestRun-bound}
use lost_media_finder.Crawler.Crowd.{TestRun, looks, turns, starts, goes}
use lost_media_finder.System.Keeping.{job_kept}
use lost_media_finder.Text.Decimal.{print}
use lost_media_finder.Frontier.Keyspace.{Keyspace}
use lost_media_finder.Frontier.Member.{member, after_separator}
use lost_media_finder.Frontier.Sound.Defs.{live_jobs}
use lost_media_finder.Frontier.Pending.Defs.{job_for}
use lost_media_finder.Text.Search.{index_byte}
use lost_media_finder.System.Workers.{setup_of}
use lost_media_finder.System.Looping.{worker_test-bound}
use lost_media_finder.System.Halting.{run_all, AllGo, Halts, worker-Halts}
use lost_media_finder.System.Scenario.{
  server, setup, empty, empty-IsEmpty, moment, in_work, Reach-admitted, admitted, user_page,
}
use lost_media_finder.System.Turning.{reaped_meanwhile, reaped_meanwhile-Rely, ascii, world, fetch}
use lost_media_finder.System.Restarting.{video}

abbrev host : Host server ℕ
host = record {
  redis = in_work;
  collectors = record {
    reconcile_errors = 0;
    reaped_total = 0;
    swept_total = 0;
    promoted_total = 0;
    listings_admitted_total = 0;
    frontier_ready = 0;
    frontier_processing = 0;
    frontier_delayed = 0;
    listings_scheduled = 0;
    listings_pending = 0;
    frontier_dead = 0;
    frontier_strikes = 0;
    frontier_idle = 0;
    bloom_fill_ratio = 0;
  };
}

few_listings : server.zcount in_work.listing_next 0 (unix moment) < 3
unfolding empty memory admit_listing lease lua_admit_listing lua_lease eq_text
few_listings = omega arith

drain_terminates_example :
    (h : Host server ℕ) × (drain (frontier setup) 100 3 (λ i. moment) host ≡ some h)
drain_terminates_example =
    drain_terminates (frontier setup) 100 (unix moment) 3 (λ i. moment) host (omega arith)
      (λ i. omega arith) (omega arith) few_listings

abbrev unlimited : FrontierConfig
unlimited = record default_frontier_config { scheduler_batch_limit = 0 }

abbrev endless : Frontier
endless = record (frontier setup) { cfg = unlimited }

drain-zero_limit_example : drain endless 0 1000 (λ i. moment) host ≡ none
drain-zero_limit_example = drain-zero_limit endless 1000 (λ i. moment) host refl

-- A callback that keeps its batches, and fails from the second on.
abbrev keep_batches : List Text → List (List Text) → Bool × List (List Text)
keep_batches urls kept = (ltb (length kept) 1, urls ∷ kept)

each_video_url-pieces_example :
    (pieces : List (List Text)) × (each_video_url 2 keep_batches
        (some (record { docs = map some (video ∷ [] ∷ video ∷ []); ends_well = true }))
        []
      ≡ call_all keep_batches pieces [])
    × (concat pieces ≡ video ∷ [] ∷ video ∷ [])
    × AllSized 2 pieces
each_video_url-pieces_example =
    each_video_url-pieces 2 keep_batches (video ∷ [] ∷ video ∷ []) [] (omega arith)

abbrev turn : Turn server
turn = record { cancelled = false; moments = reaped_meanwhile; allowed = true; fetch = fetch }

-- The context is cancelled after the first turn.
abbrev last_turn : Turn server
last_turn = record turn { cancelled = true }

stays : ¬ Halts default_config [] ascii turn world
stays (inl h) = absurd (cc h)
stays (inr (refused, j, got)) = absurd (cc refused)

one_turn_goes : AllGo default_config [] ascii (turn ∷ []) world
unfolding AllGo
one_turn_goes = (stays, tt)

worker-Halts_example :
    (worker default_config [] ascii (turn ∷ []) world
      ≡ run_all default_config [] ascii (turn ∷ []) world)
    × (worker default_config [] ascii (turn ∷ last_turn ∷ turn ∷ []) world
        ≡ run_all default_config [] ascii (turn ∷ []) world)
    × Reach
        (setup_of default_config [])
        empty
        (worker default_config [] ascii (turn ∷ last_turn ∷ turn ∷ []) world).redis
worker-Halts_example =
    worker-Halts default_config [] ascii empty-IsEmpty (turn ∷ []) last_turn (turn ∷ []) world
      (reaped_meanwhile-Rely, (reaped_meanwhile-Rely, (reaped_meanwhile-Rely, tt)))
      (unfold setup_of frontier_config in Reach-admitted) one_turn_goes (inl refl)

worker_test-bound_example :
    (world.count ≤ max_test_videos
      → (worker_test default_config [] ascii (turn ∷ turn ∷ []) world).count ≤ max_test_videos)
    × (max_test_videos ≤ world.count
        → worker_test default_config [] ascii (turn ∷ turn ∷ []) world ≡ world)
worker_test-bound_example = worker_test-bound default_config [] ascii (turn ∷ turn ∷ []) world

abbrev reaped : Keyspace server
reaped = (reap (moment + 3600 * second) in_work).1

-- A worker leases the job and crashes, and the reaper brings it back.
abbrev crash : Reach setup admitted reaped
crash = next (next here (leases moment admitted)) (reaps (moment + 3600 * second) in_work)

one_job : 0 < live_jobs (job_for user_page) admitted
unfolding empty memory admit_listing lua_admit_listing member eq_text print job_for after_separator
    index_byte
one_job = omega arith

job_kept_example : 0 < live_jobs (job_for user_page) reaped
job_kept_example =
    job_kept empty-IsEmpty setup user_page Reach-admitted crash one_job ((tt, tt), tt)

-- One worker of two looks and takes its turn.
one_turn : TestRun default_config [] ascii 2 world 0 (take_turn default_config [] ascii turn world)
one_turn = goes (goes starts (looks 0 world (omega arith) (omega arith))) (turns 0 turn world)

TestRun-bound_example :
    (take_turn default_config [] ascii turn world).count ≤ max_test_videos + (2 - 1)
TestRun-bound_example = TestRun-bound default_config [] ascii 2 (omega arith) one_turn
