-- ===== src/System/Turning.antt =====
-- Turns of a worker and of the reconcilers on the in-memory server, with a collection that stores
-- every video.
use lost_media_finder.Prelude.{
  ◌≡◌, refl, true, false, none, some, List, [], ◌∷◌, arith, length, ◌<◌, ◌*◌, ℕ, ◌+◌, is_some, ◌≤◌,
}
use lost_media_finder.Text.{Text, codes, eq_text}
use lost_media_finder.Text.Decimal.{print}
use lost_media_finder.Text.Search.{index_byte}
use lost_media_finder.Redis.Memory.{memory}
use lost_media_finder.Frontier.Types.{ok, reap_batch_limit, second, sweep_batch_limit}
use lost_media_finder.Frontier.Member.{member, split_member}
use lost_media_finder.Frontier.Scripts.Admit.{lua_admit_listing, lua_lease}
use lost_media_finder.Frontier.Methods.{
  admit_listing, lease, unix, reap, run_listing_scheduler, sweep, seed_listing,
}
use lost_media_finder.Model.{Tables, Video}
use lost_media_finder.Crawler.Classify.{new_url_classifier}
use lost_media_finder.Crawler.Config.{default_config, frontier_config}
use lost_media_finder.Crawler.Pages.{Response, status}
use lost_media_finder.Crawler.Worker.{Corpus, World, built, worker_turn}
use lost_media_finder.System.Scenario.{
  empty, server, empty-IsEmpty, moment, moment-InTime, user_page, admitted, Reach-admitted,
  user_job, in_work, Reach-in_work, setup,
}
use lost_media_finder.Frontier.Keyspace.{Keyspace}
use lost_media_finder.System.Defs.{Reach, here, next, seeds, InTime, frontier, reaps, leases}
use lost_media_finder.Crawler.Moments.{Moments, alone}
use lost_media_finder.System.Interference.{Rely}
use lost_media_finder.System.Workers.{setup_of}
use lost_media_finder.System.Reaping.{reap_complete}
use lost_media_finder.System.Scheduling.{listing_scheduler_complete}
use lost_media_finder.System.Sweeping.{sweep_complete}
use lost_media_finder.Text.Members.{occurrences}
use lost_media_finder.System.Turns.{worker_turn-Reach, worker_turn-releases}

abbrev pub stores_all : Corpus
stores_all = record {
  Store = List Video;
  upsert = λ s v. (true, v ∷ s);
  count_documents = λ s. some 0;
  find_targets = λ s. some [];
  find_urls = λ s. none;
  drop = λ s. (true, []);
}

-- ASCII alone, and no date is understood.
abbrev pub ascii : Tables
ascii = record {
  parse = λ layout date. none;
  runes = λ s. s;
  in_han = λ ch. false;
  in_hiragana = λ ch. false;
  in_katakana = λ ch. false;
  in_hangul = λ ch. false;
  is_letter = λ ch. false;
}

abbrev pub world : World server stores_all
world = record {
  redis = admitted;
  store = [];
  count = 0;
  targets = [];
  resolve_errors = 0;
  stopped = false;
}

-- A user's page with two links.
abbrev pub fetch : Text → Response
fetch url = status 200 (
    some (record {
      title = codes "a - VidLii";
      hrefs = codes "/watch?v=abc&t=1" ∷ codes "https://elsewhere.com/" ∷ [];
      date = [];
      duration = [];
    }))

pub built-InTime : InTime (setup_of default_config []) moment
unfolding setup_of frontier_config
built-InTime = moment-InTime

-- Before each child is admitted the reaper takes leases for expired, and before the job is resolved
-- other workers ask for jobs twice.
abbrev pub reaped_meanwhile : Moments server
reaped_meanwhile = record (alone moment) {
  others = λ i k. (reap (moment + 3600 * second) k).1;
  meanwhile = λ k. (lease (frontier setup) moment (lease (frontier setup) moment k).1).1;
}

unfoldable pub reaped_meanwhile-Rely : Rely (setup_of default_config []) reaped_meanwhile
unfolding setup_of frontier_config
reaped_meanwhile-Rely = record {
  arrives = λ k. here;
  admits = λ i k. next here (reaps (moment + 3600 * second) k);
  resolves =
      λ k. next (next here (leases moment k)) (leases moment (lease (frontier setup) moment k).1);
  clock_in_time = λ i. built-InTime;
  resolved_in_time = built-InTime;
}

worker_turn-Reach_example :
    Reach
      (setup_of default_config [])
      empty
      (worker_turn default_config [] ascii reaped_meanwhile true fetch world).redis
worker_turn-Reach_example =
    worker_turn-Reach default_config [] ascii empty-IsEmpty reaped_meanwhile true fetch world
      reaped_meanwhile-Rely (unfold setup_of frontier_config in Reach-admitted)

pub leased_by_worker : (lease (built default_config []) moment world.redis).0 ≡ ok (some user_job)
unfolding empty memory admit_listing lease lua_admit_listing lua_lease member eq_text print
    split_member new_url_classifier index_byte
leased_by_worker = refl

worker_turn-releases_example :
    server.zscore
      (worker_turn default_config [] ascii reaped_meanwhile true fetch world).redis.lease
      (member 1 user_page)
    ≡ none
worker_turn-releases_example =
    worker_turn-releases default_config [] ascii reaped_meanwhile true fetch world user_job
      leased_by_worker

one_expired :
    length (server.zrange_by_score in_work.lease (unix (moment + 3600 * second)) reap_batch_limit)
    < reap_batch_limit
unfolding empty memory admit_listing lease lua_admit_listing lua_lease member print eq_text
one_expired = omega arith

reap_complete_example :
    ((n : ℕ) × ((reap (moment + 3600 * second) in_work).0 ≡ ok n))
    × ((m : Text) (at : ℕ)
        → server.zscore (reap (moment + 3600 * second) in_work).1.lease m ≡ some at
        → unix (moment + 3600 * second) < at)
reap_complete_example =
    reap_complete empty-IsEmpty setup Reach-in_work (moment + 3600 * second) one_expired

-- A listing that was seeded and is due.
abbrev seeded : Keyspace server
seeded = seed_listing user_page empty

Reach-seeded : Reach setup empty seeded
Reach-seeded = next here (seeds user_page empty)

one_due :
    length
      (server.zrange_by_score seeded.listing_next (unix moment) setup.cfg.scheduler_batch_limit)
    < setup.cfg.scheduler_batch_limit
unfolding empty memory seed_listing eq_text
one_due = omega arith

listing_scheduler_complete_example :
    ((n : ℕ) × ((run_listing_scheduler (frontier setup) moment seeded).0 ≡ ok n))
    × ((m : Text) (at : ℕ)
        → server.zscore (run_listing_scheduler (frontier setup) moment seeded).1.listing_next m
          ≡ some at
        → unix moment < at)
listing_scheduler_complete_example =
    listing_scheduler_complete empty-IsEmpty setup Reach-seeded moment (omega arith) one_due

few_in_work : length in_work.processing ≤ sweep_batch_limit
unfolding empty memory admit_listing lease lua_admit_listing lua_lease
few_in_work = omega arith

sweep_complete_example :
    ((n : ℕ) × ((sweep in_work).0 ≡ ok n))
    × ((m : Text)
        → 0 < occurrences m (sweep in_work).1.processing
        → is_some (server.zscore (sweep in_work).1.lease m) ≡ true)
sweep_complete_example = sweep_complete empty-IsEmpty setup Reach-in_work few_in_work
