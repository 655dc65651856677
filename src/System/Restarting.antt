-- ===== src/System/Restarting.antt =====
-- A production start over the in-memory server, and a tick of the bloom monitor.

mod TestMode
mod Losing
use lost_media_finder.Prelude.{
  ℕ, zero, suc, ◌≡◌, ◌≢◌, refl, true, false, none, some, Option, [], ◌∷◌, arith, ◌*◌, ◌/◌, ◌<◌, ltb,
  leb, length, count_if, Bool,
}
use lost_media_finder.Text.{Text, codes, eq_text}
use lost_media_finder.Text.Search.{contains_text}
use lost_media_finder.Redis.Memory.{memory}
use lost_media_finder.Frontier.Types.{ok, new}
use lost_media_finder.Frontier.Methods.{admit_video, admit_listing}
use lost_media_finder.Bloom.{
  done, Floats, BloomServer, bloom_capacity, bloom_init, bloom_verify, bloom_add_batch,
  bloom_fill_ratio,
}
use lost_media_finder.Corpus.{is_doc, Cursor, each_doc, each_video_url}
use lost_media_finder.Crawler.Config.{default_config, frontier_config}
use lost_media_finder.Crawler.Worker.{Corpus, World, admit_url}
use lost_media_finder.Startup.{start_up, reconcile_bloom_from_mongo}
use lost_media_finder.System.Defs.{InTime, Reach, frontier, here}
use lost_media_finder.Scheduler.Monitor.{
  Monitor, Logs, bloom_fill_alerts, bloom_monitor_tick, bloom_monitor_tick-Logs,
}
use lost_media_finder.System.Starting.{configured, start_up-Reach, start_up-covers}
use lost_media_finder.System.Scenario.{
  server, empty, moment, moment-InTime, empty-IsEmpty, user_page,
}
use lost_media_finder.System.Turning.{
  stores_all, ascii, fetch, reaped_meanwhile, reaped_meanwhile-Rely, built-InTime,
}
use lost_media_finder.Frontier.Keyspace.{Keyspace}
use lost_media_finder.Frontier.Scripts.Admit.{lua_admit_listing}
use lost_media_finder.Crawler.Canonical.{canonicalize}
use lost_media_finder.Crawler.Loop.{Turn, take_turn, max_test_videos}
use lost_media_finder.Crawler.Crowd.{TestRun, looks, turns, starts, goes}
use lost_media_finder.Crawler.TestMode.{init_test, start_test}
use lost_media_finder.System.Trial.{test_run-Reach}
use lost_media_finder.System.Workers.{setup_of}

-- Numbers with six decimal places.
abbrev power : ℕ → ℕ → ℕ
power a zero = 1000000
power a (suc n) = power a n * a / 1000000

abbrev fixed : Floats
fixed = record {
  Float = ℕ;
  of_int = λ n. n * 1000000;
  decimal = λ m n. m * 1000000 / ten n;
  div = λ a b. a * 1000000 / b;
  mul = λ a b. a * b / 1000000;
  pow = λ a b. power a (b / 1000000);
  lt = ltb;
  le = leb;
}
  where
    ten : ℕ → ℕ
    ten zero = 1
    ten (suc n) = 10 * ten n

-- A filter without an element is a missing key.
unfoldable reserve : server.Bloom → Option Text × server.Bloom
unfolding memory
reserve [] = (none, [])
reserve (url ∷ urls) = (some (codes "ERR item exists"), url ∷ urls)

unfoldable items : server.Bloom → Option ℕ
unfolding memory
items b = some (length b)

reserve-same : (b : server.Bloom) (e : Text) → (reserve b).0 ≡ some e → (reserve b).1 ≡ b
unfolding reserve memory
reserve-same [] e h = refl
reserve-same (url ∷ urls) e h = refl

reserve-new :
    (b : server.Bloom) (url : Text) → (reserve b).0 ≡ none → server.bf_exists b url ≡ false
unfolding reserve memory
reserve-new [] url h = refl
reserve-new (x ∷ urls) url h = absurd (cc h)

unfoldable missing : server.Bloom
unfolding memory
missing = []

abbrev bloom_server : BloomServer server
bloom_server = record {
  bf_reserve = λ n. reserve;
  bf_info_capacity = λ b. some bloom_capacity;
  bf_info_size = λ b. some 3000000000;
  bf_info_filters = λ b. some 1;
  bf_info_items = items;
  bf_missing = missing;
  bf_reserve_same = λ n. reserve-same;
  bf_reserve_new = λ n. reserve-new;
}

abbrev pub video : Text
video = codes "https://www.vidlii.com/watch?v=abc"

abbrev cursor : Cursor
cursor = record { docs = some video ∷ []; ends_well = true }

-- A collection with one video.
abbrev corpus : Corpus
corpus = record stores_all { find_urls = λ s. some cursor }

abbrev stored : World server corpus
stored = record {
  redis = empty;
  store = [];
  count = 0;
  targets = [];
  resolve_errors = 0;
  stopped = false;
}

abbrev seeds_file : Option Text
seeds_file = some (codes " https://www.vidlii.com/user/a\n\n")

abbrev opened : World server corpus
opened = (start_up fixed bloom_server default_config seeds_file true (λ i. moment) stored).1

opened-done :
    (start_up fixed bloom_server default_config seeds_file true (λ i. moment) stored).0
    ≡ done opened
unfolding start_up bloom_init bloom_verify reserve items reconcile_bloom_from_mongo each_video_url
    each_doc bloom_add_batch memory empty contains_text eq_text
opened-done = refl

opening-InTime : InTime (configured default_config seeds_file) moment
unfolding setup_of frontier_config
opening-InTime = record {
  begun = moment-InTime.begun;
  revisit = moment-InTime.revisit;
  quarantine = moment-InTime.quarantine;
}

start_up-Reach_example : Reach (configured default_config seeds_file) empty opened.redis
start_up-Reach_example =
    start_up-Reach fixed bloom_server default_config seeds_file true (λ i. moment) empty stored
      opened (λ i. opening-InTime) here opened-done

video-listed : 0 < count_if (is_doc video) cursor.docs
unfolding eq_text
video-listed = omega arith

start_up-covers_example :
    (admit_video (frontier (configured default_config seeds_file)) moment video opened.redis).0
    ≢ ok new
start_up-covers_example =
    start_up-covers fixed bloom_server default_config seeds_file true (λ i. moment) stored opened
      cursor video moment opened.redis (λ i. opening-InTime) opened-done refl video-listed here

-- A filter with 92 of 100 elements.
abbrev filled_server : BloomServer server
filled_server = record bloom_server { bf_info_items = λ b. some 920000000 }

abbrev monitor : Monitor fixed
monitor = record { warned = 1; fill_ratio = 800000; reconcile_errors = 0; stopped = false }

verified : bloom_verify fixed filled_server empty.bloom ≡ none
unfolding bloom_verify
verified = refl

measured : bloom_fill_ratio fixed filled_server empty.bloom ≡ done 920000
unfolding bloom_fill_ratio
measured = refl

bloom_monitor_tick-Logs_example :
    Logs fixed 920000
      (bloom_fill_alerts fixed)
      1
      (bloom_monitor_tick fixed filled_server empty.bloom monitor).warned
    × ((bloom_monitor_tick fixed filled_server empty.bloom monitor).fill_ratio ≡ 920000)
    × ((bloom_monitor_tick fixed filled_server empty.bloom monitor).stopped ≡ false)
bloom_monitor_tick-Logs_example =
    bloom_monitor_tick-Logs fixed filled_server empty.bloom monitor 920000 verified measured
