-- ===== src/System/Restarting/TestMode.antt =====
-- A start of the test mode and a turn of one of its workers, on the in-memory server.
use lost_media_finder.Prelude.{◌≡◌, refl, true, false, [], arith, ◌<◌, Bool}
use lost_media_finder.Text.{eq_text}
use lost_media_finder.Text.Search.{contains_text}
use lost_media_finder.Redis.Memory.{memory}
use lost_media_finder.Bloom.{done, bloom_init}
use lost_media_finder.Crawler.Config.{default_config}
use lost_media_finder.Crawler.Worker.{World, admit_url}
use lost_media_finder.System.Defs.{Reach}
use lost_media_finder.System.Scenario.{server, empty, moment, empty-IsEmpty, user_page}
use lost_media_finder.System.Turning.{
  ascii, fetch, reaped_meanwhile, reaped_meanwhile-Rely, built-InTime,
}
use lost_media_finder.Frontier.Keyspace.{Keyspace}
use lost_media_finder.Frontier.Methods.{admit_listing}
use lost_media_finder.Frontier.Scripts.Admit.{lua_admit_listing}
use lost_media_finder.Crawler.Canonical.{canonicalize}
use lost_media_finder.Crawler.Loop.{Turn, take_turn, max_test_videos}
use lost_media_finder.Crawler.Crowd.{TestRun, looks, turns, starts, goes}
use lost_media_finder.Crawler.TestMode.{init_test, start_test}
use lost_media_finder.System.Trial.{test_run-Reach}
use lost_media_finder.System.Workers.{setup_of}
use lost_media_finder.System.Restarting.{reserve, bloom_server, corpus, stored}

abbrev flush_db : Keyspace server → Bool × Keyspace server
flush_db k = (true, empty)

abbrev trial_start : World server corpus
trial_start = (start_test flush_db bloom_server default_config [] user_page moment stored).1

trial_start-done :
    (start_test flush_db bloom_server default_config [] user_page moment stored).0
    ≡ done trial_start
unfolding start_test init_test bloom_init reserve memory empty contains_text eq_text admit_url
    canonicalize admit_listing lua_admit_listing
trial_start-done = refl

abbrev trial_turn : Turn server
trial_turn = record { cancelled = false; moments = reaped_meanwhile; allowed = true; fetch = fetch }

trial-first : trial_start.count < max_test_videos
unfolding start_test init_test bloom_init reserve memory empty contains_text eq_text admit_url
    canonicalize admit_listing lua_admit_listing
trial-first = omega arith

-- Both of two workers look, and one takes its turn.
abbrev trial :
    TestRun default_config [] ascii 2 trial_start 1
      (take_turn default_config [] ascii trial_turn trial_start)
trial =
    goes
      (goes (goes starts (looks 0 trial_start (omega arith) trial-first))
        (looks 1 trial_start (omega arith) trial-first))
      (turns 1 trial_turn trial_start)

test_run-Reach_example :
    Reach
      (setup_of default_config [])
      empty
      (take_turn default_config [] ascii trial_turn trial_start).redis
test_run-Reach_example =
    test_run-Reach flush_db bloom_server default_config [] ascii 2 user_page moment 1 stored
      trial_start (take_turn default_config [] ascii trial_turn trial_start) empty-IsEmpty
      built-InTime trial_start-done trial (tt, reaped_meanwhile-Rely)
