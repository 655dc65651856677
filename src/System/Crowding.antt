-- ===== src/System/Crowding.antt =====
-- How far the workers of a test run, in internal/crawler/worker.go, go past its limit together.
use lost_media_finder.Prelude.{ℕ, ◌+◌, ◌-◌, ◌≤◌, arith, List}
use lost_media_finder.Text.{Text}
use lost_media_finder.Redis.{Redis}
use lost_media_finder.Model.{Tables}
use lost_media_finder.Crawler.Config.{Config}
use lost_media_finder.Crawler.Worker.{Corpus, World}
use lost_media_finder.Crawler.Loop.{max_test_videos}
use lost_media_finder.Crawler.Crowd.{looks, turns, TestRun, starts, goes}
use lost_media_finder.System.Looping.{take_turn-count}

module _ {r : Redis} {m : Corpus} (c : Config) (seeds : List Text) (t : Tables) (workers : ℕ)
    {start : World r m} where
  -- A worker that is busy may still count one video.
  busy-bound :
      {busy : ℕ} {w : World r m}
      → start.count ≤ max_test_videos
      → TestRun c seeds t workers start busy w
      → w.count + busy ≤ max_test_videos + (workers - 1)
  busy-bound few starts = omega (arith, few)
  busy-bound few (goes run (looks busy w free under)) = omega (arith, free, under)
  busy-bound few (goes run (turns busy u w)) =
      omega (arith, busy-bound few run, take_turn-count c seeds t u w)

  -- From a count up to the limit of a test run, however the looks and the turns of its workers
  -- interleave, the count goes past the limit by less than there are workers.
  pub TestRun-bound :
      {busy : ℕ} {w : World r m}
      → start.count ≤ max_test_videos
      → TestRun c seeds t workers start busy w
      → w.count ≤ max_test_videos + (workers - 1)
  TestRun-bound few run = omega (arith, busy-bound few run)
