-- ===== src/Crawler/Crowd.antt =====
-- The workers of a test run in internal/crawler/worker.go, interleaved: RunTest of crawler.go starts
-- them, and each looks at the shared count before a turn.
use lost_media_finder.Prelude.{ℕ, suc, ◌<◌, List}
use lost_media_finder.Text.{Text}
use lost_media_finder.Redis.{Redis}
use lost_media_finder.Model.{Tables}
use lost_media_finder.Crawler.Config.{Config}
use lost_media_finder.Crawler.Worker.{Corpus, World}
use lost_media_finder.Crawler.Loop.{Turn, take_turn, max_test_videos}

module _ {r : Redis} {m : Corpus} (c : Config) (seeds : List Text) (t : Tables) (workers : ℕ) where
  -- A step of `workers` workers, of which some are between their look at the count and the end of
  -- their turn. A worker that returns takes no more steps.
  pub data TestStep : ℕ → World r m → ℕ → World r m → Type 0 where
    looks :
        (busy : ℕ) (w : World r m)
        → busy < workers
        → w.count < max_test_videos
        → TestStep busy w (suc busy) w
    turns :
        (busy : ℕ) (u : Turn r) (w : World r m)
        → TestStep (suc busy) w busy (take_turn c seeds t u w)

  pub data TestRun (w : World r m) : ℕ → World r m → Type 0 where
    starts : TestRun w 0 w
    goes :
        {busy busy' : ℕ} {w' w'' : World r m}
        → TestRun w busy w'
        → TestStep busy w' busy' w''
        → TestRun w busy' w''
