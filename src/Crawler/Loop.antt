-- ===== src/Crawler/Loop.antt =====
-- The loops of worker and workerTest in internal/crawler/worker.go.
use lost_media_finder.Prelude.{
  ℕ, Bool, true, false, not, ◌&&◌, ◌||◌, Option, none, some, List, [], ◌∷◌, leb, if◌then◌else◌,
}
use lost_media_finder.Text.{Text}
use lost_media_finder.Redis.{Redis}
use lost_media_finder.Frontier.Types.{Job, Result, ok, err}
use lost_media_finder.Frontier.Methods.{lease}
use lost_media_finder.Model.{Tables}
use lost_media_finder.Crawler.Config.{Config}
use lost_media_finder.Crawler.Pages.{Response}
use lost_media_finder.Crawler.Moments.{Moments}
use lost_media_finder.Crawler.Worker.{Corpus, World, built, worker_turn}

-- What a turn finds: the context at its check, what surrounds its calls, the limiter, and the server.
pub record Turn (r : Redis) : Type 0 where
  pub cancelled : Bool
  pub moments : Moments r
  pub allowed : Bool
  pub fetch : Text → Response

abbrev pub is_job : Result (Option Job) → Bool
is_job (ok none) = false
is_job (ok (some j)) = true
is_job (err e) = false

abbrev pub max_test_videos : ℕ
max_test_videos = 5

module _ {r : Redis} {m : Corpus} (c : Config) (seeds : List Text) (t : Tables) where
  abbrev pub take_turn : Turn r → World r m → World r m
  take_turn u w = worker_turn c seeds t u.moments u.allowed u.fetch w

  -- A worker returns when the limiter refuses a leased job; a lease that fails is tried again.
  abbrev pub gives_up : Turn r → World r m → Bool
  gives_up u w =
      not u.allowed
      && is_job (lease (built c seeds) u.moments.leased_at (u.moments.arriving w.redis)).0

  -- The turns of one worker; the list ends where the program does.
  unfoldable pub worker : List (Turn r) → World r m → World r m
  unfolding worker_turn lease
  worker [] w = w
  worker (u ∷ turns) w =
      let w' = take_turn u w in
      let rest = worker turns w' in if u.cancelled then w else if gives_up u w then w' else rest

  -- In a test run the worker also returns once enough videos are counted.
  unfoldable pub worker_test : List (Turn r) → World r m → World r m
  unfolding worker_turn lease
  worker_test [] w = w
  worker_test (u ∷ turns) w =
      let w' = take_turn u w in
      let rest = worker_test turns w' in
      if u.cancelled || leb max_test_videos w.count then w else if gives_up u w then w' else rest
