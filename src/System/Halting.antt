-- ===== src/System/Halting.antt =====
-- The loop of worker in internal/crawler/worker.go: when it returns, and what it leaves.
use lost_media_finder.Prelude.{
  ◌≡◌, refl, true, false, Option, none, some, List, [], ◌∷◌, arith, Bool-cases, inl, inr, ◌⊎◌, ◌++◌,
  ◌∙◌, ap, sym, if◌then◌else◌,
}
use mathlib.Core.List.{append-nil}
use lost_media_finder.System.Looping.{AllRely, worker-Reach}
use lost_media_finder.Text.{Text}
use lost_media_finder.Redis.{Redis}
use lost_media_finder.Frontier.Types.{Job, Result, ok, err}
use lost_media_finder.Frontier.Keyspace.{Keyspace}
use lost_media_finder.Frontier.Methods.{lease}
use lost_media_finder.Model.{Tables}
use lost_media_finder.Crawler.Config.{Config}
use lost_media_finder.Crawler.Worker.{Corpus, World, built}
use lost_media_finder.Crawler.Loop.{Turn, is_job, take_turn, gives_up, worker}
use lost_media_finder.System.Defs.{Reach}
use lost_media_finder.System.Jobs.{IsEmpty}
use lost_media_finder.System.Workers.{setup_of}

is_job-some : (x : Result (Option Job)) → is_job x ≡ true → (j : Job) × (x ≡ ok (some j))
is_job-some (ok none) h = absurd (cc h)
is_job-some (ok (some j)) h = (j, refl)
is_job-some (err e) h = absurd (cc h)

module _ {r : Redis} {m : Corpus} (c : Config) (seeds : List Text) (t : Tables) where
  -- All the turns, one after the other.
  unfoldable pub run_all : List (Turn r) → World r m → World r m
  run_all [] w = w
  run_all (u ∷ turns) w = run_all turns (take_turn c seeds t u w)

  -- The worker's return at a turn: the context is cancelled, or the limiter fails on a leased job.
  abbrev pub Halts : Turn r → World r m → Type 0
  Halts u w =
      (u.cancelled ≡ true)
      ⊎ ((u.allowed ≡ false)
          × (j : Job) × ((lease (built c seeds) u.moments.leased_at (u.moments.arriving w.redis)).0
              ≡ ok (some j)))

  -- No turn is the worker's last.
  unfoldable pub AllGo : List (Turn r) → World r m → Type 0
  AllGo [] w = Unit
  AllGo (u ∷ turns) w = (¬ Halts u w) × AllGo turns (take_turn c seeds t u w)

  gives_up-Halts : (u : Turn r) (w : World r m) → gives_up c seeds t u w ≡ true → Halts u w
  gives_up-Halts u w h =
      let x = (lease (built c seeds) u.moments.leased_at (u.moments.arriving w.redis)).0 in
      let refused : u.allowed ≡ false = ground (arith, h) in
      let got : is_job x ≡ true = ground (arith, h) in
      let (j, leased) = is_job-some x got in inr (refused, j, leased)

  worker-goes :
      (u : Turn r) (turns : List (Turn r)) (w : World r m)
      → ¬ Halts u w
      → worker c seeds t (u ∷ turns) w ≡ worker c seeds t turns (take_turn c seeds t u w)
  unfolding worker
  worker-goes u turns w stays = elim (Bool-cases u.cancelled) [
    | inl e ↦ absurd (stays (inl e))
    | inr e ↦ rw e (elim (Bool-cases (gives_up c seeds t u w)) [
      | inl g ↦ absurd (stays (gives_up-Halts u w g))
      | inr g ↦ rw g refl
    ])
  ]

  worker-AllGo :
      (before rest : List (Turn r)) (w : World r m)
      → AllGo before w
      → worker c seeds t (before ++ rest) w ≡ worker c seeds t rest (run_all before w)
  unfolding run_all AllGo
  worker-AllGo [] rest w go = refl
  worker-AllGo (u ∷ before) rest w (stays, go) =
      worker-goes u (before ++ rest) w stays ∙ worker-AllGo before rest (take_turn c seeds t u w) go

  worker-stops :
      (u : Turn r) (after : List (Turn r)) (w : World r m)
      → Halts u w
      → worker c seeds t (u ∷ after) w ≡ (if u.cancelled then w else take_turn c seeds t u w)
  unfolding worker
  worker-stops u after w (inl e) = rw e refl
  worker-stops u after w (inr (refused, j, got)) = elim (Bool-cases u.cancelled) [
    | inl e ↦ rw e refl
    | inr e ↦ rw (e, refused, got) refl
  ]

  -- A worker takes its turns one after the other as long as the context is not cancelled and the
  -- limiter does not fail on a leased job. At the first turn at which one of these happens it
  -- returns, whatever turns would follow: on a cancelled context without that turn, and else at the
  -- turn's end. From a state that is reachable from an empty database the state that it leaves is
  -- reachable, whatever calls of the frontier the other goroutines make between its own.
  pub worker-Halts :
      {start : Keyspace r}
      → IsEmpty r start
      → (before : List (Turn r)) (u : Turn r) (after : List (Turn r)) (w : World r m)
      → AllRely (setup_of c seeds) (before ++ u ∷ after)
      → Reach (setup_of c seeds) start w.redis
      → AllGo before w
      → Halts u (run_all before w)
      → (worker c seeds t before w ≡ run_all before w)
        × (worker c seeds t (before ++ u ∷ after) w
            ≡ (if u.cancelled then run_all before w else take_turn c seeds t u (run_all before w)))
        × Reach (setup_of c seeds) start (worker c seeds t (before ++ u ∷ after) w).redis
  unfolding run_all worker
  worker-Halts e before u after w rely reach go halts = (
    ap (λ turns. worker c seeds t turns w) (sym (append-nil before)) ∙ worker-AllGo before [] w go,
    worker-AllGo before (u ∷ after) w go ∙ worker-stops u after (run_all before w) halts,
    worker-Reach c seeds t e (before ++ u ∷ after) w rely reach,
  )
