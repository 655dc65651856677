-- ===== src/System/Looping.antt =====
-- The loops of worker and workerTest, in internal/crawler/worker.go: they keep to the steps of the
-- system, and a test run keeps to its bound.
use lost_media_finder.Prelude.{
  ℕ, suc, ◌≡◌, ◌≤◌, ◌<◌, refl, Bool, true, false, ◌||◌, Option, none, some, List, [], ◌∷◌, arith,
  leb, Bool-cases, inl, inr,
}
use lost_media_finder.Text.{Text}
use lost_media_finder.Redis.{Redis}
use lost_media_finder.Frontier.Types.{Job, Result, ok, err}
use lost_media_finder.Frontier.Keyspace.{Keyspace}
use lost_media_finder.Frontier.Methods.{lease, ack, complete_listing}
use lost_media_finder.Model.{Video, Tables}
use lost_media_finder.Crawler.Config.{Config}
use lost_media_finder.Crawler.Pages.{
  Response, PageOutcome, page_video, page_listing, page_not_found, page_retryable, page_unknown,
  page_cancelled, process,
}
use lost_media_finder.Crawler.Worker.{
  Corpus, World, built, enqueue_children, resolve, maybe_fatal_admission, is_redis_error,
  record_video, after_children, handle_outcome, work_on, after_lease, worker_turn,
}
use lost_media_finder.Crawler.Loop.{Turn, take_turn, gives_up, worker, worker_test, max_test_videos}
use lost_media_finder.System.Defs.{Setup, Reach}
use lost_media_finder.System.Jobs.{IsEmpty}
use lost_media_finder.Crawler.Moments.{Moments}
use lost_media_finder.System.Interference.{Rely}
use lost_media_finder.System.Workers.{setup_of}
use lost_media_finder.System.Turns.{worker_turn-Reach}

abbrev pub AllRely : {r : Redis} → Setup → List (Turn r) → Type 0
AllRely s [] = Unit
AllRely s (u ∷ turns) = Rely s u.moments × AllRely s turns

module _ {r : Redis} {m : Corpus} (c : Config) (seeds : List Text) (t : Tables) {start : Keyspace r}
    (e : IsEmpty r start) where
  -- From a state that is reachable from an empty database, a worker's loop, however many turns it
  -- takes, whatever they find, and whatever calls of the frontier the other goroutines make between
  -- its own, leads to a reachable state.
  pub worker-Reach :
      (turns : List (Turn r)) (w : World r m)
      → AllRely (setup_of c seeds) turns
      → Reach (setup_of c seeds) start w.redis
      → Reach (setup_of c seeds) start (worker c seeds t turns w).redis
  unfolding worker
  worker-Reach [] w times reach = reach
  worker-Reach (u ∷ turns) w (rely, times) reach = elim (Bool-cases u.cancelled) [
    | inl h ↦ rw h reach
    | inr h ↦ rw h (elim (Bool-cases (gives_up c seeds t u w)) [
      | inl g ↦ rw g turned
      | inr g ↦ rw g (worker-Reach turns (take_turn c seeds t u w) times turned)
    ])
  ]
    where
      turned : Reach (setup_of c seeds) start (take_turn c seeds t u w).redis
      turned = worker_turn-Reach c seeds t e u.moments u.allowed u.fetch w rely reach

module _ {r : Redis} {m : Corpus} (c : Config) (seeds : List Text) where
  record_video-count : (v : Video) (w : World r m) → (record_video v w).count ≡ suc w.count
  unfolding record_video
  record_video-count v w = elim (Bool-cases v.is_target) [ inl e ↦ rw e refl | inr e ↦ rw e refl ]

  after_children-count :
      (s : Moments r) (j : Job) (x : Result ℕ × Keyspace r) (done : ℕ → World r m → World r m)
      (w : World r m)
      → ((n : ℕ) (u : World r m) → (done n u).count ≡ u.count)
      → (after_children c seeds s j x done w).count ≡ w.count
  unfolding maybe_fatal_admission resolve
  after_children-count s j (ok n, k) done w h = h n (record w { redis = k })
  after_children-count s j (err e, k) done w h = elim (Bool-cases (is_redis_error e)) [
    | inl b ↦ rw b refl
    | inr b ↦ rw b refl
  ]

  handle_outcome-count :
      (s : Moments r) (j : Job) (out : PageOutcome) (w : World r m)
      → (handle_outcome c seeds s j out w).count ≤ suc w.count
  unfolding handle_outcome resolve
  handle_outcome-count s j (page_video v links) w = elim (Bool-cases (m.upsert w.store v).0) [
    | inl e ↦ rw e (
        omega (
          arith,
          after_children-count s j (enqueue_children c seeds s links 0 seen.redis)
              (λ _. resolve s.meanwhile (ack j)) seen (λ n u. refl),
          record_video-count v (record w { store = (m.upsert w.store v).1 }),
        ))
    | inr e ↦ rw e (omega arith)
  ]
    where
      seen : World r m
      seen = record_video v (record w { store = (m.upsert w.store v).1 })
  handle_outcome-count s j (page_listing links) w = omega (
    arith,
    after_children-count s j (enqueue_children c seeds s links 0 w.redis)
        (λ n. resolve s.meanwhile (complete_listing (built c seeds) s.resolved_at j n)) w
        (λ n u. refl),
  )
  handle_outcome-count s j (page_not_found reason) w = omega arith
  handle_outcome-count s j (page_retryable class) w = omega arith
  handle_outcome-count s j page_unknown w = omega arith
  handle_outcome-count s j page_cancelled w = omega arith

  work_on-count :
      (t : Tables) (s : Moments r) (allowed : Bool) (fetch : Text → Response) (j : Job)
      (w : World r m)
      → (work_on c seeds t s allowed fetch j w).count ≤ suc w.count
  unfolding resolve
  work_on-count t s false fetch j w = omega arith
  work_on-count t s true fetch j w = handle_outcome-count s j (process t c j.url (fetch j.url)) w

  after_lease-count :
      (x : Result (Option Job) × Keyspace r) (work : Job → World r m → World r m) (w : World r m)
      → ((j : Job) (u : World r m) → (work j u).count ≤ suc u.count)
      → (after_lease c seeds x work w).count ≤ suc w.count
  after_lease-count (ok none, k) work w h = omega arith
  after_lease-count (ok (some j), k) work w h = h j (record w { redis = k })
  after_lease-count (err e, k) work w h = omega arith

  pub take_turn-count :
      (t : Tables) (u : Turn r) (w : World r m) → (take_turn c seeds t u w).count ≤ suc w.count
  unfolding worker_turn
  take_turn-count t u w =
      after_lease-count (lease (built c seeds) u.moments.leased_at (u.moments.arriving w.redis))
        (work_on c seeds t u.moments u.allowed u.fetch) w
        (work_on-count t u.moments u.allowed u.fetch)

  stopped_early :
      (b : Bool) (w : World r m)
      → (b || leb max_test_videos w.count) ≡ false
      → w.count < max_test_videos
  stopped_early false w e = ground arith
  stopped_early true w e = absurd (cc e)

  -- A worker of a test run that is alone counts no video past the limit, however many turns it gets:
  -- a count up to the limit stays up to it, and from one at or past it no turn is taken.
  pub worker_test-bound :
      (t : Tables) (turns : List (Turn r)) (w : World r m)
      → (w.count ≤ max_test_videos → (worker_test c seeds t turns w).count ≤ max_test_videos)
        × (max_test_videos ≤ w.count → worker_test c seeds t turns w ≡ w)
  unfolding worker_test
  worker_test-bound t [] w = (λ h. h, λ h. refl)
  worker_test-bound t (u ∷ turns) w =
      elim (Bool-cases (u.cancelled || leb max_test_videos w.count)) [
        | inl e ↦ rw e (λ h. h, λ h. refl)
        | inr e ↦ rw e (
          λ h. elim (Bool-cases (gives_up c seeds t u w)) [
            | inl g ↦ rw g (omega (arith, take_turn-count t u w, stopped_early u.cancelled w e))
            | inr g ↦ rw g (
                (worker_test-bound t turns (take_turn c seeds t u w)).0
                  (omega (arith, take_turn-count t u w, stopped_early u.cancelled w e)))
          ],
          λ h. absurd (omega (arith, stopped_early u.cancelled w e)),
        )
      ]
