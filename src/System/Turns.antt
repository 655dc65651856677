-- ===== src/System/Turns.antt =====
-- A turn of a worker, in internal/crawler/worker.go, from lease to resolution.
use lost_media_finder.Prelude.{
  ℕ, ◌≡◌, ◌*◌, refl, subst, ap, Bool, true, false, Option, none, some, List, Bool-cases, inl, inr,
}
use lost_media_finder.Text.{Text}
use lost_media_finder.Redis.{Redis}
use lost_media_finder.Frontier.Types.{Job, Result, ok, err, fail_strikeable, hour}
use lost_media_finder.Frontier.Keyspace.{Keyspace}
use lost_media_finder.Frontier.Methods.{lease, ack, complete_listing}
use lost_media_finder.Frontier.Fencing.{
  acked, nacked, failed, terminated, completed, resolve_job, resolve_job-Unleased, Unleased,
}
use lost_media_finder.Model.{Tables}
use lost_media_finder.Crawler.Classify.{until_for}
use lost_media_finder.Crawler.Config.{Config}
use lost_media_finder.Crawler.Pages.{
  Response, PageOutcome, page_video, page_listing, page_not_found, page_retryable, page_unknown,
  page_cancelled, process,
}
use lost_media_finder.Crawler.Moments.{Moments}
use lost_media_finder.System.Interference.{Rely}
use lost_media_finder.Crawler.Worker.{
  maybe_fatal_admission, is_redis_error, enqueue_children, record_video, Corpus, World, built,
  work_on, after_lease, worker_turn, handle_outcome, after_children, resolve,
}
use lost_media_finder.System.Defs.{IsJob, Reach, leases, nacks, next}
use lost_media_finder.System.Jobs.{IsEmpty}
use lost_media_finder.System.Leasing.{leased_job}
use lost_media_finder.System.Workers.{
  setup_of, Goes, Reach-trans, process-Fits, handle_outcome-Reach,
}

module _ {r : Redis} {m : Corpus} (c : Config) (seeds : List Text) (t : Tables) where
  work_on-Reach :
      (s : Moments r) (allowed : Bool) (fetch : Text → Response) (j : Job) (w : World r m)
      → Rely (setup_of c seeds) s
      → IsJob (setup_of c seeds) j
      → Goes c seeds w.redis (work_on c seeds t s allowed fetch j w).redis
  unfolding resolve
  work_on-Reach s false fetch j w h job =
      next (h.resolves w.redis) (nacks j (s.meanwhile w.redis) job)
  work_on-Reach s true fetch j w h job =
      handle_outcome-Reach c seeds s j (process t c j.url (fetch j.url)) w h job
        (process-Fits t c j.url (fetch j.url))

  after_lease-Reach :
      (x : Result (Option Job) × Keyspace r) (work : Job → World r m → World r m) (w : World r m)
      → Goes c seeds w.redis x.1
      → ((j : Job) → x.0 ≡ ok (some j) → (v : World r m) → Goes c seeds v.redis (work j v).redis)
      → Goes c seeds w.redis (after_lease c seeds x work w).redis
  after_lease-Reach (ok none, k) work w first step = first
  after_lease-Reach (ok (some j), k) work w first step =
      Reach-trans first (step j refl (record w { redis = k }))
  after_lease-Reach (err e, k) work w first step = first

  module _ {start : Keyspace r} (e : IsEmpty r start) where
    -- From a state that is reachable from an empty database, a whole turn of a worker, whatever the
    -- server answers, the collection stores and the limiter allows, and whatever calls of the
    -- frontier the other goroutines make before each of its own, leads to a reachable state.
    pub worker_turn-Reach :
        (s : Moments r) (allowed : Bool) (fetch : Text → Response) (w : World r m)
        → Rely (setup_of c seeds) s
        → Reach (setup_of c seeds) start w.redis
        → Reach (setup_of c seeds) start (worker_turn c seeds t s allowed fetch w).redis
    unfolding worker_turn setup_of
    worker_turn-Reach s allowed fetch w h reach = Reach-trans reach (
        after_lease-Reach (lease (built c seeds) s.leased_at (s.arriving w.redis))
          (work_on c seeds t s allowed fetch) w
          (next (h.arrives w.redis) (leases s.leased_at (s.arriving w.redis)))
          (λ j got v.
            work_on-Reach s allowed fetch j v h
              (leased_job e (setup_of c seeds) (Reach-trans reach (h.arrives w.redis)) s.leased_at j
                (ap (λ x. (x, (lease (built c seeds) s.leased_at (s.arriving w.redis)).1)) got)).2))

module _ {r : Redis} {m : Corpus} (c : Config) (seeds : List Text) where
  after_children-Unleased :
      (s : Moments r) (j : Job) (x : Result ℕ × Keyspace r) (done : ℕ → World r m → World r m)
      (w : World r m)
      → ((n : ℕ) (v : World r m) → Unleased j.member (done n v).redis)
      → Unleased j.member (after_children c seeds s j x done w).redis
  unfolding resolve maybe_fatal_admission resolve_job
  after_children-Unleased s j (ok n, k) done w step = step n (record w { redis = k })
  after_children-Unleased s j (err e, k) done w step = elim (Bool-cases (is_redis_error e)) [
    | inl b ↦ rw b (resolve_job-Unleased (built c seeds) nacked j (s.meanwhile k))
    | inr b ↦ rw b (resolve_job-Unleased (built c seeds) nacked j (s.meanwhile k))
  ]

  handle_outcome-Unleased :
      (s : Moments r) (j : Job) (out : PageOutcome) (w : World r m)
      → Unleased j.member (handle_outcome c seeds s j out w).redis
  unfolding handle_outcome resolve resolve_job
  handle_outcome-Unleased s j (page_video v links) w = elim (Bool-cases (m.upsert w.store v).0) [
    | inl e ↦ rw e (
        after_children-Unleased s j (enqueue_children c seeds s links 0 seen.redis)
          (λ _. resolve s.meanwhile (ack j)) seen
          (λ _ u. resolve_job-Unleased (built c seeds) acked j (s.meanwhile u.redis)))
    | inr e ↦ rw e (resolve_job-Unleased (built c seeds) nacked j (s.meanwhile w.redis))
  ]
    where
      seen : World r m
      seen = record_video v (record w { store = (m.upsert w.store v).1 })
  handle_outcome-Unleased s j (page_listing links) w =
      after_children-Unleased s j (enqueue_children c seeds s links 0 w.redis)
        (λ n. resolve s.meanwhile (complete_listing (built c seeds) s.resolved_at j n)) w
        (λ n u.
          resolve_job-Unleased (built c seeds) (completed s.resolved_at n) j (s.meanwhile u.redis))
  handle_outcome-Unleased s j (page_not_found reason) w =
      resolve_job-Unleased (built c seeds)
        (terminated reason (until_for j.class (c.quarantine_listing_hours * hour) s.resolved_at)) j
        (s.meanwhile w.redis)
  handle_outcome-Unleased s j (page_retryable class) w =
      resolve_job-Unleased (built c seeds) (failed s.resolved_at class) j (s.meanwhile w.redis)
  handle_outcome-Unleased s j page_unknown w =
      resolve_job-Unleased (built c seeds) (failed s.resolved_at fail_strikeable) j
        (s.meanwhile w.redis)
  handle_outcome-Unleased s j page_cancelled w =
      resolve_job-Unleased (built c seeds) nacked j (s.meanwhile w.redis)

  work_on-Unleased :
      (t : Tables) (s : Moments r) (allowed : Bool) (fetch : Text → Response) (j : Job)
      (w : World r m)
      → Unleased j.member (work_on c seeds t s allowed fetch j w).redis
  unfolding resolve resolve_job
  work_on-Unleased t s false fetch j w =
      resolve_job-Unleased (built c seeds) nacked j (s.meanwhile w.redis)
  work_on-Unleased t s true fetch j w =
      handle_outcome-Unleased s j (process t c j.url (fetch j.url)) w

  after_lease-Unleased :
      (j : Job) (x : Result (Option Job) × Keyspace r) (work : Job → World r m → World r m)
      (w : World r m)
      → x.0 ≡ ok (some j)
      → ((i : Job) (v : World r m) → Unleased i.member (work i v).redis)
      → Unleased j.member (after_lease c seeds x work w).redis
  after_lease-Unleased j (ok none, k) work w got step = absurd (cc got)
  after_lease-Unleased j (ok (some i), k) work w got step =
      subst (λ (x : Job). Unleased x.member (work i (record w { redis = k })).redis) same
        (step i (record w { redis = k }))
    where
      same : i ≡ j
      same = cc got
  after_lease-Unleased j (err e, k) work w got step = absurd (cc got)

  -- The turn of a worker that leases a job ends without a lease on it, whatever the page was, the
  -- collection stored, the limiter allowed, the scripts answered and the other goroutines did.
  pub worker_turn-releases :
      (t : Tables) (s : Moments r) (allowed : Bool) (fetch : Text → Response) (w : World r m)
      (j : Job)
      → (lease (built c seeds) s.leased_at (s.arriving w.redis)).0 ≡ ok (some j)
      → r.zscore (worker_turn c seeds t s allowed fetch w).redis.lease j.member ≡ none
  unfolding worker_turn
  worker_turn-releases t s allowed fetch w j got =
      after_lease-Unleased j (lease (built c seeds) s.leased_at (s.arriving w.redis))
        (work_on c seeds t s allowed fetch) w got (work_on-Unleased t s allowed fetch)
