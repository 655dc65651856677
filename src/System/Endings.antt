-- ===== src/System/Endings.antt =====
-- A whole turn of a worker, in internal/crawler/worker.go, and the work on its page.
use lost_media_finder.Prelude.{
  ◌+◌, ◌/◌, ◌<◌, ◌≡◌, ◌⊎◌, inl, inr, refl, ap, Bool, true, false, Option, none, some, List, arith,
  is_some,
}
use lost_media_finder.Text.{Text, eq_text_refl}
use lost_media_finder.Text.Members.{occurrences-le}
use lost_media_finder.Redis.{Redis}
use lost_media_finder.Frontier.Types.{Job, Result, ok, err, second}
use lost_media_finder.Frontier.Keyspace.{Keyspace}
use lost_media_finder.Frontier.Methods.{unix, lease}
use lost_media_finder.Frontier.Sound.Defs.{live_jobs}
use lost_media_finder.Frontier.Pending.Defs.{job_for, job_for-member}
use lost_media_finder.Model.{Tables}
use lost_media_finder.Crawler.Config.{Config, frontier_config}
use lost_media_finder.Crawler.Moments.{Moments}
use lost_media_finder.Crawler.Pages.{Response, process}
use lost_media_finder.Crawler.Worker.{
  Corpus, World, built, resolve, work_on, after_lease, worker_turn,
}
use lost_media_finder.System.Defs.{IsJob, Setup, Reach, leases, next}
use lost_media_finder.System.Ending.{Calm, Ends, Alive, nack-Alive}
use lost_media_finder.System.Outcomes.{handle_outcome-Ends}
use lost_media_finder.System.Explaining.{Explains, process-Explains}
use lost_media_finder.System.Interference.{Rely}
use lost_media_finder.System.Jobs.{IsEmpty, reached}
use lost_media_finder.System.Leasing.{leased_job}
use lost_media_finder.System.Surviving.{Lives}
use lost_media_finder.System.Workers.{setup_of, Reach-trans}

module _ {r : Redis} {start : Keyspace r} (e : IsEmpty r start) (s : Setup) where
  -- The URL of a leased job has a live job.
  leased-Lives :
      (k : Keyspace r) (j : Job)
      → Reach s start k
      → IsJob s j
      → is_some (r.zscore k.lease j.member) ≡ true
      → Lives j.url k
  leased-Lives k j reach job leased = ground (
    arith,
    (reached e s reach).sound.held j.member leased,
    occurrences-le (job_for j.url) j.member k.processing,
    ap (job_for j.url) job.member_of,
    job_for-member job.number j.url j.url,
    eq_text_refl j.url,
  )

module _ {r : Redis} {m : Corpus} {start : Keyspace r} (e : IsEmpty r start) (c : Config)
    (seeds : List Text) (t : Tables) where
  after_lease-of_job :
      (x : Result (Option Job) × Keyspace r) (j : Job) (work : Job → World r m → World r m)
      (w : World r m)
      → x.0 ≡ ok (some j)
      → after_lease c seeds x work w ≡ work j (record w { redis = x.1 })
  after_lease-of_job (ok none, k) j work w got = absurd (cc got)
  after_lease-of_job (ok (some i), k) j work w got =
      let same : i ≡ j = cc got in ap (λ x. work x (record w { redis = k })) same
  after_lease-of_job (err y, k) j work w got = absurd (cc got)

  work_on-Ends :
      (s : Moments r) (j : Job) (h : Rely (setup_of c seeds) s)
      → Calm (setup_of c seeds) j.url s h
      → IsJob (setup_of c seeds) j
      → (allowed : Bool) (fetch : Text → Response) (w : World r m) → Alive e c seeds j.url w.redis
      → ((allowed ≡ true)
          × Explains c j.url (fetch j.url) (process t c j.url (fetch j.url))
          × Ends c seeds s j
              (process t c j.url (fetch j.url))
              w
              (work_on c seeds t s allowed fetch j w))
        ⊎ Lives j.url (work_on c seeds t s allowed fetch j w).redis
  unfolding resolve
  work_on-Ends s j h calm job false fetch w a =
      inr (nack-Alive e c seeds j.url s h calm j w.redis job a).1
  work_on-Ends s j h calm job true fetch w a =
      elim (handle_outcome-Ends e c seeds s j h calm job (process t c j.url (fetch j.url)) w a) [
        | inl ends ↦ inl (refl, process-Explains t c j.url (fetch j.url), ends)
        | inr lives ↦ inr lives
      ]

  -- No work is lost: from a state that is reachable from an empty database, after a turn of a worker
  -- that leased a job, the job's URL has a live job, unless the limiter allowed the fetch and one of
  -- these holds. The document came with status 200 for a URL with the video pattern, the video with
  -- that URL was stored, for each link of the document whose canonical form is not empty, AdmitVideo
  -- or AdmitListing of that form succeeded, by the pattern, and then the job was acked. The same of
  -- any other URL, without the video, where the listing was then completed with the number of links
  -- that were New. The status was 404 or 410 and the job was terminated. Fail returned Dead. Before
  -- each of the turn's own calls the other goroutines may make any calls of the frontier, of which
  -- those after the lease do not end a job of the URL.
  pub worker_turn-Ends :
      (s : Moments r) (j : Job) (h : Rely (setup_of c seeds) s)
      → Calm (setup_of c seeds) j.url s h
      → (allowed : Bool) (fetch : Text → Response) (w : World r m)
      → Reach (setup_of c seeds) start w.redis
      → (lease (built c seeds) s.leased_at (s.arriving w.redis)).0 ≡ ok (some j)
      → ((allowed ≡ true)
          × Explains c j.url (fetch j.url) (process t c j.url (fetch j.url))
          × Ends c seeds s j
              (process t c j.url (fetch j.url))
              (record w { redis = (lease (built c seeds) s.leased_at (s.arriving w.redis)).1 })
              (worker_turn c seeds t s allowed fetch w))
        ⊎ (0 < live_jobs (job_for j.url) (worker_turn c seeds t s allowed fetch w).redis)
  unfolding worker_turn setup_of
  worker_turn-Ends s j h calm allowed fetch w reach got =
      rw
        (after_lease-of_job (lease (built c seeds) s.leased_at (s.arriving w.redis)) j
          (work_on c seeds t s allowed fetch) w got)
        (work_on-Ends s j h calm job.2 allowed fetch (record w { redis = k })
          (after, leased-Lives e (setup_of c seeds) k j after job.2 (rw job.1 refl)))
    where
      k : Keyspace r
      k = (lease (built c seeds) s.leased_at (s.arriving w.redis)).1

      arrived : Reach (setup_of c seeds) start (s.arriving w.redis)
      arrived = Reach-trans reach (h.arrives w.redis)

      after : Reach (setup_of c seeds) start k
      after = next arrived (leases s.leased_at (s.arriving w.redis))

      job :
          (r.zscore (s.arriving w.redis).lease j.member ≡ none)
          × (r.zscore k.lease j.member
              ≡ some (unix s.leased_at + (frontier_config c).lease_timeout / second))
          × IsJob (setup_of c seeds) j
      job = leased_job e (setup_of c seeds) arrived s.leased_at j (ap (λ x. (x, k)) got)
