-- ===== src/System/Ending.antt =====
-- How a turn of a worker, in internal/crawler/worker.go, ends the job of its page for good, and the
-- calls after which the page's URL still has a live job.
use lost_media_finder.Prelude.{
  ℕ, suc, ◌≡◌, ◌≢◌, ◌⊎◌, inl, inr, refl, ◌*◌, true, List, [], ◌∷◌, Bool-cases,
}
use lost_media_finder.Text.{Text}
use lost_media_finder.Text.Search.{contains_text}
use lost_media_finder.Redis.{Redis}
use lost_media_finder.Frontier.Types.{
  FailClass, Disposition, Job, Result, Result-cases, ok, err, fail_strikeable, hour,
}
use lost_media_finder.Frontier.Keyspace.{Keyspace}
use lost_media_finder.Frontier.Methods.{fail, nack, ack, complete_listing, terminal}
use lost_media_finder.Crawler.Config.{Config}
use lost_media_finder.Crawler.Canonical.{canonicalize}
use lost_media_finder.Crawler.Moments.{Moments, later}
use lost_media_finder.Crawler.Pages.{
  PageOutcome, page_video, page_listing, page_not_found, page_retryable, page_unknown,
  page_cancelled,
}
use lost_media_finder.Crawler.Worker.{
  Corpus, World, built, admit_canonical, admit_url, count_new, enqueue_children,
}
use lost_media_finder.System.Admitting.{Admitted}
use lost_media_finder.Crawler.Classify.{until_for}
use lost_media_finder.System.Defs.{
  Setup, InTime, IsJob, Reach, admits_video, admits_listing, nacks, fails, here, next,
}
use lost_media_finder.System.Interference.{Rely, later-Rely}
use lost_media_finder.System.Jobs.{IsEmpty}
use lost_media_finder.System.Keeping.{SparesAll, job_kept}
use lost_media_finder.System.Surviving.{Lives}
use lost_media_finder.System.Workers.{setup_of, Reach-trans}

-- What the other goroutines do after the lease does not end a job of the URL.
pub record Calm {r : Redis} (s : Setup) (url : Text) (u : Moments r) (h : Rely s u) : Type 0 where
  pub admits : (i : ℕ) (k : Keyspace r) → SparesAll s url (h.admits i k)
  pub resolves : (k : Keyspace r) → SparesAll s url (h.resolves k)

module _ {r : Redis} {m : Corpus} (c : Config) (seeds : List Text) where
  -- How a turn ends the job of a page for good, from the world `w` after the lease to the world `w'`:
  -- a video is stored, each of its links is taken, and then the job is acked; each link of a listing
  -- is taken, and then the listing is completed with the number of new children; the job of a missing
  -- page is terminated; or Fail returns Dead.
  abbrev pub Ends : Moments r → Job → PageOutcome → World r m → World r m → Type 0
  Ends s j (page_video v links) w w' =
      ((m.upsert w.store v).0 ≡ true)
      × (w'.store ≡ (m.upsert w.store v).1)
      × (n : ℕ) × (k : Keyspace r) × Admitted c seeds s links 0 w.redis n k
      × (w'.redis ≡ (ack j (s.meanwhile k)).1)
  Ends s j (page_listing links) w w' =
      (n : ℕ) × (k : Keyspace r) × Admitted c seeds s links 0 w.redis n k
      × (w'.redis ≡ (complete_listing (built c seeds) s.resolved_at j n (s.meanwhile k)).1)
  Ends s j (page_not_found reason) w w' =
      w'.redis
      ≡ (terminal j reason (until_for j.class (c.quarantine_listing_hours * hour) s.resolved_at)
          (s.meanwhile w.redis)).1
  Ends s j (page_retryable class) w w' =
      (fail (built c seeds) s.resolved_at j class (s.meanwhile w.redis)).0 ≡ ok Disposition.dead
  Ends s j page_unknown w w' =
      (fail (built c seeds) s.resolved_at j fail_strikeable (s.meanwhile w.redis)).0
      ≡ ok Disposition.dead
  Ends s j page_cancelled w w' = ⊥

module _ {r : Redis} {start : Keyspace r} (e : IsEmpty r start) (c : Config) (seeds : List Text)
    (url : Text) where
  -- A reachable state in which the URL has a live job.
  abbrev pub Alive : Keyspace r → Type 0
  Alive k = Reach (setup_of c seeds) start k × Lives url k

  calls-Alive :
      {k k' : Keyspace r}
      → Alive k
      → (calls : Reach (setup_of c seeds) k k') → SparesAll (setup_of c seeds) url calls
      → Alive k'
  calls-Alive (reach, h) calls spared =
      (Reach-trans reach calls, job_kept e (setup_of c seeds) url reach calls h spared)

  admit_canonical-Alive :
      (now : ℕ) (u : Text) (k : Keyspace r)
      → InTime (setup_of c seeds) now
      → Alive k
      → Alive (admit_canonical c seeds now u k).1
  unfolding setup_of
  admit_canonical-Alive now [] k t a = a
  admit_canonical-Alive now (x ∷ u) k t a =
      elim (Bool-cases (contains_text (x ∷ u) c.video_pattern)) [
        | inl v ↦ rw v (calls-Alive a (next here (admits_video now (x ∷ u) k v)) (tt, tt))
        | inr v ↦ rw v (calls-Alive a (next here (admits_listing now (x ∷ u) k t)) (tt, tt))
      ]

  module _ (s : Moments r) (h : Rely (setup_of c seeds) s)
      (calm : Calm (setup_of c seeds) url s h) where
    meanwhile-Alive : (k : Keyspace r) → Alive k → Alive (s.meanwhile k)
    meanwhile-Alive k a = calls-Alive a (h.resolves k) (calm.resolves k)

    pub nack-Alive :
        (j : Job) (k : Keyspace r)
        → IsJob (setup_of c seeds) j
        → Alive k
        → Alive (nack j (s.meanwhile k)).1
    nack-Alive j k job a =
        calls-Alive (meanwhile-Alive k a) (next here (nacks j (s.meanwhile k) job)) (tt, tt)

  pub enqueue_children-Alive :
      (s : Moments r) (h : Rely (setup_of c seeds) s)
      → Calm (setup_of c seeds) url s h
      → (links : List Text) (n : ℕ) (k : Keyspace r) → Alive k
      → Alive (enqueue_children c seeds s links n k).1
  unfolding enqueue_children admit_url
  enqueue_children-Alive s h calm [] n k a = a
  enqueue_children-Alive s h calm (raw ∷ links) n k a =
      elim (Result-cases (admit_url c seeds (s.clock 0) raw (s.others 0 k)).0) [
        | inl (x, f) ↦
            rw (f, enqueue_children)
              (enqueue_children-Alive (later s) (later-Rely (setup_of c seeds) s h)
                (record { admits = λ i. calm.admits (suc i); resolves = calm.resolves }) links
                (count_new x n) (admit_url c seeds (s.clock 0) raw (s.others 0 k)).1 first)
        | inr (x, f) ↦ rw (f, enqueue_children) first
      ]
    where
      first : Alive (admit_url c seeds (s.clock 0) raw (s.others 0 k)).1
      first =
          admit_canonical-Alive (s.clock 0) (canonicalize c raw) (s.others 0 k) (h.clock_in_time 0)
            (calls-Alive a (h.admits 0 k) (calm.admits 0 k))

dead_cases : (x : Result Disposition) → (x ≡ ok Disposition.dead) ⊎ (x ≢ ok Disposition.dead)
dead_cases (ok Disposition.dead) = inl refl
dead_cases (ok Disposition.delayed) = inr (λ h. cc)
dead_cases (err x) = inr (λ h. cc)

module _ {r : Redis} {start : Keyspace r} (e : IsEmpty r start) (c : Config) (seeds : List Text)
    (s : Moments r) (j : Job) (h : Rely (setup_of c seeds) s)
    (calm : Calm (setup_of c seeds) j.url s h) (job : IsJob (setup_of c seeds) j) where
  pub fail-Ends :
      (class : FailClass) (k : Keyspace r)
      → Alive e c seeds j.url k
      → ((fail (built c seeds) s.resolved_at j class (s.meanwhile k)).0 ≡ ok Disposition.dead)
        ⊎ Lives j.url (fail (built c seeds) s.resolved_at j class (s.meanwhile k)).1
  unfolding setup_of
  fail-Ends class k a =
      let now_alive = meanwhile-Alive e c seeds j.url s h calm k a in
      elim (dead_cases (fail (built c seeds) s.resolved_at j class (s.meanwhile k)).0) [
        | inl dead ↦ inl dead
        | inr alive ↦
            inr
              (calls-Alive e c seeds j.url now_alive
                (next here (fails s.resolved_at j class (s.meanwhile k) h.resolved_in_time job))
                (tt, λ dead. absurd (alive dead))).1
      ]
