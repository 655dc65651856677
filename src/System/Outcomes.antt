-- ===== src/System/Outcomes.antt =====
-- handleOutcome of internal/crawler/worker.go: what becomes of the job of a page.
use lost_media_finder.Prelude.{ℕ, ◌≡◌, ◌⊎◌, inl, inr, refl, sym, ap, ◌∙◌, subst, List, Bool-cases}
use lost_media_finder.Text.{Text}
use lost_media_finder.Redis.{Redis}
use lost_media_finder.Frontier.Types.{Job, Result, ok, err, fail_strikeable, FrontierError}
use lost_media_finder.Frontier.Keyspace.{Keyspace}
use lost_media_finder.Frontier.Methods.{nack, ack, complete_listing}
use lost_media_finder.Model.{Video}
use lost_media_finder.Crawler.Config.{Config}
use lost_media_finder.Crawler.Moments.{Moments}
use lost_media_finder.Crawler.Pages.{
  PageOutcome, page_video, page_listing, page_not_found, page_retryable, page_unknown,
  page_cancelled,
}
use lost_media_finder.Crawler.Worker.{
  Corpus, World, built, enqueue_children, resolve, maybe_fatal_admission, record_video,
  is_redis_error, handle_outcome, after_children,
}
use lost_media_finder.System.Admitting.{Admitted, enqueue_children-Admitted}
use lost_media_finder.System.Defs.{IsJob}
use lost_media_finder.System.Interference.{Rely}
use lost_media_finder.System.Jobs.{IsEmpty}
use lost_media_finder.System.Surviving.{Lives}
use lost_media_finder.System.Workers.{setup_of, record_video-redis}
use lost_media_finder.System.Ending.{
  Calm, Ends, Alive, nack-Alive, enqueue_children-Alive, fail-Ends,
}

module _ {r : Redis} {m : Corpus} {start : Keyspace r} (e : IsEmpty r start) (c : Config)
    (seeds : List Text) (s : Moments r) (j : Job) (h : Rely (setup_of c seeds) s)
    (calm : Calm (setup_of c seeds) j.url s h) (job : IsJob (setup_of c seeds) j) where
  abbrev seen : Video → World r m → World r m
  seen v w = record_video v (record w { store = (m.upsert w.store v).1 })

  -- An admission that failed gives the job back.
  returned_job :
      (y : FrontierError) (k : Keyspace r) (w : World r m)
      → Alive e c seeds j.url k
      → Lives j.url
          (maybe_fatal_admission y (resolve s.meanwhile (nack j) (record w { redis = k }))).redis
  unfolding resolve maybe_fatal_admission
  returned_job y k w alive = elim (Bool-cases (is_redis_error y)) [
    | inl b ↦ rw b (nack-Alive e c seeds j.url s h calm j k job alive).1
    | inr b ↦ rw b (nack-Alive e c seeds j.url s h calm j k job alive).1
  ]

  -- After the links: all of them were taken, or the job was given back.
  after_children-Ends :
      (links : List Text) (done : ℕ → World r m → World r m) (w : World r m)
      → Alive e c seeds j.url w.redis
      → ((n : ℕ) × (k : Keyspace r) × Admitted c seeds s links 0 w.redis n k
          × (after_children c seeds s j (enqueue_children c seeds s links 0 w.redis) done w
              ≡ done n (record w { redis = k })))
        ⊎ Lives j.url
            (after_children c seeds s j (enqueue_children c seeds s links 0 w.redis) done w).redis
  after_children-Ends links done w a =
      cases (enqueue_children c seeds s links 0 w.redis)
        (enqueue_children-Alive e c seeds j.url s h calm links 0 w.redis a)
        (enqueue_children-Admitted c seeds s links 0 w.redis)
    where
      cases :
          (x : Result ℕ × Keyspace r)
          → Alive e c seeds j.url x.1
          → ((n : ℕ) → x.0 ≡ ok n → Admitted c seeds s links 0 w.redis n x.1)
          → ((n : ℕ) × (k : Keyspace r) × Admitted c seeds s links 0 w.redis n k
              × (after_children c seeds s j x done w ≡ done n (record w { redis = k })))
            ⊎ Lives j.url (after_children c seeds s j x done w).redis
      cases (ok n, k) alive taken = inl (n, k, taken n refl, refl)
      cases (err y, k) alive taken = inr (returned_job y k w alive)

  record_video-store : (v : Video) (w : World r m) → (record_video v w).store ≡ w.store
  unfolding record_video
  record_video-store v w = elim (Bool-cases v.is_target) [ inl b ↦ rw b refl | inr b ↦ rw b refl ]

  -- Counting the video leaves the database alone.
  seen-redis : (v : Video) (w : World r m) → (seen v w).redis ≡ w.redis
  seen-redis v w = record_video-redis c seeds v (record w { store = (m.upsert w.store v).1 })

  pub handle_outcome-Ends :
      (out : PageOutcome) (w : World r m)
      → Alive e c seeds j.url w.redis
      → Ends c seeds s j out w (handle_outcome c seeds s j out w)
        ⊎ Lives j.url (handle_outcome c seeds s j out w).redis
  unfolding handle_outcome resolve
  handle_outcome-Ends (page_video v links) w a = elim (Bool-cases (m.upsert w.store v).0) [
    | inl stored ↦
        elim (after_children-Ends links (λ _. resolve s.meanwhile (ack j)) (seen v w)
          (subst (Alive e c seeds j.url) (sym (seen-redis v w)) a)) [
            | inl (n, k, taken, done) ↦ inl (
              stored,
              rw stored (
                  ap (λ (x : World r m). x.store) done
                  ∙ record_video-store v (record w { store = (m.upsert w.store v).1 })),
              n,
              k,
              subst (λ x. Admitted c seeds s links 0 x n k) (seen-redis v w) taken,
              rw stored (ap (λ (x : World r m). x.redis) done),
            )
            | inr lives ↦ inr (rw stored lives)
          ]
    | inr failed ↦ inr (rw failed (nack-Alive e c seeds j.url s h calm j w.redis job a).1)
  ]
  handle_outcome-Ends (page_listing links) w a =
      elim (after_children-Ends links
        (λ n. resolve s.meanwhile (complete_listing (built c seeds) s.resolved_at j n)) w a) [
          | inl (n, k, taken, done) ↦ inl (n, k, taken, ap (λ (x : World r m). x.redis) done)
          | inr lives ↦ inr lives
        ]
  handle_outcome-Ends (page_not_found reason) w a = inl refl
  handle_outcome-Ends (page_retryable class) w a =
      fail-Ends e c seeds s j h calm job class w.redis a
  handle_outcome-Ends page_unknown w a =
      fail-Ends e c seeds s j h calm job fail_strikeable w.redis a
  handle_outcome-Ends page_cancelled w a =
      inr (nack-Alive e c seeds j.url s h calm j w.redis job a).1
