-- ===== src/Crawler/Worker.antt =====
-- admitURL, enqueueChildren, resolve, recordVideo, handleOutcome and one turn of the loop of worker,
-- in internal/crawler/worker.go. Every call of the frontier has a clock
-- reading of its own, and other goroutines may have changed the database before it.
use lost_media_finder.Prelude.{
  ℕ, suc, ◌*◌, Bool, true, false, Option, none, some, List, [], ◌∷◌, ◌++◌, if◌then◌else◌,
}
use lost_media_finder.Text.{Text}
use lost_media_finder.Text.Search.{contains_text}
use lost_media_finder.Redis.{Redis}
use lost_media_finder.Frontier.Types.{
  AdmitResult, suppressed, new, due_revisit, fail_strikeable, Job, FrontierError, stale_lease,
  script_error, unexpected_result, Result, ok, err, hour,
}
use lost_media_finder.Frontier.Keyspace.{Keyspace}
use lost_media_finder.Frontier.Methods.{
  Frontier, admit_video, admit_listing, lease, ack, nack, fail, terminal, complete_listing,
}
use lost_media_finder.Corpus.{Cursor}
use lost_media_finder.Model.{Video, Tables}
use lost_media_finder.Crawler.Classify.{until_for, new_url_classifier}
use lost_media_finder.Crawler.Config.{Config, frontier_config}
use lost_media_finder.Crawler.Canonical.{canonicalize}
use lost_media_finder.Crawler.Moments.{Moments, later}
use lost_media_finder.Crawler.Pages.{
  PageOutcome, page_video, page_listing, page_not_found, page_retryable, page_unknown,
  page_cancelled, Response, process,
}

-- MongoDB's collection, with the commands of internal/storage/mongo.go, each of which may fail: an
-- upsert by the URL, the number of documents, the targets, the URLs of all documents, and a drop.
pub record Corpus : Type 1 where
  pub Store : Type 0
  pub upsert : Store → Video → Bool × Store
  pub count_documents : Store → Option ℕ
  pub find_targets : Store → Option (List Video)
  pub find_urls : Store → Option Cursor
  pub drop : Store → Bool × Store

-- What the workers share: the database, the collection, the fields count and targets, the counter
-- ResolveErrors, and whether stopFn was called.
pub record World (r : Redis) (m : Corpus) : Type 0 where
  pub redis : Keyspace r
  pub store : m.Store
  pub count : ℕ
  pub targets : List Video
  pub resolve_errors : ℕ
  pub stopped : Bool

-- The frontier that main builds.
abbrev pub built : Config → List Text → Frontier
built c seeds = record {
  classify = some (new_url_classifier c.video_pattern seeds);
  cfg = frontier_config c;
}

abbrev pub count_new : AdmitResult → ℕ → ℕ
count_new new n = suc n
count_new suppressed n = n
count_new due_revisit n = n

-- What resolve does with the error of the transition.
abbrev pub count_error : {A : Type 0} → Result A → ℕ → ℕ
count_error (ok a) n = n
count_error (err stale_lease) n = n
count_error (err script_error) n = suc n
count_error (err unexpected_result) n = suc n

module _ {r : Redis} (c : Config) (seeds : List Text) where
  -- A URL in its canonical form; the empty one is nothing to admit.
  abbrev pub admit_canonical : ℕ → Text → Keyspace r → Result AdmitResult × Keyspace r
  admit_canonical now [] k = (ok suppressed, k)
  admit_canonical now (x ∷ url) k =
      if contains_text (x ∷ url) c.video_pattern
      then admit_video (built c seeds) now (x ∷ url) k
      else admit_listing (built c seeds) now (x ∷ url) k

  unfoldable pub admit_url : ℕ → Text → Keyspace r → Result AdmitResult × Keyspace r
  admit_url now raw k = admit_canonical now (canonicalize c raw) k

  -- The links are admitted one after the other up to the first error; `n` are new so far.
  unfoldable pub enqueue_children : Moments r → List Text → ℕ → Keyspace r → Result ℕ × Keyspace r
  unfolding admit_url
  enqueue_children s [] n k = (ok n, k)
  enqueue_children s (raw ∷ links) n k =
      let (res, k') = admit_url (s.clock 0) raw (s.others 0 k) in
      elim res [ ok a ↦ enqueue_children (later s) links (count_new a n) k' | err e ↦ (err e, k') ]

-- An error that the server or a script answered, a redis.Error.
abbrev pub is_redis_error : FrontierError → Bool
is_redis_error stale_lease = false
is_redis_error script_error = true
is_redis_error unexpected_result = false

module _ {r : Redis} {m : Corpus} where
  unfoldable pub resolve :
      {A : Type 0}
      → (Keyspace r → Keyspace r)
      → (Keyspace r → Result A × Keyspace r)
      → World r m
      → World r m
  resolve meanwhile op w =
      let (res, k) = op (meanwhile w.redis) in
      record w { redis = k; resolve_errors = count_error res w.resolve_errors }

  unfoldable pub maybe_fatal_admission : FrontierError → World r m → World r m
  maybe_fatal_admission e w = if is_redis_error e then record w { stopped = true } else w

  unfoldable pub record_video : Video → World r m → World r m
  record_video v w =
      let counted = record w { count = suc w.count } in
      if v.is_target then record counted { targets = counted.targets ++ v ∷ [] } else counted

  module _ (c : Config) (seeds : List Text) where
    -- The end of both branches that admit children.
    abbrev pub after_children :
        Moments r
        → Job
        → Result ℕ × Keyspace r
        → (ℕ → World r m → World r m)
        → World r m
        → World r m
    after_children s j (ok n, k) done w = done n (record w { redis = k })
    after_children s j (err e, k) done w =
        maybe_fatal_admission e (resolve s.meanwhile (nack j) (record w { redis = k }))

    unfoldable pub handle_outcome : Moments r → Job → PageOutcome → World r m → World r m
    unfolding resolve maybe_fatal_admission record_video enqueue_children
    handle_outcome s j (page_video v links) w =
        let (stored, store) = m.upsert w.store v in
        let w' = record w { store = store } in
        let seen = record_video v w' in
        if stored
        then after_children s j (enqueue_children c seeds s links 0 seen.redis)
            (λ _. resolve s.meanwhile (ack j)) seen
        else resolve s.meanwhile (nack j) w'
    handle_outcome s j (page_listing links) w =
        after_children s j (enqueue_children c seeds s links 0 w.redis)
          (λ n. resolve s.meanwhile (complete_listing (built c seeds) s.resolved_at j n)) w
    handle_outcome s j (page_not_found reason) w =
        resolve s.meanwhile
          (terminal j reason (until_for j.class (c.quarantine_listing_hours * hour) s.resolved_at))
          w
    handle_outcome s j (page_retryable class) w =
        resolve s.meanwhile (fail (built c seeds) s.resolved_at j class) w
    handle_outcome s j page_unknown w =
        resolve s.meanwhile (fail (built c seeds) s.resolved_at j fail_strikeable) w
    handle_outcome s j page_cancelled w = resolve s.meanwhile (nack j) w

    -- The part of a turn after a job was leased: the rate limiter fails on a cancelled context.
    abbrev pub work_on : Tables → Moments r → Bool → (Text → Response) → Job → World r m → World r m
    work_on t s allowed fetch j w =
        if allowed
        then handle_outcome s j (process t c j.url (fetch j.url)) w
        else resolve s.meanwhile (nack j) w

    abbrev pub after_lease :
        Result (Option Job) × Keyspace r → (Job → World r m → World r m) → World r m → World r m
    after_lease (ok none, k) work w = record w { redis = k }
    after_lease (ok (some j), k) work w = work j (record w { redis = k })
    after_lease (err e, k) work w = record w { redis = k }

    -- One turn: lease, wait for the limiter, fetch, and handle the outcome.
    unfoldable pub worker_turn :
        Tables → Moments r → Bool → (Text → Response) → World r m → World r m
    unfolding handle_outcome
    worker_turn t s allowed fetch w =
        after_lease (lease (built c seeds) s.leased_at (s.arriving w.redis))
          (work_on t s allowed fetch) w
