-- ===== src/System/Workers.antt =====
-- The turns of the workers, in internal/crawler/worker.go, as steps of the system.
use lost_media_finder.Prelude.{
  ℕ, ◌≡◌, refl, true, ◌==◌, Option, none, some, List, [], ◌∷◌, arith, Bool-cases, inl, inr, subst,
}
use lost_media_finder.Text.{Text, codes}
use lost_media_finder.Text.Decimal.{index_byte-print}
use lost_media_finder.Text.Search.{index_byte, contains_text}
use lost_media_finder.Redis.{Redis}
use lost_media_finder.Frontier.Types.{Result-cases, fail_strikeable, Job, Result, ok, err}
use lost_media_finder.Frontier.Member.{separator}
use lost_media_finder.Frontier.Keyspace.{Keyspace}
use lost_media_finder.Frontier.Methods.{ack, complete_listing}
use lost_media_finder.Model.{Video, Tables}
use lost_media_finder.Crawler.Config.{Config, frontier_config}
use lost_media_finder.Crawler.Canonical.{canonicalize}
use lost_media_finder.Crawler.Pages.{
  PageOutcome, page_video, page_listing, page_not_found, page_retryable, page_unknown,
  page_cancelled, Document, Response, get_cancelled, get_failed, status, process, process_document,
}
use lost_media_finder.Crawler.Moments.{Moments, later}
use lost_media_finder.System.Interference.{Rely, later-Rely}
use lost_media_finder.Crawler.Worker.{
  Corpus, World, built, admit_canonical, admit_url, count_new, enqueue_children, resolve,
  maybe_fatal_admission, record_video, is_redis_error, handle_outcome, after_children,
}
use lost_media_finder.System.Defs.{
  Setup, InTime, IsJob, Step, Reach, admits_video, admits_listing, acks, nacks, fails, terminates,
  completes, here, next,
}

-- What main builds from the configuration and the seeds.
unfoldable pub setup_of : Config → List Text → Setup
unfolding frontier_config
setup_of c seeds = record {
  cfg = frontier_config c;
  video_pattern = c.video_pattern;
  seed_urls = seeds;
}

-- An outcome that a page of the URL can have.
abbrev pub Fits : Config → Text → PageOutcome → Type 0
Fits c url (page_video v links) = contains_text url c.video_pattern ≡ true
Fits c url (page_not_found reason) = index_byte reason separator ≡ none
Fits c url (page_listing links) = Unit
Fits c url (page_retryable class) = Unit
Fits c url page_unknown = Unit
Fits c url page_cancelled = Unit

process_document-Fits :
    (t : Tables) (c : Config) (url : Text) (doc : Document)
    → Fits c url (process_document t c url doc)
unfolding process_document
process_document-Fits t c url doc =
    elim (Bool-cases (contains_text doc.title (codes "Rate Limited"))) [
      | inl e ↦ rw e tt
      | inr e ↦ rw e (elim (Bool-cases (contains_text url c.video_pattern)) [
        | inl v ↦ rw v v
        | inr v ↦ rw v tt
      ])
    ]

-- A page is taken for a video only where its URL is one, and the reason of a missing page is plain.
pub process-Fits :
    (t : Tables) (c : Config) (url : Text) (answer : Response) → Fits c url (process t c url answer)
unfolding process
process-Fits t c url get_cancelled = tt
process-Fits t c url get_failed = tt
process-Fits t c url (status code body) = elim (Bool-cases (code == 429)) [
  | inl e ↦ rw e tt
  | inr e ↦ rw e (elim (Bool-cases (code == 404)) [
    | inl f ↦ rw f (index_byte-print code separator (omega arith))
    | inr f ↦ rw f (elim (Bool-cases (code == 410)) [
      | inl g ↦ rw g (index_byte-print code separator (omega arith))
      | inr g ↦
          rw g (elim (Bool-cases (code == 200)) [ inl h ↦ rw h (parsed body) | inr h ↦ rw h tt ])
    ])
  ])
]
  where
    parsed :
        (b : Option Document)
        → Fits c url (elim b [ none ↦ page_unknown | some doc ↦ process_document t c url doc ])
    parsed none = tt
    parsed (some doc) = process_document-Fits t c url doc

pub Reach-trans :
    {r : Redis} {s : Setup} {a b d : Keyspace r} → Reach s a b → Reach s b d → Reach s a d
Reach-trans p here = p
Reach-trans p (next q move) = next (Reach-trans p q) move

module _ {r : Redis} (c : Config) (seeds : List Text) where
  abbrev pub Goes : Keyspace r → Keyspace r → Type 0
  Goes = Reach (setup_of c seeds)

  pub once : {k k' : Keyspace r} → Step (setup_of c seeds) k k' → Goes k k'
  once move = next here move

  pub admit_canonical-Reach :
      (now : ℕ) (url : Text) (k : Keyspace r)
      → InTime (setup_of c seeds) now
      → Goes k (admit_canonical c seeds now url k).1
  unfolding setup_of
  admit_canonical-Reach now [] k t = here
  admit_canonical-Reach now (x ∷ url) k t =
      elim (Bool-cases (contains_text (x ∷ url) c.video_pattern)) [
        | inl e ↦ rw e (once (admits_video now (x ∷ url) k e))
        | inr e ↦ rw e (once (admits_listing now (x ∷ url) k t))
      ]

  enqueue_children-Reach :
      (s : Moments r) (links : List Text) (n : ℕ) (k : Keyspace r)
      → Rely (setup_of c seeds) s
      → Goes k (enqueue_children c seeds s links n k).1
  unfolding enqueue_children admit_url
  enqueue_children-Reach s [] n k h = here
  enqueue_children-Reach s (raw ∷ links) n k h =
      elim (Result-cases (admit_url c seeds (s.clock 0) raw (s.others 0 k)).0) [
        | inl (a, e) ↦
            rw (e, enqueue_children)
              (Reach-trans first (
                enqueue_children-Reach (later s) links (count_new a n)
                  (admit_url c seeds (s.clock 0) raw (s.others 0 k)).1
                  (later-Rely (setup_of c seeds) s h)))
        | inr (x, e) ↦ rw (e, enqueue_children) first
      ]
    where
      first : Goes k (admit_url c seeds (s.clock 0) raw (s.others 0 k)).1
      first = Reach-trans (h.admits 0 k) (
          admit_canonical-Reach (s.clock 0) (canonicalize c raw) (s.others 0 k) (h.clock_in_time 0))

  module _ {m : Corpus} where
    -- The end of a branch that admitted children: nack on an error, and else the branch's own end.
    after_children-Reach :
        (s : Moments r) (j : Job) (x : Result ℕ × Keyspace r) (done : ℕ → World r m → World r m)
        (w : World r m)
        → Rely (setup_of c seeds) s
        → IsJob (setup_of c seeds) j
        → Goes w.redis x.1
        → ((n : ℕ) (v : World r m) → Goes v.redis (done n v).redis)
        → Goes w.redis (after_children c seeds s j x done w).redis
    unfolding resolve maybe_fatal_admission
    after_children-Reach s j (ok n, k) done w h job first step =
        Reach-trans first (step n (record w { redis = k }))
    after_children-Reach s j (err e, k) done w h job first step =
        elim (Bool-cases (is_redis_error e)) [
          | inl b ↦ rw b (Reach-trans first (next (h.resolves k) (nacks j (s.meanwhile k) job)))
          | inr b ↦ rw b (Reach-trans first (next (h.resolves k) (nacks j (s.meanwhile k) job)))
        ]

    pub record_video-redis : (v : Video) (w : World r m) → (record_video v w).redis ≡ w.redis
    unfolding record_video
    record_video-redis v w = elim (Bool-cases v.is_target) [ inl e ↦ rw e refl | inr e ↦ rw e refl ]

    pub handle_outcome-Reach :
        (s : Moments r) (j : Job) (out : PageOutcome) (w : World r m)
        → Rely (setup_of c seeds) s
        → IsJob (setup_of c seeds) j
        → Fits c j.url out
        → Goes w.redis (handle_outcome c seeds s j out w).redis
    unfolding handle_outcome resolve setup_of
    handle_outcome-Reach s j (page_video v links) w h job fits =
        elim (Bool-cases (m.upsert w.store v).0) [
          | inl e ↦ rw e (
              subst
                (λ k.
                  Goes k
                    (after_children c seeds s j (enqueue_children c seeds s links 0 seen.redis)
                      (λ _. resolve s.meanwhile (ack j)) seen).redis)
                (record_video-redis v w')
                (after_children-Reach s j (enqueue_children c seeds s links 0 seen.redis)
                  (λ _. resolve s.meanwhile (ack j)) seen h job
                  (enqueue_children-Reach s links 0 seen.redis h)
                  (λ _ u. next (h.resolves u.redis) (acks j (s.meanwhile u.redis) job fits))))
          | inr e ↦ rw e (next (h.resolves w.redis) (nacks j (s.meanwhile w.redis) job))
        ]
      where
        w' : World r m
        w' = record w { store = (m.upsert w.store v).1 }

        seen : World r m
        seen = record_video v w'
    handle_outcome-Reach s j (page_listing links) w h job fits =
        after_children-Reach s j (enqueue_children c seeds s links 0 w.redis)
          (λ n. resolve s.meanwhile (complete_listing (built c seeds) s.resolved_at j n)) w h job
          (enqueue_children-Reach s links 0 w.redis h)
          (λ n v.
            next (h.resolves v.redis)
              (completes s.resolved_at j n (s.meanwhile v.redis) h.resolved_in_time job))
    handle_outcome-Reach s j (page_not_found reason) w h job fits =
        next (h.resolves w.redis)
          (terminates s.resolved_at j reason (s.meanwhile w.redis) h.resolved_in_time job fits)
    handle_outcome-Reach s j (page_retryable class) w h job fits =
        next (h.resolves w.redis)
          (fails s.resolved_at j class (s.meanwhile w.redis) h.resolved_in_time job)
    handle_outcome-Reach s j page_unknown w h job fits =
        next (h.resolves w.redis)
          (fails s.resolved_at j fail_strikeable (s.meanwhile w.redis) h.resolved_in_time job)
    handle_outcome-Reach s j page_cancelled w h job fits =
        next (h.resolves w.redis) (nacks j (s.meanwhile w.redis) job)
