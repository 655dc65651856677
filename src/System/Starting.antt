-- ===== src/System/Starting.antt =====
-- The production start of cmd/crawler/main.go as steps of the system, and what it guarantees.
use lost_media_finder.Prelude.{
  ◌⊎◌, ℕ, suc, ◌≡◌, ◌≢◌, ◌<◌, refl, subst, sym, Bool, true, Option, none, some, List, [], ◌∷◌,
  count_if, Bool-cases, Option-cases, inl, inr,
}
use lost_media_finder.Text.{codes, Text}
use lost_media_finder.Text.Lines.{split_byte, trim_space}
use lost_media_finder.Redis.{Redis}
use lost_media_finder.Frontier.Types.{ok, new}
use lost_media_finder.Frontier.Keyspace.{Keyspace}
use lost_media_finder.Frontier.Methods.{admit_video, seed_listing}
use lost_media_finder.Text.Search.{contains_text}
use lost_media_finder.Bloom.{
  bloom_capacity, Attempt, done, failed, Floats, BloomServer, bloom_init, bloom_verify,
}
use lost_media_finder.Corpus.{is_doc, MongoError, Cursor, each_video_url}
use lost_media_finder.Crawler.Canonical.{canonicalize}
use lost_media_finder.Crawler.Config.{Config}
use lost_media_finder.Crawler.Worker.{Corpus, World, admit_url}
use lost_media_finder.Crawler.Startup.{resume, seed, seed_line, seed_lines}
use lost_media_finder.Startup.{
  StartError, reconcile_bloom_from_mongo, read_seed_urls, with_bloom, open_crawl, start_up,
}
use lost_media_finder.System.Defs.{Setup, frontier, InTime, Reach, seeds, changes_bloom, here, next}
use lost_media_finder.System.Filling.{Grows, reconcile-adds, reconcile-Grows}
use lost_media_finder.System.Workers.{setup_of, Goes, Reach-trans, admit_canonical-Reach}
use lost_media_finder.System.Once.{Reach-Seen, admit_video-Claims}

module _ {r : Redis} (c : Config) (seed_urls : List Text) where
  seed_line-Reach :
      (now : ℕ) (trimmed line : Text) (k : Keyspace r)
      → InTime (setup_of c seed_urls) now
      → Goes c seed_urls k (seed_line c seed_urls now trimmed line k)
  unfolding admit_url
  seed_line-Reach now [] line k t = here
  seed_line-Reach now (x ∷ trimmed) line k t =
      admit_canonical-Reach c seed_urls now (canonicalize c line) k t

  seed_lines-Reach :
      (clock : ℕ → ℕ) (lines : List Text) (k : Keyspace r)
      → ((i : ℕ) → InTime (setup_of c seed_urls) (clock i))
      → Goes c seed_urls k (seed_lines c seed_urls clock lines k)
  unfolding seed_lines
  seed_lines-Reach clock [] k t = here
  seed_lines-Reach clock (line ∷ lines) k t =
      Reach-trans (seed_line-Reach (clock 0) (trim_space line) line k (t 0)) (
        seed_lines-Reach (λ i. clock (suc i)) lines
          (seed_line c seed_urls (clock 0) (trim_space line) line k) (λ i. t (suc i)))

  seed-Reach :
      (clock : ℕ → ℕ) (file : Option Text) (k : Keyspace r)
      → ((i : ℕ) → InTime (setup_of c seed_urls) (clock i))
      → Goes c seed_urls k (seed c seed_urls clock file k)
  unfolding seed
  seed-Reach clock none k t = here
  seed-Reach clock (some contents) k t = seed_lines-Reach clock (split_byte 10 contents) k t

pub Attempt-cases :
    {E A : Type 0} (a : Attempt E A) → ((y : A) × (a ≡ done y)) ⊎ ((e : E) × (a ≡ failed e))
Attempt-cases (done y) = inl (y, refl)
Attempt-cases (failed e) = inr (e, refl)

resume-redis : {r : Redis} {m : Corpus} (w : World r m) → (resume w).redis ≡ w.redis
unfolding resume
resume-redis {m = m} w = elim (Option-cases (m.count_documents w.store)) [
  | inl e ↦ rw (e, resume) refl
  | inr (n, e) ↦
      rw (e, resume)
        (elim (Option-cases (m.find_targets w.store)) [
          | inl f ↦ rw f refl
          | inr (targets, f) ↦ rw f refl
        ])
]

-- What main builds, with the seeds of the file.
abbrev pub configured : Config → Option Text → Setup
configured c file = setup_of c (read_seed_urls file c.base_url)

module _ {r : Redis} {m : Corpus} (c : Config) (file : Option Text) where
  open_crawl-Reach :
      (fresh : Bool) (clock : ℕ → ℕ) (w : World r m)
      → ((i : ℕ) → InTime (configured c file) (clock i))
      → Reach (configured c file) w.redis (open_crawl c file fresh clock w).redis
  unfolding open_crawl
  open_crawl-Reach fresh clock w t = elim (Bool-cases fresh) [
    | inl e ↦ rw e (
        Reach-trans resumed (
          seed-Reach c (read_seed_urls file c.base_url) clock file
            (resume (record w { redis = seed_listing c.base_url w.redis })).redis t))
    | inr e ↦ rw e resumed
  ]
    where
      resumed :
          Reach
            (configured c file)
            w.redis
            (resume (record w { redis = seed_listing c.base_url w.redis })).redis
      resumed =
          subst (λ k. Reach (configured c file) w.redis k)
            (sym (resume-redis (record w { redis = seed_listing c.base_url w.redis })))
            (next here (seeds c.base_url w.redis))

module _ {r : Redis} (v : BloomServer r) where
  pub bloom_init-Grows : (b : r.Bloom) → Grows r b (bloom_init v b).1
  unfolding bloom_init
  bloom_init-Grows b u h = elim (Option-cases (v.bf_reserve bloom_capacity b).0) [
    | inl e ↦ absurd (cc (v.bf_reserve_new bloom_capacity b u e, h))
    | inr (text, e) ↦
        let kept : r.bf_exists (v.bf_reserve bloom_capacity b).1 u ≡ true =
          rw (v.bf_reserve_same bloom_capacity b text e) h in
        rw (e, bloom_init)
          (elim (Bool-cases (contains_text text (codes "exists"))) [
            | inl f ↦ rw f kept
            | inr f ↦ rw f kept
          ])
  ]

module _ {r : Redis} {m : Corpus} (x : Floats) (v : BloomServer r) (c : Config) (file : Option Text)
    (fresh : Bool) (clock : ℕ → ℕ) where
  -- The filter after BloomInit.
  abbrev pub first_bloom : World r m → r.Bloom
  first_bloom w = (bloom_init v w.redis.bloom).1

  -- The reconciliation of a start.
  abbrev pub filling : World r m → Option MongoError × (ℕ × r.Bloom)
  filling w = reconcile_bloom_from_mongo r (m.find_urls w.store) (first_bloom w)

  opened_same :
      {a b : World r m} → ◌≡◌ {A = Attempt StartError (World r m)} (done a) (done b) → a ≡ b
  opened_same h = cc h

  -- A start that succeeds is a reconciliation that ends well, and then the opening of the crawl.
  pub start_up-opens :
      (w w' : World r m)
      → (start_up x v c file fresh clock w).0 ≡ done w'
      → ((filling w).0 ≡ none) × (w' ≡ open_crawl c file fresh clock (with_bloom (filling w).1.1 w))
  unfolding start_up
  start_up-opens w w' h = elim (Attempt-cases (bloom_init v w.redis.bloom).0) [
    | inr (e, f) ↦ absurd (cc (rw (f, start_up) at h))
    | inl (created, f) ↦ elim (Option-cases (bloom_verify x v (first_bloom w))) [
      | inr (e, g) ↦ absurd (cc (rw (f, g, start_up) at h))
      | inl g ↦ elim (Option-cases (filling w).0) [
        | inr (e, q) ↦ absurd (cc (rw (f, g, q, start_up) at h))
        | inl q ↦ (q, sym (opened_same (rw (f, g, q, start_up) at h)))
      ]
    ]
  ]

  filled : (w : World r m) → (filling w).0 ≡ none → Grows r w.redis.bloom (filling w).1.1
  filled w good u h = elim (Option-cases (m.find_urls w.store)) [
    | inl e ↦ absurd (not_found (rw e at good))
    | inr (cur, e) ↦ rw e (
        reconcile-Grows r cur.docs cur.ends_well (first_bloom w) (rw e at good) u
          (bloom_init-Grows v w.redis.bloom u h))
  ]
    where
      not_found : (reconcile_bloom_from_mongo r none (first_bloom w)).0 ≡ none → ⊥
      not_found h = unfold reconcile_bloom_from_mongo each_video_url in cc h

  -- A production start that succeeds leads from a reachable state to a reachable state, so that the
  -- invariants of the running crawler hold through any number of restarts on the same database.
  pub start_up-Reach :
      (start : Keyspace r) (w w' : World r m)
      → ((i : ℕ) → InTime (configured c file) (clock i))
      → Reach (configured c file) start w.redis
      → (start_up x v c file fresh clock w).0 ≡ done w'
      → Reach (configured c file) start w'.redis
  start_up-Reach start w w' t reach h =
      let (good, e) = start_up-opens w w' h in
      rw e (
        Reach-trans (next reach (changes_bloom (filling w).1.1 w.redis (filled w good)))
          (open_crawl-Reach c file fresh clock (with_bloom (filling w).1.1 w) t))

  -- After a production start that succeeds, in every state that calls of the frontier reach from
  -- there, AdmitVideo never admits a URL as new that MongoDB listed at the start.
  pub start_up-covers :
      (w w' : World r m) (cur : Cursor) (url : Text) (later : ℕ) (k : Keyspace r)
      → ((i : ℕ) → InTime (configured c file) (clock i))
      → (start_up x v c file fresh clock w).0 ≡ done w'
      → m.find_urls w.store ≡ some cur
      → 0 < count_if (is_doc url) cur.docs
      → Reach (configured c file) w'.redis k
      → (admit_video (frontier (configured c file)) later url k).0 ≢ ok new
  start_up-covers w w' cur url later k t h listed some_url reach again =
      let (good, e) = start_up-opens w w' h in
      let seen : r.bf_exists (filling w).1.1 url ≡ true = rw listed (
        reconcile-adds r cur.docs cur.ends_well (first_bloom w) url (rw listed at good) some_url) in
      cc (
        (admit_video-Claims url (configured c file) later k again).0,
        Reach-Seen (configured c file) url
            (Reach-trans (open_crawl-Reach c file fresh clock (with_bloom (filling w).1.1 w) t)
              (rw e at reach))
            seen,
      )
