-- ===== src/Crawler/TestMode.antt =====
-- The test mode: InitTest, Clear and RunTest of internal/crawler/crawler.go, and main's part of its
-- start in cmd/crawler/main.go. FLUSHDB is a parameter, and both callers ignore its answer.
use lost_media_finder.Prelude.{
  ℕ, Bool, true, Option, none, some, List, [], ◌∷◌, ◌&&◌, not, ltb, if◌then◌else◌,
}
use lost_media_finder.Text.{Text}
use lost_media_finder.Redis.{Redis}
use lost_media_finder.Frontier.Types.{FrontierError, ok, err}
use lost_media_finder.Frontier.Keyspace.{Keyspace}
use lost_media_finder.Frontier.Methods.{idle}
use lost_media_finder.Bloom.{Attempt, done, failed, BloomServer, BloomError, bloom_init}
use lost_media_finder.Crawler.Config.{Config}
use lost_media_finder.Crawler.Loop.{max_test_videos}
use lost_media_finder.Crawler.Worker.{Corpus, World, admit_url}

-- What keeps the workers of a test run from starting.
pub data TestError : Type 0 where
  test_bloom_init_failed : BloomError → TestError
  test_seed_failed : FrontierError → TestError

module _ {r : Redis} {m : Corpus} (flush_db : Keyspace r → Bool × Keyspace r) where
  unfoldable pub init_test : World r m → World r m
  init_test w = record w { redis = (flush_db w.redis).1 }

  -- The corpus is dropped first.
  unfoldable pub clear : World r m → World r m
  clear w = record w { store = (m.drop w.store).1; redis = (flush_db w.redis).1 }

  -- RunTest up to the start of its workers.
  abbrev pub seed_test :
      Config → List Text → Text → ℕ → World r m → Attempt TestError (World r m) × World r m
  seed_test c seeds seed_url now w =
      let (res, k) = admit_url c seeds now seed_url w.redis in
      let w' = record w { redis = k } in
      elim res [ ok a ↦ (done w', w') | err e ↦ (failed (test_seed_failed e), w') ]

  unfoldable pub start_test :
      BloomServer r
      → Config
      → List Text
      → Text
      → ℕ
      → World r m
      → Attempt TestError (World r m) × World r m
  unfolding init_test bloom_init admit_url
  start_test v c seeds test_url now w =
      let w' = init_test w in
      let (created, b) = bloom_init v w'.redis.bloom in
      let w'' = record w' { redis = record w'.redis { bloom = b } } in
      let seeded = seed_test c seeds test_url now w'' in
      elim created [ failed e ↦ (failed (test_bloom_init_failed e), w'') | done _ ↦ seeded ]

-- A round of RunTest's loop: the count, the context, and the database that Idle asks, `none` where it
-- fails.
pub record Look (r : Redis) : Type 0 where
  pub count : ℕ
  pub cancelled : Bool
  pub asked : Option (Keyspace r)

module _ {r : Redis} where
  -- Idle ends the loop where it fails and where it says yes.
  abbrev pub breaks : Option (Keyspace r) → Bool
  breaks none = true
  breaks (some k) = idle k

  -- The round in which the loop ends, if it does.
  unfoldable pub watch : List (Look r) → Option (Look r)
  unfolding idle
  watch [] = none
  watch (l ∷ looks) =
      let rest = watch looks in
      if ltb l.count max_test_videos && not l.cancelled
      then if breaks l.asked then some l else rest
      else some l
