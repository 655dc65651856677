-- ===== src/System/Trial.antt =====
-- The test mode of internal/crawler/crawler.go and cmd/crawler/main.go as steps of the system.
use lost_media_finder.Prelude.{
  ℕ, ◌≡◌, ◌≤◌, ◌⊎◌, inl, inr, refl, subst, Bool, true, false, Option, none, some, List, [], ◌∷◌,
  ◌&&◌, not, ltb, arith, Bool-cases,
}
use lost_media_finder.Text.{Text}
use lost_media_finder.Redis.{Redis}
use lost_media_finder.Frontier.Types.{Result-cases}
use lost_media_finder.Frontier.Keyspace.{Keyspace}
use lost_media_finder.Frontier.Behaviour.Idle.{idle-live_jobs}
use lost_media_finder.Frontier.Sound.Defs.{live_jobs}
use lost_media_finder.Bloom.{Attempt, done, BloomServer, bloom_init}
use lost_media_finder.Model.{Tables}
use lost_media_finder.Crawler.Canonical.{canonicalize}
use lost_media_finder.Crawler.Config.{Config}
use lost_media_finder.Crawler.Loop.{max_test_videos}
use lost_media_finder.Crawler.Crowd.{TestRun, looks, turns, starts, goes}
use lost_media_finder.Crawler.TestMode.{init_test, seed_test, start_test, Look, breaks, watch}
use lost_media_finder.Crawler.Worker.{Corpus, World, admit_url}
use lost_media_finder.System.Defs.{InTime, Reach, changes_bloom, here, next}
use lost_media_finder.System.Interference.{Rely}
use lost_media_finder.System.Jobs.{IsEmpty}
use lost_media_finder.System.Starting.{bloom_init-Grows, Attempt-cases}
use lost_media_finder.System.Turns.{worker_turn-Reach}
use lost_media_finder.System.Workers.{setup_of, Reach-trans, admit_canonical-Reach}

module _ {r : Redis} {m : Corpus} (c : Config) (seeds : List Text) (t : Tables) (workers : ℕ) where
  -- What every turn of the run relies on.
  abbrev pub RunRely : {w w' : World r m} {busy : ℕ} → TestRun c seeds t workers w busy w' → Type 0
  RunRely starts = Unit
  RunRely (goes run (looks busy w free few)) = RunRely run
  RunRely (goes run (turns busy u w)) = RunRely run × Rely (setup_of c seeds) u.moments

  TestRun-Reach :
      {start : Keyspace r} {w w' : World r m} {busy : ℕ}
      → IsEmpty r start
      → (run : TestRun c seeds t workers w busy w') → RunRely run
      → Reach (setup_of c seeds) start w.redis
      → Reach (setup_of c seeds) start w'.redis
  TestRun-Reach e starts rely reach = reach
  TestRun-Reach e (goes run (looks busy w free few)) rely reach = TestRun-Reach e run rely reach
  TestRun-Reach e (goes run (turns busy u w)) (rely, h) reach =
      worker_turn-Reach c seeds t e u.moments u.allowed u.fetch w h (TestRun-Reach e run rely reach)

module _ {r : Redis} {m : Corpus} (flush_db : Keyspace r → Bool × Keyspace r) (v : BloomServer r)
    (c : Config) (seeds : List Text) where
  done_same :
      {E : Type 0} {a b : World r m} → ◌≡◌ {A = Attempt E (World r m)} (done a) (done b) → a ≡ b
  done_same h = cc h

  seed_test-Reach :
      (url : Text) (now : ℕ) (w w' : World r m)
      → InTime (setup_of c seeds) now
      → (seed_test flush_db c seeds url now w).0 ≡ done w'
      → Reach (setup_of c seeds) w.redis w'.redis
  unfolding admit_url
  seed_test-Reach url now w w' in_time h =
      elim (Result-cases (admit_url c seeds now url w.redis).0) [
        | inl (a, f) ↦
            subst (λ u. Reach (setup_of c seeds) w.redis u.redis)
              (done_same (rw (f, seed_test) at h))
              (admit_canonical-Reach c seeds now (canonicalize c url) w.redis in_time)
        | inr (x, f) ↦ absurd (cc (rw (f, seed_test) at h))
      ]

  start_test-Reach :
      (url : Text) (now : ℕ) (w w' : World r m)
      → InTime (setup_of c seeds) now
      → (start_test flush_db v c seeds url now w).0 ≡ done w'
      → Reach (setup_of c seeds) (flush_db w.redis).1 w'.redis
  unfolding start_test init_test
  start_test-Reach url now w w' in_time h =
      elim (Attempt-cases (bloom_init v (flush_db w.redis).1.bloom).0) [
        | inr (x, f) ↦ absurd (cc (rw (f, start_test) at h))
        | inl (created, f) ↦
            Reach-trans
              (next here (
                changes_bloom (bloom_init v (flush_db w.redis).1.bloom).1 (flush_db w.redis).1
                  (bloom_init-Grows v (flush_db w.redis).1.bloom)))
              (seed_test-Reach url now _ w' in_time (rw (f, start_test) at h))
      ]

  -- A test run keeps to the steps of the system: where FLUSHDB leaves the database empty, the start
  -- of the test mode and then its workers, however their looks at the count and their turns
  -- interleave, and whatever calls of the frontier the other goroutines make during a turn, lead to a
  -- state that is reachable from the empty database.
  pub test_run-Reach :
      (t : Tables) (workers : ℕ) (url : Text) (now busy : ℕ) (w w' w'' : World r m)
      → IsEmpty r (flush_db w.redis).1
      → InTime (setup_of c seeds) now
      → (start_test flush_db v c seeds url now w).0 ≡ done w'
      → (run : TestRun c seeds t workers w' busy w'') → RunRely c seeds t workers run
      → Reach (setup_of c seeds) (flush_db w.redis).1 w''.redis
  test_run-Reach t workers url now busy w w' w'' e in_time h run rely =
      TestRun-Reach c seeds t workers e run rely (start_test-Reach url now w w' in_time h)

module _ {r : Redis} where
  -- What ends the loop of RunTest: the count, the context, or an answer of Idle.
  abbrev Over : Look r → Type 0
  Over l =
      (max_test_videos ≤ l.count)
      ⊎ ((l.cancelled ≡ true)
          ⊎ ((l.asked ≡ none)
              ⊎ ((k : Keyspace r) × (l.asked ≡ some k) × (live_jobs (λ _. true) k ≡ 0))))

  breaks-Over :
      (l : Look r) (asked : Option (Keyspace r)) → l.asked ≡ asked → breaks asked ≡ true → Over l
  breaks-Over l none e h = inr (inr (inl e))
  breaks-Over l (some k) e h = inr (inr (inr (k, e, ground (arith, h, idle-live_jobs k))))

  look-Over : (l : Look r) → (ltb l.count max_test_videos && not l.cancelled) ≡ false → Over l
  look-Over l h = elim (Bool-cases (ltb l.count max_test_videos)) [
    | inl few ↦ elim (Bool-cases l.cancelled) [
      | inl cancelled ↦ inr (inl cancelled)
      | inr going ↦ absurd (cc (rw (few, going) at h))
    ]
    | inr many ↦ inl (ground (arith, many))
  ]

  -- RunTest's loop ends only where the limit is reached, the context is cancelled, Idle fails, or no
  -- job is left.
  watch-Over : (rounds : List (Look r)) (l : Look r) → watch rounds ≡ some l → Over l
  unfolding watch
  watch-Over [] l h = absurd (cc h)
  watch-Over (x ∷ rounds) l h = elim (Bool-cases (ltb x.count max_test_videos && not x.cancelled)) [
    | inl on ↦ elim (Bool-cases (breaks x.asked)) [
      | inl over ↦ subst Over (same (rw (on, over, watch) at h)) (breaks-Over x x.asked refl over)
      | inr more ↦ watch-Over rounds l (rw (on, more, watch) at h)
    ]
    | inr off ↦ subst Over (same (rw (off, watch) at h)) (look-Over x off)
  ]
    where
      same : {a b : Look r} → ◌≡◌ {A = Option (Look r)} (some a) (some b) → a ≡ b
      same e = cc e
