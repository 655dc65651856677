-- ===== src/Scheduler/Loop.antt =====
-- The loop of runListingScheduler in internal/scheduler/scheduler.go ends, unless the limit is zero.
use lost_media_finder.Prelude.{
  ℕ, zero, suc, ◌+◌, ◌≡◌, ◌≤◌, ◌<◌, refl, ap, subst, none, some, List, [], ◌∷◌, arith, length, ltb,
  Bool-cases, inl, inr,
}
use lost_media_finder.Redis.{Redis}
use lost_media_finder.Frontier.Types.{Result, Result-cases, ok, err, pending_score}
use lost_media_finder.Frontier.Keyspace.{Keyspace, Reply, returned, raised, for_each}
use lost_media_finder.Frontier.Scripts.Reconcile.{lua_listing_scheduler}
use lost_media_finder.Frontier.Methods.{Frontier, unix, answered, run_listing_scheduler}
use lost_media_finder.Scheduler.{Host, drain, count_admitted, count_reconcile_error}
use lost_media_finder.Scheduler.Draining.{overdue, Falls, lua_listing_scheduler-Falls}

empty_list : {A : Type 0} (l : List A) → length l ≤ 0 → l ≡ []
empty_list [] h = refl
empty_list (x ∷ l) h = absurd (omega arith)

module _ {r : Redis} where
  -- A call that returns takes what it counts off the overdue listings.
  abbrev Lowers : ℕ → ℕ → Result ℕ × Keyspace r → Type 0
  Lowers last bound (ok n, k) = overdue r last k.listing_next + n ≤ bound
  Lowers last bound (err e, k) = Unit

  answered-Lowers :
      (last bound : ℕ) (x : Reply ℕ × Keyspace r)
      → Falls last bound x
      → Lowers last bound (answered x)
  answered-Lowers last bound (returned n, k) h = h
  answered-Lowers last bound (raised, k) h = tt

  run_listing_scheduler-Lowers :
      (f : Frontier) (now last : ℕ) (k : Keyspace r)
      → unix now ≤ last
      → last < pending_score
      → Lowers last (overdue r last k.listing_next) (run_listing_scheduler f now k)
  unfolding run_listing_scheduler
  run_listing_scheduler-Lowers f now last k le early =
      answered-Lowers last (overdue r last k.listing_next)
        (lua_listing_scheduler (unix now) f.cfg.scheduler_batch_limit pending_score k)
        (lua_listing_scheduler-Falls last (unix now) f.cfg.scheduler_batch_limit k le early)

  empty_page :
      (f : Frontier) (now : ℕ) (k : Keyspace r)
      → f.cfg.scheduler_batch_limit ≡ 0
      → run_listing_scheduler f now k ≡ (ok 0, k)
  unfolding run_listing_scheduler lua_listing_scheduler for_each
  empty_page f now k none_wanted =
      rw
        (
          none_wanted,
          empty_list (r.zrange_by_score k.listing_next (unix now) 0)
              (r.zrange_limit k.listing_next (unix now) 0),
        )
        refl

module _ {r : Redis} {F : Type 0} where
  drain-of_few :
      (f : Frontier) (limit last fuel : ℕ) (clock : ℕ → ℕ) (h : Host r F)
      → 0 < limit
      → ((i : ℕ) → unix (clock i) ≤ last)
      → last < pending_score
      → overdue r last h.redis.listing_next < fuel
      → (h' : Host r F) × (drain f limit fuel clock h ≡ some h')
  unfolding drain
  drain-of_few f limit last zero clock h some_limit times early enough = absurd (omega arith)
  drain-of_few f limit last (suc fuel) clock h some_limit times early enough =
      elim (Result-cases (run_listing_scheduler f (clock 0) h.redis).0) [
        | inr (x, e) ↦ (
          count_reconcile_error
              (record h { redis = (run_listing_scheduler f (clock 0) h.redis).1 }),
          rw (e, drain),
        )
        | inl (n, e) ↦
            let lowers =
              subst
                (λ x.
                  Lowers last (overdue r last h.redis.listing_next)
                    (x, (run_listing_scheduler f (clock 0) h.redis).1))
                e (run_listing_scheduler-Lowers f (clock 0) last h.redis (times 0) early) in
            let h' : Host r F =
              count_admitted n
                (record h { redis = (run_listing_scheduler f (clock 0) h.redis).1 }) in
            elim (Bool-cases (ltb n limit)) [
              | inl l ↦ (h', rw (e, l, drain))
              | inr l ↦
                  rw (e, l, drain)
                    (drain-of_few f limit last fuel (λ i. clock (suc i)) h' some_limit
                      (λ i. times (suc i)) early (ground arith))
            ]
      ]

  -- With a positive limit and clock readings up to `last`, before the year 9999, the loop of the
  -- listing scheduler ends: it makes at most one call more than there are listings with a score up
  -- to `last`, whatever the scripts answer.
  pub drain_terminates :
      (f : Frontier) (limit last fuel : ℕ) (clock : ℕ → ℕ) (h : Host r F)
      → 0 < limit
      → ((i : ℕ) → unix (clock i) ≤ last)
      → last < pending_score
      → r.zcount h.redis.listing_next 0 last < fuel
      → (h' : Host r F) × (drain f limit fuel clock h ≡ some h')
  drain_terminates f limit last fuel clock h some_limit times early enough =
      drain-of_few f limit last fuel clock h some_limit times early
        (omega (arith, r.zcount_lem h.redis.listing_next 0 last))

  -- With a limit of zero, while Redis answers, the loop never ends: no number of calls is enough.
  pub drain-zero_limit :
      (f : Frontier) (fuel : ℕ) (clock : ℕ → ℕ) (h : Host r F)
      → f.cfg.scheduler_batch_limit ≡ 0
      → drain f 0 fuel clock h ≡ none
  unfolding drain
  drain-zero_limit f zero clock h none_wanted = refl
  drain-zero_limit f (suc fuel) clock h none_wanted =
      rw
        (
          ap (λ (x : Result ℕ × Keyspace r). x.0) (empty_page f (clock 0) h.redis none_wanted),
          drain,
        )
        (drain-zero_limit f fuel (λ i. clock (suc i))
          (count_admitted 0 (record h { redis = (run_listing_scheduler f (clock 0) h.redis).1 }))
          none_wanted)
