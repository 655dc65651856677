-- ===== src/System/Reconcilers.antt =====
-- The reconcilers of internal/scheduler/scheduler.go as steps of the system.
use lost_media_finder.Prelude.{
  ℕ, zero, suc, ◌≡◌, subst, Bool, Option, none, some, List, [], ◌∷◌, ltb, Bool-cases, inl, inr,
}
use lost_media_finder.Redis.{Redis}
use lost_media_finder.Frontier.Types.{Result-cases}
use lost_media_finder.Frontier.Keyspace.{Keyspace}
use lost_media_finder.Frontier.Methods.{promote, reap, sweep, run_listing_scheduler}
use lost_media_finder.Scheduler.{
  Host, every_tick, drain, count_admitted, promoter_tick, reaper_tick, sweeper_tick, heartbeat_tick,
}
use lost_media_finder.System.Defs.{
  Setup, frontier, InTime, Reach, promotes, reaps, sweeps, schedules, next,
}

-- The reconcilers whose tick makes one call.
pub data Reconciler : Type 0 where
  promoter reaper sweeper heartbeat : Reconciler

module _ {r : Redis} {F : Type 0} where
  unfoldable pub tick : Reconciler → ℕ → Host r F → Host r F
  unfolding promoter_tick reaper_tick sweeper_tick heartbeat_tick
  tick promoter now h = promoter_tick now h
  tick reaper now h = reaper_tick now h
  tick sweeper now h = sweeper_tick h
  tick heartbeat now h = heartbeat_tick h

  module _ (s : Setup) (start : Keyspace r) where
    abbrev Good : Host r F → Type 0
    Good h = Reach s start h.redis

    tick-Reach : (x : Reconciler) (now : ℕ) (h : Host r F) → Good h → Good (tick x now h)
    unfolding tick
    tick-Reach promoter now h reach = elim (Result-cases (promote now h.redis).0) [
      | inl (n, e) ↦ rw (e, promoter_tick) (next reach (promotes now h.redis))
      | inr (x, e) ↦ rw (e, promoter_tick) (next reach (promotes now h.redis))
    ]
    tick-Reach reaper now h reach = elim (Result-cases (reap now h.redis).0) [
      | inl (n, e) ↦ rw (e, reaper_tick) (next reach (reaps now h.redis))
      | inr (x, e) ↦ rw (e, reaper_tick) (next reach (reaps now h.redis))
    ]
    tick-Reach sweeper now h reach = elim (Result-cases (sweep h.redis).0) [
      | inl (n, e) ↦ rw (e, sweeper_tick) (next reach (sweeps h.redis))
      | inr (x, e) ↦ rw (e, sweeper_tick) (next reach (sweeps h.redis))
    ]
    tick-Reach heartbeat now h reach = reach

    -- However often a reconciler ticks before its context is cancelled, whatever it reads from the
    -- clock, it leads from a reachable state to a reachable state.
    every_tick-Reach :
        (x : Reconciler) (checks : List (Bool × ℕ)) (h : Host r F)
        → Reach s start h.redis
        → Reach s start (every_tick (tick x) checks h).redis
    unfolding every_tick
    every_tick-Reach x [] h reach = reach
    every_tick-Reach x ((cancelled, now) ∷ checks) h reach = elim (Bool-cases cancelled) [
      | inl e ↦ rw e reach
      | inr e ↦ rw e (every_tick-Reach x checks (tick x now h) (tick-Reach x now h reach))
    ]

    abbrev Ends : Option (Host r F) → Type 0
    Ends none = Unit
    Ends (some h) = Good h

    drain-Ends :
        (limit fuel : ℕ) (clock : ℕ → ℕ) (h : Host r F)
        → ((i : ℕ) → InTime s (clock i))
        → Good h
        → Ends (drain (frontier s) limit fuel clock h)
    unfolding drain
    drain-Ends limit zero clock h times reach = tt
    drain-Ends limit (suc fuel) clock h times reach =
        elim (Result-cases (run_listing_scheduler (frontier s) (clock 0) h.redis).0) [
          | inr (x, e) ↦ rw (e, drain) (next reach (schedules (clock 0) h.redis (times 0)))
          | inl (n, e) ↦ elim (Bool-cases (ltb n limit)) [
            | inl l ↦ rw (e, l, drain) (next reach (schedules (clock 0) h.redis (times 0)))
            | inr l ↦
                rw (e, l, drain)
                  (drain-Ends limit fuel (λ i. clock (suc i))
                    (count_admitted n (record h {
                      redis = (run_listing_scheduler (frontier s) (clock 0) h.redis).1;
                    }))
                    (λ i. times (suc i)) (next reach (schedules (clock 0) h.redis (times 0))))
          ]
        ]

    -- The loop of the listing scheduler, where it ends, leads from a reachable state to a reachable
    -- state.
    drain-Reach :
        (limit fuel : ℕ) (clock : ℕ → ℕ) (h h' : Host r F)
        → ((i : ℕ) → InTime s (clock i))
        → Reach s start h.redis
        → drain (frontier s) limit fuel clock h ≡ some h'
        → Reach s start h'.redis
    drain-Reach limit fuel clock h h' times reach e =
        subst Ends e (drain-Ends limit fuel clock h times reach)
