-- ===== src/Scheduler.antt =====
-- internal/scheduler/scheduler.go: the functions that the reconcilers run at each tick.
pub mod Draining
pub mod Loop
pub mod Monitor
use lost_media_finder.Prelude.{
  ℕ, zero, suc, ◌+◌, Bool, true, false, Option, none, some, List, [], ◌∷◌, ltb, if◌then◌else◌,
}
use lost_media_finder.Redis.{Redis}
use lost_media_finder.Frontier.Types.{Result, ok, err, FrontierStats}
use lost_media_finder.Frontier.Keyspace.{Keyspace}
use lost_media_finder.Frontier.Methods.{
  Frontier, reap, sweep, promote, run_listing_scheduler, stats, idle,
}
use lost_media_finder.Metrics.{Collectors}

-- What the reconcilers share: the database and the collectors.
pub record Host (r : Redis) (F : Type 0) : Type 0 where
  pub redis : Keyspace r
  pub collectors : Collectors F

-- The calls of `fn` that everyTick makes. Each entry is one check of the context, true when it is
-- cancelled, with what `fn` reads at that time; the list ends where the context ends a wait.
unfoldable pub every_tick {ℓ κ} : {S : Type ℓ} {A : Type κ} → (A → S → S) → List (Bool × A) → S → S
every_tick fn [] s = s
every_tick fn ((cancelled, a) ∷ checks) s = if cancelled then s else every_tick fn checks (fn a s)

module _ {r : Redis} {F : Type 0} where
  abbrev pub count_reconcile_error : Host r F → Host r F
  count_reconcile_error h = record h {
    collectors = record h.collectors { reconcile_errors = suc h.collectors.reconcile_errors };
  }

  abbrev pub count_admitted : ℕ → Host r F → Host r F
  count_admitted n h = record h {
    collectors = record h.collectors {
      listings_admitted_total = h.collectors.listings_admitted_total + n;
    };
  }

  -- The tick of runListingScheduler: page after page, the i-th at the time `clock i`, until one
  -- holds fewer than `limit`. `none` says that the fuel was not enough.
  unfoldable pub drain : Frontier → ℕ → ℕ → (ℕ → ℕ) → Host r F → Option (Host r F)
  drain f limit zero clock h = none
  drain f limit (suc fuel) clock h =
      let (res, k) = run_listing_scheduler f (clock 0) h.redis in
      let h' = record h { redis = k } in
      elim res [
        | err e ↦ some (count_reconcile_error h')
        | ok n ↦ elim (ltb n limit) [
          | true ↦ some (count_admitted n h')
          | false ↦ drain f limit fuel (λ i. clock (suc i)) (count_admitted n h')
        ]
      ]

  unfoldable pub promoter_tick : ℕ → Host r F → Host r F
  promoter_tick now h =
      let (res, k) = promote now h.redis in
      let h' = record h { redis = k } in
      elim res [
        | err e ↦ count_reconcile_error h'
        | ok n ↦ record h' {
          collectors = record h'.collectors { promoted_total = h'.collectors.promoted_total + n };
        }
      ]

  unfoldable pub reaper_tick : ℕ → Host r F → Host r F
  reaper_tick now h =
      let (res, k) = reap now h.redis in
      let h' = record h { redis = k } in
      elim res [
        | err e ↦ count_reconcile_error h'
        | ok n ↦ record h' {
          collectors = record h'.collectors { reaped_total = h'.collectors.reaped_total + n };
        }
      ]

  unfoldable pub sweeper_tick : Host r F → Host r F
  sweeper_tick h =
      let (res, k) = sweep h.redis in
      let h' = record h { redis = k } in
      elim res [
        | err e ↦ count_reconcile_error h'
        | ok n ↦ record h' {
          collectors = record h'.collectors { swept_total = h'.collectors.swept_total + n };
        }
      ]

  -- Redis answers both calls of a heartbeat.
  unfoldable pub heartbeat_tick : Host r F → Host r F
  heartbeat_tick h =
      let s = stats h.redis in
      record h {
        collectors = record h.collectors {
          frontier_ready = s.ready;
          frontier_processing = s.processing;
          frontier_delayed = s.delayed;
          listings_scheduled = s.listings_scheduled;
          listings_pending = s.listings_pending;
          frontier_dead = s.dead;
          frontier_strikes = s.strikes;
          frontier_idle = if idle h.redis then 1 else 0;
        };
      }

  -- The ticks that runSnapshotter waits for; each entry is BGSAVE's answer, true where it is accepted.
  -- The list ends where the context ends a wait. Unlike everyTick, it does nothing at first.
  unfoldable pub snapshotter : List Bool → Host r F → Host r F
  snapshotter [] h = h
  snapshotter (true ∷ answers) h = snapshotter answers h
  snapshotter (false ∷ answers) h = snapshotter answers (count_reconcile_error h)
