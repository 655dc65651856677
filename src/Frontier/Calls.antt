-- ===== src/Frontier/Calls.antt =====
-- Rules for whole calls of internal/storage/frontier.go: what holds after a call, from what each
-- iteration or branch of its script keeps.
use lost_media_finder.Prelude.{ℕ, ◌/◌, List, length}
use lost_media_finder.Text.{Text}
use lost_media_finder.Redis.{Redis}
use lost_media_finder.Frontier.Types.{
  AdmitResult, reap_batch_limit, sweep_batch_limit, promote_batch_limit, pending_score, second,
}
use lost_media_finder.Frontier.Keyspace.{Keyspace, returned, Script, for_each}
use lost_media_finder.Frontier.Scripts.Admit.{
  lua_lease, check_dead, admit_live_video, admit_live_listing, lua_admit_video, lua_admit_listing,
}
use lost_media_finder.Frontier.Scripts.Reconcile.{
  promote_one, lua_promote, reap_one, lua_reap, sweep_one, lua_sweep, schedule_one,
  lua_listing_scheduler,
}
use lost_media_finder.Frontier.Scripts.Rules.{check_dead-keeps, for_each-keeps, >>=-keeps}
use lost_media_finder.Frontier.Methods.{
  Frontier, unix, admit_video, admit_listing, lease, reap, sweep, promote, run_listing_scheduler,
}
use lost_media_finder.Frontier.Replies.{answered-keeps, leased-keeps}

module _ {r : Redis} (P : Keyspace r → Type 0) where
  -- What each iteration of a loop keeps.
  abbrev pub Keeps : (Text → Script r ℕ) → Type 0
  Keeps body = (item : Text) (k : Keyspace r) → P k → P (body item k).1

  loop-keeps :
      (body : Text → Script r ℕ) (items : List Text) (n : ℕ) (k : Keyspace r)
      → Keeps body
      → P k
      → P (for_each body items n k).1
  loop-keeps body items n k step h =
      for_each-keeps P (λ _. P) body (λ _ _ h. h) (λ item _ k h. step item k h) items n k h

  -- An admission, before or after a dead entry is taken away.
  check_dead-step :
      (u : Text) (now : ℕ) (rest : Script r AdmitResult) (k : Keyspace r)
      → ((k : Keyspace r) → P k → P (record k { dead = r.hdel k.dead u }))
      → ((k : Keyspace r) → P k → P (rest k).1)
      → P k
      → P (check_dead u now rest k).1
  check_dead-step u now rest k expire step h =
      check_dead-keeps P u now rest k h (step k h)
        (step (record k { dead = r.hdel k.dead u }) (expire k h))

  pub admit_video-keeps :
      (f : Frontier) (now : ℕ) (u : Text) (k : Keyspace r)
      → ((k : Keyspace r) → P k → P (record k { dead = r.hdel k.dead u }))
      → ((k : Keyspace r) → P k → P (admit_live_video u k).1)
      → P k
      → P (admit_video f now u k).1
  unfolding admit_video lua_admit_video
  admit_video-keeps f now u k expire step h =
      answered-keeps P _ _ (check_dead-step u (unix now) (admit_live_video u) k expire step h)

  pub admit_listing-keeps :
      (f : Frontier) (now : ℕ) (u : Text) (k : Keyspace r)
      → ((k : Keyspace r) → P k → P (record k { dead = r.hdel k.dead u }))
      → ((k : Keyspace r) → P k → P (admit_live_listing u (unix now) pending_score k).1)
      → P k
      → P (admit_listing f now u k).1
  unfolding admit_listing lua_admit_listing
  admit_listing-keeps f now u k expire step h =
      answered-keeps P _ _ (
        check_dead-step u (unix now) (admit_live_listing u (unix now) pending_score) k expire step
          h)

  pub lease-keeps :
      (f : Frontier) (now : ℕ) (k : Keyspace r)
      → P (lua_lease (unix now) (f.cfg.lease_timeout / second) k).1
      → P (lease f now k).1
  unfolding lease
  lease-keeps f now k h = leased-keeps P f _ _ h

  pub promote-keeps : (now : ℕ) (k : Keyspace r) → Keeps promote_one → P k → P (promote now k).1
  unfolding promote lua_promote
  promote-keeps now k step h = answered-keeps P _ _ (
      >>=-keeps P (for_each promote_one due 0 k).0 (for_each promote_one due 0 k).1
        (λ _ k'. (returned (length due), k')) looped (λ _. looped))
    where
      due : List Text
      due = r.zrange_by_score k.delayed (unix now) promote_batch_limit

      looped : P (for_each promote_one due 0 k).1
      looped = loop-keeps promote_one due 0 k step h

  pub reap-keeps : (now : ℕ) (k : Keyspace r) → Keeps reap_one → P k → P (reap now k).1
  unfolding reap lua_reap
  reap-keeps now k step h =
      answered-keeps P _ _
        (loop-keeps reap_one (r.zrange_by_score k.lease (unix now) reap_batch_limit) 0 k step h)

  pub sweep-keeps : (k : Keyspace r) → Keeps sweep_one → P k → P (sweep k).1
  unfolding sweep lua_sweep
  sweep-keeps k step h =
      answered-keeps P _ _
        (loop-keeps sweep_one (r.lrange_last k.processing sweep_batch_limit) 0 k step h)

  pub run_listing_scheduler-keeps :
      (f : Frontier) (now : ℕ) (k : Keyspace r)
      → Keeps (schedule_one (unix now) pending_score)
      → P k
      → P (run_listing_scheduler f now k).1
  unfolding run_listing_scheduler lua_listing_scheduler
  run_listing_scheduler-keeps f now k step h = answered-keeps P _ _ (
      loop-keeps (schedule_one (unix now) pending_score)
        (r.zrange_by_score k.listing_next (unix now) f.cfg.scheduler_batch_limit) 0 k step h)
