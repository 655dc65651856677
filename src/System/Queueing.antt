-- ===== src/System/Queueing.antt =====
-- The calls of internal/storage/frontier.go put new jobs behind the ready ones: but for Lease, they
-- leave what is before a job in ready.
use lost_media_finder.Prelude.{ℕ, ◌/◌, ◌≡◌, ap, ◌∙◌, Bool, List, ◌∷◌, ◌++◌, Option}
use lost_media_finder.Text.{Text}
use lost_media_finder.Redis.{Redis}
use lost_media_finder.Frontier.Types.{Job, FailClass, pending_score, second}
use lost_media_finder.Frontier.Member.{member}
use lost_media_finder.Frontier.Keyspace.{Keyspace, Script, push_job}
use lost_media_finder.Frontier.Scripts.Admit.{admit_live_video, admit_live_listing}
use lost_media_finder.Frontier.Scripts.Complete.{
  Answer, take_lease, ack_held, nack_held, terminal_held, complete_held, fail_held, bury, lua_ack,
  lua_nack, lua_terminal, lua_complete_listing, lua_fail,
}
use lost_media_finder.Frontier.Scripts.Reconcile.{
  promote_one, reap_one, sweep_one, admit_due, schedule_one,
}
use lost_media_finder.Frontier.Scripts.Rules.{take_lease-keeps}
use lost_media_finder.Frontier.Scripts.Branches.{
  promote_one-keeps, reap_one-keeps, sweep_one-keeps, admit_live_video-keeps,
  admit_live_listing-keeps, schedule_one-keeps, delay_job-keeps, fail_held-keeps, counted,
}
use lost_media_finder.Frontier.Methods.{
  unix, unix_or_zero, base_ttl_of, is_strikeable, reason_of, quarantine_until, ladder_of, Frontier,
  ack, nack, terminal, complete_listing, fail,
}
use lost_media_finder.Frontier.Replies.{resolved-keeps, disposed-keeps}

module _ {r : Redis} (m : Text) (after : List Text) where
  -- The member is in ready, where LMOVE takes `after` first.
  abbrev pub Waits : Keyspace r → Type 0
  Waits k = (before : List Text) × (k.ready ≡ before ++ m ∷ after)

  push_job-Waits : (u : Text) (k : Keyspace r) → Waits k → Waits (push_job u k)
  unfolding push_job
  push_job-Waits u k (before, e) = (
    member (r.incr k.job_seq) u ∷ before,
    r.lpush_lem k.ready (member (r.incr k.job_seq) u) ∙ ap (λ l. member (r.incr k.job_seq) u ∷ l) e,
  )

  pub promote_one-Waits : (item : Text) (k : Keyspace r) → Waits k → Waits (promote_one item k).1
  promote_one-Waits item k h = promote_one-keeps Waits item k h (λ u _. push_job-Waits u k h)

  pub reap_one-Waits : (item : Text) (k : Keyspace r) → Waits k → Waits (reap_one item k).1
  reap_one-Waits item k h =
      reap_one-keeps Waits item k h
        (λ u _. push_job-Waits u (record k { lease = (r.zrem k.lease item).1 }) h)

  pub sweep_one-Waits : (item : Text) (k : Keyspace r) → Waits k → Waits (sweep_one item k).1
  sweep_one-Waits item k h = sweep_one-keeps Waits item k h (λ u _. push_job-Waits u k h)

  pub admit_live_video-Waits :
      (u : Text) (k : Keyspace r) → Waits k → Waits (admit_live_video u k).1
  admit_live_video-Waits u k h = admit_live_video-keeps Waits u k (push_job-Waits u k h) h

  pub admit_live_listing-Waits :
      (u : Text) (now : ℕ) (k : Keyspace r)
      → Waits k
      → Waits (admit_live_listing u now pending_score k).1
  admit_live_listing-Waits u now k h =
      admit_live_listing-keeps Waits u now pending_score k h (push_job-Waits u k h)

  pub schedule_one-Waits :
      (now : ℕ) (u : Text) (k : Keyspace r) → Waits k → Waits (schedule_one now pending_score u k).1
  unfolding admit_due
  schedule_one-Waits now u k h =
      schedule_one-keeps Waits now pending_score u k h h (λ _. h) (push_job-Waits u k h)
        (push_job-Waits u k h)

  take_lease-Waits :
      (item : Text) (rest : Script r Answer) (k : Keyspace r)
      → Waits (rest (record k { lease = (r.zrem k.lease item).1 })).1
      → Waits k
      → Waits (take_lease item rest k).1
  take_lease-Waits item rest k held h = take_lease-keeps Waits item rest k (λ _. h) (λ _. held)

  pub ack-Waits : (j : Job) (k : Keyspace r) → Waits k → Waits (ack j k).1
  unfolding ack lua_ack ack_held
  ack-Waits j k h =
      resolved-keeps Waits _ _ (take_lease-Waits j.member (ack_held j.member j.url) k h h)

  pub nack-Waits : (j : Job) (k : Keyspace r) → Waits k → Waits (nack j k).1
  unfolding nack lua_nack nack_held
  nack-Waits j k h = resolved-keeps Waits _ _ (
      take_lease-Waits j.member (nack_held j.member j.url) k
        (push_job-Waits j.url (record k { lease = (r.zrem k.lease j.member).1 }) h) h)

  pub terminal-Waits :
      (j : Job) (reason : Text) (until : Option ℕ) (k : Keyspace r)
      → Waits k
      → Waits (terminal j reason until k).1
  unfolding terminal lua_terminal terminal_held bury
  terminal-Waits j reason until k h =
      resolved-keeps Waits _ _
        (take_lease-Waits j.member (terminal_held j.member j.url reason (unix_or_zero until)) k h h)

  pub complete_listing-Waits :
      (f : Frontier) (now : ℕ) (j : Job) (n : ℕ) (k : Keyspace r)
      → Waits k
      → Waits (complete_listing f now j n k).1
  unfolding complete_listing lua_complete_listing complete_held
  complete_listing-Waits f now j n k h = resolved-keeps Waits _ _ (
      take_lease-Waits j.member
        (complete_held j.member j.url n (unix now) (base_ttl_of f.cfg j.class / second)
          (f.cfg.listing_max_ttl / second))
        k h h)

  fail_held-Waits :
      (item u : Text) (inc_strike : Bool) (max_strikes now : ℕ) (reason : Text) (until : ℕ)
      (backoff : List ℕ) (k : Keyspace r)
      → Waits k
      → Waits (fail_held item u inc_strike max_strikes now reason until backoff k).1
  unfolding bury
  fail_held-Waits item u inc_strike max_strikes now reason until backoff k h =
      fail_held-keeps Waits item u inc_strike max_strikes now reason until backoff k h (
        delay_job-keeps Waits item u (r.hincrby k.attempts u 1).0 now until backoff
          (counted u inc_strike k) h (λ _. h))

  pub fail-Waits :
      (f : Frontier) (now : ℕ) (j : Job) (class : FailClass) (k : Keyspace r)
      → Waits k
      → Waits (fail f now j class k).1
  unfolding fail lua_fail
  fail-Waits f now j class k h = disposed-keeps Waits _ _ (
      take_lease-Waits j.member
        (fail_held j.member j.url (is_strikeable class) f.cfg.max_strikes (unix now)
          (reason_of class) (quarantine_until f j.class now) (ladder_of f.cfg class))
        k
        (fail_held-Waits j.member j.url (is_strikeable class) f.cfg.max_strikes (unix now)
          (reason_of class) (quarantine_until f j.class now) (ladder_of f.cfg class)
          (record k { lease = (r.zrem k.lease j.member).1 }) h)
        h)
