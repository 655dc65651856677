-- ===== src/System/Bag.antt =====
-- The frontier of internal/storage/frontier.go as a bag of URLs: what its calls do to how often each URL
-- is in it, whatever the identifiers of its jobs and the structures in which they stand.
use lost_media_finder.Prelude.{
  ℕ, ◌+◌, ◌≡◌, ◌⊎◌, inl, inr, refl, Bool, true, List, arith, bit, length, is_some,
}
use lost_media_finder.Text.{Text, eq_text}
use lost_media_finder.Redis.{Redis}
use lost_media_finder.Frontier.Types.{
  Job, Result, ok, err, stale_lease, reap_batch_limit, sweep_batch_limit, promote_batch_limit,
}
use lost_media_finder.Frontier.Keyspace.{Keyspace, returned, for_each}
use lost_media_finder.Frontier.Scripts.Complete.{
  ack_held, nack_held, terminal_held, complete_held, bury, lua_ack, lua_nack, lua_terminal,
  lua_complete_listing,
}
use lost_media_finder.Frontier.Scripts.Reconcile.{
  reap_one, lua_reap, sweep_one, lua_sweep, promote_one, lua_promote,
}
use lost_media_finder.Frontier.Scripts.Rules.{
  for_each-keeps, >>=-keeps, take_lease-decides, take_lease-keeps,
}
use lost_media_finder.Frontier.Methods.{unix, resolved, nack, reap, sweep, promote}
use lost_media_finder.Frontier.Replies.{answered-keeps, resolved-keeps}
use lost_media_finder.Frontier.Sound.Defs.{live_jobs}
use lost_media_finder.Frontier.Pending.Defs.{job_for}
use lost_media_finder.Frontier.Pending.Inv.{Inv}
use lost_media_finder.Frontier.Pending.Reclaim.{SweepPage, reap_one-Inv, sweep_one-page, sweep-page}
use lost_media_finder.Frontier.Pending.Promote.{PromotePage, promote_one-page, promote-page}
use lost_media_finder.System.Counting.{
  Counts, reap_one-Counts, sweep_one-Counts, promote_one-Counts, requeue-Counts, leave-Counts,
}
use lost_media_finder.System.Defs.{Setup, IsJob}
use lost_media_finder.System.Resolving.{job_of}

module _ {r : Redis} where
  -- The bag is the same; it has one more, or one less, of a URL.
  abbrev pub Same : Keyspace r → Keyspace r → Type 0
  Same k k' = (url : Text) → live_jobs (job_for url) k' ≡ live_jobs (job_for url) k

  abbrev pub Adds : Text → Keyspace r → Keyspace r → Type 0
  Adds u k k' =
      (url : Text) → live_jobs (job_for url) k' ≡ live_jobs (job_for url) k + bit (eq_text u url)

  abbrev pub Removes : Text → Keyspace r → Keyspace r → Type 0
  Removes u k k' =
      (url : Text) → live_jobs (job_for url) k' + bit (eq_text u url) ≡ live_jobs (job_for url) k

  -- A resolution removes its URL, or is stale.
  abbrev pub Resolves : Text → Keyspace r → Result (Unit {0}) × Keyspace r → Type 0
  Resolves u k x = ((x.0 ≡ ok tt) × Removes u k x.1) ⊎ ((x.0 ≡ err stale_lease) × Same k x.1)

module _ {r : Redis} (video : Text → Bool) (k : Keyspace r) (v : Inv r video k) where
  pub reap-Same : (now : ℕ) → Same k (reap now k).1
  unfolding reap lua_reap
  reap-Same now url = answered-keeps (Counts url most) _ _ (
      for_each-keeps (Counts url most) (λ _ k. Inv r video k × Counts url most k) reap_one
        (λ _ _ h. h.1)
        (λ item _ k h. (reap_one-Inv item k h.0, reap_one-Counts url most item k h.0.sound h.1))
        (r.zrange_by_score k.lease (unix now) reap_batch_limit) 0 k (v, refl))
    where
      most : ℕ
      most = live_jobs (job_for url) k

  pub sweep-Same : Same k (sweep k).1
  unfolding sweep lua_sweep
  sweep-Same url = answered-keeps (Counts url most) _ _ (
      for_each-keeps (Counts url most) (λ items k. SweepPage r video items k × Counts url most k)
        sweep_one (λ _ _ h. h.1)
        (λ item items k h.
          (sweep_one-page item items k h.0, sweep_one-Counts url most item items k h.0 h.1))
        (r.lrange_last k.processing sweep_batch_limit) 0 k
        (sweep-page sweep_batch_limit k (omega arith) v, refl))
    where
      most : ℕ
      most = live_jobs (job_for url) k

  pub promote-Same : (now : ℕ) → Same k (promote now k).1
  unfolding promote lua_promote
  promote-Same now url = answered-keeps (Counts url most) _ _ (
      >>=-keeps (Counts url most) (for_each promote_one due 0 k).0 (for_each promote_one due 0 k).1
        (λ _ k'. (returned (length due), k')) looped (λ _. looped))
    where
      most : ℕ
      most = live_jobs (job_for url) k

      due : List Text
      due = r.zrange_by_score k.delayed (unix now) promote_batch_limit

      looped : Counts url most (for_each promote_one due 0 k).1
      looped =
          for_each-keeps (Counts url most)
            (λ items k. PromotePage r video items k × Counts url most k) promote_one (λ _ _ h. h.1)
            (λ item items k h.
              (promote_one-page item items k h.0, promote_one-Counts url most item items k h.0 h.1))
            due 0 k (promote-page (unix now) promote_batch_limit k v, refl)

  module _ (s : Setup) (j : Job) (w : IsJob s j) where
    pub nack-Same : Same k (nack j k).1
    unfolding nack lua_nack nack_held
    nack-Same url = resolved-keeps (Counts url (live_jobs (job_for url) k)) _ _ (
        take_lease-keeps (Counts url (live_jobs (job_for url) k)) j.member
          (nack_held j.member j.url) k (λ _. refl)
          (λ held.
            requeue-Counts url (live_jobs (job_for url) k) j.member j.url
              (record k { lease = (r.zrem k.lease j.member).1 }) (job_of s url j w)
              (v.sound.held j.member held) refl))

    -- A job that is held leaves.
    leaves :
        is_some (r.zscore k.lease j.member) ≡ true
        → Removes j.url k (record k { processing = r.lrem k.processing j.member })
    leaves held url =
        leave-Counts url (live_jobs (job_for url) k) j.member j.url k (job_of s url j w)
          (v.sound.held j.member held) refl

    pub ack-Resolves : Resolves j.url k (resolved (lua_ack j.member j.url k))
    unfolding lua_ack ack_held
    ack-Resolves =
        take_lease-decides (λ x. Resolves j.url k (resolved x)) j.member (ack_held j.member j.url) k
          (λ _. inr (refl, λ url. refl)) (λ held. inl (refl, leaves held))

    pub terminal-Resolves :
        (reason : Text) (until : ℕ)
        → Resolves j.url k (resolved (lua_terminal j.member j.url reason until k))
    unfolding lua_terminal terminal_held bury
    terminal-Resolves reason until =
        take_lease-decides (λ x. Resolves j.url k (resolved x)) j.member
          (terminal_held j.member j.url reason until) k (λ _. inr (refl, λ url. refl))
          (λ held. inl (refl, leaves held))

    pub complete-Resolves :
        (n now base_ttl max_ttl : ℕ)
        → Resolves j.url k (resolved (lua_complete_listing j.member j.url n now base_ttl max_ttl k))
    unfolding lua_complete_listing complete_held
    complete-Resolves n now base_ttl max_ttl =
        take_lease-decides (λ x. Resolves j.url k (resolved x)) j.member
          (complete_held j.member j.url n now base_ttl max_ttl) k (λ _. inr (refl, λ url. refl))
          (λ held. inl (refl, leaves held))
