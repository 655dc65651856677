-- ===== src/System/Resolving.antt =====
-- The scripts of internal/storage/frontier.go that resolve a job leave a URL with a live job with one,
-- unless they end it.
use lost_media_finder.Prelude.{
  ℕ, ◌≡◌, ◌≢◌, ◌∙◌, refl, Bool, false, ◌&&◌, List, leb, Bool-cases, inl, inr,
}
use lost_media_finder.Text.{Text, eq_text, eq_text_iff}
use lost_media_finder.Redis.{Redis}
use lost_media_finder.Frontier.Types.{Disposition, Job, ok}
use lost_media_finder.Frontier.Keyspace.{Keyspace, Reply}
use lost_media_finder.Frontier.Scripts.Complete.{
  Answer, ack_held, nack_held, bury, terminal_held, complete_held, fail_held, count_strike, lua_ack,
  lua_nack, lua_terminal, lua_complete_listing, lua_fail,
}
use lost_media_finder.Frontier.Scripts.Rules.{take_lease-holds, take_lease-keeps}
use lost_media_finder.Frontier.Methods.{resolved, disposed, nack}
use lost_media_finder.Frontier.Replies.{resolved-keeps, disposed-keeps}
use lost_media_finder.Frontier.Scripts.Branches.{counted}
use lost_media_finder.Frontier.Sound.Defs.{IsSound}
use lost_media_finder.Frontier.Sound.Parts.{Tracks-unlease}
use lost_media_finder.Frontier.Pending.Defs.{job_for, job_for-member}
use lost_media_finder.System.Surviving.{Lives, requeue-Lives, lrem-Lives, delay_job-Lives}
use lost_media_finder.System.Defs.{Setup, IsJob}

module _ (s : Setup) (url : Text) (j : Job) (w : IsJob s j) where
  pub job_of : job_for url j.member ≡ eq_text j.url url
  job_of = rw w.member_of (job_for-member w.number j.url url)

  not_job : j.url ≢ url → job_for url j.member ≡ false
  not_job other = elim (Bool-cases (eq_text j.url url)) [
    | inl e ↦ absurd (other ((eq_text_iff j.url url).0 e))
    | inr e ↦ job_of ∙ e
  ]

module _ {r : Redis} (url u : Text) where
  -- Where a success is spared, the URL keeps a job.
  abbrev pub Kept : Reply Answer × Keyspace r → Type 0
  Kept x = ((resolved x).0 ≡ ok tt → u ≢ url) → Lives url (resolved x).1

  abbrev pub KeptAlive : Reply Answer × Keyspace r → Type 0
  KeptAlive x = ((disposed x).0 ≡ ok Disposition.dead → u ≢ url) → Lives url (disposed x).1

module _ {r : Redis} (s : Setup) (url : Text) (j : Job) (w : IsJob s j) where
  bury-Lives :
      (reason : Text) (until : ℕ) (k : Keyspace r)
      → j.url ≢ url
      → Lives url k
      → Lives url (bury j.member j.url reason until k)
  unfolding bury
  bury-Lives reason until k other h = lrem-Lives url j.member k (not_job s url j w other) h

  pub ack-Kept : (k : Keyspace r) → Lives url k → Kept url j.url (lua_ack j.member j.url k)
  unfolding lua_ack ack_held
  ack-Kept k h =
      take_lease-holds (Kept url j.url) j.member (ack_held j.member j.url) k (λ _. h)
        (λ spared. lrem-Lives url j.member k (not_job s url j w (spared refl)) h)

  pub nack-Lives : (k : Keyspace r) → Lives url k → Lives url (nack j k).1
  unfolding nack lua_nack nack_held
  nack-Lives k h = resolved-keeps (Lives url) _ _ (
      take_lease-keeps (Lives url) j.member (nack_held j.member j.url) k (λ _. h)
        (λ _. requeue-Lives url j.member j.url k (job_of s url j w) h))

  pub terminal-Kept :
      (reason : Text) (until : ℕ) (k : Keyspace r)
      → Lives url k
      → Kept url j.url (lua_terminal j.member j.url reason until k)
  unfolding lua_terminal terminal_held
  terminal-Kept reason until k h =
      take_lease-holds (Kept url j.url) j.member (terminal_held j.member j.url reason until) k
        (λ _. h)
        (λ spared.
          bury-Lives reason until (record k { lease = (r.zrem k.lease j.member).1 }) (spared refl)
            h)

  pub complete-Kept :
      (n now base_ttl max_ttl : ℕ) (k : Keyspace r)
      → Lives url k
      → Kept url j.url (lua_complete_listing j.member j.url n now base_ttl max_ttl k)
  unfolding lua_complete_listing complete_held
  complete-Kept n now base_ttl max_ttl k h =
      take_lease-holds (Kept url j.url) j.member
        (complete_held j.member j.url n now base_ttl max_ttl) k (λ _. h)
        (λ spared. lrem-Lives url j.member k (not_job s url j w (spared refl)) h)

  fail_held-KeptAlive :
      (inc_strike : Bool) (max_strikes now : ℕ) (reason : Text) (until : ℕ) (backoff : List ℕ)
      (k : Keyspace r)
      → IsSound k
      → Lives url k
      → KeptAlive url j.url
          (fail_held j.member j.url inc_strike max_strikes now reason until backoff k)
  unfolding fail_held
  fail_held-KeptAlive inc_strike max_strikes now reason until backoff k sound h =
      elim (Bool-cases (inc_strike && leb max_strikes (count_strike j.url inc_strike k).0)) [
        | inl e ↦
            rw e (λ spared. bury-Lives reason until (counted j.url inc_strike k) (spared refl) h)
        | inr e ↦ rw e (λ _. disposed-keeps (Lives url) _ _ (
            delay_job-Lives url j.member j.url (r.hincrby k.attempts j.url 1).0 now until backoff
              (counted j.url inc_strike k) sound (job_of s url j w) h))
      ]

  pub fail-KeptAlive :
      (inc_strike : Bool) (max_strikes now : ℕ) (reason : Text) (until : ℕ) (backoff : List ℕ)
      (k : Keyspace r)
      → IsSound k
      → Lives url k
      → KeptAlive url j.url
          (lua_fail j.member j.url inc_strike max_strikes now reason until backoff k)
  unfolding lua_fail
  fail-KeptAlive inc_strike max_strikes now reason until backoff k sound h =
      take_lease-holds (KeptAlive url j.url) j.member
        (fail_held j.member j.url inc_strike max_strikes now reason until backoff) k (λ _. h)
        (fail_held-KeptAlive inc_strike max_strikes now reason until backoff
          (record k { lease = (r.zrem k.lease j.member).1 }) (Tracks-unlease sound j.member) h)
