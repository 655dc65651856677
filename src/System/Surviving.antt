-- ===== src/System/Surviving.antt =====
-- The scripts of internal/storage/frontier.go leave a URL that has a live job with one, unless they
-- end it.
use lost_media_finder.Prelude.{
  ℕ, subst, ◌+◌, ◌<◌, ◌≡◌, refl, false, some, List, [], ◌∷◌, ◌++◌, arith, count_if-append,
}
use lost_media_finder.Text.{Text, eq_text}
use lost_media_finder.Redis.{Redis}
use lost_media_finder.Redis.Laws.{count-lrem}
use lost_media_finder.Frontier.Member.{member, after_separator}
use lost_media_finder.Frontier.Keyspace.{Keyspace, push_job}
use lost_media_finder.Frontier.Scripts.Admit.{admit_live_video, admit_live_listing, lua_lease}
use lost_media_finder.Frontier.Scripts.Complete.{delay_job}
use lost_media_finder.Frontier.Scripts.Reconcile.{
  admit_due, schedule_one, promote_one, reap_one, sweep_one,
}
use lost_media_finder.Frontier.Scripts.Branches.{
  promote_one-keeps, reap_one-keeps, sweep_one-keeps, lua_lease-keeps, admit_live_video-keeps,
  admit_live_listing-keeps, schedule_one-keeps, delay_job-keeps,
}
use lost_media_finder.Frontier.Sound.Defs.{live_jobs, IsSound}
use lost_media_finder.Frontier.Sound.Parts.{next_free}
use lost_media_finder.Frontier.Pending.Defs.{job_for, job_for-member}

pub job_for-of_url :
    (item u url : Text) → after_separator item ≡ some u → job_for url item ≡ eq_text u url
unfolding job_for
job_for-of_url item u url e = rw (e, job_for) refl

module _ {r : Redis} (url : Text) where
  -- The URL has a job in ready, processing or delayed.
  abbrev pub Lives : Keyspace r → Type 0
  Lives k = 0 < live_jobs (job_for url) k

  pub push_job-Lives : (u : Text) (k : Keyspace r) → Lives k → Lives (push_job u k)
  unfolding push_job
  push_job-Lives u k h = rw (r.lpush_lem k.ready (member (r.incr k.job_seq) u)) (omega (arith, h))

  -- A job that leaves processing as another one for its URL enters ready.
  pub requeue-Lives :
      (item u : Text) (k : Keyspace r)
      → job_for url item ≡ eq_text u url
      → Lives k
      → Lives (record (push_job u k) { processing = r.lrem k.processing item })
  unfolding push_job
  requeue-Lives item u k e h = rw (r.lpush_lem k.ready (member (r.incr k.job_seq) u)) (
      ground (
        arith,
        h,
        e,
        job_for-member (r.incr k.job_seq) u url,
        count-lrem r (job_for url) k.processing item,
      ))

  -- A job for another URL that leaves processing.
  pub lrem-Lives :
      (item : Text) (k : Keyspace r)
      → job_for url item ≡ false
      → Lives k
      → Lives (record k { processing = r.lrem k.processing item })
  lrem-Lives item k e h = ground (arith, h, e, count-lrem r (job_for url) k.processing item)

  -- A delayed job that leaves as another one for its URL enters ready.
  promote-Lives :
      (item u : Text) (k : Keyspace r)
      → job_for url item ≡ eq_text u url
      → Lives k
      → Lives (record (push_job u k) { delayed = (r.zrem k.delayed item).1 })
  unfolding push_job
  promote-Lives item u k e h = rw (r.lpush_lem k.ready (member (r.incr k.job_seq) u)) (
      ground (
        arith,
        h,
        e,
        job_for-member (r.incr k.job_seq) u url,
        r.count-zrem (job_for url) k.delayed item,
      ))

  pub promote_one-Lives : (item : Text) (k : Keyspace r) → Lives k → Lives (promote_one item k).1
  promote_one-Lives item k h =
      promote_one-keeps Lives item k h
        (λ u e. promote-Lives item u k (job_for-of_url item u url e) h)

  pub reap_one-Lives : (item : Text) (k : Keyspace r) → Lives k → Lives (reap_one item k).1
  reap_one-Lives item k h = reap_one-keeps Lives item k h (λ u e.
      requeue-Lives item u (record k { lease = (r.zrem k.lease item).1 })
        (job_for-of_url item u url e) h)

  pub sweep_one-Lives : (item : Text) (k : Keyspace r) → Lives k → Lives (sweep_one item k).1
  sweep_one-Lives item k h =
      sweep_one-keeps Lives item k h (λ u e. requeue-Lives item u k (job_for-of_url item u url e) h)

  pub lua_lease-Lives :
      (now timeout : ℕ) (k : Keyspace r) → Lives k → Lives (lua_lease now timeout k).1
  lua_lease-Lives now timeout k h = lua_lease-keeps Lives now timeout k h (λ item init e.
      omega (arith, moved item init e, count_if-append (job_for url) init (item ∷ [])))
    where
      moved :
          (item : Text) (init : List Text)
          → k.ready ≡ init ++ item ∷ []
          → Lives (record k { ready = init ++ item ∷ [] })
      moved item init e = subst (λ l. Lives (record k { ready = l })) e h

  pub admit_live_video-Lives :
      (u : Text) (k : Keyspace r) → Lives k → Lives (admit_live_video u k).1
  admit_live_video-Lives u k h = admit_live_video-keeps Lives u k (push_job-Lives u k h) h

  pub admit_live_listing-Lives :
      (u : Text) (now pending : ℕ) (k : Keyspace r)
      → Lives k
      → Lives (admit_live_listing u now pending k).1
  admit_live_listing-Lives u now pending k h =
      admit_live_listing-keeps Lives u now pending k h (push_job-Lives u k h)

  pub schedule_one-Lives :
      (now pending : ℕ) (u : Text) (k : Keyspace r)
      → Lives k
      → Lives (schedule_one now pending u k).1
  unfolding admit_due
  schedule_one-Lives now pending u k h =
      schedule_one-keeps Lives now pending u k h h (λ _. h) (push_job-Lives u k h)
        (push_job-Lives u k h)

  pub delay_job-Lives :
      (item u : Text) (attempts now until : ℕ) (backoff : List ℕ) (k : Keyspace r)
      → IsSound k
      → job_for url item ≡ eq_text u url
      → Lives k
      → Lives (delay_job item u attempts now until backoff k).1
  delay_job-Lives item u attempts now until backoff k sound e h =
      delay_job-keeps Lives item u attempts now until backoff k h (λ delay. ground (
        arith,
        h,
        e,
        next_free sound u,
        job_for-member (r.incr k.job_seq) u url,
        r.count-zadd (job_for url) k.delayed (now + delay) (member (r.incr k.job_seq) u),
        count-lrem r (job_for url) k.processing item,
      ))
