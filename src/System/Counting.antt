-- ===== src/System/Counting.antt =====
-- The jobs of each URL, counted exactly: what the scripts of internal/storage/frontier.go that move a
-- job, or mint it again, do to how many jobs a URL has.
use lost_media_finder.Prelude.{
  ℕ, subst, ◌+◌, ◌<◌, ◌≡◌, Bool, true, List, [], ◌∷◌, ◌++◌, arith, bit, is_some, Bool-cases, inl,
  inr, count_if-append,
}
use lost_media_finder.Text.{Text, eq_text, eq_text_refl}
use lost_media_finder.Text.Members.{occurrences, occurrences-contains}
use lost_media_finder.Redis.{Redis}
use lost_media_finder.Redis.Laws.{count-lrem}
use lost_media_finder.Frontier.Member.{member}
use lost_media_finder.Frontier.Keyspace.{Keyspace, push_job}
use lost_media_finder.Frontier.Scripts.Admit.{lua_lease}
use lost_media_finder.Frontier.Scripts.Reconcile.{reap_one, promote_one, sweep_one}
use lost_media_finder.Frontier.Scripts.Branches.{
  promote_one-keeps, reap_one-keeps, sweep_one-keeps, lua_lease-keeps,
}
use lost_media_finder.Frontier.Sound.Defs.{live_jobs, IsSound}
use lost_media_finder.Frontier.Pending.Defs.{job_for, job_for-member}
use lost_media_finder.Frontier.Pending.Reclaim.{SweepPage}
use lost_media_finder.Frontier.Pending.Promote.{PromotePage}
use lost_media_finder.System.Surviving.{job_for-of_url}

module _ {r : Redis} (url : Text) (n : ℕ) where
  -- The URL has `n` jobs.
  abbrev pub Counts : Keyspace r → Type 0
  Counts k = live_jobs (job_for url) k ≡ n

  pub requeue-Counts :
      (item u : Text) (k : Keyspace r)
      → job_for url item ≡ eq_text u url
      → 0 < occurrences item k.processing
      → Counts k
      → Counts (record (push_job u k) { processing = r.lrem k.processing item })
  unfolding push_job
  requeue-Counts item u k e here h = rw (r.lpush_lem k.ready (member (r.incr k.job_seq) u)) (
      ground (
        arith,
        h,
        e,
        job_for-member (r.incr k.job_seq) u url,
        count-lrem r (job_for url) k.processing item,
        occurrences-contains item k.processing here,
      ))

  promote-Counts :
      (item u : Text) (k : Keyspace r)
      → job_for url item ≡ eq_text u url
      → is_some (r.zscore k.delayed item) ≡ true
      → Counts k
      → Counts (record (push_job u k) { delayed = (r.zrem k.delayed item).1 })
  unfolding push_job
  promote-Counts item u k e here h = rw (r.lpush_lem k.ready (member (r.incr k.job_seq) u)) (
      ground (
        arith,
        h,
        e,
        here,
        job_for-member (r.incr k.job_seq) u url,
        r.count-zrem (job_for url) k.delayed item,
      ))

  pub reap_one-Counts :
      (item : Text) (k : Keyspace r) → IsSound k → Counts k → Counts (reap_one item k).1
  unfolding reap_one
  reap_one-Counts item k sound h = elim (Bool-cases (is_some (r.zscore k.lease item))) [
    | inr free ↦ rw (r.zrem_count k.lease item, free, reap_one) h
    | inl leased ↦ reap_one-keeps Counts item k h (λ u e.
        requeue-Counts item u (record k { lease = (r.zrem k.lease item).1 })
          (job_for-of_url item u url e) (sound.held item leased) h)
  ]

  pub sweep_one-Counts :
      {video : Text → Bool} (item : Text) (items : List Text) (k : Keyspace r)
      → SweepPage r video (item ∷ items) k
      → Counts k
      → Counts (sweep_one item k).1
  sweep_one-Counts item items k page h = sweep_one-keeps Counts item k h (λ u e.
      requeue-Counts item u k (job_for-of_url item u url e)
        (ground (arith, page.here item, eq_text_refl item)) h)

  pub promote_one-Counts :
      {video : Text → Bool} (item : Text) (items : List Text) (k : Keyspace r)
      → PromotePage r video (item ∷ items) k
      → Counts k
      → Counts (promote_one item k).1
  promote_one-Counts item items k page h = promote_one-keeps Counts item k h (λ u e.
      promote-Counts item u k (job_for-of_url item u url e)
        (ground (arith, page.here item, eq_text_refl item)) h)

  pub lua_lease-Counts :
      (now timeout : ℕ) (k : Keyspace r) → Counts k → Counts (lua_lease now timeout k).1
  lua_lease-Counts now timeout k h = lua_lease-keeps Counts now timeout k h (λ item init e.
      omega (arith, moved item init e, count_if-append (job_for url) init (item ∷ [])))
    where
      moved :
          (item : Text) (init : List Text)
          → k.ready ≡ init ++ item ∷ []
          → Counts (record k { ready = init ++ item ∷ [] })
      moved item init e = subst (λ l. Counts (record k { ready = l })) e h

  -- A job that leaves processing for good.
  pub leave-Counts :
      (item u : Text) (k : Keyspace r)
      → job_for url item ≡ eq_text u url
      → 0 < occurrences item k.processing
      → Counts k
      → live_jobs (job_for url) (record k { processing = r.lrem k.processing item })
          + bit (eq_text u url)
        ≡ n
  leave-Counts item u k e here h = ground (
    arith,
    h,
    e,
    count-lrem r (job_for url) k.processing item,
    occurrences-contains item k.processing here,
  )

  -- A job that is minted.
  pub push-Counts :
      (u : Text) (k : Keyspace r)
      → Counts k
      → live_jobs (job_for url) (push_job u k) ≡ n + bit (eq_text u url)
  unfolding push_job
  push-Counts u k h =
      rw (r.lpush_lem k.ready (member (r.incr k.job_seq) u))
        (ground (arith, h, job_for-member (r.incr k.job_seq) u url))
