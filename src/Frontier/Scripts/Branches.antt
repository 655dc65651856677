-- ===== src/Frontier/Scripts/Branches.antt =====
-- Rules for the parts of the scripts that are their own: what holds after a part, from what holds on
-- each of its branches.
use lost_media_finder.Prelude.{
  ℕ, ◌+◌, ◌++◌, [], ◌≡◌, Bool, ◌&&◌, some, List, ◌∷◌, ◌==◌, leb, ltb, is_some, length, get_elem?,
  Bool-cases, Option-cases, inl, inr,
}
use lost_media_finder.Text.{Text}
use lost_media_finder.Redis.{Redis}
use lost_media_finder.Redis.Laws.{BloomReply-cases, lmove_cases, lrem-lpush}
use lost_media_finder.Frontier.Member.{member, after_separator, dead_until}
use lost_media_finder.Frontier.Keyspace.{Keyspace, push_job}
use lost_media_finder.Frontier.Scripts.Admit.{lua_lease, admit_live_video, admit_live_listing}
use lost_media_finder.Frontier.Scripts.Complete.{clamp, count_strike, bury, delay_job, fail_held}
use lost_media_finder.Frontier.Scripts.Reconcile.{
  promote_one, reap_one, sweep_one, admit_due, schedule_one,
}

module _ {r : Redis} where
  -- `k` with the counters of this failure.
  abbrev pub counted : Text → Bool → Keyspace r → Keyspace r
  counted u inc_strike k = record k {
    attempts = (r.hincrby k.attempts u 1).1;
    strikes = (count_strike u inc_strike k).1;
  }

module _ {r : Redis} (P : Keyspace r → Type 0) where
  pub promote_one-keeps :
      (item : Text) (k : Keyspace r)
      → P k
      → ((u : Text)
          → after_separator item ≡ some u
          → P (record (push_job u k) { delayed = (r.zrem k.delayed item).1 }))
      → P (promote_one item k).1
  unfolding promote_one push_job
  promote_one-keeps item k broken minted = elim (Option-cases (after_separator item)) [
    | inl e ↦ rw (e, promote_one) broken
    | inr (u, e) ↦ rw (e, promote_one) (minted u e)
  ]

  pub reap_one-keeps :
      (item : Text) (k : Keyspace r)
      → P (record k { lease = (r.zrem k.lease item).1 })
      → ((u : Text)
          → after_separator item ≡ some u
          → P (record (push_job u (record k { lease = (r.zrem k.lease item).1 })) {
            processing = r.lrem k.processing item;
          }))
      → P (reap_one item k).1
  unfolding reap_one push_job
  reap_one-keeps item k unleased minted = elim (Bool-cases ((r.zrem k.lease item).0 == 1)) [
    | inl b ↦ rw b (elim (Option-cases (after_separator item)) [
      | inl e ↦ rw (e, reap_one) unleased
      | inr (u, e) ↦ rw (e, reap_one) (minted u e)
    ])
    | inr b ↦ rw b unleased
  ]

  pub sweep_one-keeps :
      (item : Text) (k : Keyspace r)
      → P k
      → ((u : Text)
          → after_separator item ≡ some u
          → P (record (push_job u k) { processing = r.lrem k.processing item }))
      → P (sweep_one item k).1
  unfolding sweep_one push_job
  sweep_one-keeps item k same minted = elim (Bool-cases (is_some (r.zscore k.lease item))) [
    | inl b ↦ rw b same
    | inr b ↦ rw b (elim (Option-cases (after_separator item)) [
      | inl e ↦ rw (e, sweep_one) same
      | inr (u, e) ↦ rw (e, sweep_one) (minted u e)
    ])
  ]

  pub lua_lease-keeps :
      (now timeout : ℕ) (k : Keyspace r)
      → P k
      → ((item : Text) (init : List Text)
          → k.ready ≡ init ++ item ∷ []
          → P (record k {
            ready = init;
            processing = item ∷ k.processing;
            lease = r.zadd k.lease (now + timeout) item;
          }))
      → P (lua_lease now timeout k).1
  unfolding lua_lease
  lua_lease-keeps now timeout k idle taken = elim (lmove_cases r k.ready k.processing) [
    | inl (_, e) ↦ rw (e, lua_lease) idle
    | inr (item, init, e, f) ↦ rw (f, lua_lease) (taken item init e)
  ]

  -- The job of a URL that the filter holds is taken back.
  pub admit_live_video-keeps :
      (u : Text) (k : Keyspace r)
      → P (record (push_job u k) { bloom = (r.bf_add k.bloom u).1 })
      → P (record k { job_seq = r.incr k.job_seq; bloom = (r.bf_add k.bloom u).1 })
      → P (admit_live_video u k).1
  unfolding admit_live_video push_job
  admit_live_video-keeps u k minted declined = elim (BloomReply-cases (r.bf_add k.bloom u).0) [
    | inl e ↦ rw (e, admit_live_video) minted
    | inr (inl e) ↦
        rw (e, admit_live_video, lrem-lpush r k.ready (member (r.incr k.job_seq) u)) declined
    | inr (inr e) ↦ rw (e, admit_live_video) minted
  ]

  pub admit_live_listing-keeps :
      (u : Text) (now pending : ℕ) (k : Keyspace r)
      → P k
      → P (record (push_job u k) { listing_next = r.zadd k.listing_next pending u })
      → P (admit_live_listing u now pending k).1
  unfolding admit_live_listing push_job
  admit_live_listing-keeps u now pending k same minted =
      elim (Option-cases (r.zscore k.listing_next u)) [
        | inl e ↦ rw (e, admit_live_listing) minted
        | inr (prev, e) ↦
            rw (e, admit_live_listing)
              (elim (Bool-cases (ltb now prev)) [
                | inl late ↦ rw late same
                | inr due ↦ rw due minted
              ])
      ]

  -- A due listing is admitted, before or after its dead entry is taken away; else it is dropped or put
  -- off.
  pub schedule_one-keeps :
      (now pending : ℕ) (u : Text) (k : Keyspace r)
      → P k
      → P (record k { listing_next = (r.zrem k.listing_next u).1 })
      → ((until : ℕ) → P (record k { listing_next = r.zadd k.listing_next until u }))
      → P (admit_due pending u k).1
      → P (admit_due pending u (record k { dead = r.hdel k.dead u })).1
      → P (schedule_one now pending u k).1
  unfolding schedule_one
  schedule_one-keeps now pending u k same dropped put_off due expired =
      elim (Option-cases (r.hget k.dead u)) [
        | inl e ↦ rw (e, schedule_one) due
        | inr (d, e) ↦
            rw (e, schedule_one)
              (elim (Option-cases (dead_until d)) [
                | inl f ↦ rw f same
                | inr (until, f) ↦ rw f (elim (Bool-cases (until == 0)) [
                  | inl b ↦ rw b dropped
                  | inr b ↦ rw b (elim (Bool-cases (ltb now until)) [
                    | inl c ↦ rw c (put_off until)
                    | inr c ↦ rw c expired
                  ])
                ])
              ])
      ]

  pub delay_job-keeps :
      (item u : Text) (attempts now until : ℕ) (backoff : List ℕ) (k : Keyspace r)
      → P (record k { job_seq = r.incr k.job_seq })
      → ((delay : ℕ)
          → P (record k {
            job_seq = r.incr k.job_seq;
            delayed = r.zadd k.delayed (now + delay) (member (r.incr k.job_seq) u);
            processing = r.lrem k.processing item;
          }))
      → P (delay_job item u attempts now until backoff k).1
  unfolding delay_job
  delay_job-keeps item u attempts now until backoff k skipped minted =
      elim (Option-cases (get_elem? (until ∷ backoff) (clamp attempts (length backoff)))) [
        | inl f ↦ rw (f, delay_job) skipped
        | inr (delay, f) ↦ rw (f, delay_job) (minted delay)
      ]

  pub fail_held-keeps :
      (item u : Text) (inc_strike : Bool) (max_strikes now : ℕ) (reason : Text) (until : ℕ)
      (backoff : List ℕ) (k : Keyspace r)
      → P (bury item u reason until (counted u inc_strike k))
      → P
          (delay_job item u
            (r.hincrby k.attempts u 1).0
            now
            until
            backoff
            (counted u inc_strike k)).1
      → P (fail_held item u inc_strike max_strikes now reason until backoff k).1
  unfolding fail_held
  fail_held-keeps item u inc_strike max_strikes now reason until backoff k buried delayed =
      elim (Bool-cases (inc_strike && leb max_strikes (count_strike u inc_strike k).0)) [
        | inl e ↦ rw e buried
        | inr e ↦ rw e delayed
      ]
