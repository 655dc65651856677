-- ===== src/Frontier/Pending/Parts.antt =====
-- How each change of the member-keyed structures and of the schedule bears on the pairing.
use lost_media_finder.Prelude.{
  ℕ, ◌<◌, ◌≡◌, Bool, true, false, List, [], ◌∷◌, ◌++◌, arith, is_some, count_if-append,
}
use lost_media_finder.Text.{Text, eq_text_iff, eq_text_refl}
use lost_media_finder.Text.Members.{occurrences, occurrences-contains}
use lost_media_finder.Redis.{Redis}
use lost_media_finder.Redis.Laws.{count-lrem}
use lost_media_finder.Frontier.Types.{pending_score}
use lost_media_finder.Frontier.Member.{member}
use lost_media_finder.Frontier.Pending.Defs.{job_for, job_for-member, is_pending, Pairs}

module _ {r : Redis} {video : Text → Bool} {ready processing : List Text} {delayed next : r.Zset}
    (p : Pairs r video ready processing delayed next) where
  -- A job that ends and is minted again in ready.
  pub Pairs-requeue :
      (id new_id : ℕ) (url : Text)
      → 0 < occurrences (member id url) processing
      → Pairs r video
          (r.lpush ready (member new_id url))
          (r.lrem processing (member id url))
          delayed
          next
  Pairs-requeue id new_id url h = rw (r.lpush_lem ready (member new_id url)) (record {
    at = λ u listing. ground (
      arith,
      p.at u listing,
      job_for-member id url u,
      job_for-member new_id url u,
      count-lrem r (job_for u) processing (member id url),
      occurrences-contains (member id url) processing h,
    );
  })

  -- A job that ends and is minted again in delayed.
  pub Pairs-delay :
      (id new_id score : ℕ) (url : Text)
      → 0 < occurrences (member id url) processing
      → is_some (r.zscore delayed (member new_id url)) ≡ false
      → Pairs r video ready
          (r.lrem processing (member id url))
          (r.zadd delayed score (member new_id url))
          next
  Pairs-delay id new_id score url h free = record {
    at = λ u listing. ground (
      arith,
      p.at u listing,
      job_for-member id url u,
      job_for-member new_id url u,
      r.count-zadd (job_for u) delayed score (member new_id url),
      count-lrem r (job_for u) processing (member id url),
      occurrences-contains (member id url) processing h,
    );
  }

  -- A delayed job that is minted again in ready.
  pub Pairs-promote :
      (id new_id : ℕ) (url : Text)
      → is_some (r.zscore delayed (member id url)) ≡ true
      → Pairs r video
          (r.lpush ready (member new_id url))
          processing
          (r.zrem delayed (member id url)).1
          next
  Pairs-promote id new_id url h = rw (r.lpush_lem ready (member new_id url)) (record {
    at = λ u listing. ground (
      arith,
      p.at u listing,
      job_for-member id url u,
      job_for-member new_id url u,
      r.count-zrem (job_for u) delayed (member id url),
    );
  })

  -- A video's job that ends.
  pub Pairs-end_video :
      (id : ℕ) (url : Text)
      → video url ≡ true
      → Pairs r video ready (r.lrem processing (member id url)) delayed next
  Pairs-end_video id url v = record {
    at = λ u listing. ground (
      arith,
      p.at u listing,
      eq_text_iff url u,
      job_for-member id url u,
      count-lrem r (job_for u) processing (member id url),
    );
  }

  -- A listing's job that ends, its score going from PENDING to a due time.
  pub Pairs-end_listing :
      (id due : ℕ) (url : Text)
      → 0 < occurrences (member id url) processing
      → due < pending_score
      → Pairs r video ready (r.lrem processing (member id url)) delayed (r.zadd next due url)
  unfolding is_pending
  Pairs-end_listing id due url h early = record {
    at = λ u listing. ground (
      arith,
      p.at u listing,
      eq_text_iff url u,
      eq_text_refl url,
      job_for-member id url u,
      r.zscore-zadd next due url u,
      count-lrem r (job_for u) processing (member id url),
      occurrences-contains (member id url) processing h,
    );
  }

  -- A job for a listing that is not PENDING, which then is.
  pub Pairs-admit :
      (id : ℕ) (url : Text)
      → is_pending (r.zscore next url) ≡ false
      → Pairs r video
          (r.lpush ready (member id url))
          processing
          delayed
          (r.zadd next pending_score url)
  unfolding is_pending
  Pairs-admit id url h = rw (r.lpush_lem ready (member id url)) (record {
    at = λ u listing. ground (
      arith,
      p.at u listing,
      eq_text_iff url u,
      job_for-member id url u,
      r.zscore-zadd next pending_score url u,
    );
  })

  -- A video's job.
  pub Pairs-push_video :
      (id : ℕ) (url : Text)
      → video url ≡ true
      → Pairs r video (r.lpush ready (member id url)) processing delayed next
  Pairs-push_video id url v = rw (r.lpush_lem ready (member id url)) (record {
    at = λ u listing. ground (arith, p.at u listing, eq_text_iff url u, job_for-member id url u);
  })

  -- A listing that is not PENDING gets a due time, or leaves the schedule.
  pub Pairs-reschedule :
      (due : ℕ) (url : Text)
      → is_pending (r.zscore next url) ≡ false
      → due < pending_score
      → Pairs r video ready processing delayed (r.zadd next due url)
  unfolding is_pending
  Pairs-reschedule due url h early = record {
    at = λ u listing.
        ground (arith, p.at u listing, eq_text_iff url u, r.zscore-zadd next due url u);
  }

  pub Pairs-unschedule :
      (url : Text)
      → is_pending (r.zscore next url) ≡ false
      → Pairs r video ready processing delayed (r.zrem next url).1
  unfolding is_pending
  Pairs-unschedule url h = record {
    at = λ u listing. ground (arith, p.at u listing, eq_text_iff url u, r.zscore-zrem next url u);
  }

-- The last ready job goes to processing.
pub Pairs-lease :
    {r : Redis} {video : Text → Bool} {init processing : List Text} {delayed next : r.Zset}
    (item : Text)
    → Pairs r video (init ++ item ∷ []) processing delayed next
    → Pairs r video init (item ∷ processing) delayed next
Pairs-lease {init} item p = record {
  at = λ u listing. omega (arith, p.at u listing, count_if-append (job_for u) init (item ∷ []));
}
