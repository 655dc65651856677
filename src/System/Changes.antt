-- ===== src/System/Changes.antt =====
-- What the admissions, Fail and the listing scheduler of internal/storage/frontier.go do to the bag of
-- URLs.
use lost_media_finder.Prelude.{
  ltb, ℕ, ◌+◌, ◌≤◌, ◌<◌, ◌≡◌, ◌≢◌, ◌⊎◌, inl, inr, refl, Bool, ◌&&◌, List, ◌∷◌, arith, leb, length,
  Bool-cases, Option-cases, get_elem?,
}
use lost_media_finder.Text.{Text}
use lost_media_finder.Text.Members.{occurrences, occurrences-contains}
use lost_media_finder.Redis.{Redis}
use lost_media_finder.Redis.Laws.{BloomReply-cases, lrem-lpush, count-lrem}
use lost_media_finder.Frontier.Types.{
  AdmitResult, new, suppressed, due_revisit, script_error, Job, FailClass, Disposition, Result, ok,
  err, pending_score,
}
use lost_media_finder.Frontier.Member.{member}
use lost_media_finder.Frontier.Keyspace.{Keyspace, push_job}
use lost_media_finder.Frontier.Scripts.Admit.{
  admit_live_video, admit_live_listing, lua_admit_video, lua_admit_listing,
}
use lost_media_finder.Frontier.Scripts.Branches.{schedule_one-keeps, counted}
use lost_media_finder.Frontier.Scripts.Complete.{
  clamp, count_strike, bury, delay_job, fail_held, lua_fail,
}
use lost_media_finder.Frontier.Scripts.Reconcile.{admit_due}
use lost_media_finder.Frontier.Scripts.Rules.{check_dead-holds, take_lease-decides}
use lost_media_finder.Frontier.Methods.{
  answered, unix, quarantine_until, is_strikeable, ladder_of, reason_of, disposed, admit_video,
  admit_listing, fail, run_listing_scheduler,
}
use lost_media_finder.Frontier.Calls.{run_listing_scheduler-keeps}
use lost_media_finder.Frontier.Sound.Defs.{live_jobs, IsSound}
use lost_media_finder.Frontier.Sound.Parts.{next_free, Tracks-unlease}
use lost_media_finder.Frontier.Pending.Defs.{job_for, job_for-member}
use lost_media_finder.System.Bag.{Same, Adds, Removes}
use lost_media_finder.System.Counting.{leave-Counts, push-Counts}
use lost_media_finder.System.Defs.{Setup, frontier, IsJob}
use lost_media_finder.System.Resolving.{job_of}

module _ {r : Redis} where
  -- An admission that returns Suppressed leaves the bag alone, and one that returns New or DueRevisit
  -- adds its URL; a script that raises an error may have added it before.
  abbrev pub Admits : Text → Keyspace r → Result AdmitResult × Keyspace r → Type 0
  Admits u k x =
      ((x.0 ≡ ok suppressed) × Same k x.1)
      ⊎ (((a : AdmitResult) × (x.0 ≡ ok a) × (a ≢ suppressed) × Adds u k x.1)
          ⊎ ((x.0 ≡ err script_error) × (Same k x.1 ⊎ Adds u k x.1)))

  pushed : (u : Text) (k : Keyspace r) → Adds u k (push_job u k)
  pushed u k url = push-Counts url (live_jobs (job_for url) k) u k refl

  -- Fail removes its URL where it returns Dead, and only there.
  abbrev pub Disposes : Text → Keyspace r → Result Disposition × Keyspace r → Type 0
  Disposes u k x =
      ((x.0 ≡ ok Disposition.dead) × Removes u k x.1) ⊎ ((x.0 ≢ ok Disposition.dead) × Same k x.1)

  live_video-Admits : (u : Text) (k : Keyspace r) → Admits u k (answered (admit_live_video u k))
  unfolding admit_live_video
  live_video-Admits u k = elim (BloomReply-cases (r.bf_add k.bloom u).0) [
    | inl e ↦ rw (e, admit_live_video) (inr (inr (refl, inr (pushed u k))))
    | inr (inl e) ↦
        rw (e, admit_live_video, lrem-lpush r k.ready (member (r.incr k.job_seq) u))
          (inl (refl, λ url. refl))
    | inr (inr e) ↦ rw (e, admit_live_video) (inr (inl (new, refl, (λ h. cc), pushed u k)))
  ]

  live_listing-Admits :
      (u : Text) (now : ℕ) (k : Keyspace r)
      → Admits u k (answered (admit_live_listing u now pending_score k))
  unfolding admit_live_listing
  live_listing-Admits u now k = elim (Option-cases (r.zscore k.listing_next u)) [
    | inl e ↦ rw (e, admit_live_listing) (inr (inl (new, refl, (λ h. cc), pushed u k)))
    | inr (prev, e) ↦
        rw (e, admit_live_listing)
          (elim (Bool-cases (ltb now prev)) [
            | inl late ↦ rw late (inl (refl, λ url. refl))
            | inr due ↦ rw due (inr (inl (due_revisit, refl, (λ h. cc), pushed u k)))
          ])
  ]

  pub admit_video-Admits :
      (s : Setup) (now : ℕ) (u : Text) (k : Keyspace r)
      → Admits u k (admit_video (frontier s) now u k)
  unfolding admit_video lua_admit_video
  admit_video-Admits s now u k =
      check_dead-holds (λ x. Admits u k (answered x)) u (unix now) (admit_live_video u) k
        (inr (inr (refl, inl (λ url. refl)))) (inl (refl, λ url. refl)) (live_video-Admits u k)
        (live_video-Admits u (record k { dead = r.hdel k.dead u }))

  pub admit_listing-Admits :
      (s : Setup) (now : ℕ) (u : Text) (k : Keyspace r)
      → Admits u k (admit_listing (frontier s) now u k)
  unfolding admit_listing lua_admit_listing
  admit_listing-Admits s now u k =
      check_dead-holds (λ x. Admits u k (answered x)) u (unix now)
        (admit_live_listing u (unix now) pending_score) k (inr (inr (refl, inl (λ url. refl))))
        (inl (refl, λ url. refl)) (live_listing-Admits u (unix now) k)
        (live_listing-Admits u (unix now) (record k { dead = r.hdel k.dead u }))

  -- The listing scheduler takes nothing out.
  pub schedule-grows :
      (s : Setup) (now : ℕ) (k : Keyspace r) (url : Text)
      → live_jobs (job_for url) k
        ≤ live_jobs (job_for url) (run_listing_scheduler (frontier s) now k).1
  unfolding admit_due
  schedule-grows s now k url =
      run_listing_scheduler-keeps Grown (frontier s) now k
        (λ u k h.
          schedule_one-keeps Grown (unix now) pending_score u k h h (λ _. h) (grown u k h)
            (grown u k h))
        (omega arith)
    where
      Grown : Keyspace r → Type 0
      Grown k' = live_jobs (job_for url) k ≤ live_jobs (job_for url) k'

      grown : (u : Text) (k' : Keyspace r) → Grown k' → Grown (push_job u k')
      grown u k' h = omega (arith, h, push-Counts url (live_jobs (job_for url) k') u k' refl)

module _ {r : Redis} (s : Setup) (j : Job) (w : IsJob s j) where
  delay_job-Disposes :
      (attempts now until : ℕ) (backoff : List ℕ) (k : Keyspace r)
      → IsSound k
      → 0 < occurrences j.member k.processing
      → Disposes j.url k (disposed (delay_job j.member j.url attempts now until backoff k))
  unfolding delay_job
  delay_job-Disposes attempts now until backoff k sound here =
      elim (Option-cases (get_elem? (until ∷ backoff) (clamp attempts (length backoff)))) [
        | inl f ↦ rw (f, delay_job) (inr (λ h. cc, λ url. refl))
        | inr (delay, f) ↦
            rw (f, delay_job)
              (inr (
                λ h. cc,
                λ url. ground (
                  arith,
                  job_of s url j w,
                  next_free sound j.url,
                  job_for-member (r.incr k.job_seq) j.url url,
                  r.count-zadd (job_for url) k.delayed (now + delay)
                      (member (r.incr k.job_seq) j.url),
                  count-lrem r (job_for url) k.processing j.member,
                  occurrences-contains j.member k.processing here,
                ),
              ))
      ]

  fail_held-Disposes :
      (inc_strike : Bool) (max_strikes now : ℕ) (reason : Text) (until : ℕ) (backoff : List ℕ)
      (k : Keyspace r)
      → IsSound k
      → 0 < occurrences j.member k.processing
      → Disposes j.url k
          (disposed (fail_held j.member j.url inc_strike max_strikes now reason until backoff k))
  unfolding fail_held bury
  fail_held-Disposes inc_strike max_strikes now reason until backoff k sound here =
      elim (Bool-cases (inc_strike && leb max_strikes (count_strike j.url inc_strike k).0)) [
        | inl e ↦ rw e (
            inl (
              refl,
              λ url.
                  leave-Counts url (live_jobs (job_for url) k) j.member j.url
                    (counted j.url inc_strike k) (job_of s url j w) here refl,
            ))
        | inr e ↦ rw e (
            delay_job-Disposes (r.hincrby k.attempts j.url 1).0 now until backoff
              (counted j.url inc_strike k) sound here)
      ]

  pub fail-Disposes :
      (f_now : ℕ) (class : FailClass) (k : Keyspace r)
      → IsSound k
      → Disposes j.url k (fail (frontier s) f_now j class k)
  unfolding fail lua_fail
  fail-Disposes f_now class k sound =
      take_lease-decides (λ x. Disposes j.url k (disposed x)) j.member
        (fail_held j.member j.url (is_strikeable class) s.cfg.max_strikes (unix f_now)
          (reason_of class) (quarantine_until (frontier s) j.class f_now) (ladder_of s.cfg class))
        k (λ _. inr (λ h. cc, λ url. refl))
        (λ held.
          fail_held-Disposes (is_strikeable class) s.cfg.max_strikes (unix f_now) (reason_of class)
            (quarantine_until (frontier s) j.class f_now) (ladder_of s.cfg class)
            (record k { lease = (r.zrem k.lease j.member).1 }) (Tracks-unlease sound j.member)
            (sound.held j.member held))
