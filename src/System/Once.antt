-- ===== src/System/Once.antt =====
-- The claim of a video in the bloom filter: AdmitVideo of internal/storage/frontier.go admits a URL
-- as new once.
use lost_media_finder.Prelude.{ℕ, ◌/◌, ◌≡◌, ◌≢◌, Bool, false, inl, inr, true, List}
use lost_media_finder.Text.{Text}
use lost_media_finder.Redis.{Redis}
use lost_media_finder.Redis.Laws.{BloomReply-cases}
use lost_media_finder.Frontier.Types.{AdmitResult, new, ok, pending_score, second}
use lost_media_finder.Frontier.Keyspace.{Keyspace, Reply, returned, raised, Script, push_job}
use lost_media_finder.Frontier.Scripts.Admit.{admit_live_video, lua_admit_video}
use lost_media_finder.Frontier.Scripts.Complete.{
  Answer, take_lease, ack_held, nack_held, terminal_held, complete_held, fail_held, lua_ack,
  lua_nack, lua_terminal, lua_complete_listing, lua_fail, bury,
}
use lost_media_finder.Frontier.Scripts.Rules.{take_lease-keeps, check_dead-holds}
use lost_media_finder.Frontier.Methods.{
  unix, unix_or_zero, quarantine_until, is_strikeable, ladder_of, reason_of, base_ttl_of, answered,
  admit_video, seed_listing, ack, nack, fail, terminal, complete_listing,
}
use lost_media_finder.Frontier.Replies.{resolved-keeps, disposed-keeps}
use lost_media_finder.Crawler.Classify.{until_for}
use lost_media_finder.Frontier.Calls.{
  admit_video-keeps, admit_listing-keeps, lease-keeps, promote-keeps, reap-keeps, sweep-keeps,
  run_listing_scheduler-keeps,
}
use lost_media_finder.Frontier.Scripts.Branches.{
  promote_one-keeps, reap_one-keeps, sweep_one-keeps, lua_lease-keeps, admit_live_video-keeps,
  admit_live_listing-keeps, schedule_one-keeps, delay_job-keeps, fail_held-keeps, counted,
}
use lost_media_finder.Frontier.Scripts.Reconcile.{admit_due}
use lost_media_finder.System.Defs.{
  Setup, frontier, Step, Reach, admits_video, admits_listing, seeds, changes_bloom, leases, acks,
  nacks, fails, terminates, completes, reaps, sweeps, promotes, schedules, here, next,
}

module _ {r : Redis} (url : Text) where
  -- The bloom filter holds the URL.
  abbrev pub Seen : Keyspace r → Type 0
  Seen k = r.bf_exists k.bloom url ≡ true

module _ {r : Redis} (s : Setup) (url : Text) where
  abbrev Keeps : Keyspace r → Type 0
  Keeps = Seen url

  take_lease-Seen :
      (item : Text) (rest : Script r Answer) (k : Keyspace r)
      → ((k : Keyspace r) → Keeps k → Keeps (rest k).1)
      → Keeps k
      → Keeps (take_lease item rest k).1
  take_lease-Seen item rest k step h =
      take_lease-keeps Keeps item rest k (λ _. h)
        (λ _. step (record k { lease = (r.zrem k.lease item).1 }) h)

  fail_held-Seen :
      (item u : Text) (inc_strike : Bool) (max_strikes now : ℕ) (reason : Text) (until : ℕ)
      (backoff : List ℕ) (k : Keyspace r)
      → Keeps k
      → Keeps (fail_held item u inc_strike max_strikes now reason until backoff k).1
  unfolding bury
  fail_held-Seen item u inc_strike max_strikes now reason until backoff k h =
      fail_held-keeps Keeps item u inc_strike max_strikes now reason until backoff k h (
        delay_job-keeps Keeps item u (r.hincrby k.attempts u 1).0 now until backoff
          (counted u inc_strike k) h (λ _. h))

  -- No call takes a URL out of the bloom filter.
  Step-Seen : {k k' : Keyspace r} → Step s k k' → Keeps k → Keeps k'
  unfolding seed_listing ack nack fail terminal complete_listing lua_ack lua_nack lua_fail
      lua_terminal lua_complete_listing ack_held nack_held terminal_held complete_held push_job
      admit_due
  Step-Seen (admits_video now u k is_v) h =
      admit_video-keeps Keeps (frontier s) now u k (λ _ h. h)
        (λ k h.
          admit_live_video-keeps Keeps u k (r.bf_exists_mono k.bloom u url h)
            (r.bf_exists_mono k.bloom u url h))
        h
  Step-Seen (admits_listing now u k t) h =
      admit_listing-keeps Keeps (frontier s) now u k (λ _ h. h)
        (λ k h. admit_live_listing-keeps Keeps u (unix now) pending_score k h h) h
  Step-Seen (seeds u k) h = h
  Step-Seen (changes_bloom b k keeps) h = keeps url h
  Step-Seen (leases now k) h =
      lease-keeps Keeps (frontier s) now k
        (lua_lease-keeps Keeps (unix now) (s.cfg.lease_timeout / second) k h (λ _ _ _. h))
  Step-Seen (acks j k w is_v) h =
      resolved-keeps Keeps _ _ (take_lease-Seen j.member (ack_held j.member j.url) k (λ _ h. h) h)
  Step-Seen (nacks j k w) h =
      resolved-keeps Keeps _ _ (take_lease-Seen j.member (nack_held j.member j.url) k (λ _ h. h) h)
  Step-Seen (fails now j class k t w) h = disposed-keeps Keeps _ _ (
      take_lease-Seen j.member
        (fail_held j.member j.url (is_strikeable class) s.cfg.max_strikes (unix now)
          (reason_of class) (quarantine_until (frontier s) j.class now) (ladder_of s.cfg class))
        k
        (fail_held-Seen j.member j.url (is_strikeable class) s.cfg.max_strikes (unix now)
          (reason_of class) (quarantine_until (frontier s) j.class now) (ladder_of s.cfg class))
        h)
  Step-Seen (terminates now j reason k t w plain) h = resolved-keeps Keeps _ _ (
      take_lease-Seen j.member
        (terminal_held j.member j.url reason
          (unix_or_zero (until_for j.class s.cfg.quarantine_listing now)))
        k (λ _ h. h) h)
  Step-Seen (completes now j n k t w) h = resolved-keeps Keeps _ _ (
      take_lease-Seen j.member
        (complete_held j.member j.url n (unix now) (base_ttl_of s.cfg j.class / second)
          (s.cfg.listing_max_ttl / second))
        k (λ _ h. h) h)
  Step-Seen (reaps now k) h =
      reap-keeps Keeps now k (λ item k h. reap_one-keeps Keeps item k h (λ _ _. h)) h
  Step-Seen (sweeps k) h =
      sweep-keeps Keeps k (λ item k h. sweep_one-keeps Keeps item k h (λ _ _. h)) h
  Step-Seen (promotes now k) h =
      promote-keeps Keeps now k (λ item k h. promote_one-keeps Keeps item k h (λ _ _. h)) h
  Step-Seen (schedules now k t) h =
      run_listing_scheduler-keeps Keeps (frontier s) now k
        (λ u k h. schedule_one-keeps Keeps (unix now) pending_score u k h h (λ _. h) h h) h

  pub Reach-Seen : {start k : Keyspace r} → Reach s start k → Keeps start → Keeps k
  Reach-Seen here h = h
  Reach-Seen (next reach move) h = Step-Seen move (Reach-Seen reach h)

module _ {r : Redis} (url : Text) where
  -- An admission as new claims the URL, which was not claimed before.
  abbrev Claims : Bool → Reply AdmitResult × Keyspace r → Type 0
  Claims before x = x.0 ≡ returned new → (before ≡ false) × Seen url x.1

  answered-Claims :
      (before : Bool) (a : Reply AdmitResult) (k : Keyspace r)
      → Claims before (a, k)
      → (answered (a, k)).0 ≡ ok new
      → (before ≡ false) × Seen url (answered (a, k)).1
  answered-Claims before (returned x) k h e = h (cc e)
  answered-Claims before raised k h e = absurd (cc e)

  admit_live_video-Claims :
      (k : Keyspace r) → Claims (r.bf_exists k.bloom url) (admit_live_video url k)
  unfolding admit_live_video
  admit_live_video-Claims k = elim (BloomReply-cases (r.bf_add k.bloom url).0) [
    | inl e ↦ rw (e, admit_live_video) (λ h. absurd (cc h))
    | inr (inl e) ↦ rw (e, admit_live_video) (λ h. absurd (cc h))
    | inr (inr e) ↦ rw (e, admit_live_video) (λ _. r.bf_add_added k.bloom url e)
  ]

  lua_admit_video-Claims :
      (now : ℕ) (k : Keyspace r) → Claims (r.bf_exists k.bloom url) (lua_admit_video url now k)
  unfolding lua_admit_video
  lua_admit_video-Claims now k =
      check_dead-holds (Claims (r.bf_exists k.bloom url)) url now (admit_live_video url) k
        (λ h. absurd (cc h)) (λ h. absurd (cc h)) (admit_live_video-Claims k)
        (admit_live_video-Claims (record k { dead = r.hdel k.dead url }))

  pub admit_video-Claims :
      (s : Setup) (now : ℕ) (k : Keyspace r)
      → (admit_video (frontier s) now url k).0 ≡ ok new
      → (r.bf_exists k.bloom url ≡ false) × Seen url (admit_video (frontier s) now url k).1
  unfolding admit_video
  admit_video-Claims s now k h =
      answered-Claims (r.bf_exists k.bloom url) _ _ (lua_admit_video-Claims (unix now) k) h

module _ {r : Redis} (s : Setup) where
  -- Once AdmitVideo has admitted a URL as new, no interleaving of calls leads to a state in which
  -- it admits that URL as new again.
  pub video_new_once :
      (url : Text) (now later : ℕ) (k k' : Keyspace r)
      → (admit_video (frontier s) now url k).0 ≡ ok new
      → Reach s (admit_video (frontier s) now url k).1 k'
      → (admit_video (frontier s) later url k').0 ≢ ok new
  video_new_once url now later k k' first reach again = cc (
    (admit_video-Claims url s later k' again).0,
    Reach-Seen s url reach (admit_video-Claims url s now k first).1,
  )
