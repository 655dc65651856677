-- ===== src/System/Invariant.antt =====
-- The invariant of the frontier through any interleaving of its calls.
use lost_media_finder.Prelude.{ℕ, ◌/◌, ◌≡◌, refl, sym, subst, none, arith}
use lost_media_finder.Text.{Text}
use lost_media_finder.Text.Search.{index_byte}
use lost_media_finder.Redis.{Redis}
use lost_media_finder.Frontier.Types.{
  UrlClass, class_video, class_listing, class_seed, FailClass, fail_rate_limited, fail_strikeable,
  second, reap_batch_limit, sweep_batch_limit, promote_batch_limit,
}
use lost_media_finder.Frontier.Member.{separator}
use lost_media_finder.Frontier.Keyspace.{Keyspace}
use lost_media_finder.Frontier.Scripts.Complete.{
  lua_ack, lua_nack, lua_fail, lua_terminal, lua_complete_listing,
}
use lost_media_finder.Frontier.Methods.{
  unix, unix_or_zero, quarantine_until, is_strikeable, ladder_of, reason_of, base_ttl_of,
  admit_video, admit_listing, seed_listing, lease, ack, nack, fail, terminal, complete_listing,
  reap, sweep, promote, run_listing_scheduler,
}
use lost_media_finder.Frontier.Replies.{
  answered-keeps, resolved-keeps, disposed-keeps, leased-keeps,
}
use lost_media_finder.Frontier.Pending.Inv.{Inv}
use lost_media_finder.Frontier.Pending.Leases.{Deadline}
use lost_media_finder.Frontier.Pending.Calls.{
  lease-Inv, seed-Inv, admit_video-Inv, admit_listing-Inv, ack-Inv, nack-Inv, terminal-Inv,
  fail-Inv, complete_listing-Inv,
}
use lost_media_finder.Frontier.Pending.Promote.{promote-Inv}
use lost_media_finder.Frontier.Pending.Reclaim.{reap-Inv, sweep-Inv}
use lost_media_finder.Frontier.Pending.Schedule.{listing_scheduler-Inv}
use lost_media_finder.Crawler.Classify.{until_for, new_url_classifier}
use lost_media_finder.System.Defs.{
  Setup, frontier, is_video, InTime, Step, Reach, admits_video, admits_listing, seeds,
  changes_bloom, leases, acks, nacks, fails, terminates, completes, reaps, sweeps, promotes,
  schedules, here, next,
}

module _ (s : Setup) where
  -- The deadline of Fail: 0 only for a video.
  quarantine_until-Deadline :
      (now : ℕ) (url : Text) (class : UrlClass)
      → InTime s now
      → class ≡ new_url_classifier s.video_pattern s.seed_urls url
      → Deadline (is_video s) url (quarantine_until (frontier s) class now)
  unfolding quarantine_until new_url_classifier
  quarantine_until-Deadline now url class_video t e = record {
    early = omega arith;
    forever_video = λ _. ground arith;
  }
  quarantine_until-Deadline now url class_listing t e = record {
    early = t.quarantine;
    forever_video = λ z. absurd (omega (arith, t.begun));
  }
  quarantine_until-Deadline now url class_seed t e = record {
    early = t.quarantine;
    forever_video = λ z. absurd (omega (arith, t.begun));
  }

  -- The deadline of Terminal is the same.
  until_for-Deadline :
      (now : ℕ) (url : Text) (class : UrlClass)
      → InTime s now
      → class ≡ new_url_classifier s.video_pattern s.seed_urls url
      → Deadline (is_video s) url (unix_or_zero (until_for class s.cfg.quarantine_listing now))
  unfolding quarantine_until until_for unix_or_zero
  until_for-Deadline now url class_video t e = quarantine_until-Deadline now url class_video t e
  until_for-Deadline now url class_listing t e = quarantine_until-Deadline now url class_listing t e
  until_for-Deadline now url class_seed t e = quarantine_until-Deadline now url class_seed t e

reason-plain : (class : FailClass) → index_byte (reason_of class) separator ≡ none
unfolding index_byte
reason-plain fail_rate_limited = refl
reason-plain fail_strikeable = refl

module _ {r : Redis} (s : Setup) where
  abbrev Holds : Keyspace r → Type 0
  Holds = Inv r (is_video s)

  pub Step-Inv : {k k' : Keyspace r} → Step s k k' → Holds k → Holds k'
  unfolding admit_video admit_listing seed_listing lease ack nack fail terminal complete_listing
      reap sweep promote run_listing_scheduler
  Step-Inv (admits_video now url k is_v) v =
      answered-keeps Holds _ _ (admit_video-Inv k v url (unix now) is_v)
  Step-Inv (admits_listing now url k t) v =
      answered-keeps Holds _ _ (admit_listing-Inv k v url (unix now) (omega (arith, t.revisit)))
  Step-Inv (seeds url k) v = seed-Inv k v url
  Step-Inv (changes_bloom b k keeps) v = record {
    sound = v.sound;
    paired = v.paired;
    buried = v.buried;
  }
  Step-Inv (leases now k) v =
      leased-keeps Holds (frontier s) _ _ (lease-Inv k v (unix now) (s.cfg.lease_timeout / second))
  Step-Inv (acks j k w is_v) v =
      resolved-keeps Holds _ _ (
        subst (λ m. Holds (lua_ack m j.url k).1) (sym w.member_of)
          (ack-Inv k v w.number j.url is_v))
  Step-Inv (nacks j k w) v =
      resolved-keeps Holds _ _
        (subst (λ m. Holds (lua_nack m j.url k).1) (sym w.member_of) (nack-Inv k v w.number j.url))
  Step-Inv (fails now j class k t w) v = disposed-keeps Holds _ _ (
      subst
        (λ m.
          Holds
            (lua_fail m j.url (is_strikeable class) s.cfg.max_strikes (unix now) (reason_of class)
              (quarantine_until (frontier s) j.class now) (ladder_of s.cfg class) k).1)
        (sym w.member_of)
        (fail-Inv k v w.number j.url (is_strikeable class) s.cfg.max_strikes (unix now)
          (reason_of class) (quarantine_until (frontier s) j.class now) (ladder_of s.cfg class)
          (reason-plain class) (quarantine_until-Deadline s now j.url j.class t w.class_of_url)))
  Step-Inv (terminates now j reason k t w plain) v = resolved-keeps Holds _ _ (
      subst
        (λ m.
          Holds
            (lua_terminal m j.url reason
              (unix_or_zero (until_for j.class s.cfg.quarantine_listing now)) k).1)
        (sym w.member_of)
        (terminal-Inv k v w.number j.url reason
          (unix_or_zero (until_for j.class s.cfg.quarantine_listing now)) plain
          (until_for-Deadline s now j.url j.class t w.class_of_url)))
  Step-Inv (completes now j new_children k t w) v = resolved-keeps Holds _ _ (
      subst
        (λ m.
          Holds
            (lua_complete_listing m j.url new_children (unix now)
              (base_ttl_of s.cfg j.class / second) (s.cfg.listing_max_ttl / second) k).1)
        (sym w.member_of)
        (complete_listing-Inv k v w.number j.url new_children (unix now)
          (base_ttl_of s.cfg j.class / second) (s.cfg.listing_max_ttl / second) t.revisit))
  Step-Inv (reaps now k) v = answered-keeps Holds _ _ (reap-Inv (unix now) reap_batch_limit k v)
  Step-Inv (sweeps k) v = answered-keeps Holds _ _ (sweep-Inv sweep_batch_limit k (omega arith) v)
  Step-Inv (promotes now k) v =
      answered-keeps Holds _ _ (promote-Inv (unix now) promote_batch_limit k v)
  Step-Inv (schedules now k t) v =
      answered-keeps Holds _ _ (
        listing_scheduler-Inv (unix now) s.cfg.scheduler_batch_limit k (omega (arith, t.revisit)) v)

  pub Reach-Inv : {start k : Keyspace r} → Reach s start k → Holds start → Holds k
  Reach-Inv here v = v
  Reach-Inv (next reach move) v = Step-Inv move (Reach-Inv reach v)
