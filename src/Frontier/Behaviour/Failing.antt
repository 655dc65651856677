-- ===== src/Frontier/Behaviour/Failing.antt =====
-- Fail of internal/storage/frontier.go: strikes, the last strike, and the retry ladder.
use lost_media_finder.Prelude.{
  ℕ, ◌+◌, ◌≤◌, ◌≡◌, none, refl, Bool, true, ◌&&◌, some, List, arith, is_some, get_or, leb,
  if◌then◌else◌,
}
use lost_media_finder.Text.{Text, eq_text_refl}
use lost_media_finder.Redis.{Redis}
use lost_media_finder.Frontier.Types.{
  FailClass, fail_rate_limited, fail_strikeable, Disposition, Job, ok,
}
use lost_media_finder.Frontier.Member.{member, dead_entry}
use lost_media_finder.Frontier.Keyspace.{Keyspace, Reply, returned}
use lost_media_finder.Frontier.Scripts.Complete.{
  Answer, answer_dead, take_lease, leave_processing, forget_failures, bury, count_strike, fail_held,
  lua_fail,
}
use lost_media_finder.Frontier.Behaviour.Quarantine.{Exhausted, quarantine_until-Exhausted}
use lost_media_finder.Frontier.Methods.{
  Frontier, unix, quarantine_until, is_strikeable, ladder_of, reason_of, fail,
}

module _ {r : Redis} where
  -- The strikes of a URL.
  abbrev pub strikes_of : Keyspace r → Text → ℕ
  strikes_of k url = get_or (r.hget k.strikes url) 0

  abbrev pub attempts_of : Keyspace r → Text → ℕ
  attempts_of k url = get_or (r.hget k.attempts url) 0

  -- The failure uses up the last strike.
  abbrev pub is_last_strike : Frontier → Job → FailClass → Keyspace r → Bool
  is_last_strike f j class k = is_strikeable class && leb f.cfg.max_strikes (strikes_of k j.url + 1)

  pub take_lease-held :
      (item : Text) (rest : Keyspace r → Reply Answer × Keyspace r) (k : Keyspace r)
      → is_some (r.zscore k.lease item) ≡ true
      → take_lease item rest k ≡ rest (record k { lease = (r.zrem k.lease item).1 })
  unfolding take_lease
  take_lease-held item rest k h = ground (arith, r.zrem_count k.lease item)

  count_strike_value :
      (url : Text) (class : FailClass) (k : Keyspace r)
      → (count_strike url (is_strikeable class) k).0
        ≡ strikes_of k url + (if is_strikeable class then 1 else 0)
  unfolding count_strike
  count_strike_value url fail_rate_limited k = omega arith
  count_strike_value url fail_strikeable k = r.hincrby_value k.strikes url 1

  -- What the part of luaFail after the lease does to the counters.
  abbrev counted : Text → Bool → Keyspace r → Keyspace r
  counted url inc_strike k = record k {
    attempts = (r.hincrby k.attempts url 1).1;
    strikes = (count_strike url inc_strike k).1;
  }

  fail_held-last :
      (item url : Text) (class : FailClass) (max_strikes now : ℕ) (reason : Text) (until : ℕ)
      (backoff : List ℕ) (k : Keyspace r)
      → (is_strikeable class && leb max_strikes (strikes_of k url + 1)) ≡ true
      → fail_held item url (is_strikeable class) max_strikes now reason until backoff k
        ≡ (returned answer_dead, bury item url reason until (counted url (is_strikeable class) k))
  fail_held-last item url fail_rate_limited max_strikes now reason until backoff k h = absurd (cc h)
  fail_held-last item url fail_strikeable max_strikes now reason until backoff k h =
      unfold fail_held in rw (count_strike_value url fail_strikeable k, h) refl

  fail_last :
      (f : Frontier) (now : ℕ) (j : Job) (k : Keyspace r)
      → is_some (r.zscore k.lease j.member) ≡ true
      → f.cfg.max_strikes ≤ strikes_of k j.url + 1
      → fail f now j fail_strikeable k ≡ (
        ok Disposition.dead,
        bury j.member j.url
            (reason_of fail_strikeable)
            (quarantine_until f j.class now)
            (counted j.url true (record k { lease = (r.zrem k.lease j.member).1 })),
      )
  unfolding fail lua_fail
  fail_last f now j k h last =
      rw
        (
          take_lease-held j.member
              (fail_held j.member j.url true f.cfg.max_strikes (unix now)
                (reason_of fail_strikeable) (quarantine_until f j.class now)
                (ladder_of f.cfg fail_strikeable))
              k h,
          fail_held-last j.member j.url fail_strikeable f.cfg.max_strikes (unix now)
              (reason_of fail_strikeable) (quarantine_until f j.class now)
              (ladder_of f.cfg fail_strikeable) (record k { lease = (r.zrem k.lease j.member).1 })
              (ground arith),
        )
        refl

  -- Where the lease is held, the failure counts as a strike and it is the last one allowed, Fail
  -- returns Dead, records "strikes_exhausted" with deadline 0 for a video and with the end of the
  -- quarantine in seconds for any other URL, resets both counters, and leaves no lease.
  pub fail-last_strike :
      (f : Frontier) (now : ℕ) (j : Job) (k : Keyspace r)
      → is_some (r.zscore k.lease j.member) ≡ true
      → f.cfg.max_strikes ≤ strikes_of k j.url + 1
      → ((fail f now j fail_strikeable k).0 ≡ ok Disposition.dead)
        × ((entry : Text) × (r.hget (fail f now j fail_strikeable k).1.dead j.url ≡ some entry)
            × Exhausted f now j.class entry)
        × (strikes_of (fail f now j fail_strikeable k).1 j.url ≡ 0)
        × (attempts_of (fail f now j fail_strikeable k).1 j.url ≡ 0)
        × (r.zscore (fail f now j fail_strikeable k).1.lease j.member ≡ none)
  fail-last_strike f now j k h last = rw (fail_last f now j k h last) (
      unfold bury forget_failures leave_processing in
      (
        refl,
        (entry, stored, quarantine_until-Exhausted f now j.class),
        ground (arith, r.hget-hdel after.strikes j.url j.url, eq_text_refl j.url),
        ground (arith, r.hget-hdel after.attempts j.url j.url, eq_text_refl j.url),
        ground (arith, r.zscore-zrem k.lease j.member j.member, eq_text_refl j.member),
      ))
    where
      entry : Text
      entry = dead_entry (reason_of fail_strikeable) (quarantine_until f j.class now)

      after : Keyspace r
      after = counted j.url true (record k { lease = (r.zrem k.lease j.member).1 })

      stored : r.hget (r.hset k.dead j.url entry) j.url ≡ some entry
      stored = ground (arith, r.hget-hset k.dead j.url j.url entry, eq_text_refl j.url)
