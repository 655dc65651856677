-- ===== src/Frontier/Fencing.antt =====
-- The fencing of internal/storage/frontier.go: who has no lease cannot resolve a job.
use lost_media_finder.Prelude.{
  ℕ, ◌/◌, ◌≡◌, Bool, Option, none, some, List, ◌∷◌, ◌&&◌, leb, get_elem?, length, arith, Bool-cases,
  Option-cases, inl, inr,
}
use lost_media_finder.Text.{Text, eq_text_refl}
use lost_media_finder.Redis.{Redis}
use lost_media_finder.Frontier.Types.{
  FailClass, Job, FrontierError, stale_lease, Result, ok, err, second,
}
use lost_media_finder.Frontier.Keyspace.{Keyspace, returned, Script}
use lost_media_finder.Frontier.Scripts.Complete.{
  Answer, answer_stale, clamp, take_lease, ack_held, nack_held, terminal_held, complete_held,
  fail_held, delay_job, count_strike, lua_ack, lua_nack, lua_fail, lua_terminal,
  lua_complete_listing,
}
use lost_media_finder.Frontier.Scripts.Rules.{take_lease-keeps}
use lost_media_finder.Frontier.Methods.{
  Frontier, unix, unix_or_zero, quarantine_until, is_strikeable, ladder_of, reason_of, base_ttl_of,
  ack, nack, fail, terminal, complete_listing,
}
use lost_media_finder.Frontier.Replies.{resolved-keeps, disposed-keeps}

-- The calls that resolve a leased job.
pub data Resolution : Type 0 where
  acked nacked : Resolution
  failed : ℕ → FailClass → Resolution
  terminated : Text → Option ℕ → Resolution
  completed : ℕ → ℕ → Resolution

abbrev pub error_of : {A : Type 0} → Result A → Option FrontierError
error_of (ok a) = none
error_of (err e) = some e

module _ {r : Redis} where
  abbrev pub with_error : {A : Type 0} → Result A × Keyspace r → Option FrontierError × Keyspace r
  with_error (a, k) = (error_of a, k)

  -- The error that a call returns, and the state that it leaves.
  unfoldable pub resolve_job :
      Frontier → Resolution → Job → Keyspace r → Option FrontierError × Keyspace r
  unfolding ack nack fail terminal complete_listing
  resolve_job f acked j k = with_error (ack j k)
  resolve_job f nacked j k = with_error (nack j k)
  resolve_job f (failed now class) j k = with_error (fail f now j class k)
  resolve_job f (terminated reason until) j k = with_error (terminal j reason until k)
  resolve_job f (completed now n) j k = with_error (complete_listing f now j n k)

  take_lease-stale :
      (item : Text) (rest : Script r Answer) (k : Keyspace r)
      → r.zscore k.lease item ≡ none
      → take_lease item rest k ≡ (returned answer_stale, k)
  unfolding take_lease
  take_lease-stale item rest k h =
      ground (arith, r.zrem_count k.lease item, r.zrem_absent k.lease item h)

  -- Without a live lease every resolution returns ErrStaleLease and changes nothing.
  pub resolve_job-stale :
      (f : Frontier) (how : Resolution) (j : Job) (k : Keyspace r)
      → r.zscore k.lease j.member ≡ none
      → resolve_job f how j k ≡ (some stale_lease, k)
  unfolding resolve_job lua_ack lua_nack lua_fail lua_terminal lua_complete_listing
  resolve_job-stale f acked j k h = rw (take_lease-stale j.member (ack_held j.member j.url) k h)
  resolve_job-stale f nacked j k h = rw (take_lease-stale j.member (nack_held j.member j.url) k h)
  resolve_job-stale f (failed now class) j k h = rw (
      take_lease-stale j.member
        (fail_held j.member j.url (is_strikeable class) f.cfg.max_strikes (unix now)
          (reason_of class) (quarantine_until f j.class now) (ladder_of f.cfg class))
        k h)
  resolve_job-stale f (terminated reason until) j k h =
      rw (take_lease-stale j.member (terminal_held j.member j.url reason (unix_or_zero until)) k h)
  resolve_job-stale f (completed now n) j k h = rw (
      take_lease-stale j.member
        (complete_held j.member j.url n (unix now) (base_ttl_of f.cfg j.class / second)
          (f.cfg.listing_max_ttl / second))
        k h)

  abbrev pub Unleased : Text → Keyspace r → Type 0
  Unleased m k = r.zscore k.lease m ≡ none

  zrem-Unleased : (m : Text) (k : Keyspace r) → r.zscore (r.zrem k.lease m).1 m ≡ none
  zrem-Unleased m k = ground (arith, r.zscore-zrem k.lease m m, eq_text_refl m)

  take_lease-Unleased :
      (item : Text) (rest : Script r Answer) (k : Keyspace r)
      → Unleased item (rest (record k { lease = (r.zrem k.lease item).1 })).1
      → Unleased item (take_lease item rest k).1
  take_lease-Unleased item rest k h =
      take_lease-keeps (Unleased item) item rest k (λ _. zrem-Unleased item k) (λ _. h)

  fail-Unleased :
      (item url : Text) (inc_strike : Bool) (max_strikes now : ℕ) (reason : Text) (until : ℕ)
      (backoff : List ℕ) (k : Keyspace r)
      → Unleased item (lua_fail item url inc_strike max_strikes now reason until backoff k).1
  unfolding lua_fail
  fail-Unleased item url inc_strike max_strikes now reason until backoff k =
      take_lease-Unleased item (fail_held item url inc_strike max_strikes now reason until backoff)
        k
        (elim (Bool-cases (inc_strike && leb max_strikes (count_strike url inc_strike k).0)) [
          | inl e ↦ rw e (zrem-Unleased item k)
          | inr e ↦
              rw e
                (elim (Option-cases (
                  get_elem? (until ∷ backoff)
                    (clamp (r.hincrby k.attempts url 1).0 (length backoff)))) [
                      | inl f ↦ rw (f, delay_job) (zrem-Unleased item k)
                      | inr (delay, f) ↦ rw (f, delay_job) (zrem-Unleased item k)
                    ])
        ])

  pub resolve_job-Unleased :
      (f : Frontier) (how : Resolution) (j : Job) (k : Keyspace r)
      → Unleased j.member (resolve_job f how j k).1
  unfolding resolve_job lua_ack lua_nack lua_terminal lua_complete_listing
  resolve_job-Unleased f acked j k =
      resolved-keeps (Unleased j.member) _ _
        (take_lease-Unleased j.member (ack_held j.member j.url) k (zrem-Unleased j.member k))
  resolve_job-Unleased f nacked j k =
      resolved-keeps (Unleased j.member) _ _
        (take_lease-Unleased j.member (nack_held j.member j.url) k (zrem-Unleased j.member k))
  resolve_job-Unleased f (failed now class) j k = disposed-keeps (Unleased j.member) _ _ (
      fail-Unleased j.member j.url (is_strikeable class) f.cfg.max_strikes (unix now)
        (reason_of class) (quarantine_until f j.class now) (ladder_of f.cfg class) k)
  resolve_job-Unleased f (terminated reason until) j k = resolved-keeps (Unleased j.member) _ _ (
      take_lease-Unleased j.member (terminal_held j.member j.url reason (unix_or_zero until)) k
        (zrem-Unleased j.member k))
  resolve_job-Unleased f (completed now n) j k = resolved-keeps (Unleased j.member) _ _ (
      take_lease-Unleased j.member
        (complete_held j.member j.url n (unix now) (base_ttl_of f.cfg j.class / second)
          (f.cfg.listing_max_ttl / second))
        k (zrem-Unleased j.member k))

  -- After a job's resolution, of any kind and with any result, a second one of any kind returns
  -- ErrStaleLease and changes nothing.
  pub resolved_once :
      (f : Frontier) (first again : Resolution) (j : Job) (k : Keyspace r)
      → resolve_job f again j (resolve_job f first j k).1
        ≡ (some stale_lease, (resolve_job f first j k).1)
  resolved_once f first again j k =
      resolve_job-stale f again j (resolve_job f first j k).1 (resolve_job-Unleased f first j k)
