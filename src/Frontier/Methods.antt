-- ===== src/Frontier/Methods.antt =====
-- The methods of redisFrontier in internal/storage/frontier.go. The clock's reading `now` is an
-- argument, in Unix nanoseconds. Redis answers every call; an error is one that a script raised.
use lost_media_finder.Prelude.{
  ℕ, ◌+◌, ◌-◌, ◌/◌, Bool, true, false, ◌&&◌, Option, none, some, List, ◌==◌,
}
use lost_media_finder.Text.{Text, codes}
use lost_media_finder.Redis.{Redis}
use lost_media_finder.Frontier.Types.{
  AdmitResult, FailClass, fail_rate_limited, fail_strikeable, Disposition, UrlClass, class_video,
  class_listing, class_seed, Job, stale_lease, script_error, unexpected_result, Result, ok, err,
  FrontierStats, second, FrontierConfig, pending_score, promote_batch_limit, reap_batch_limit,
  sweep_batch_limit,
}
use lost_media_finder.Frontier.Member.{split_member}
use lost_media_finder.Frontier.Keyspace.{Keyspace, Reply, returned, raised}
use lost_media_finder.Frontier.Scripts.Admit.{lua_lease, lua_admit_video, lua_admit_listing}
use lost_media_finder.Frontier.Scripts.Complete.{
  Answer, answer_stale, answer_ok, answer_dead, answer_delayed, lua_ack, lua_nack, lua_fail,
  lua_terminal, lua_complete_listing,
}
use lost_media_finder.Frontier.Scripts.Reconcile.{
  lua_promote, lua_reap, lua_sweep, lua_listing_scheduler,
}

-- The fields of redisFrontier that the methods read; a missing classifier is nil.
pub record Frontier : Type 0 where
  pub classify : Option (Text → UrlClass)
  pub cfg : FrontierConfig

-- t.Unix()
abbrev pub unix : ℕ → ℕ
unix t = t / second

-- The zero time.Time is `none`.
unfoldable pub unix_or_zero : Option ℕ → ℕ
unix_or_zero none = 0
unix_or_zero (some t) = unix t

unfoldable pub quarantine_until : Frontier → UrlClass → ℕ → ℕ
quarantine_until f class_video now = 0
quarantine_until f class_listing now = unix (now + f.cfg.quarantine_listing)
quarantine_until f class_seed now = unix (now + f.cfg.quarantine_listing)

abbrev pub class_of : Option (Text → UrlClass) → Text → UrlClass
class_of none url = class_listing
class_of (some classify) url = classify url

-- The class strike flag, ladder and reason that Fail chooses.
abbrev pub is_strikeable : FailClass → Bool
is_strikeable fail_rate_limited = false
is_strikeable fail_strikeable = true

abbrev pub ladder_of : FrontierConfig → FailClass → List ℕ
ladder_of cfg fail_rate_limited = cfg.rate_limit_backoff
ladder_of cfg fail_strikeable = cfg.strike_backoff

abbrev pub reason_of : FailClass → Text
reason_of fail_rate_limited = codes "rate_limited"
reason_of fail_strikeable = codes "strikes_exhausted"

abbrev pub base_ttl_of : FrontierConfig → UrlClass → ℕ
base_ttl_of cfg class_video = cfg.listing_base_ttl
base_ttl_of cfg class_listing = cfg.listing_base_ttl
base_ttl_of cfg class_seed = cfg.seed_ttl

module _ {r : Redis} where
  open r use {zadd_nx, llen, zcard, zcount, hlen}

  abbrev pub answered : {A : Type 0} → Reply A × Keyspace r → Result A × Keyspace r
  answered (returned a, k) = (ok a, k)
  answered (raised, k) = (err script_error, k)

  abbrev pub resolved : Reply Answer × Keyspace r → Result (Unit {0}) × Keyspace r
  resolved (returned answer_stale, k) = (err stale_lease, k)
  resolved (returned answer_ok, k) = (ok tt, k)
  resolved (returned answer_dead, k) = (ok tt, k)
  resolved (returned answer_delayed, k) = (ok tt, k)
  resolved (raised, k) = (err script_error, k)

  abbrev pub disposed : Reply Answer × Keyspace r → Result Disposition × Keyspace r
  disposed (returned answer_stale, k) = (err stale_lease, k)
  disposed (returned answer_ok, k) = (err unexpected_result, k)
  disposed (returned answer_dead, k) = (ok Disposition.dead, k)
  disposed (returned answer_delayed, k) = (ok Disposition.delayed, k)
  disposed (raised, k) = (err script_error, k)

  unfoldable pub admit_video : Frontier → ℕ → Text → Keyspace r → Result AdmitResult × Keyspace r
  admit_video f now url k = answered (lua_admit_video url (unix now) k)

  unfoldable pub admit_listing : Frontier → ℕ → Text → Keyspace r → Result AdmitResult × Keyspace r
  admit_listing f now url k = answered (lua_admit_listing url (unix now) pending_score k)

  unfoldable pub seed_listing : Text → Keyspace r → Keyspace r
  seed_listing url k = record k { listing_next = zadd_nx k.listing_next 0 url }

  abbrev pub leased : Frontier → Reply (Option Text) × Keyspace r → Result (Option Job) × Keyspace r
  leased f (returned none, k) = (ok none, k)
  leased f (returned (some member), k) =
      let (id, url) = split_member member in
      (
        ok (some (record { id = id; url = url; class = class_of f.classify url; member = member })),
        k,
      )
  leased f (raised, k) = (err script_error, k)

  unfoldable pub lease : Frontier → ℕ → Keyspace r → Result (Option Job) × Keyspace r
  lease f now k = leased f (lua_lease (unix now) (f.cfg.lease_timeout / second) k)

  unfoldable pub ack : Job → Keyspace r → Result (Unit {0}) × Keyspace r
  ack j k = resolved (lua_ack j.member j.url k)

  unfoldable pub nack : Job → Keyspace r → Result (Unit {0}) × Keyspace r
  nack j k = resolved (lua_nack j.member j.url k)

  unfoldable pub fail :
      Frontier → ℕ → Job → FailClass → Keyspace r → Result Disposition × Keyspace r
  unfolding quarantine_until
  fail f now j class k = disposed (
      lua_fail j.member j.url (is_strikeable class) f.cfg.max_strikes (unix now) (reason_of class)
        (quarantine_until f j.class now) (ladder_of f.cfg class) k)

  unfoldable pub terminal : Job → Text → Option ℕ → Keyspace r → Result (Unit {0}) × Keyspace r
  unfolding unix_or_zero
  terminal j reason until k = resolved (lua_terminal j.member j.url reason (unix_or_zero until) k)

  unfoldable pub complete_listing :
      Frontier → ℕ → Job → ℕ → Keyspace r → Result (Unit {0}) × Keyspace r
  complete_listing f now j new_children k = resolved (
      lua_complete_listing j.member j.url new_children (unix now)
        (base_ttl_of f.cfg j.class / second) (f.cfg.listing_max_ttl / second) k)

  unfoldable pub reap : ℕ → Keyspace r → Result ℕ × Keyspace r
  reap now k = answered (lua_reap (unix now) reap_batch_limit k)

  unfoldable pub sweep : Keyspace r → Result ℕ × Keyspace r
  sweep k = answered (lua_sweep sweep_batch_limit k)

  unfoldable pub promote : ℕ → Keyspace r → Result ℕ × Keyspace r
  promote now k = answered (lua_promote (unix now) promote_batch_limit k)

  unfoldable pub run_listing_scheduler : Frontier → ℕ → Keyspace r → Result ℕ × Keyspace r
  run_listing_scheduler f now k =
      answered (lua_listing_scheduler (unix now) f.cfg.scheduler_batch_limit pending_score k)

  unfoldable pub stats : Keyspace r → FrontierStats
  stats k = record {
    ready = llen k.ready;
    processing = llen k.processing;
    delayed = zcard k.delayed;
    listings_scheduled = zcount k.listing_next 0 (pending_score - 1);
    listings_pending = zcount k.listing_next pending_score pending_score;
    dead = hlen k.dead;
    strikes = hlen k.strikes;
  }

  unfoldable pub idle : Keyspace r → Bool
  unfolding stats
  idle k = let s = stats k in s.ready == 0 && s.processing == 0 && s.delayed == 0
