-- ===== src/Frontier/Scripts/Complete.antt =====
-- luaAck, luaNack, luaFail, luaTerminal and luaCompleteListing of internal/storage/frontier.go: the
-- scripts that resolve a leased job. Each begins by taking the lease, and is stale without one.
use lost_media_finder.Prelude.{
  ℕ, ◌+◌, ◌*◌, ◌^◌, Bool, ◌&&◌, none, some, List, ◌∷◌, ◌==◌, ltb, leb, get_or, get_elem?, length,
  if◌then◌else◌,
}
use lost_media_finder.Text.{Text}
use lost_media_finder.Redis.{Redis}
use lost_media_finder.Frontier.Member.{member, dead_entry}
use lost_media_finder.Frontier.Keyspace.{Keyspace, returned, raised, Script, push_job}

-- The strings that these scripts return: 'STALE', 'OK', 'DEAD' and 'DELAYED'.
pub data Answer : Type 0 where
  answer_stale answer_ok answer_dead answer_delayed : Answer

-- The first of the two numbers, but at most the second.
abbrev pub clamp : ℕ → ℕ → ℕ
clamp a limit = if ltb limit a then limit else a

-- baseTTL doubled once for each barren visit, clamped at maxTTL.
abbrev pub backoff_ttl : ℕ → ℕ → ℕ → ℕ
backoff_ttl base_ttl max_ttl barren = clamp (base_ttl * 2 ^ barren) max_ttl

module _ {r : Redis} where
  open r use {incr, lrem, hget, hset, hdel, hincrby, zadd, zrem}

  -- if redis.call('ZREM', lease, item) == 0 then return 'STALE' end, before the rest of a script.
  unfoldable pub take_lease : Text → Script r Answer → Script r Answer
  take_lease item rest k =
      let (removed, lease) = zrem k.lease item in
      let k' = record k { lease = lease } in
      if removed == 0 then (returned answer_stale, k') else rest k'

  -- LREM processing 1 item
  unfoldable pub leave_processing : Text → Keyspace r → Keyspace r
  leave_processing item k = record k { processing = lrem k.processing item }

  -- HDEL attempts url, HDEL strikes url
  unfoldable pub forget_failures : Text → Keyspace r → Keyspace r
  forget_failures url k = record k { attempts = hdel k.attempts url; strikes = hdel k.strikes url }

  -- Each script's part after the lease is taken is a definition of its own, named `_held`.
  unfoldable pub ack_held : Text → Text → Script r Answer
  unfolding leave_processing forget_failures
  ack_held item url k = (returned answer_ok, forget_failures url (leave_processing item k))

  unfoldable pub lua_ack : Text → Text → Script r Answer
  unfolding take_lease ack_held
  lua_ack item url = take_lease item (ack_held item url)

  unfoldable pub nack_held : Text → Text → Script r Answer
  unfolding leave_processing push_job
  nack_held item url k = (returned answer_ok, leave_processing item (push_job url k))

  unfoldable pub lua_nack : Text → Text → Script r Answer
  unfolding take_lease nack_held
  lua_nack item url = take_lease item (nack_held item url)

  -- The end of luaTerminal, and of luaFail at the last strike.
  unfoldable pub bury : Text → Text → Text → ℕ → Keyspace r → Keyspace r
  unfolding leave_processing forget_failures dead_entry
  bury item url reason until k =
      let next = if ltb 0 until then zadd k.listing_next until url else k.listing_next in
      let k' = record k { listing_next = next; dead = hset k.dead url (dead_entry reason until) } in
      forget_failures url (leave_processing item k')

  unfoldable pub terminal_held : Text → Text → Text → ℕ → Script r Answer
  unfolding bury
  terminal_held item url reason until k = (returned answer_ok, bury item url reason until k)

  unfoldable pub lua_terminal : Text → Text → Text → ℕ → Script r Answer
  unfolding take_lease terminal_held
  lua_terminal item url reason until = take_lease item (terminal_held item url reason until)

  -- The new barren count.
  unfoldable pub count_barren : Text → ℕ → Keyspace r → ℕ × r.Hash ℕ
  count_barren url new_children k =
      if ltb 0 new_children
      then (0, hset k.listing_barren url 0)
      else hincrby k.listing_barren url 1

  unfoldable pub complete_held : Text → Text → ℕ → ℕ → ℕ → ℕ → Script r Answer
  unfolding leave_processing forget_failures count_barren
  complete_held item url new_children now base_ttl max_ttl k =
      let (barren, counts) = count_barren url new_children k in
      let due = now + backoff_ttl base_ttl max_ttl barren in
      let k' = record k {
        listing_barren = counts;
        listing_next = zadd k.listing_next due url;
        dead = hdel k.dead url;
      } in
      (returned answer_ok, forget_failures url (leave_processing item k'))

  unfoldable pub lua_complete_listing : Text → Text → ℕ → ℕ → ℕ → ℕ → Script r Answer
  unfolding take_lease complete_held
  lua_complete_listing item url new_children now base_ttl max_ttl =
      take_lease item (complete_held item url new_children now base_ttl max_ttl)

  -- strikes, with one more if the failure counts
  unfoldable pub count_strike : Text → Bool → Keyspace r → ℕ × r.Hash ℕ
  count_strike url inc_strike k =
      if inc_strike then hincrby k.strikes url 1 else (get_or (hget k.strikes url) 0, k.strikes)

  -- The delayed path of luaFail. `dead_until ∷ backoff` is ARGV from position 7 on.
  unfoldable pub delay_job : Text → Text → ℕ → ℕ → ℕ → List ℕ → Script r Answer
  unfolding leave_processing member
  delay_job item url attempts now dead_until backoff k =
      let id = incr k.job_seq in
      let k' = record k { job_seq = id } in
      elim (get_elem? (dead_until ∷ backoff) (clamp attempts (length backoff))) [
        | none ↦ (raised, k')
        | some delay ↦ (
          returned answer_delayed,
          leave_processing item
              (record k' { delayed = zadd k'.delayed (now + delay) (member id url) }),
        )
      ]

  unfoldable pub fail_held : Text → Text → Bool → ℕ → ℕ → Text → ℕ → List ℕ → Script r Answer
  unfolding count_strike bury delay_job
  fail_held item url inc_strike max_strikes now reason dead_until backoff k =
      let (attempts, attempt_counts) = hincrby k.attempts url 1 in
      let (strikes, strike_counts) = count_strike url inc_strike k in
      let k' = record k { attempts = attempt_counts; strikes = strike_counts } in
      if inc_strike && leb max_strikes strikes
      then (returned answer_dead, bury item url reason dead_until k')
      else delay_job item url attempts now dead_until backoff k'

  unfoldable pub lua_fail : Text → Text → Bool → ℕ → ℕ → Text → ℕ → List ℕ → Script r Answer
  unfolding take_lease fail_held
  lua_fail item url inc_strike max_strikes now reason dead_until backoff =
      take_lease item (fail_held item url inc_strike max_strikes now reason dead_until backoff)
