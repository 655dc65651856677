-- ===== src/Frontier/Scripts/Reconcile.antt =====
-- luaPromote, luaReap, luaSweep and luaListingScheduler of internal/storage/frontier.go: the
-- scripts of the reconcilers, each one loop over a page of due entries.
use lost_media_finder.Prelude.{ℕ, none, some, ◌==◌, ltb, length, is_some, if◌then◌else◌}
use lost_media_finder.Text.{Text}
use lost_media_finder.Redis.{Redis}
use lost_media_finder.Frontier.Member.{after_separator, dead_until}
use lost_media_finder.Frontier.Keyspace.{
  Keyspace, Reply, returned, raised, Script, ◌>>=◌, push_job, for_each,
}

module _ {r : Redis} where
  open r use {lrem, lrange_last, hget, hdel, zadd, zrem, zscore, zrange_by_score}

  unfoldable pub promote_one : Text → Script r ℕ
  unfolding push_job after_separator
  promote_one item k = elim (after_separator item) [
    | none ↦ (raised, k)
    | some url ↦
        let pushed = push_job url k in
        (returned 1, record pushed { delayed = (zrem pushed.delayed item).1 })
  ]

  -- The result is #due, whatever the iterations count.
  unfoldable pub lua_promote : ℕ → ℕ → Script r ℕ
  unfolding promote_one for_each
  lua_promote now limit k =
      let due = zrange_by_score k.delayed now limit in
      for_each promote_one due 0 k >>= λ _ k'. (returned (length due), k')

  unfoldable pub reap_one : Text → Script r ℕ
  unfolding push_job after_separator
  reap_one item k =
      let (removed, lease) = zrem k.lease item in
      let k' = record k { lease = lease } in
      let reclaimed : Reply ℕ × Keyspace r = elim (after_separator item) [
        | none ↦ (raised, k')
        | some url ↦
            let pushed = push_job url k' in
            (returned 1, record pushed { processing = lrem pushed.processing item })
      ] in
      if removed == 1 then reclaimed else (returned 0, k')

  unfoldable pub lua_reap : ℕ → ℕ → Script r ℕ
  unfolding reap_one for_each
  lua_reap now limit k = for_each reap_one (zrange_by_score k.lease now limit) 0 k

  unfoldable pub sweep_one : Text → Script r ℕ
  unfolding push_job after_separator
  sweep_one item k =
      let reclaimed : Reply ℕ × Keyspace r = elim (after_separator item) [
        | none ↦ (raised, k)
        | some url ↦
            let pushed = push_job url k in
            (returned 1, record pushed { processing = lrem pushed.processing item })
      ] in
      if is_some (zscore k.lease item) then (returned 0, k) else reclaimed

  unfoldable pub lua_sweep : ℕ → Script r ℕ
  unfolding sweep_one for_each
  lua_sweep limit k = for_each sweep_one (lrange_last k.processing limit) 0 k

  -- A due listing that is not blocked.
  unfoldable pub admit_due : ℕ → Text → Script r ℕ
  unfolding push_job
  admit_due pending url k =
      let pushed = push_job url k in
      (returned 1, record pushed { listing_next = zadd pushed.listing_next pending url })

  unfoldable pub schedule_one : ℕ → ℕ → Text → Script r ℕ
  unfolding admit_due dead_until
  schedule_one now pending url k = elim (hget k.dead url) [
    | none ↦ admit_due pending url k
    | some d ↦ elim (dead_until d) [
      | none ↦ (raised, k)
      | some until ↦
          if until == 0
          then (returned 0, record k { listing_next = (zrem k.listing_next url).1 })
          else if ltb now until
          then (returned 0, record k { listing_next = zadd k.listing_next until url })
          else admit_due pending url (record k { dead = hdel k.dead url })
    ]
  ]

  unfoldable pub lua_listing_scheduler : ℕ → ℕ → ℕ → Script r ℕ
  unfolding schedule_one for_each
  lua_listing_scheduler now limit pending k =
      for_each (schedule_one now pending) (zrange_by_score k.listing_next now limit) 0 k
