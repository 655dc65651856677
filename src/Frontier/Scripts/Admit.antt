-- ===== src/Frontier/Scripts/Admit.antt =====
-- luaAdmitVideo, luaAdmitListing and luaLease of internal/storage/frontier.go.
use lost_media_finder.Prelude.{ℕ, ◌+◌, Bool, ◌||◌, Option, none, some, ◌==◌, ltb, if◌then◌else◌}
use lost_media_finder.Text.{Text}
use lost_media_finder.Redis.{Redis, added, present, full}
use lost_media_finder.Frontier.Types.{AdmitResult, suppressed, new, due_revisit}
use lost_media_finder.Frontier.Member.{member, dead_until}
use lost_media_finder.Frontier.Keyspace.{returned, raised, Script, push_job}

-- if until_ts == 0 or until_ts > now then return 0 end
abbrev pub is_blocked : ℕ → ℕ → Bool
is_blocked now until = until == 0 || ltb now until

module _ {r : Redis} where
  open r use {lmove, lrem, hget, hdel, zadd, zscore, bf_add}

  unfoldable pub lua_lease : ℕ → ℕ → Script r (Option Text)
  lua_lease now lease_timeout k = elim (lmove k.ready k.processing) [
    | none ↦ (returned none, k)
    | some (item, ready, processing) ↦ (
      returned (some item),
      record k {
        ready = ready;
        processing = processing;
        lease = zadd k.lease (now + lease_timeout) item;
      },
    )
  ]

  -- local d = redis.call('HGET', dead, url) ... end, before the rest of an admission script.
  unfoldable pub check_dead : Text → ℕ → Script r AdmitResult → Script r AdmitResult
  unfolding dead_until
  check_dead url now rest k = elim (hget k.dead url) [
    | none ↦ rest k
    | some d ↦ elim (dead_until d) [
      | none ↦ (raised, k)
      | some until ↦
          if is_blocked now until
          then (returned suppressed, k)
          else rest (record k { dead = hdel k.dead url })
    ]
  ]

  -- The part of luaAdmitVideo after the dead check.
  unfoldable pub admit_live_video : Text → Script r AdmitResult
  unfolding push_job
  admit_live_video url k =
      let pushed = push_job url k in
      let item = member pushed.job_seq url in
      let (reply, bloom) = bf_add pushed.bloom url in
      let claimed = record pushed { bloom = bloom } in
      elim reply [
        | full ↦ (raised, claimed)
        | present ↦ (returned suppressed, record claimed { ready = lrem claimed.ready item })
        | added ↦ (returned new, claimed)
      ]

  unfoldable pub lua_admit_video : Text → ℕ → Script r AdmitResult
  unfolding check_dead admit_live_video
  lua_admit_video url now = check_dead url now (admit_live_video url)

  -- The part of luaAdmitListing after the dead check.
  unfoldable pub admit_live_listing : Text → ℕ → ℕ → Script r AdmitResult
  unfolding push_job
  admit_live_listing url now pending k =
      let pushed = push_job url k in
      let claimed = record pushed { listing_next = zadd pushed.listing_next pending url } in
      elim (zscore k.listing_next url) [
        | none ↦ (returned new, claimed)
        | some prev ↦
            if ltb now prev then (returned suppressed, k) else (returned due_revisit, claimed)
      ]

  unfoldable pub lua_admit_listing : Text → ℕ → ℕ → Script r AdmitResult
  unfolding check_dead admit_live_listing
  lua_admit_listing url now pending = check_dead url now (admit_live_listing url now pending)
