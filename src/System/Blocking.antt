-- ===== src/System/Blocking.antt =====
-- What Terminal of internal/storage/frontier.go makes of a URL, up to the deadline and after it.
use lost_media_finder.Prelude.{
  ℕ, Option, ◌≡◌, ◌<◌, refl, true, false, none, some, arith, ltb, is_some, Bool-cases, inl, inr,
  ◌⊎◌, ◌≤◌,
}
use lost_media_finder.Text.{Text, eq_text_refl}
use lost_media_finder.Text.Search.{index_byte}
use lost_media_finder.Redis.{Redis}
use lost_media_finder.Redis.Laws.{BloomReply-cases}
use lost_media_finder.Frontier.Types.{AdmitResult, Job, suppressed, due_revisit, ok, pending_score}
use lost_media_finder.Frontier.Member.{separator, dead_entry, dead_until-dead_entry}
use lost_media_finder.Frontier.Keyspace.{Keyspace, Reply, returned, raised, Script, push_job}
use lost_media_finder.Frontier.Scripts.Admit.{
  is_blocked, check_dead, admit_live_video, lua_admit_video, admit_live_listing, lua_admit_listing,
}
use lost_media_finder.Frontier.Scripts.Complete.{
  forget_failures, leave_processing, bury, terminal_held, lua_terminal,
}
use lost_media_finder.Frontier.Methods.{
  Frontier, unix, unix_or_zero, admit_video, admit_listing, terminal, answered,
}
use lost_media_finder.Frontier.Behaviour.Failing.{take_lease-held}

module _ {r : Redis} where
  check_dead-blocked :
      (url reason : Text) (until now : ℕ) (rest : Script r AdmitResult) (k : Keyspace r)
      → r.hget k.dead url ≡ some (dead_entry reason until)
      → index_byte reason separator ≡ none
      → is_blocked now until ≡ true
      → check_dead url now rest k ≡ (returned suppressed, k)
  unfolding check_dead
  check_dead-blocked url reason until now rest k entry plain blocked =
      rw (entry, check_dead, dead_until-dead_entry reason until plain, blocked) refl

  terminal-buries :
      (j : Job) (reason : Text) (until : Option ℕ) (k : Keyspace r)
      → is_some (r.zscore k.lease j.member) ≡ true
      → r.hget (terminal j reason until k).1.dead j.url
        ≡ some (dead_entry reason (unix_or_zero until))
  unfolding terminal lua_terminal
  terminal-buries j reason until k h =
      rw (take_lease-held j.member (terminal_held j.member j.url reason (unix_or_zero until)) k h) (
        unfold bury terminal_held forget_failures leave_processing in
        ground (
          arith,
          r.hget-hset k.dead j.url j.url (dead_entry reason (unix_or_zero until)),
          eq_text_refl j.url,
        ))

  check_dead-over :
      (url reason : Text) (until now : ℕ) (rest : Script r AdmitResult) (k : Keyspace r)
      → r.hget k.dead url ≡ some (dead_entry reason until)
      → index_byte reason separator ≡ none
      → is_blocked now until ≡ false
      → check_dead url now rest k ≡ rest (record k { dead = r.hdel k.dead url })
  unfolding check_dead
  check_dead-over url reason until now rest k entry plain over =
      rw (entry, check_dead, dead_until-dead_entry reason until plain, over) refl

  terminal-schedules :
      (j : Job) (reason : Text) (t : ℕ) (k : Keyspace r)
      → is_some (r.zscore k.lease j.member) ≡ true
      → 0 < unix t
      → r.zscore (terminal j reason (some t) k).1.listing_next j.url ≡ some (unix t)
  unfolding terminal lua_terminal unix_or_zero
  terminal-schedules j reason t k h pos =
      rw (take_lease-held j.member (terminal_held j.member j.url reason (unix t)) k h) (
        unfold bury terminal_held forget_failures leave_processing in
        ground (arith, r.zscore-zadd k.listing_next (unix t) j.url j.url, eq_text_refl j.url))

  admit_live_video-dead : (url : Text) (k : Keyspace r) → (admit_live_video url k).1.dead ≡ k.dead
  unfolding admit_live_video push_job
  admit_live_video-dead url k = elim (BloomReply-cases (r.bf_add k.bloom url).0) [
    | inl e ↦ rw (e, admit_live_video) refl
    | inr (inl e) ↦ rw (e, admit_live_video) refl
    | inr (inr e) ↦ rw (e, admit_live_video) refl
  ]

  answered-state : {A : Type 0} (x : Reply A × Keyspace r) → (answered x).1 ≡ x.1
  answered-state (returned a, k) = refl
  answered-state (raised, k) = refl

  -- Both admissions of the URL return Suppressed and change nothing.
  abbrev pub Refuses : Frontier → ℕ → Text → Keyspace r → Type 0
  Refuses f now url k =
      (admit_video f now url k ≡ (ok suppressed, k))
      × (admit_listing f now url k ≡ (ok suppressed, k))

  -- Both admissions of the URL forget its dead entry, and AdmitListing makes a new job of it.
  abbrev pub Readmits : Frontier → ℕ → Text → Keyspace r → Type 0
  Readmits f now url k =
      (r.hget (admit_video f now url k).1.dead url ≡ none)
      × ((admit_listing f now url k).0 ≡ ok due_revisit)
      × (r.hget (admit_listing f now url k).1.dead url ≡ none)

  module _ (f : Frontier) (url reason : Text) (until later : ℕ) (k : Keyspace r)
      (entry : r.hget k.dead url ≡ some (dead_entry reason until))
      (plain : index_byte reason separator ≡ none) where
    blocked : is_blocked (unix later) until ≡ true → Refuses f later url k
    unfolding admit_video admit_listing lua_admit_video lua_admit_listing
    blocked h = (
      rw (check_dead-blocked url reason until (unix later) (admit_live_video url) k entry plain h)
          refl,
      rw
          (check_dead-blocked url reason until (unix later)
            (admit_live_listing url (unix later) pending_score) k entry plain h)
          refl,
    )

    forgotten : Keyspace r
    forgotten = record k { dead = r.hdel k.dead url }

    without : r.hget forgotten.dead url ≡ none
    unfolding forgotten
    without = ground (arith, r.hget-hdel k.dead url url, eq_text_refl url)

    readmitted :
        is_blocked (unix later) until ≡ false
        → r.zscore k.listing_next url ≡ some until
        → Readmits f later url k
    unfolding admit_video admit_listing lua_admit_video lua_admit_listing admit_live_listing
        forgotten push_job
    readmitted h due = (
      rw
          (
            check_dead-over url reason until (unix later) (admit_live_video url) k entry plain h,
            answered-state (admit_live_video url forgotten),
            admit_live_video-dead url forgotten,
          )
          without,
      rw
          (
            check_dead-over url reason until (unix later)
                (admit_live_listing url (unix later) pending_score) k entry plain h,
            due,
            admit_live_listing,
            passed,
          )
          refl,
      rw
          (
            check_dead-over url reason until (unix later)
                (admit_live_listing url (unix later) pending_score) k entry plain h,
            due,
            admit_live_listing,
            passed,
          )
          without,
    )
      where
        passed : ltb (unix later) until ≡ false
        passed = ground (arith, h)

  -- After Terminal on a leased job, the URL is blocked for good where there is no deadline, and up to
  -- the deadline, to the second, where there is one after 1970: before it AdmitVideo and AdmitListing
  -- both return Suppressed and change nothing; from it on both forget the dead entry, and AdmitListing
  -- returns DueRevisit.
  pub terminal-blocks :
      (f : Frontier) (j : Job) (reason : Text) (until : Option ℕ) (later : ℕ) (k : Keyspace r)
      → is_some (r.zscore k.lease j.member) ≡ true
      → index_byte reason separator ≡ none
      → ((t : ℕ) → until ≡ some t → 0 < unix t)
      → (((until ≡ none) ⊎ ((t : ℕ) × (until ≡ some t) × (unix later < unix t)))
          × Refuses f later j.url (terminal j reason until k).1)
        ⊎ (((t : ℕ) × (until ≡ some t) × (unix t ≤ unix later))
            × Readmits f later j.url (terminal j reason until k).1)
  unfolding unix_or_zero
  terminal-blocks f j reason none later k h plain dated = inl (
    inl refl,
    blocked f j.url reason 0 later (terminal j reason none k).1 (terminal-buries j reason none k h)
        plain refl,
  )
  terminal-blocks f j reason (some t) later k h plain dated =
      elim (Bool-cases (ltb (unix later) (unix t))) [
        | inl early ↦ inl (
          inr (t, refl, ground (arith, early)),
          blocked f j.url reason (unix t) later (terminal j reason (some t) k).1
              (terminal-buries j reason (some t) k h) plain (ground (arith, early)),
        )
        | inr over ↦ inr (
          (t, refl, ground (arith, over)),
          readmitted f j.url reason (unix t) later (terminal j reason (some t) k).1
              (terminal-buries j reason (some t) k h) plain (ground (arith, over, dated t refl))
              (terminal-schedules j reason t k h (dated t refl)),
        )
      ]
