-- ===== src/System/Serving.antt =====
-- No ready job starves: Lease, in internal/storage/frontier.go, takes the oldest ready job first, and
-- no call puts another one before it.
use lost_media_finder.Prelude.{
  ℕ, ◌+◌, ◌<◌, ◌≡◌, ◌⊎◌, inl, inr, refl, ap, Bool, true, false, some, List, [], ◌∷◌, ◌++◌, arith,
  bit, length, length-append,
}
use lost_media_finder.Text.{Text}
use lost_media_finder.Redis.{Redis}
use lost_media_finder.Redis.Laws.{snoc_cases}
use lost_media_finder.Frontier.Types.{Job, ok}
use lost_media_finder.Frontier.Keyspace.{Keyspace}
use lost_media_finder.Frontier.Scripts.Admit.{lua_lease}
use lost_media_finder.Frontier.Methods.{unix, lease, seed_listing}
use lost_media_finder.Frontier.Calls.{
  admit_video-keeps, admit_listing-keeps, promote-keeps, reap-keeps, sweep-keeps,
  run_listing_scheduler-keeps,
}
use lost_media_finder.System.Defs.{
  Setup, frontier, Step, Reach, admits_video, admits_listing, seeds, changes_bloom, leases, acks,
  nacks, fails, terminates, completes, reaps, sweeps, promotes, schedules, here, next,
}
use lost_media_finder.System.Queueing.{
  Waits, promote_one-Waits, reap_one-Waits, sweep_one-Waits, admit_live_video-Waits,
  admit_live_listing-Waits, schedule_one-Waits, ack-Waits, nack-Waits, terminal-Waits,
  complete_listing-Waits, fail-Waits,
}

append_cons_assoc : (l m : List Text) (x y : Text) → l ++ x ∷ (m ++ y ∷ []) ≡ (l ++ x ∷ m) ++ y ∷ []
append_cons_assoc [] m x y = refl
append_cons_assoc (a ∷ l) m x y = ap (λ t. a ∷ t) (append_cons_assoc l m x y)

module _ {r : Redis} (s : Setup) where
  abbrev pub is_lease : {k k' : Keyspace r} → Step s k k' → Bool
  is_lease (leases now k) = true
  is_lease _ = false

  -- How many of the calls are Lease.
  abbrev pub leases_in : {start k : Keyspace r} → Reach s start k → ℕ
  leases_in here = 0
  leases_in (next reach move) = leases_in reach + bit (is_lease move)

module _ {r : Redis} (s : Setup) (m : Text) where
  -- The call is a Lease that returns the member.
  abbrev pub Takes : {k k' : Keyspace r} → Step s k k' → Type 0
  Takes (leases now k) = (j : Job) × ((lease (frontier s) now k).0 ≡ ok (some j)) × (j.member ≡ m)
  Takes _ = ⊥

  -- One of the calls does.
  abbrev pub Serves : {start k : Keyspace r} → Reach s start k → Type 0
  Serves here = ⊥
  Serves (next reach move) = Serves reach ⊎ Takes move

  -- The member waits behind `n` jobs fewer.
  abbrev Advanced : List Text → ℕ → Keyspace r → Type 0
  Advanced after n k = (after' : List Text) × Waits m after' k × (length after' + n ≡ length after)

  -- LMOVE takes the member if it is the last of ready, and else the last of those after it.
  takes_member :
      (k : Keyspace r) (before after : List Text)
      → k.ready ≡ before ++ m ∷ after
      → after ≡ []
      → r.lmove k.ready k.processing ≡ some (m, before, m ∷ k.processing)
  takes_member k before after e f = rw (e, f) (r.lmove-snoc before k.processing m)

  takes_other :
      (k : Keyspace r) (before after init : List Text) (x : Text)
      → k.ready ≡ before ++ m ∷ after
      → after ≡ init ++ x ∷ []
      → r.lmove k.ready k.processing ≡ some (x, before ++ m ∷ init, x ∷ k.processing)
  takes_other k before after init x e f =
      rw (e, f, append_cons_assoc before init m x)
        (r.lmove-snoc (before ++ m ∷ init) k.processing x)

  -- Lease returns the member or one after it.
  lease-Waits :
      (now : ℕ) (k : Keyspace r) (after : List Text)
      → Waits m after k
      → Takes (leases now k) ⊎ Advanced after 1 (lease (frontier s) now k).1
  unfolding lease lua_lease
  lease-Waits now k after (before, e) = elim (snoc_cases after) [
    | inl f ↦ inl (rw (takes_member k before after e f, lua_lease) (_, refl, refl))
    | inr (x, init, f) ↦ inr (
      init,
      rw (takes_other k before after init x e f, lua_lease) (before, refl),
      rw f (ground (arith, length-append init (x ∷ []))),
    )
  ]

  Step-Waits :
      {k k' : Keyspace r} (move : Step s k k') (after : List Text)
      → Waits m after k
      → Takes move ⊎ Advanced after (bit (is_lease s move)) k'
  unfolding seed_listing
  Step-Waits (admits_video now u k is_v) after h = inr (
    after,
    admit_video-keeps (Waits m after) (frontier s) now u k (λ _ h. h)
        (admit_live_video-Waits m after u) h,
    omega arith,
  )
  Step-Waits (admits_listing now u k t) after h = inr (
    after,
    admit_listing-keeps (Waits m after) (frontier s) now u k (λ _ h. h)
        (admit_live_listing-Waits m after u (unix now)) h,
    omega arith,
  )
  Step-Waits (seeds u k) after h = inr (after, h, omega arith)
  Step-Waits (changes_bloom b k keeps) after h = inr (after, h, omega arith)
  Step-Waits (leases now k) after h = lease-Waits now k after h
  Step-Waits (acks j k w is_v) after h = inr (after, ack-Waits m after j k h, omega arith)
  Step-Waits (nacks j k w) after h = inr (after, nack-Waits m after j k h, omega arith)
  Step-Waits (fails now j class k t w) after h =
      inr (after, fail-Waits m after (frontier s) now j class k h, omega arith)
  Step-Waits (terminates now j reason k t w plain) after h =
      inr (after, terminal-Waits m after j reason _ k h, omega arith)
  Step-Waits (completes now j n k t w) after h =
      inr (after, complete_listing-Waits m after (frontier s) now j n k h, omega arith)
  Step-Waits (reaps now k) after h =
      inr (after, reap-keeps (Waits m after) now k (reap_one-Waits m after) h, omega arith)
  Step-Waits (sweeps k) after h =
      inr (after, sweep-keeps (Waits m after) k (sweep_one-Waits m after) h, omega arith)
  Step-Waits (promotes now k) after h =
      inr (after, promote-keeps (Waits m after) now k (promote_one-Waits m after) h, omega arith)
  Step-Waits (schedules now k t) after h = inr (
    after,
    run_listing_scheduler-keeps (Waits m after) (frontier s) now k
        (schedule_one-Waits m after (unix now)) h,
    omega arith,
  )

  -- After some calls the member has been served, or waits behind as many jobs fewer as there were
  -- calls of Lease.
  Reach-Waits :
      {start k : Keyspace r} (after : List Text) (later : Reach s start k)
      → Waits m after start
      → Serves later ⊎ Advanced after (leases_in s later) k
  Reach-Waits after here h = inr (after, h, omega arith)
  Reach-Waits after (next later move) h = elim (Reach-Waits after later h) [
    | inl served ↦ inl (inl served)
    | inr (after', waits, e) ↦ elim (Step-Waits move after' waits) [
      | inl takes ↦ inl (inr takes)
      | inr (after'', waits', f) ↦ inr (after'', waits', omega (arith, e, f))
    ]
  ]

  -- No ready job starves: a member in ready is the one that a call of Lease returns among any calls
  -- of the frontier, whatever their order, of which more are calls of Lease than there are jobs
  -- before it.
  pub ready_served :
      {k k' : Keyspace r} (before after : List Text) (later : Reach s k k')
      → k.ready ≡ before ++ m ∷ after
      → length after < leases_in s later
      → Serves later
  ready_served before after later e enough = elim (Reach-Waits after later (before, e)) [
    | inl served ↦ served
    | inr (after', waits, f) ↦ absurd (omega (arith, enough, f))
  ]
