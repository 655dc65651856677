-- ===== src/Frontier/Pending/Leases.antt =====
-- Leasing and resolving a job keep the pairing of listings and live jobs.
use lost_media_finder.Prelude.{
  ℕ, ◌+◌, ◌<◌, ◌≡◌, Bool, true, List, ◌∷◌, arith, ltb, leb, ◌&&◌, get_elem?, length, Bool-cases,
  Option-cases, inl, inr, subst,
}
use lost_media_finder.Text.{Text}
use lost_media_finder.Text.Members.{occurrences}
use lost_media_finder.Redis.{Redis}
use lost_media_finder.Redis.Laws.{lmove_cases}
use lost_media_finder.Frontier.Types.{pending_score}
use lost_media_finder.Frontier.Member.{member}
use lost_media_finder.Frontier.Keyspace.{Keyspace}
use lost_media_finder.Frontier.Scripts.Admit.{lua_lease}
use lost_media_finder.Frontier.Scripts.Complete.{
  clamp, ack_held, nack_held, terminal_held, complete_held, fail_held, lua_ack, lua_nack, bury,
  lua_terminal, count_barren, backoff_ttl, lua_complete_listing, count_strike, delay_job, lua_fail,
}
use lost_media_finder.Frontier.Scripts.Rules.{take_lease-keeps}
use lost_media_finder.Frontier.Sound.Defs.{IsSound}
use lost_media_finder.Frontier.Sound.Parts.{next_free}
use lost_media_finder.Frontier.Pending.Defs.{Pairs, IsPaired}
use lost_media_finder.Frontier.Pending.Parts.{
  Pairs-requeue, Pairs-delay, Pairs-end_video, Pairs-end_listing, Pairs-lease,
}

-- The dead deadline that a job may get: 0 for a video, and a time before PENDING for a listing.
pub record Deadline (video : Text → Bool) (url : Text) (until : ℕ) : Type 0 where
  pub early : until < pending_score
  pub forever_video : until ≡ 0 → video url ≡ true

module _ {r : Redis} {video : Text → Bool} (id : ℕ) (url : Text) where
  -- The job's end under `bury`, once its lease is taken.
  bury-IsPaired :
      (reason : Text) (until : ℕ) (k : Keyspace r)
      → Deadline video url until
      → 0 < occurrences (member id url) k.processing
      → IsPaired video k
      → IsPaired video (bury (member id url) url reason until k)
  unfolding bury
  bury-IsPaired reason until k d h p = elim (Bool-cases (ltb 0 until)) [
    | inl e ↦ rw (e, bury) (Pairs-end_listing p id until url h d.early)
    | inr e ↦ rw (e, bury) (Pairs-end_video p id url (d.forever_video (ground arith)))
  ]

  module _ (k : Keyspace r) (t : IsSound k) (p : IsPaired video k) where
    pub ack-IsPaired : video url ≡ true → IsPaired video (lua_ack (member id url) url k).1
    unfolding lua_ack
    ack-IsPaired v =
        take_lease-keeps (IsPaired video) (member id url) (ack_held (member id url) url) k (λ _. p)
          (λ _. Pairs-end_video p id url v)

    pub nack-IsPaired : IsPaired video (lua_nack (member id url) url k).1
    unfolding lua_nack
    nack-IsPaired =
        take_lease-keeps (IsPaired video) (member id url) (nack_held (member id url) url) k (λ _. p)
          (λ h. Pairs-requeue p id (r.incr k.job_seq) url (t.held (member id url) h))

    pub terminal-IsPaired :
        (reason : Text) (until : ℕ)
        → Deadline video url until
        → IsPaired video (lua_terminal (member id url) url reason until k).1
    unfolding lua_terminal
    terminal-IsPaired reason until d =
        take_lease-keeps (IsPaired video) (member id url)
          (terminal_held (member id url) url reason until) k (λ _. p)
          (λ h. bury-IsPaired reason until k d (t.held (member id url) h) p)

    pub complete_listing-IsPaired :
        (new_children now base_ttl max_ttl : ℕ)
        → now + max_ttl < pending_score
        → IsPaired video
            (lua_complete_listing (member id url) url new_children now base_ttl max_ttl k).1
    unfolding lua_complete_listing
    complete_listing-IsPaired new_children now base_ttl max_ttl early =
        take_lease-keeps (IsPaired video) (member id url)
          (complete_held (member id url) url new_children now base_ttl max_ttl) k (λ _. p)
          (λ h.
            Pairs-end_listing p id _ url (t.held (member id url) h)
              (due-lt-pending (count_barren url new_children k).0))
      where
        due-lt-pending : (barren : ℕ) → now + backoff_ttl base_ttl max_ttl barren < pending_score
        due-lt-pending barren = ground arith

    pub fail-IsPaired :
        (inc_strike : Bool) (max_strikes now : ℕ) (reason : Text) (until : ℕ) (backoff : List ℕ)
        → Deadline video url until
        → IsPaired video
            (lua_fail (member id url) url inc_strike max_strikes now reason until backoff k).1
    unfolding lua_fail
    fail-IsPaired inc_strike max_strikes now reason until backoff d =
        take_lease-keeps (IsPaired video) (member id url)
          (fail_held (member id url) url inc_strike max_strikes now reason until backoff) k (λ _. p)
          (λ h.
            elim (Bool-cases (inc_strike && leb max_strikes (count_strike url inc_strike k).0)) [
              | inl e ↦ rw e (bury-IsPaired reason until k d (t.held (member id url) h) p)
              | inr e ↦
                  rw e
                    (elim (Option-cases (
                      get_elem? (until ∷ backoff)
                        (clamp (r.hincrby k.attempts url 1).0 (length backoff)))) [
                          | inl f ↦ rw (f, delay_job) p
                          | inr (delay, f) ↦
                              rw (f, delay_job)
                                (Pairs-delay p id (r.incr k.job_seq) (now + delay) url
                                  (t.held (member id url) h) (next_free t url))
                        ])
            ])

pub lease-IsPaired :
    {r : Redis} {video : Text → Bool} (now lease_timeout : ℕ) (k : Keyspace r)
    → IsPaired video k
    → IsPaired video (lua_lease now lease_timeout k).1
unfolding lua_lease
lease-IsPaired {r} {video} now lease_timeout k p = elim (lmove_cases r k.ready k.processing) [
  | inl (_, e) ↦ rw (e, lua_lease) p
  | inr (item, init, split, e) ↦
      rw (e, lua_lease)
        (Pairs-lease item
          (subst (λ l. Pairs r video l k.processing k.delayed k.listing_next) split p))
]
