-- ===== src/Frontier/Pending/Admit.antt =====
-- Admission keeps the pairing of listings and live jobs.
use lost_media_finder.Prelude.{
  ℕ, ◌<◌, ◌≡◌, refl, Bool, true, false, some, arith, ltb, Bool-cases, Option-cases, inl, inr, subst,
  sym,
}
use lost_media_finder.Text.{Text}
use lost_media_finder.Redis.{Redis}
use lost_media_finder.Redis.Laws.{BloomReply-cases, lrem-lpush}
use lost_media_finder.Frontier.Types.{pending_score}
use lost_media_finder.Frontier.Member.{member}
use lost_media_finder.Frontier.Keyspace.{Keyspace}
use lost_media_finder.Frontier.Scripts.Admit.{
  admit_live_video, lua_admit_video, admit_live_listing, lua_admit_listing,
}
use lost_media_finder.Frontier.Scripts.Rules.{check_dead-keeps}
use lost_media_finder.Frontier.Pending.Defs.{is_pending, Pairs, IsPaired}
use lost_media_finder.Frontier.Pending.Parts.{Pairs-admit, Pairs-push_video, Pairs-reschedule}

-- A score that is not in the future is not PENDING.
due-not_pending :
    (now prev : ℕ) → now < pending_score → ltb now prev ≡ false → is_pending (some prev) ≡ false
unfolding is_pending
due-not_pending now prev h e = ground arith

module _ {r : Redis} {video : Text → Bool} (url : Text) where
  admit_live_video-IsPaired :
      (k : Keyspace r)
      → video url ≡ true
      → IsPaired video k
      → IsPaired video (admit_live_video url k).1
  unfolding admit_live_video
  admit_live_video-IsPaired k v p = elim (BloomReply-cases (r.bf_add k.bloom url).0) [
    | inl e ↦ rw (e, admit_live_video) (Pairs-push_video p (r.incr k.job_seq) url v)
    | inr (inl e) ↦
        rw (e, admit_live_video)
          (subst (λ l. Pairs r video l k.processing k.delayed k.listing_next)
            (sym (lrem-lpush r k.ready (member (r.incr k.job_seq) url))) p)
    | inr (inr e) ↦ rw (e, admit_live_video) (Pairs-push_video p (r.incr k.job_seq) url v)
  ]

  pub admit_video-IsPaired :
      (now : ℕ) (k : Keyspace r)
      → video url ≡ true
      → IsPaired video k
      → IsPaired video (lua_admit_video url now k).1
  unfolding lua_admit_video
  admit_video-IsPaired now k v p =
      check_dead-keeps (IsPaired video) url now (admit_live_video url) k p
        (admit_live_video-IsPaired k v p)
        (admit_live_video-IsPaired (record k { dead = r.hdel k.dead url }) v p)

  admit_live_listing-IsPaired :
      (now : ℕ) (k : Keyspace r)
      → now < pending_score
      → IsPaired video k
      → IsPaired video (admit_live_listing url now pending_score k).1
  unfolding admit_live_listing
  admit_live_listing-IsPaired now k h p = elim (Option-cases (r.zscore k.listing_next url)) [
    | inl e ↦
        rw (e, admit_live_listing)
          (Pairs-admit p (r.incr k.job_seq) url (rw e (unfold is_pending in refl)))
    | inr (prev, e) ↦
        rw (e, admit_live_listing)
          (elim (Bool-cases (ltb now prev)) [
            | inl late ↦ rw late p
            | inr due ↦
                rw due
                  (Pairs-admit p (r.incr k.job_seq) url (rw e (due-not_pending now prev h due)))
          ])
  ]

  pub admit_listing-IsPaired :
      (now : ℕ) (k : Keyspace r)
      → now < pending_score
      → IsPaired video k
      → IsPaired video (lua_admit_listing url now pending_score k).1
  unfolding lua_admit_listing
  admit_listing-IsPaired now k h p =
      check_dead-keeps (IsPaired video) url now (admit_live_listing url now pending_score) k p
        (admit_live_listing-IsPaired now k h p)
        (admit_live_listing-IsPaired now (record k { dead = r.hdel k.dead url }) h p)

  -- ZADD NX with score 0, which the startup issues for the base URL.
  pub seed-IsPaired :
      (k : Keyspace r)
      → IsPaired video k
      → IsPaired video (record k { listing_next = r.zadd_nx k.listing_next 0 url })
  seed-IsPaired k p = elim (Option-cases (r.zscore k.listing_next url)) [
    | inl e ↦
        rw (r.zadd_nx_lem k.listing_next 0 url, e)
          (Pairs-reschedule p 0 url (rw e (unfold is_pending in refl)) (omega arith))
    | inr (s, e) ↦ rw (r.zadd_nx_lem k.listing_next 0 url, e) p
  ]
