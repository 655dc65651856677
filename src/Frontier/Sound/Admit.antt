-- ===== src/Frontier/Sound/Admit.antt =====
-- Admission keeps the invariant, also where the filter is full and the script raises an error.
use lost_media_finder.Prelude.{ℕ, ltb, Bool-cases, Option-cases, inl, inr, subst, sym}
use lost_media_finder.Text.{Text}
use lost_media_finder.Redis.{Redis}
use lost_media_finder.Redis.Laws.{BloomReply-cases, lrem-lpush}
use lost_media_finder.Frontier.Member.{member}
use lost_media_finder.Frontier.Keyspace.{Keyspace}
use lost_media_finder.Frontier.Scripts.Admit.{
  lua_admit_listing, admit_live_video, lua_admit_video, admit_live_listing,
}
use lost_media_finder.Frontier.Scripts.Rules.{check_dead-keeps}
use lost_media_finder.Frontier.Sound.Defs.{Tracks, IsSound}
use lost_media_finder.Frontier.Sound.Parts.{Tracks-push, Tracks-skip}

module _ {r : Redis} where
  admit_live_video-IsSound :
      (url : Text) (k : Keyspace r) → IsSound k → IsSound (admit_live_video url k).1
  unfolding admit_live_video
  admit_live_video-IsSound url k t = elim (BloomReply-cases (r.bf_add k.bloom url).0) [
    | inl e ↦ rw (e, admit_live_video) (Tracks-push t url)
    | inr (inl e) ↦
        rw (e, admit_live_video)
          (subst (λ l. Tracks r (r.incr k.job_seq) l k.processing k.delayed k.lease)
            (sym (lrem-lpush r k.ready (member (r.incr k.job_seq) url))) (Tracks-skip t))
    | inr (inr e) ↦ rw (e, admit_live_video) (Tracks-push t url)
  ]

  admit_live_listing-IsSound :
      (url : Text) (now pending : ℕ) (k : Keyspace r)
      → IsSound k
      → IsSound (admit_live_listing url now pending k).1
  unfolding admit_live_listing
  admit_live_listing-IsSound url now pending k t =
      elim (Option-cases (r.zscore k.listing_next url)) [
        | inl e ↦ rw (e, admit_live_listing) (Tracks-push t url)
        | inr (prev, e) ↦
            rw (e, admit_live_listing)
              (elim (Bool-cases (ltb now prev)) [
                | inl late ↦ rw late t
                | inr due ↦ rw due (Tracks-push t url)
              ])
      ]

  pub admit_video-IsSound :
      (url : Text) (now : ℕ) (k : Keyspace r) → IsSound k → IsSound (lua_admit_video url now k).1
  unfolding lua_admit_video
  admit_video-IsSound url now k t =
      check_dead-keeps IsSound url now (admit_live_video url) k t (admit_live_video-IsSound url k t)
        (admit_live_video-IsSound url _ t)

  pub admit_listing-IsSound :
      (url : Text) (now pending : ℕ) (k : Keyspace r)
      → IsSound k
      → IsSound (lua_admit_listing url now pending k).1
  unfolding lua_admit_listing
  admit_listing-IsSound url now pending k t =
      check_dead-keeps IsSound url now (admit_live_listing url now pending) k t
        (admit_live_listing-IsSound url now pending k t)
        (admit_live_listing-IsSound url now pending _ t)
