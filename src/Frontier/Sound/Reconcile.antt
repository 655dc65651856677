-- ===== src/Frontier/Sound/Reconcile.antt =====
-- The reconcilers keep the invariant over a whole page, also where an iteration raises an error.
use lost_media_finder.Prelude.{
  ℕ, List, ◌==◌, ltb, is_some, Bool-cases, Option-cases, inl, inr, length,
}
use lost_media_finder.Text.{Text}
use lost_media_finder.Redis.{Redis}
use lost_media_finder.Frontier.Member.{after_separator, dead_until}
use lost_media_finder.Frontier.Keyspace.{Keyspace, returned, Script, for_each}
use lost_media_finder.Frontier.Scripts.Reconcile.{
  promote_one, lua_promote, reap_one, lua_reap, sweep_one, lua_sweep, schedule_one,
  lua_listing_scheduler,
}
use lost_media_finder.Frontier.Scripts.Rules.{>>=-keeps, for_each-keeps}
use lost_media_finder.Frontier.Sound.Defs.{IsSound}
use lost_media_finder.Frontier.Sound.Parts.{
  Tracks-push, Tracks-undelay, Tracks-finish, Tracks-orphan, Tracks-unlease,
}

module _ {r : Redis} where
  for_each-IsSound :
      (body : Text → Script r ℕ)
      → ((item : Text) (k : Keyspace r) → IsSound k → IsSound (body item k).1)
      → (items : List Text) (k : Keyspace r) → IsSound k
      → IsSound (for_each body items 0 k).1
  for_each-IsSound body step items k =
      for_each-keeps IsSound (λ _. IsSound) body (λ _ _ t. t) (λ item _. step item) items 0 k

  promote_one-IsSound : (item : Text) (k : Keyspace r) → IsSound k → IsSound (promote_one item k).1
  promote_one-IsSound item k t = elim (Option-cases (after_separator item)) [
    | inl e ↦ unfold promote_one in rw (e, promote_one) t
    | inr (url, e) ↦
        unfold promote_one in rw (e, promote_one) (Tracks-undelay (Tracks-push t url) item)
  ]

  pub promote-IsSound :
      (now limit : ℕ) (k : Keyspace r) → IsSound k → IsSound (lua_promote now limit k).1
  unfolding lua_promote
  promote-IsSound now limit k t =
      >>=-keeps IsSound _ _
        (λ _ k'. (returned (length (r.zrange_by_score k.delayed now limit)), k')) (page t)
        (λ _. page t)
    where
      page :
          IsSound k → IsSound (for_each promote_one (r.zrange_by_score k.delayed now limit) 0 k).1
      page = for_each-IsSound promote_one promote_one-IsSound _ k

  reap_one-IsSound : (item : Text) (k : Keyspace r) → IsSound k → IsSound (reap_one item k).1
  reap_one-IsSound item k t = elim (Bool-cases ((r.zrem k.lease item).0 == 1)) [
    | inr e ↦ unfold reap_one in rw (e, reap_one) (Tracks-unlease t item)
    | inl e ↦ elim (Option-cases (after_separator item)) [
      | inl f ↦ unfold reap_one in rw (e, f, reap_one) (Tracks-unlease t item)
      | inr (url, f) ↦
          unfold reap_one in rw (e, f, reap_one) (Tracks-push (Tracks-finish t item) url)
    ]
  ]

  pub reap-IsSound : (now limit : ℕ) (k : Keyspace r) → IsSound k → IsSound (lua_reap now limit k).1
  unfolding lua_reap
  reap-IsSound now limit k t = for_each-IsSound reap_one reap_one-IsSound _ k t

  sweep_one-IsSound : (item : Text) (k : Keyspace r) → IsSound k → IsSound (sweep_one item k).1
  sweep_one-IsSound item k t = elim (Bool-cases (is_some (r.zscore k.lease item))) [
    | inl e ↦ unfold sweep_one in rw (e, sweep_one) t
    | inr e ↦ elim (Option-cases (after_separator item)) [
      | inl f ↦ unfold sweep_one in rw (e, f, sweep_one) t
      | inr (url, f) ↦
          unfold sweep_one in rw (e, f, sweep_one) (Tracks-push (Tracks-orphan t item e) url)
    ]
  ]

  pub sweep-IsSound : (limit : ℕ) (k : Keyspace r) → IsSound k → IsSound (lua_sweep limit k).1
  unfolding lua_sweep
  sweep-IsSound limit k t = for_each-IsSound sweep_one sweep_one-IsSound _ k t

  schedule_one-IsSound :
      (now pending : ℕ) (url : Text) (k : Keyspace r)
      → IsSound k
      → IsSound (schedule_one now pending url k).1
  unfolding schedule_one
  schedule_one-IsSound now pending url k t = elim (Option-cases (r.hget k.dead url)) [
    | inl e ↦ rw (e, schedule_one) (Tracks-push t url)
    | inr (d, e) ↦
        rw (e, schedule_one)
          (elim (Option-cases (dead_until d)) [
            | inl f ↦ rw f t
            | inr (until, f) ↦ rw f (elim (Bool-cases (until == 0)) [
              | inl b ↦ rw b t
              | inr b ↦ rw b (elim (Bool-cases (ltb now until)) [
                | inl c ↦ rw c t
                | inr c ↦ rw c (Tracks-push t url)
              ])
            ])
          ])
  ]

  pub listing_scheduler-IsSound :
      (now limit pending : ℕ) (k : Keyspace r)
      → IsSound k
      → IsSound (lua_listing_scheduler now limit pending k).1
  unfolding lua_listing_scheduler
  listing_scheduler-IsSound now limit pending k t =
      for_each-IsSound (schedule_one now pending) (schedule_one-IsSound now pending) _ k t
