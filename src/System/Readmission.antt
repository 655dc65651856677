-- ===== src/System/Readmission.antt =====
-- What an admission of internal/storage/frontier.go does to a URL that is in work.
use lost_media_finder.Prelude.{
  ℕ, Option, ◌≡◌, ◌<◌, refl, ap, true, false, none, some, arith, ltb, Bool-cases, Option-cases, inl,
  inr,
}
use lost_media_finder.Text.{Text}
use lost_media_finder.Redis.{Redis}
use lost_media_finder.Frontier.Types.{AdmitResult, suppressed, ok, pending_score}
use lost_media_finder.Frontier.Keyspace.{Keyspace, Reply, returned, raised}
use lost_media_finder.Frontier.Scripts.Admit.{
  is_blocked, check_dead, admit_live_listing, lua_admit_listing,
}
use lost_media_finder.Frontier.Methods.{unix, admit_listing, answered}
use lost_media_finder.Frontier.Sound.Defs.{live_jobs}
use lost_media_finder.Frontier.Pending.Defs.{job_for, is_pending}
use lost_media_finder.Frontier.Pending.Dead.{Buried}
use lost_media_finder.Frontier.Pending.Inv.{Inv}
use lost_media_finder.System.Defs.{Setup, frontier, is_video, Reach}
use lost_media_finder.System.Jobs.{IsEmpty, reached}

is_pending-score : (score : Option ℕ) → is_pending score ≡ true → score ≡ some pending_score
unfolding is_pending
is_pending-score none h = absurd (cc h)
is_pending-score (some s) h = ap some (ground (arith, h))

module _ {r : Redis} where
  -- Nothing that a worker could do is added or removed.
  abbrev pub SameJobs : Keyspace r → Keyspace r → Type 0
  SameJobs k k' = (k'.ready ≡ k.ready) × (k'.processing ≡ k.processing) × (k'.delayed ≡ k.delayed)

  -- Suppressed, with the same jobs.
  abbrev Suppresses : Keyspace r → Reply AdmitResult × Keyspace r → Type 0
  Suppresses k x = (x.0 ≡ returned suppressed) × SameJobs k x.1

  admit_live_listing-pending :
      (url : Text) (now : ℕ) (k k' : Keyspace r)
      → is_pending (r.zscore k'.listing_next url) ≡ true
      → now < pending_score
      → SameJobs k k'
      → Suppresses k (admit_live_listing url now pending_score k')
  unfolding admit_live_listing
  admit_live_listing-pending url now k k' pending early same =
      rw (is_pending-score (r.zscore k'.listing_next url) pending, admit_live_listing, late)
        (refl, same)
    where
      late : ltb now pending_score ≡ true
      late = ground arith

  check_dead-Suppresses :
      (url : Text) (now : ℕ) (k : Keyspace r)
      → Buried r k.dead
      → is_pending (r.zscore k.listing_next url) ≡ true
      → now < pending_score
      → Suppresses k (lua_admit_listing url now pending_score k)
  unfolding lua_admit_listing check_dead
  check_dead-Suppresses url now k b pending early = elim (Option-cases (r.hget k.dead url)) [
    | inl e ↦
        rw (e, check_dead) (admit_live_listing-pending url now k k pending early (refl, refl, refl))
    | inr (d, e) ↦
        let (until, reads, _) = b.at url d e in
        rw (e, check_dead, reads)
          (elim (Bool-cases (is_blocked now until)) [
            | inl c ↦ rw c (refl, (refl, refl, refl))
            | inr c ↦ rw c (
                admit_live_listing-pending url now k (record k { dead = r.hdel k.dead url }) pending
                  early (refl, refl, refl))
          ])
  ]

  answered-Suppresses :
      (k : Keyspace r) (x : Reply AdmitResult × Keyspace r)
      → Suppresses k x
      → ((answered x).0 ≡ ok suppressed) × SameJobs k (answered x).1
  answered-Suppresses k (returned a, k') (h, same) = (ap (λ y. (answered (y, k')).0) h, same)
  answered-Suppresses k (raised, k') (h, same) = absurd (cc h)

module _ {r : Redis} {start k : Keyspace r} (e : IsEmpty r start) (s : Setup)
    (reach : Reach s start k) where
  -- In every state reachable from an empty database, AdmitListing of a listing URL that has a job
  -- in ready, processing or delayed returns Suppressed and leaves the jobs as they are, whatever
  -- dead entry the URL has.
  pub listing_suppressed :
      (url : Text) (now : ℕ)
      → is_video s url ≡ false
      → 0 < live_jobs (job_for url) k
      → unix now < pending_score
      → ((admit_listing (frontier s) now url k).0 ≡ ok suppressed)
        × SameJobs k (admit_listing (frontier s) now url k).1
  listing_suppressed url now listing live early =
      unfold admit_listing in
      answered-Suppresses k (lua_admit_listing url (unix now) pending_score k) (
        check_dead-Suppresses url (unix now) k inv.buried
          (ground (arith, inv.paired.at url listing)) early)
    where
      inv : Inv r (is_video s) k
      inv = reached e s reach
