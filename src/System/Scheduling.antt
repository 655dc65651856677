-- ===== src/System/Scheduling.antt =====
-- RunListingScheduler of internal/storage/frontier.go: no listing stays overdue.
use lost_media_finder.Prelude.{
  ℕ, ◌≡◌, ◌≤◌, ◌<◌, ◌==◌, refl, Bool, false, some, List, [], ◌∷◌, arith, ltb, length, Bool-cases,
  Option-cases, inl, inr,
}
use lost_media_finder.Text.{Text, eq_text, eq_text_iff}
use lost_media_finder.Text.Members.{occurrences}
use lost_media_finder.Redis.{Redis}
use lost_media_finder.Frontier.Types.{ok, pending_score}
use lost_media_finder.Frontier.Keyspace.{Keyspace, Reply, returned}
use lost_media_finder.Frontier.Scripts.Reconcile.{admit_due, schedule_one, lua_listing_scheduler}
use lost_media_finder.Frontier.Scripts.Rules.{for_each-returns}
use lost_media_finder.Frontier.Methods.{unix, run_listing_scheduler}
use lost_media_finder.Frontier.Pending.Dead.{Buried}
use lost_media_finder.Frontier.Pending.Schedule.{DuePage, schedule_one-page, due-page}
use lost_media_finder.Frontier.Pending.Inv.{Inv}
use lost_media_finder.System.Defs.{Setup, frontier, Reach}
use lost_media_finder.System.Jobs.{IsEmpty, reached}

module _ (r : Redis) where
  zadd-Cleared :
      (now later : ℕ) (url m : Text) (z : r.Zset) (s : ℕ)
      → now < later
      → r.zscore (r.zadd z later url) m ≡ some s
      → s ≤ now
      → (eq_text url m ≡ false) × (r.zscore z m ≡ some s)
  zadd-Cleared now later url m z s after h le = elim (Bool-cases (eq_text url m)) [
    | inl e ↦ absurd (ground (arith, r.zscore-zadd z later url m))
    | inr e ↦ (e, ground (arith, r.zscore-zadd z later url m))
  ]

  zrem-Cleared :
      (url m : Text) (z : r.Zset) (s : ℕ)
      → r.zscore (r.zrem z url).1 m ≡ some s
      → (eq_text url m ≡ false) × (r.zscore z m ≡ some s)
  zrem-Cleared url m z s h = elim (Bool-cases (eq_text url m)) [
    | inl e ↦ absurd (ground (arith, r.zscore-zrem z url m))
    | inr e ↦ (e, ground (arith, r.zscore-zrem z url m))
  ]

module _ {r : Redis} where
  -- One iteration returns, gives the listing no score or a later one, and leaves the others alone.
  abbrev Cleared : ℕ → Text → Keyspace r → Reply ℕ × Keyspace r → Type 0
  Cleared now url k x =
      ((n : ℕ) × (x.0 ≡ returned n))
      × ((m : Text) (s : ℕ)
          → r.zscore x.1.listing_next m ≡ some s
          → s ≤ now
          → (eq_text url m ≡ false) × (r.zscore k.listing_next m ≡ some s))

  admit_due-Cleared :
      (now : ℕ) (url : Text) (k : Keyspace r)
      → now < pending_score
      → Cleared now url k (admit_due pending_score url k)
  unfolding admit_due
  admit_due-Cleared now url k early =
      ((1, refl), λ m s h le. zadd-Cleared r now pending_score url m k.listing_next s early h le)

  schedule_one-Cleared :
      (now : ℕ) (url : Text) (k : Keyspace r)
      → now < pending_score
      → Buried r k.dead
      → Cleared now url k (schedule_one now pending_score url k)
  unfolding schedule_one
  schedule_one-Cleared now url k early b = elim (Option-cases (r.hget k.dead url)) [
    | inl e ↦ rw (e, schedule_one) (admit_due-Cleared now url k early)
    | inr (d, e) ↦
        let (until, f, _) = b.at url d e in
        rw (e, schedule_one)
          (rw f (elim (Bool-cases (until == 0)) [
            | inl z ↦ rw z ((0, refl), λ m s h le. zrem-Cleared r url m k.listing_next s h)
            | inr z ↦ rw z (elim (Bool-cases (ltb now until)) [
              | inl c ↦ rw c (
                (0, refl),
                λ m s h le. zadd-Cleared r now until url m k.listing_next s (ground arith) h le,
              )
              | inr c ↦
                  rw c (admit_due-Cleared now url (record k { dead = r.hdel k.dead url }) early)
            ])
          ]))
  ]

-- The overdue listings are those of items to come.
record Backlog (r : Redis) (video : Text → Bool) (now : ℕ) (items : List Text) (k : Keyspace r)
    : Type 0 where
  page : DuePage r video items k
  due : (m : Text) (s : ℕ) → r.zscore k.listing_next m ≡ some s → s ≤ now → 0 < occurrences m items

module _ {r : Redis} {video : Text → Bool} where
  Backlog-next :
      (now : ℕ)
      → now < pending_score
      → (url : Text) (items : List Text) (k : Keyspace r) → Backlog r video now (url ∷ items) k
      → ((n : ℕ) × ((schedule_one now pending_score url k).0 ≡ returned n))
        × Backlog r video now items (schedule_one now pending_score url k).1
  Backlog-next now early url items k b =
      let (returns, cleared) = schedule_one-Cleared now url k early b.page.inv.buried in
      (
        returns,
        record {
          page = schedule_one-page now url items k b.page;
          due = λ m s h late.
              let (other, before) = cleared m s h late in
              ground (arith, eq_text_iff url m, eq_text_iff m url, b.due m s before late);
        },
      )

  lua_listing_scheduler-returns :
      (now limit : ℕ) (k : Keyspace r)
      → now < pending_score
      → Inv r video k
      → length (r.zrange_by_score k.listing_next now limit) < limit
      → ((n : ℕ) × ((lua_listing_scheduler now limit pending_score k).0 ≡ returned n))
        × Backlog r video now [] (lua_listing_scheduler now limit pending_score k).1
  unfolding lua_listing_scheduler
  lua_listing_scheduler-returns now limit k early v short =
      for_each-returns (Backlog r video now) (schedule_one now pending_score)
        (Backlog-next now early) (r.zrange_by_score k.listing_next now limit) 0 k
        (record {
          page = due-page now limit k early v;
          due = λ m s h late. r.zrange_all k.listing_next now limit s m short h late;
        })

module _ {r : Redis} {start k : Keyspace r} (e : IsEmpty r start) (s : Setup)
    (reach : Reach s start k) where
  -- In every state reachable from an empty database in which fewer listings than the batch limit are
  -- due, RunListingScheduler raises no error, and afterwards no listing is due, dead or not.
  pub listing_scheduler_complete :
      (now : ℕ)
      → unix now < pending_score
      → length (r.zrange_by_score k.listing_next (unix now) s.cfg.scheduler_batch_limit)
        < s.cfg.scheduler_batch_limit
      → ((n : ℕ) × ((run_listing_scheduler (frontier s) now k).0 ≡ ok n))
        × ((m : Text) (at : ℕ)
            → r.zscore (run_listing_scheduler (frontier s) now k).1.listing_next m ≡ some at
            → unix now < at)
  unfolding run_listing_scheduler
  listing_scheduler_complete now early short =
      let ((n, returns), left) =
        lua_listing_scheduler-returns (unix now) s.cfg.scheduler_batch_limit k early
          (reached e s reach) short in
      rw returns ((n, refl), λ m at h. ground (arith, left.due m at h))
