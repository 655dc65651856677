-- ===== src/Scheduler/Draining.antt =====
-- The loop of runListingScheduler in internal/scheduler/scheduler.go: when it ends, and when it
-- does not.
use lost_media_finder.Prelude.{
  ℕ, ◌+◌, ◌≡◌, subst, ◌≤◌, ◌<◌, refl, Bool, true, false, Option, none, some, List, [], ◌∷◌, arith,
  bit, is_some, count_if, ltb, ◌==◌, if◌then◌else◌, Bool-cases, Option-cases, inl, inr,
}
use lost_media_finder.Text.{Text, eq_text, eq_text_iff, eq_text_refl}
use lost_media_finder.Text.Members.{occurrences}
use lost_media_finder.Redis.{Redis, within}
use lost_media_finder.Frontier.Types.{pending_score}
use lost_media_finder.Frontier.Keyspace.{Keyspace, Reply, returned, raised, for_each, ◌>>=◌}
use lost_media_finder.Frontier.Member.{dead_until}
use lost_media_finder.Frontier.Scripts.Reconcile.{admit_due, schedule_one, lua_listing_scheduler}

-- Two tests that differ at one element only, where the first one passes.
count_if-differ :
    (p q : Text → Bool) (m : Text) (l : List Text)
    → ((x : Text) → eq_text m x ≡ false → q x ≡ p x)
    → p m ≡ true
    → count_if q l + (if q m then 0 else occurrences m l) ≡ count_if p l
count_if-differ p q m [] same h = ground arith
count_if-differ p q m (x ∷ l) same h =
    ground (arith, same x, eq_text_iff m x, count_if-differ p q m l same h)

module _ (r : Redis) where
  -- The number of members with a score up to `last`.
  abbrev pub overdue : ℕ → r.Zset → ℕ
  overdue last z = count_if (λ m. within 0 last (r.zscore z m)) (r.zmembers z)

  some_of_within : (last : ℕ) (o : Option ℕ) → within 0 last o ≡ true → is_some o ≡ true
  some_of_within last none h = absurd (cc h)
  some_of_within last (some s) h = refl

  -- A new score of an overdue member adds nothing to them, and takes it off if it is later.
  overdue-zadd :
      (last s : ℕ) (m : Text) (z : r.Zset)
      → within 0 last (r.zscore z m) ≡ true
      → overdue last (r.zadd z s m) + bit (ltb last s) ≡ overdue last z
  overdue-zadd last s m z h = ground (
    arith,
    r.count-zadd (λ x. within 0 last (r.zscore (r.zadd z s m) x)) z s m,
    count_if-differ (λ x. within 0 last (r.zscore z x))
        (λ x. within 0 last (r.zscore (r.zadd z s m) x)) m (r.zmembers z)
        (λ x other. ground (arith, r.zscore-zadd z s m x)) h,
    r.zscore-zadd z s m m,
    eq_text_refl m,
    r.occurrences-zmembers z m,
    some_of_within last (r.zscore z m) h,
  )

  overdue-zrem :
      (last : ℕ) (m : Text) (z : r.Zset)
      → within 0 last (r.zscore z m) ≡ true
      → overdue last (r.zrem z m).1 + 1 ≡ overdue last z
  overdue-zrem last m z h = ground (
    arith,
    r.count-zrem (λ x. within 0 last (r.zscore (r.zrem z m).1 x)) z m,
    count_if-differ (λ x. within 0 last (r.zscore z x))
        (λ x. within 0 last (r.zscore (r.zrem z m).1 x)) m (r.zmembers z)
        (λ x other. ground (arith, r.zscore-zrem z m x)) h,
    r.zscore-zrem z m m,
    eq_text_refl m,
    r.occurrences-zmembers z m,
    some_of_within last (r.zscore z m) h,
  )

module _ {r : Redis} (last : ℕ) where
  -- What a script counts is taken off the overdue listings, at least.
  abbrev pub Falls : ℕ → Reply ℕ × Keyspace r → Type 0
  Falls bound (returned n, k) = overdue r last k.listing_next + n ≤ bound
  Falls bound (raised, k) = Unit

  -- One iteration, and what it leaves of the other listings.
  abbrev Visits : Text → Keyspace r → Reply ℕ × Keyspace r → Type 0
  Visits url k x =
      Falls (overdue r last k.listing_next) x
      × ((m : Text)
          → eq_text url m ≡ false
          → r.zscore x.1.listing_next m ≡ r.zscore k.listing_next m)

  admit_due-Visits :
      (url : Text) (k : Keyspace r)
      → last < pending_score
      → within 0 last (r.zscore k.listing_next url) ≡ true
      → Visits url k (admit_due pending_score url k)
  unfolding admit_due
  admit_due-Visits url k early h = (
    ground (arith, overdue-zadd r last pending_score url k.listing_next h),
    λ m other. ground (arith, r.zscore-zadd k.listing_next pending_score url m),
  )

  schedule_one-Visits :
      (now : ℕ) (url : Text) (k : Keyspace r)
      → last < pending_score
      → within 0 last (r.zscore k.listing_next url) ≡ true
      → Visits url k (schedule_one now pending_score url k)
  unfolding schedule_one
  schedule_one-Visits now url k early h = elim (Option-cases (r.hget k.dead url)) [
    | inl e ↦ rw (e, schedule_one) (admit_due-Visits url k early h)
    | inr (d, e) ↦
        rw (e, schedule_one)
          (elim (Option-cases (dead_until d)) [
            | inl f ↦ rw f (tt, λ m other. refl)
            | inr (until, f) ↦ rw f (elim (Bool-cases (until == 0)) [
              | inl b ↦ rw b (
                ground (arith, overdue-zrem r last url k.listing_next h),
                λ m other. ground (arith, r.zscore-zrem k.listing_next url m),
              )
              | inr b ↦ rw b (elim (Bool-cases (ltb now until)) [
                | inl c ↦ rw c (
                  ground (arith, overdue-zadd r last until url k.listing_next h),
                  λ m other. ground (arith, r.zscore-zadd k.listing_next until url m),
                )
                | inr c ↦
                    rw c (admit_due-Visits url (record k { dead = r.hdel k.dead url }) early h)
              ])
            ])
          ])
  ]

  Falls-next :
      (now n bound : ℕ) (items : List Text) (x : Reply ℕ × Keyspace r)
      → ((k : Keyspace r) (m : ℕ)
          → x ≡ (returned m, k)
          → Falls bound (for_each (schedule_one now pending_score) items (n + m) k))
      → Falls bound (x >>= λ m k. for_each (schedule_one now pending_score) items (n + m) k)
  Falls-next now n bound items (returned m, k) h = h k m refl
  Falls-next now n bound items (raised, k) h = tt

  Falls-mono : (a b : ℕ) (x : Reply ℕ × Keyspace r) → a ≤ b → Falls a x → Falls b x
  Falls-mono a b (returned m, k) le h = omega arith
  Falls-mono a b (raised, k) le h = tt

  page-Falls :
      (now : ℕ) (items : List Text) (n : ℕ) (k : Keyspace r)
      → last < pending_score
      → ((m : Text) → 0 < occurrences m items → within 0 last (r.zscore k.listing_next m) ≡ true)
      → ((m : Text) → occurrences m items ≤ 1)
      → Falls
          (overdue r last k.listing_next + n)
          (for_each (schedule_one now pending_score) items n k)
  unfolding for_each
  page-Falls now [] n k early due distinct = omega arith
  page-Falls now (url ∷ items) n k early due distinct =
      Falls-next now n (overdue r last k.listing_next + n) items
        (schedule_one now pending_score url k)
        (λ k' m e.
          let (falls, others) =
            subst (Visits url k) e
              (schedule_one-Visits now url k early (due url (ground (arith, eq_text_refl url)))) in
          Falls-mono (overdue r last k'.listing_next + (n + m)) (overdue r last k.listing_next + n)
            (for_each (schedule_one now pending_score) items (n + m) k') (omega arith)
            (page-Falls now items (n + m) k' early
              (λ u some_u.
                ground (arith, others u, due u, distinct u, eq_text_iff u url, eq_text_iff url u))
              (λ u. omega (arith, distinct u))))

  -- What one page counts is taken off the listings that are overdue by then.
  pub lua_listing_scheduler-Falls :
      (now limit : ℕ) (k : Keyspace r)
      → now ≤ last
      → last < pending_score
      → Falls (overdue r last k.listing_next) (lua_listing_scheduler now limit pending_score k)
  unfolding lua_listing_scheduler
  lua_listing_scheduler-Falls now limit k le early =
      Falls-mono (overdue r last k.listing_next + 0) (overdue r last k.listing_next)
        (for_each (schedule_one now pending_score) (r.zrange_by_score k.listing_next now limit) 0 k)
        (omega arith)
        (page-Falls now (r.zrange_by_score k.listing_next now limit) 0 k early
          (λ m some_m. ground (arith, r.zrange_due k.listing_next now limit m some_m))
          (r.zrange_distinct k.listing_next now limit))
