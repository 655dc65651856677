-- ===== src/Frontier/Behaviour/Revisit.antt =====
-- CompleteListing of internal/storage/frontier.go: the next visit of a listing.
use lost_media_finder.Prelude.{
  ℕ, zero, suc, ◌+◌, ◌*◌, ◌^◌, ◌/◌, ◌≡◌, ◌≢◌, ◌⊎◌, ◌<◌, ◌≤◌, refl, true, none, some, arith, is_some,
  get_or, ltb, Bool-cases, inl, inr, if◌then◌else◌,
}
use native.Mathlib.Numerals.{unary_clauses}
use lost_media_finder.Text.{Text, eq_text_refl}
use lost_media_finder.Redis.{Redis}
use lost_media_finder.Frontier.Types.{
  Job, Result, ok, second, UrlClass, class_video, class_listing, class_seed,
}
use lost_media_finder.Frontier.Keyspace.{Keyspace}
use lost_media_finder.Frontier.Scripts.Complete.{
  backoff_ttl, complete_held, count_barren, forget_failures, leave_processing, lua_complete_listing,
}
use lost_media_finder.Frontier.Methods.{Frontier, unix, base_ttl_of, complete_listing}
use lost_media_finder.Frontier.Behaviour.Failing.{take_lease-held, strikes_of, attempts_of}

-- The number, doubled n times.
unfoldable pub doubled : ℕ → ℕ → ℕ
doubled zero base = base
doubled (suc n) base = doubled n base + doubled n base

power : (b n : ℕ) → b ^ suc n ≡ b ^ n * b
power b n = simp unary_clauses refl

doubled_lem : (n base : ℕ) → base * 2 ^ n ≡ doubled n base
unfolding doubled
doubled_lem zero base = omega arith
doubled_lem (suc n) base = grind (arith, doubled_lem n base, power 2 n)

-- The time to the next visit: the number of seconds of the URL's class, doubled once for each visit
-- in a row without a new child, or the maximum where that is less.
pub record NextVisit (f : Frontier) (class : UrlClass) (barren ttl : ℕ) : Type 0 where
  pub base : ℕ
  pub base_of :
      ((class ≡ class_seed) × (base ≡ f.cfg.seed_ttl / 1000000000))
      ⊎ ((class ≢ class_seed) × (base ≡ f.cfg.listing_base_ttl / 1000000000))
  pub clamped :
      ((ttl ≡ doubled barren base) × (ttl ≤ f.cfg.listing_max_ttl / 1000000000))
      ⊎ ((ttl ≡ f.cfg.listing_max_ttl / 1000000000) × (ttl < doubled barren base))

backoff_ttl-NextVisit :
    (f : Frontier) (class : UrlClass) (barren : ℕ)
    → NextVisit f class barren
        (backoff_ttl (base_ttl_of f.cfg class / second) (f.cfg.listing_max_ttl / second) barren)
backoff_ttl-NextVisit f class barren = record {
  base = base_ttl_of f.cfg class / second;
  base_of = base_of class;
  clamped =
      elim (Bool-cases
        (ltb (f.cfg.listing_max_ttl / second) (base_ttl_of f.cfg class / second * 2 ^ barren))) [
          | inl e ↦ rw e (inr (refl, ground (arith, e, doubled_lem barren base)))
          | inr e ↦ rw e (inl (doubled_lem barren base, ground (arith, e)))
        ];
}
  where
    base : ℕ
    base = base_ttl_of f.cfg class / second

    base_of :
        (x : UrlClass)
        → ((x ≡ class_seed) × (base_ttl_of f.cfg x / second ≡ f.cfg.seed_ttl / 1000000000))
          ⊎ ((x ≢ class_seed)
              × (base_ttl_of f.cfg x / second ≡ f.cfg.listing_base_ttl / 1000000000))
    base_of class_video = inr (λ h. cc, refl)
    base_of class_listing = inr (λ h. cc, refl)
    base_of class_seed = inl (refl, refl)

module _ {r : Redis} where
  -- The visits in a row without a new child, after a visit with the given number of them.
  abbrev pub barren_after : Keyspace r → Text → ℕ → ℕ
  barren_after k url new_children =
      if ltb 0 new_children then 0 else get_or (r.hget k.listing_barren url) 0 + 1

  count_barren_value :
      (url : Text) (new_children : ℕ) (k : Keyspace r)
      → (count_barren url new_children k).0 ≡ barren_after k url new_children
  unfolding count_barren
  count_barren_value url new_children k = elim (Bool-cases (ltb 0 new_children)) [
    | inl e ↦ rw e refl
    | inr e ↦ rw e (r.hincrby_value k.listing_barren url 1)
  ]

  count_barren_stored :
      (url : Text) (new_children : ℕ) (k : Keyspace r)
      → r.hget (count_barren url new_children k).1 url ≡ some (barren_after k url new_children)
  unfolding count_barren
  count_barren_stored url new_children k = elim (Bool-cases (ltb 0 new_children)) [
    | inl e ↦ rw e (ground (arith, r.hget-hset k.listing_barren url url 0, eq_text_refl url))
    | inr e ↦ rw e (ground (arith, r.hget-hincrby k.listing_barren url url 1, eq_text_refl url))
  ]

  -- The state that CompleteListing leaves of a leased job.
  abbrev pub Revisits :
      Frontier → ℕ → Job → ℕ → Keyspace r → Result (Unit {0}) × Keyspace r → Type 0
  Revisits f now j new_children k x =
      (x.0 ≡ ok tt)
      × ((ttl : ℕ) × (r.zscore x.1.listing_next j.url ≡ some (unix now + ttl))
          × NextVisit f j.class (barren_after k j.url new_children) ttl)
      × (r.hget x.1.listing_barren j.url ≡ some (barren_after k j.url new_children))
      × (r.hget x.1.dead j.url ≡ none)
      × (strikes_of x.1 j.url ≡ 0)
      × (attempts_of x.1 j.url ≡ 0)

  -- Where the lease is held, CompleteListing schedules the listing at now plus the TTL in seconds, the
  -- seed TTL for a seed and the listing base TTL for any other class, doubled once for each visit in a
  -- row without a new child, and the maximal TTL where that is less; it stores that count and forgets
  -- the URL's dead entry, strikes and attempts.
  pub complete_listing-schedules :
      (f : Frontier) (now : ℕ) (j : Job) (new_children : ℕ) (k : Keyspace r)
      → is_some (r.zscore k.lease j.member) ≡ true
      → Revisits f now j new_children k (complete_listing f now j new_children k)
  unfolding complete_listing lua_complete_listing
  complete_listing-schedules f now j new_children k h =
      rw
        (take_lease-held j.member
          (complete_held j.member j.url new_children (unix now) (base_ttl_of f.cfg j.class / second)
            (f.cfg.listing_max_ttl / second))
          k h)
        (unfold complete_held forget_failures leave_processing in
          (
            refl,
            (
              ttl,
              rw
                  (count_barren_value j.url new_children
                    (record k { lease = (r.zrem k.lease j.member).1 }))
                  (ground (
                    arith,
                    r.zscore-zadd k.listing_next (unix now + ttl) j.url j.url,
                    eq_text_refl j.url,
                  )),
              backoff_ttl-NextVisit f j.class (barren_after k j.url new_children),
            ),
            count_barren_stored j.url new_children
                (record k { lease = (r.zrem k.lease j.member).1 }),
            ground (arith, r.hget-hdel k.dead j.url j.url, eq_text_refl j.url),
            ground (arith, r.hget-hdel k.strikes j.url j.url, eq_text_refl j.url),
            ground (arith, r.hget-hdel k.attempts j.url j.url, eq_text_refl j.url),
          ))
    where
      ttl : ℕ
      ttl =
          backoff_ttl (base_ttl_of f.cfg j.class / second) (f.cfg.listing_max_ttl / second)
            (barren_after k j.url new_children)
