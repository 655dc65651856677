-- ===== src/Frontier/Scripts/Rules.antt =====
-- Rules for the parts that the scripts share: what holds after a part, from what holds on each of
-- its branches.
use lost_media_finder.Prelude.{
  ℕ, ◌+◌, ◌≡◌, refl, ap, true, false, List, [], ◌∷◌, ◌==◌, arith, is_some, Bool-cases, Option-cases,
  inl, inr,
}
use lost_media_finder.Text.{Text}
use lost_media_finder.Redis.{Redis}
use lost_media_finder.Frontier.Types.{AdmitResult, suppressed}
use lost_media_finder.Frontier.Member.{dead_until}
use lost_media_finder.Frontier.Keyspace.{Keyspace, Reply, returned, raised, Script, ◌>>=◌, for_each}
use lost_media_finder.Frontier.Scripts.Admit.{check_dead, is_blocked}
use lost_media_finder.Frontier.Scripts.Complete.{Answer, answer_stale, take_lease}

module _ {r : Redis} where
  -- A script that begins by taking a lease: without one it goes no further.
  pub take_lease-decides :
      (Q : Reply Answer × Keyspace r → Type 0) (item : Text) (rest : Script r Answer)
      (k : Keyspace r)
      → (is_some (r.zscore k.lease item) ≡ false
          → Q (returned answer_stale, record k { lease = (r.zrem k.lease item).1 }))
      → (is_some (r.zscore k.lease item) ≡ true
          → Q (rest (record k { lease = (r.zrem k.lease item).1 })))
      → Q (take_lease item rest k)
  unfolding take_lease
  take_lease-decides Q item rest k stale held = elim (Bool-cases ((r.zrem k.lease item).0 == 0)) [
    | inl e ↦ rw e (stale (ground (arith, r.zrem_count k.lease item)))
    | inr e ↦ rw e (held (ground (arith, r.zrem_count k.lease item)))
  ]

  pub take_lease-keeps :
      (P : Keyspace r → Type 0) (item : Text) (rest : Script r Answer) (k : Keyspace r)
      → (is_some (r.zscore k.lease item) ≡ false → P (record k { lease = (r.zrem k.lease item).1 }))
      → (is_some (r.zscore k.lease item) ≡ true
          → P (rest (record k { lease = (r.zrem k.lease item).1 })).1)
      → P (take_lease item rest k).1
  take_lease-keeps P = take_lease-decides (λ x. P x.1)

  pub take_lease-holds :
      (Q : Reply Answer × Keyspace r → Type 0) (item : Text) (rest : Script r Answer)
      (k : Keyspace r)
      → Q (returned answer_stale, record k { lease = (r.zrem k.lease item).1 })
      → Q (rest (record k { lease = (r.zrem k.lease item).1 }))
      → Q (take_lease item rest k)
  take_lease-holds Q item rest k stale held =
      take_lease-decides Q item rest k (λ _. stale) (λ _. held)

  -- The dead check that both admission scripts begin with.
  pub check_dead-holds :
      (Q : Reply AdmitResult × Keyspace r → Type 0) (url : Text) (now : ℕ)
      (rest : Script r AdmitResult) (k : Keyspace r)
      → Q (raised, k)
      → Q (returned suppressed, k)
      → Q (rest k)
      → Q (rest (record k { dead = r.hdel k.dead url }))
      → Q (check_dead url now rest k)
  unfolding check_dead
  check_dead-holds Q url now rest k broken blocked live expired =
      elim (Option-cases (r.hget k.dead url)) [
        | inl e ↦ rw (e, check_dead) live
        | inr (d, e) ↦
            rw (e, check_dead)
              (elim (Option-cases (dead_until d)) [
                | inl f ↦ rw f broken
                | inr (until, f) ↦ rw f (elim (Bool-cases (is_blocked now until)) [
                  | inl b ↦ rw b blocked
                  | inr b ↦ rw b expired
                ])
              ])
      ]

  pub check_dead-keeps :
      (P : Keyspace r → Type 0) (url : Text) (now : ℕ) (rest : Script r AdmitResult)
      (k : Keyspace r)
      → P k
      → P (rest k).1
      → P (rest (record k { dead = r.hdel k.dead url })).1
      → P (check_dead url now rest k).1
  check_dead-keeps P url now rest k same live expired =
      check_dead-holds (λ x. P x.1) url now rest k same same live expired

module _ {r : Redis} (P : Keyspace r → Type 0) where
  -- What follows an error leaves the state of the error.
  pub >>=-keeps :
      {A B : Type 0} (a : Reply A) (k : Keyspace r) (f : A → Script r B)
      → P k
      → ((x : A) → P (f x k).1)
      → P ((a, k) >>= f).1
  >>=-keeps (returned x) k f h step = step x
  >>=-keeps raised k f h step = h

  -- A loop, from an invariant that may speak of the items to come and outlasts an error.
  pub for_each-keeps :
      (Q : List Text → Keyspace r → Type 0) (body : Text → Script r ℕ)
      → ((items : List Text) (k : Keyspace r) → Q items k → P k)
      → ((item : Text) (items : List Text) (k : Keyspace r)
          → Q (item ∷ items) k
          → Q items (body item k).1)
      → (items : List Text) (n : ℕ) (k : Keyspace r) → Q items k
      → P (for_each body items n k).1
  unfolding for_each
  for_each-keeps Q body finish step [] n k h = finish [] k h
  for_each-keeps Q body finish step (item ∷ items) n k h =
      >>=-keeps (body item k).0 (body item k).1 (λ m k'. for_each body items (n + m) k')
        (finish items (body item k).1 (step item items k h))
        (λ m. for_each-keeps Q body finish step items (n + m) (body item k).1 (step item items k h))

module _ {r : Redis} where
  -- A loop whose every iteration returns: it returns, and what holds at the end speaks of no item.
  pub for_each-returns :
      (Q : List Text → Keyspace r → Type 0) (body : Text → Script r ℕ)
      → ((item : Text) (items : List Text) (k : Keyspace r)
          → Q (item ∷ items) k
          → ((n : ℕ) × ((body item k).0 ≡ returned n)) × Q items (body item k).1)
      → (items : List Text) (n : ℕ) (k : Keyspace r) → Q items k
      → ((m : ℕ) × ((for_each body items n k).0 ≡ returned m)) × Q [] (for_each body items n k).1
  unfolding for_each
  for_each-returns Q body step [] n k h = ((n, refl), h)
  for_each-returns Q body step (item ∷ items) n k h =
      let ((m, e), after) = step item items k h in
      rw (e, for_each) (for_each-returns Q body step items (n + m) (body item k).1 after)

  pub >>=-returns :
      {A B : Type 0} (x : Reply A × Keyspace r) (f : A → Script r B) (a : A)
      → x.0 ≡ returned a
      → (x >>= f) ≡ f a x.1
  >>=-returns (returned b, k) f a h = let same : b ≡ a = cc h in ap (λ y. f y k) same
  >>=-returns (raised, k) f a h = absurd (cc h)
