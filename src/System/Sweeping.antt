-- ===== src/System/Sweeping.antt =====
-- Sweep of internal/storage/frontier.go: a job in processing without a lease does not stay lost.
use lost_media_finder.Prelude.{
  ℕ, ◌-◌, ◌≡◌, ◌≤◌, ◌<◌, refl, Bool, true, false, List, [], ◌∷◌, arith, is_some, length, Bool-cases,
  inl, inr, sym, subst, if◌then◌else◌,
}
use lost_media_finder.Text.{Text, eq_text, eq_text_iff, eq_text_refl}
use lost_media_finder.Text.Members.{occurrences, occurrences-contains}
use lost_media_finder.Redis.{Redis}
use lost_media_finder.Redis.Laws.{count-lrem}
use lost_media_finder.Frontier.Types.{ok, sweep_batch_limit}
use lost_media_finder.Frontier.Member.{member, after_separator-member}
use lost_media_finder.Frontier.Keyspace.{Keyspace, Reply, returned}
use lost_media_finder.Frontier.Scripts.Reconcile.{sweep_one, lua_sweep}
use lost_media_finder.Frontier.Scripts.Rules.{for_each-returns}
use lost_media_finder.Frontier.Methods.{sweep}
use lost_media_finder.Frontier.Sound.Defs.{Issued}
use lost_media_finder.Frontier.Pending.Inv.{Inv}
use lost_media_finder.Frontier.Pending.Reclaim.{SweepPage, sweep_one-page, sweep-page}
use lost_media_finder.System.Defs.{Setup, Reach}
use lost_media_finder.System.Jobs.{IsEmpty, reached}

module _ {r : Redis} where
  -- One iteration returns, keeps every lease, and takes one occurrence of an unleased item from
  -- processing.
  abbrev Swept : Text → Keyspace r → Reply ℕ × Keyspace r → Type 0
  Swept item k x =
      ((n : ℕ) × (x.0 ≡ returned n))
      × (x.1.lease ≡ k.lease)
      × (x.1.processing
          ≡ (if is_some (r.zscore k.lease item) then k.processing else r.lrem k.processing item))

  sweep_member-Swept :
      (id : ℕ) (url : Text) (k : Keyspace r) → Swept (member id url) k (sweep_one (member id url) k)
  unfolding sweep_one
  sweep_member-Swept id url k = elim (Bool-cases (is_some (r.zscore k.lease (member id url)))) [
    | inl leased ↦ rw leased ((0, refl), refl, refl)
    | inr free ↦ rw (free, after_separator-member id url, sweep_one) ((1, refl), refl, refl)
  ]

-- The unleased jobs in processing are those of items to come.
record Orphans (r : Redis) (video : Text → Bool) (items : List Text) (k : Keyspace r) : Type 0 where
  page : SweepPage r video items k
  orphan :
      (m : Text)
      → 0 < occurrences m k.processing
      → is_some (r.zscore k.lease m) ≡ false
      → 0 < occurrences m items

module _ {r : Redis} {video : Text → Bool} where
  Orphans-next :
      (item : Text) (items : List Text) (k : Keyspace r)
      → Orphans r video (item ∷ items) k
      → ((n : ℕ) × ((sweep_one item k).0 ≡ returned n)) × Orphans r video items (sweep_one item k).1
  Orphans-next item items k o =
      let i : Issued k.job_seq item =
        o.page.inv.sound.issued item (ground (arith, o.page.here item, eq_text_refl item)) in
      let (returns, leases, left) =
        subst (λ x. Swept x k (sweep_one x k)) (sym i.made) (sweep_member-Swept i.id i.url k) in
      (
        returns,
        record {
          page = sweep_one-page item items k o.page;
          orphan = λ m some_m free.
              remains m (subst (λ l. 0 < occurrences m l) left some_m)
                (subst (λ z. is_some (r.zscore z m) ≡ false) leases free);
        },
      )
    where
      remains :
          (m : Text)
          → 0
            < occurrences m
                (if is_some (r.zscore k.lease item) then k.processing else r.lrem k.processing item)
          → is_some (r.zscore k.lease m) ≡ false
          → 0 < occurrences m items
      remains m some_m free = elim (Bool-cases (is_some (r.zscore k.lease item))) [
        | inl leased ↦ ground (arith, o.orphan m, eq_text_iff m item)
        | inr unleased ↦
            let some_left : 0 < occurrences m (r.lrem k.processing item) = ground (arith, some_m) in
            elim (Bool-cases (eq_text m item)) [
              | inl same ↦ ground (
                arith,
                some_left,
                count-lrem r (eq_text m) k.processing item,
                o.page.inv.sound.unique m,
                occurrences-contains item k.processing,
                eq_text_iff m item,
              )
              | inr other ↦
                  ground (arith, some_left, count-lrem r (eq_text m) k.processing item, o.orphan m)
            ]
      ]

  lua_sweep-returns :
      (limit : ℕ) (k : Keyspace r)
      → 0 < limit
      → Inv r video k
      → length k.processing ≤ limit
      → ((n : ℕ) × ((lua_sweep limit k).0 ≡ returned n)) × Orphans r video [] (lua_sweep limit k).1
  unfolding lua_sweep
  lua_sweep-returns limit k some_limit v short =
      for_each-returns (Orphans r video) sweep_one Orphans-next (r.lrange_last k.processing limit) 0
        k
        (record {
          page = sweep-page limit k some_limit v;
          orphan = λ m some_m free. rw whole some_m;
        })
    where
      nothing : (a b : ℕ) → a ≤ b → a - b ≡ 0
      nothing a b h = omega arith

      whole : r.lrange_last k.processing limit ≡ k.processing
      whole =
          rw
            (
              r.lrange_last_lem k.processing limit some_limit,
              nothing (length k.processing) limit short,
            )
            refl

module _ {r : Redis} {start k : Keyspace r} (e : IsEmpty r start) (s : Setup)
    (reach : Reach s start k) where
  -- In every state reachable from an empty database with no more jobs in processing than the batch
  -- limit, Sweep raises no error, and every job that is left in processing has a lease.
  pub sweep_complete :
      length k.processing ≤ sweep_batch_limit
      → ((n : ℕ) × ((sweep k).0 ≡ ok n))
        × ((m : Text)
            → 0 < occurrences m (sweep k).1.processing
            → is_some (r.zscore (sweep k).1.lease m) ≡ true)
  unfolding sweep
  sweep_complete short =
      let ((n, returns), left) =
        lua_sweep-returns sweep_batch_limit k (omega arith) (reached e s reach) short in
      rw returns ((n, refl), λ m h. ground (arith, left.orphan m h))
