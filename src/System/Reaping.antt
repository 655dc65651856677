-- ===== src/System/Reaping.antt =====
-- Reap of internal/storage/frontier.go: a job whose lease expired does not stay lost.
use lost_media_finder.Prelude.{
  ℕ, ◌≡◌, ◌≤◌, ◌<◌, refl, Bool, true, some, List, [], ◌∷◌, arith, is_some, length, Bool-cases, inl,
  inr, sym, subst,
}
use lost_media_finder.Text.{Text, eq_text_iff}
use lost_media_finder.Text.Members.{occurrences}
use lost_media_finder.Redis.{Redis}
use lost_media_finder.Frontier.Types.{ok, reap_batch_limit}
use lost_media_finder.Frontier.Member.{member, after_separator-member}
use lost_media_finder.Frontier.Keyspace.{Keyspace, Reply, returned}
use lost_media_finder.Frontier.Scripts.Reconcile.{reap_one, lua_reap}
use lost_media_finder.Frontier.Scripts.Rules.{for_each-returns}
use lost_media_finder.Frontier.Methods.{unix, reap}
use lost_media_finder.Frontier.Sound.Defs.{Issued}
use lost_media_finder.Frontier.Pending.Inv.{Inv}
use lost_media_finder.Frontier.Pending.Reclaim.{reap_one-Inv}
use lost_media_finder.System.Defs.{Setup, Reach}
use lost_media_finder.System.Jobs.{IsEmpty, reached}

module _ {r : Redis} where
  -- One iteration returns, and takes the item's lease.
  abbrev Reaped : Text → Keyspace r → Reply ℕ × Keyspace r → Type 0
  Reaped item k x = ((n : ℕ) × (x.0 ≡ returned n)) × (x.1.lease ≡ (r.zrem k.lease item).1)

-- The leases that expired are those of items to come.
pub record Expired (r : Redis) (video : Text → Bool) (now : ℕ) (items : List Text) (k : Keyspace r)
    : Type 0 where
  pub inv : Inv r video k
  pub due : (m : Text) (s : ℕ) → r.zscore k.lease m ≡ some s → s ≤ now → 0 < occurrences m items

module _ {r : Redis} {video : Text → Bool} where
  reap_one-Reaped : (item : Text) (k : Keyspace r) → Inv r video k → Reaped item k (reap_one item k)
  reap_one-Reaped item k v = elim (Bool-cases (is_some (r.zscore k.lease item))) [
    | inr free ↦ unfold reap_one in rw (r.zrem_count k.lease item, free, reap_one) ((0, refl), refl)
    | inl leased ↦
        let i : Issued k.job_seq item =
          v.sound.issued item (omega (arith, v.sound.held item leased)) in
        subst (λ x. Reaped x k (reap_one x k)) (sym i.made)
          (reap_member-Reaped i.id i.url k
            (subst (λ x. is_some (r.zscore k.lease x) ≡ true) i.made leased))
  ]
    where
      reap_member-Reaped :
          (id : ℕ) (url : Text) (k : Keyspace r)
          → is_some (r.zscore k.lease (member id url)) ≡ true
          → Reaped (member id url) k (reap_one (member id url) k)
      reap_member-Reaped id url k h =
          unfold reap_one in
          rw (r.zrem_count k.lease (member id url), h, after_separator-member id url, reap_one)
            ((1, refl), refl)

  pub Expired-next :
      (now : ℕ) (item : Text) (items : List Text) (k : Keyspace r)
      → Expired r video now (item ∷ items) k
      → ((n : ℕ) × ((reap_one item k).0 ≡ returned n))
        × Expired r video now items (reap_one item k).1
  Expired-next now item items k e =
      let (returns, taken) = reap_one-Reaped item k e.inv in
      (
        returns,
        record {
          inv = reap_one-Inv item k e.inv;
          due = λ m s h late.
              let still : r.zscore (r.zrem k.lease item).1 m ≡ some s =
                subst (λ l. r.zscore l m ≡ some s) taken h in
              ground (
                arith,
                r.zscore-zrem k.lease item m,
                eq_text_iff item m,
                eq_text_iff m item,
                e.due m s,
              );
        },
      )

  pub Expired-page :
      (now limit : ℕ) (k : Keyspace r)
      → Inv r video k
      → length (r.zrange_by_score k.lease now limit) < limit
      → Expired r video now (r.zrange_by_score k.lease now limit) k
  Expired-page now limit k v short = record {
    inv = v;
    due = λ m s h late. r.zrange_all k.lease now limit s m short h late;
  }

  lua_reap-returns :
      (now limit : ℕ) (k : Keyspace r)
      → Inv r video k
      → length (r.zrange_by_score k.lease now limit) < limit
      → ((n : ℕ) × ((lua_reap now limit k).0 ≡ returned n))
        × Expired r video now [] (lua_reap now limit k).1
  unfolding lua_reap
  lua_reap-returns now limit k v short =
      for_each-returns (Expired r video now) reap_one (Expired-next now)
        (r.zrange_by_score k.lease now limit) 0 k (Expired-page now limit k v short)

module _ {r : Redis} {start k : Keyspace r} (e : IsEmpty r start) (s : Setup)
    (reach : Reach s start k) where
  -- In every state reachable from an empty database in which fewer leases than the batch limit have
  -- expired, Reap raises no error, and every lease that is left expires later.
  pub reap_complete :
      (now : ℕ)
      → length (r.zrange_by_score k.lease (unix now) reap_batch_limit) < reap_batch_limit
      → ((n : ℕ) × ((reap now k).0 ≡ ok n))
        × ((m : Text) (at : ℕ) → r.zscore (reap now k).1.lease m ≡ some at → unix now < at)
  unfolding reap
  reap_complete now short =
      let ((n, returns), expired) =
        lua_reap-returns (unix now) reap_batch_limit k (reached e s reach) short in
      rw returns ((n, refl), λ m at h. ground (arith, expired.due m at h))
