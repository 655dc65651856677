-- ===== src/System/Promoting.antt =====
-- Promote of internal/storage/frontier.go: a job whose delay is over does not stay delayed.
use lost_media_finder.Prelude.{
  Bool, ℕ, ◌≡◌, ◌≤◌, ◌<◌, refl, some, List, [], ◌∷◌, arith, length, sym, subst,
}
use lost_media_finder.Text.{Text, eq_text_iff, eq_text_refl}
use lost_media_finder.Text.Members.{occurrences}
use lost_media_finder.Redis.{Redis}
use lost_media_finder.Frontier.Types.{ok, promote_batch_limit}
use lost_media_finder.Frontier.Member.{member, after_separator-member}
use lost_media_finder.Frontier.Keyspace.{Keyspace, Reply, returned, for_each}
use lost_media_finder.Frontier.Scripts.Reconcile.{promote_one, lua_promote}
use lost_media_finder.Frontier.Scripts.Rules.{for_each-returns, >>=-returns}
use lost_media_finder.Frontier.Methods.{unix, promote}
use lost_media_finder.Frontier.Sound.Defs.{Issued}
use lost_media_finder.Frontier.Pending.Inv.{Inv}
use lost_media_finder.Frontier.Pending.Promote.{PromotePage, promote_one-page, promote-page}
use lost_media_finder.System.Defs.{Setup, Reach}
use lost_media_finder.System.Jobs.{IsEmpty, reached}

module _ {r : Redis} where
  -- One iteration returns, and takes the item from delayed.
  abbrev Promoted : Text → Keyspace r → Reply ℕ × Keyspace r → Type 0
  Promoted item k x = ((n : ℕ) × (x.0 ≡ returned n)) × (x.1.delayed ≡ (r.zrem k.delayed item).1)

  promote_one-Promoted :
      (id : ℕ) (url : Text) (k : Keyspace r)
      → Promoted (member id url) k (promote_one (member id url) k)
  unfolding promote_one
  promote_one-Promoted id url k = rw (after_separator-member id url, promote_one) ((1, refl), refl)

-- The delays that are over are those of items to come.
pub record Overdue (r : Redis) (video : Text → Bool) (now : ℕ) (items : List Text) (k : Keyspace r)
    : Type 0 where
  pub page : PromotePage r video items k
  pub due : (m : Text) (s : ℕ) → r.zscore k.delayed m ≡ some s → s ≤ now → 0 < occurrences m items

module _ {r : Redis} {video : Text → Bool} where
  pub Overdue-next :
      (now : ℕ) (item : Text) (items : List Text) (k : Keyspace r)
      → Overdue r video now (item ∷ items) k
      → ((n : ℕ) × ((promote_one item k).0 ≡ returned n))
        × Overdue r video now items (promote_one item k).1
  Overdue-next now item items k e =
      let i : Issued k.job_seq item = e.page.inv.sound.issued item (
        ground
          (arith, e.page.here item, eq_text_refl item, r.occurrences-zmembers k.delayed item)) in
      let (returns, taken) =
        subst (λ x. Promoted x k (promote_one x k)) (sym i.made)
          (promote_one-Promoted i.id i.url k) in
      (
        returns,
        record {
          page = promote_one-page item items k e.page;
          due = λ m s h late.
              let still : r.zscore (r.zrem k.delayed item).1 m ≡ some s =
                subst (λ z. r.zscore z m ≡ some s) taken h in
              ground (
                arith,
                r.zscore-zrem k.delayed item m,
                eq_text_iff item m,
                eq_text_iff m item,
                e.due m s,
              );
        },
      )

  pub Overdue-page :
      (now limit : ℕ) (k : Keyspace r)
      → Inv r video k
      → length (r.zrange_by_score k.delayed now limit) < limit
      → Overdue r video now (r.zrange_by_score k.delayed now limit) k
  Overdue-page now limit k v short = record {
    page = promote-page now limit k v;
    due = λ m at h late. r.zrange_all k.delayed now limit at m short h late;
  }

  lua_promote-returns :
      (now limit : ℕ) (k : Keyspace r)
      → Inv r video k
      → length (r.zrange_by_score k.delayed now limit) < limit
      → ((lua_promote now limit k).0 ≡ returned (length (r.zrange_by_score k.delayed now limit)))
        × Overdue r video now [] (lua_promote now limit k).1
  unfolding lua_promote
  lua_promote-returns now limit k v short =
      let ((n, returns), over) =
        for_each-returns (Overdue r video now) promote_one (Overdue-next now)
          (r.zrange_by_score k.delayed now limit) 0 k (Overdue-page now limit k v short) in
      subst
        (λ (x : Reply ℕ × Keyspace r).
          (x.0 ≡ returned (length (r.zrange_by_score k.delayed now limit)))
          × Overdue r video now [] x.1)
        (sym (
          >>=-returns (for_each promote_one (r.zrange_by_score k.delayed now limit) 0 k)
            (λ _ k'. (returned (length (r.zrange_by_score k.delayed now limit)), k')) n returns))
        (refl, over)

module _ {r : Redis} {start k : Keyspace r} (e : IsEmpty r start) (s : Setup)
    (reach : Reach s start k) where
  -- In every state reachable from an empty database in which fewer delays than the batch limit are
  -- over, Promote returns their number, and every delay that is left ends later.
  pub promote_complete :
      (now : ℕ)
      → length (r.zrange_by_score k.delayed (unix now) promote_batch_limit) < promote_batch_limit
      → ((promote now k).0
          ≡ ok (length (r.zrange_by_score k.delayed (unix now) promote_batch_limit)))
        × ((m : Text) (at : ℕ) → r.zscore (promote now k).1.delayed m ≡ some at → unix now < at)
  unfolding promote
  promote_complete now short =
      let (returns, over) =
        lua_promote-returns (unix now) promote_batch_limit k (reached e s reach) short in
      rw returns (refl, λ m at h. ground (arith, over.due m at h))
