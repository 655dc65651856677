-- ===== src/Frontier/Pending/Promote.antt =====
-- The promoter keeps the invariant: each delayed job of its page is minted once again in ready.
use lost_media_finder.Prelude.{
  ltb→lt, ℕ, ◌≤◌, Bool, List, ◌∷◌, arith, ltb, bit, is_some, length, Bool-cases, inl, inr, subst,
  sym,
}
use lost_media_finder.Text.{Text, eq_text_iff, eq_text_refl}
use lost_media_finder.Text.Members.{occurrences}
use lost_media_finder.Redis.{Redis}
use lost_media_finder.Frontier.Member.{member, after_separator-member}
use lost_media_finder.Frontier.Keyspace.{Keyspace, returned, for_each}
use lost_media_finder.Frontier.Scripts.Reconcile.{promote_one, lua_promote}
use lost_media_finder.Frontier.Scripts.Rules.{>>=-keeps, for_each-keeps}
use lost_media_finder.Frontier.Sound.Defs.{Issued}
use lost_media_finder.Frontier.Sound.Parts.{Tracks-push, Tracks-undelay}
use lost_media_finder.Frontier.Pending.Inv.{Inv}
use lost_media_finder.Frontier.Pending.Parts.{Pairs-promote}

-- What is yet to come of a page of delayed members: each is there, and once.
pub record PromotePage (r : Redis) (video : Text → Bool) (items : List Text) (k : Keyspace r)
    : Type 0 where
  pub inv : Inv r video k
  pub here : (m : Text) → occurrences m items ≤ bit (is_some (r.zscore k.delayed m))

module _ {r : Redis} {video : Text → Bool} where
  promote_member-page :
      (id : ℕ) (url : Text) (items : List Text) (k : Keyspace r)
      → PromotePage r video (member id url ∷ items) k
      → PromotePage r video items (promote_one (member id url) k).1
  promote_member-page id url items k q =
      unfold promote_one in
      rw (after_separator-member id url, promote_one)
        (record {
          inv = record {
            sound = Tracks-undelay (Tracks-push q.inv.sound url) (member id url);
            paired =
                Pairs-promote q.inv.paired id (r.incr k.job_seq) url
                  (ground (arith, q.here (member id url), eq_text_refl (member id url)));
            buried = q.inv.buried;
          };
          here = λ m. ground (
            arith,
            q.here m,
            r.zscore-zrem k.delayed (member id url) m,
            eq_text_iff m (member id url),
            eq_text_iff (member id url) m,
          );
        })

  pub promote_one-page :
      (item : Text) (items : List Text) (k : Keyspace r)
      → PromotePage r video (item ∷ items) k
      → PromotePage r video items (promote_one item k).1
  promote_one-page item items k q =
      subst (λ x. PromotePage r video items (promote_one x k).1) (sym i.made)
        (promote_member-page i.id i.url items k
          (subst (λ x. PromotePage r video (x ∷ items) k) i.made q))
    where
      i : Issued k.job_seq item
      i =
          q.inv.sound.issued item
            (ground (arith, q.here item, eq_text_refl item, r.occurrences-zmembers k.delayed item))

  pub promote-page :
      (now limit : ℕ) (k : Keyspace r)
      → Inv r video k
      → PromotePage r video (r.zrange_by_score k.delayed now limit) k
  promote-page now limit k v = record {
    inv = v;
    here = λ m. elim (Bool-cases (ltb 0 (occurrences m (r.zrange_by_score k.delayed now limit)))) [
      | inl some_due ↦ ground (
        arith,
        r.zrange_distinct k.delayed now limit m,
        r.zrange_due k.delayed now limit m (ltb→lt _ _ some_due),
      )
      | inr none_due ↦ ground arith
    ];
  }

  pub promote-Inv :
      (now limit : ℕ) (k : Keyspace r) → Inv r video k → Inv r video (lua_promote now limit k).1
  unfolding lua_promote
  promote-Inv now limit k v =
      >>=-keeps (Inv r video) (for_each promote_one due 0 k).0 (for_each promote_one due 0 k).1
        (λ _ k'. (returned (length due), k')) page (λ _. page)
    where
      due : List Text
      due = r.zrange_by_score k.delayed now limit

      page : Inv r video (for_each promote_one due 0 k).1
      page =
          for_each-keeps (Inv r video) (PromotePage r video) promote_one (λ _ _ q. q.inv)
            promote_one-page due 0 k (promote-page now limit k v)
