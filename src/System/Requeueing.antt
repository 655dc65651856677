-- ===== src/System/Requeueing.antt =====
-- The loops of the scripts of internal/storage/frontier.go that take jobs from a sorted set and queue
-- new ones for their URLs: each job of the set ends up in ready.
use lost_media_finder.Prelude.{
  ℕ, suc, ◌+◌, ◌≡◌, ◌≤◌, ◌<◌, ◌⊎◌, inl, inr, true, false, List, [], ◌∷◌, arith, is_some, length,
  Bool-cases, sym, subst,
}
use lost_media_finder.Text.{Text, eq_text, eq_text_iff}
use lost_media_finder.Text.Members.{occurrences}
use lost_media_finder.Redis.{Redis}
use lost_media_finder.Frontier.Member.{member}
use lost_media_finder.Frontier.Keyspace.{Keyspace, Script, returned, for_each}
use lost_media_finder.Frontier.Scripts.Rules.{for_each-returns}
use lost_media_finder.System.Queueing.{Waits}

module _ {r : Redis} (number : ℕ) (url : Text) where
  -- What an iteration does to the sorted set `z` and to ready: for the job's own member it queues a
  -- job for the URL, and for another it leaves the member in the set and queues at most one.
  pub record Requeues (z : Keyspace r → r.Zset) (body : Text → Script r ℕ) : Type 0 where
    pub mints :
        (k : Keyspace r)
        → is_some (r.zscore (z k) (member number url)) ≡ true
        → (new : ℕ) × ((body (member number url) k).1.ready ≡ member new url ∷ k.ready)
    pub leaves :
        (item : Text) (k : Keyspace r)
        → eq_text item (member number url) ≡ false
        → is_some (r.zscore (z k) (member number url)) ≡ true
        → (is_some (r.zscore (z (body item k).1) (member number url)) ≡ true)
          × (length (body item k).1.ready ≤ suc (length k.ready))
    pub queues :
        (m : Text) (after : List Text) (item : Text) (k : Keyspace r)
        → Waits m after k
        → Waits m after (body item k).1

  -- A job for the URL is in ready, with fewer than so many before it.
  pub record Recovered (most : ℕ) (k : Keyspace r) : Type 0 where
    pub new : ℕ
    pub after : List Text
    pub waits : Waits (member new url) after k
    pub few : length after < most

  -- The member is in the set, and among those to come.
  pub record Lost (most : ℕ) (z : Keyspace r → r.Zset) (items : List Text) (k : Keyspace r)
      : Type 0 where
    pub in_set : is_some (r.zscore (z k) (member number url)) ≡ true
    pub to_come : 0 < occurrences (member number url) items
    pub few : length k.ready + length items ≤ most

  module _ (most : ℕ) (z : Keyspace r → r.Zset) (body : Text → Script r ℕ)
      (q : Requeues z body) where
    own-Recovered :
        (items : List Text) (k : Keyspace r)
        → Lost most z (member number url ∷ items) k
        → Recovered most (body (member number url) k).1
    own-Recovered items k l =
        let (new, e) = q.mints k l.in_set in
        record { new = new; after = k.ready; waits = ([], e); few = omega (arith, l.few) }

    other-Lost :
        (item : Text) (items : List Text) (k : Keyspace r)
        → eq_text item (member number url) ≡ false
        → Lost most z (item ∷ items) k
        → Lost most z items (body item k).1
    other-Lost item items k e l =
        let (still, grown) = q.leaves item k e l.in_set in
        record {
          in_set = still;
          to_come = ground (
            arith,
            e,
            l.to_come,
            eq_text_iff item (member number url),
            eq_text_iff (member number url) item,
          );
          few = omega (arith, grown, l.few);
        }

    body-Lost :
        (item : Text) (items : List Text) (k : Keyspace r)
        → Lost most z (item ∷ items) k
        → Lost most z items (body item k).1 ⊎ Recovered most (body item k).1
    body-Lost item items k l = elim (Bool-cases (eq_text item (member number url))) [
      | inl same ↦
          let e : item ≡ member number url = (eq_text_iff item (member number url)).0 same in
          inr (
            subst (λ x. Recovered most (body x k).1) (sym e)
              (own-Recovered items k (subst (λ x. Lost most z (x ∷ items) k) e l)))
      | inr other ↦ inl (other-Lost item items k other l)
    ]

    body-Back :
        (item : Text) (items : List Text) (k : Keyspace r)
        → Lost most z (item ∷ items) k ⊎ Recovered most k
        → Lost most z items (body item k).1 ⊎ Recovered most (body item k).1
    body-Back item items k (inl l) = body-Lost item items k l
    body-Back item items k (inr b) = inr (record {
      new = b.new;
      after = b.after;
      waits = q.queues (member b.new url) b.after item k b.waits;
      few = b.few;
    })

    not-Lost : (k : Keyspace r) → Lost most z [] k ⊎ Recovered most k → Recovered most k
    not-Lost k (inl l) = absurd (omega (arith, l.to_come))
    not-Lost k (inr b) = b

    -- A loop whose every iteration returns recovers the job.
    pub for_each-Recovered :
        (Q : List Text → Keyspace r → Type 0)
        → ((item : Text) (items : List Text) (k : Keyspace r)
            → Q (item ∷ items) k
            → ((n : ℕ) × ((body item k).0 ≡ returned n)) × Q items (body item k).1)
        → (items : List Text) (n : ℕ) (k : Keyspace r) → Q items k
        → Lost most z items k
        → ((m : ℕ) × ((for_each body items n k).0 ≡ returned m))
          × Recovered most (for_each body items n k).1
    for_each-Recovered Q step items n k h l =
        let (returns, back) =
          for_each-returns (λ items k. Q items k × (Lost most z items k ⊎ Recovered most k)) body
            (λ item items k a.
              let (returns, next) = step item items k a.0 in
              (returns, (next, body-Back item items k a.1)))
            items n k (h, inl l) in
        (returns, not-Lost _ back.1)
