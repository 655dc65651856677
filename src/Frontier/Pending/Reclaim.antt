-- ===== src/Frontier/Pending/Reclaim.antt =====
-- The reaper and the sweeper keep the invariant: a job that they reclaim ends as it is minted again.
use lost_media_finder.Prelude.{
  ℕ, zero, suc, ◌-◌, ◌≤◌, ◌<◌, ◌≡◌, Bool, true, false, List, [], ◌∷◌, arith, is_some, drop, length,
  Bool-cases, inl, inr, subst, sym,
}
use lost_media_finder.Text.{Text, eq_text, eq_text_iff, eq_text_refl}
use lost_media_finder.Text.Members.{occurrences}
use lost_media_finder.Redis.{Redis}
use lost_media_finder.Redis.Laws.{count-lrem}
use lost_media_finder.Frontier.Member.{member, after_separator-member}
use lost_media_finder.Frontier.Keyspace.{Keyspace}
use lost_media_finder.Frontier.Scripts.Reconcile.{reap_one, lua_reap, sweep_one, lua_sweep}
use lost_media_finder.Frontier.Scripts.Rules.{for_each-keeps}
use lost_media_finder.Frontier.Sound.Defs.{Issued}
use lost_media_finder.Frontier.Sound.Parts.{
  Tracks-push, Tracks-finish, Tracks-orphan, Tracks-unlease,
}
use lost_media_finder.Frontier.Pending.Inv.{Inv}
use lost_media_finder.Frontier.Pending.Parts.{Pairs-requeue}

-- What is yet to come of a page of processing members.
pub record SweepPage (r : Redis) (video : Text → Bool) (items : List Text) (k : Keyspace r)
    : Type 0 where
  pub inv : Inv r video k
  pub here : (m : Text) → occurrences m items ≤ occurrences m k.processing

occurrences-drop : (n : ℕ) (m : Text) (l : List Text) → occurrences m (drop n l) ≤ occurrences m l
occurrences-drop zero m l = omega arith
occurrences-drop (suc n) m [] = omega arith
occurrences-drop (suc n) m (x ∷ l) = omega (arith, occurrences-drop n m l)

module _ {r : Redis} {video : Text → Bool} where
  reap_member-Inv :
      (id : ℕ) (url : Text) (k : Keyspace r)
      → Inv r video k
      → is_some (r.zscore k.lease (member id url)) ≡ true
      → Inv r video (reap_one (member id url) k).1
  reap_member-Inv id url k v h =
      unfold reap_one in
      rw (r.zrem_count k.lease (member id url), h, after_separator-member id url, reap_one)
        (record {
          sound = Tracks-push (Tracks-finish v.sound (member id url)) url;
          paired =
              Pairs-requeue v.paired id (r.incr k.job_seq) url (v.sound.held (member id url) h);
          buried = v.buried;
        })

  pub reap_one-Inv :
      (item : Text) (k : Keyspace r) → Inv r video k → Inv r video (reap_one item k).1
  reap_one-Inv item k v = elim (Bool-cases (is_some (r.zscore k.lease item))) [
    | inr free ↦
        unfold reap_one in
        rw (r.zrem_count k.lease item, free, reap_one)
          (record { sound = Tracks-unlease v.sound item; paired = v.paired; buried = v.buried })
    | inl leased ↦
        let i : Issued k.job_seq item =
          v.sound.issued item (omega (arith, v.sound.held item leased)) in
        subst (λ x. Inv r video (reap_one x k).1) (sym i.made)
          (reap_member-Inv i.id i.url k v
            (subst (λ x. is_some (r.zscore k.lease x) ≡ true) i.made leased))
  ]

  pub reap-Inv :
      (now limit : ℕ) (k : Keyspace r) → Inv r video k → Inv r video (lua_reap now limit k).1
  unfolding lua_reap
  reap-Inv now limit k v =
      for_each-keeps (Inv r video) (λ _. Inv r video) reap_one (λ _ _ w. w)
        (λ item _. reap_one-Inv item) (r.zrange_by_score k.lease now limit) 0 k v

  sweep_member-page :
      (id : ℕ) (url : Text) (items : List Text) (k : Keyspace r)
      → is_some (r.zscore k.lease (member id url)) ≡ false
      → SweepPage r video (member id url ∷ items) k
      → SweepPage r video items (sweep_one (member id url) k).1
  sweep_member-page id url items k free q =
      unfold sweep_one in
      rw (free, after_separator-member id url, sweep_one)
        (record {
          inv = record {
            sound = Tracks-push (Tracks-orphan q.inv.sound (member id url) free) url;
            paired =
                Pairs-requeue q.inv.paired id (r.incr k.job_seq) url
                  (ground (arith, q.here (member id url), eq_text_refl (member id url)));
            buried = q.inv.buried;
          };
          here = λ m. ground (
            arith,
            q.here m,
            eq_text_iff m (member id url),
            count-lrem r (eq_text m) k.processing (member id url),
            q.here (member id url),
          );
        })

  pub sweep_one-page :
      (item : Text) (items : List Text) (k : Keyspace r)
      → SweepPage r video (item ∷ items) k
      → SweepPage r video items (sweep_one item k).1
  sweep_one-page item items k q = elim (Bool-cases (is_some (r.zscore k.lease item))) [
    | inl leased ↦
        unfold sweep_one in
        rw (leased, sweep_one) (record { inv = q.inv; here = λ m. omega (arith, q.here m) })
    | inr free ↦
        let i : Issued k.job_seq item =
          q.inv.sound.issued item (ground (arith, q.here item, eq_text_refl item)) in
        subst (λ x. SweepPage r video items (sweep_one x k).1) (sym i.made)
          (sweep_member-page i.id i.url items k
            (subst (λ x. is_some (r.zscore k.lease x) ≡ false) i.made free)
            (subst (λ x. SweepPage r video (x ∷ items) k) i.made q))
  ]

  pub sweep-page :
      (limit : ℕ) (k : Keyspace r)
      → 0 < limit
      → Inv r video k
      → SweepPage r video (r.lrange_last k.processing limit) k
  sweep-page limit k some_limit v = record {
    inv = v;
    here = λ m.
        rw (r.lrange_last_lem k.processing limit some_limit)
          (occurrences-drop (length k.processing - limit) m k.processing);
  }

  pub sweep-Inv :
      (limit : ℕ) (k : Keyspace r) → 0 < limit → Inv r video k → Inv r video (lua_sweep limit k).1
  unfolding lua_sweep
  sweep-Inv limit k some_limit v =
      for_each-keeps (Inv r video) (SweepPage r video) sweep_one (λ _ _ q. q.inv) sweep_one-page
        (r.lrange_last k.processing limit) 0 k (sweep-page limit k some_limit v)
