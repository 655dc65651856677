-- ===== src/Frontier/Pending/Schedule.antt =====
-- The listing scheduler keeps the invariant: a due listing of its page gets its one job, unless it
-- is dead.
use lost_media_finder.Prelude.{
  ℕ, ◌+◌, ◌≤◌, ◌<◌, ◌≡◌, Bool, false, Option, none, some, List, ◌∷◌, arith, ◌==◌, ltb, bit,
  if◌then◌else◌, Bool-cases, Option-cases, inl, inr,
}
use lost_media_finder.Text.{Text, eq_text, eq_text_iff, eq_text_refl}
use lost_media_finder.Text.Members.{occurrences}
use lost_media_finder.Redis.{Redis}
use lost_media_finder.Frontier.Types.{pending_score}
use lost_media_finder.Frontier.Keyspace.{Keyspace}
use lost_media_finder.Frontier.Scripts.Reconcile.{admit_due, schedule_one, lua_listing_scheduler}
use lost_media_finder.Frontier.Scripts.Rules.{for_each-keeps}
use lost_media_finder.Frontier.Sound.Parts.{Tracks-push}
use lost_media_finder.Frontier.Pending.Inv.{Inv}
use lost_media_finder.Frontier.Pending.Dead.{Buried-hdel}
use lost_media_finder.Frontier.Pending.Defs.{is_pending}
use lost_media_finder.Frontier.Pending.Parts.{Pairs-admit, Pairs-reschedule, Pairs-unschedule}

-- What is yet to come of a page of due listings: each once, and none PENDING.
pub record DuePage (r : Redis) (video : Text → Bool) (items : List Text) (k : Keyspace r)
    : Type 0 where
  pub inv : Inv r video k
  pub distinct : (m : Text) → occurrences m items ≤ 1
  pub due : (m : Text) → 0 < occurrences m items → is_pending (r.zscore k.listing_next m) ≡ false

-- What a change of the schedule at one listing leaves of the page.
rest_due :
    (url m : Text) (items : List Text) (before after : Option ℕ)
    → (0 < bit (eq_text m url) + occurrences m items → is_pending before ≡ false)
    → bit (eq_text m url) + occurrences m items ≤ 1
    → 0 < occurrences m items
    → is_pending (if eq_text url m then after else before) ≡ false
rest_due url m items before after h once more = ground (arith, eq_text_iff m url, eq_text_iff url m)

module _ {r : Redis} {video : Text → Bool} where
  admit_due-page :
      (url : Text) (items : List Text) (k : Keyspace r)
      → DuePage r video (url ∷ items) k
      → DuePage r video items (admit_due pending_score url k).1
  unfolding admit_due
  admit_due-page url items k q = record {
    inv = record {
      sound = Tracks-push q.inv.sound url;
      paired =
          Pairs-admit q.inv.paired (r.incr k.job_seq) url
            (q.due url (ground (arith, eq_text_refl url)));
      buried = q.inv.buried;
    };
    distinct = λ m. omega (arith, q.distinct m);
    due = λ m h. rw (r.zscore-zadd k.listing_next pending_score url m) (
        rest_due url m items (r.zscore k.listing_next m) (some pending_score) (q.due m)
          (q.distinct m) h);
  }

  pub schedule_one-page :
      (now : ℕ) (url : Text) (items : List Text) (k : Keyspace r)
      → DuePage r video (url ∷ items) k
      → DuePage r video items (schedule_one now pending_score url k).1
  unfolding schedule_one
  schedule_one-page now url items k q = elim (Option-cases (r.hget k.dead url)) [
    | inl e ↦ rw (e, schedule_one) (admit_due-page url items k q)
    | inr (d, e) ↦
        let (until, f, early) = q.inv.buried.at url d e in
        let idle : is_pending (r.zscore k.listing_next url) ≡ false =
          q.due url (ground (arith, eq_text_refl url)) in
        rw (e, schedule_one)
          (rw f (elim (Bool-cases (until == 0)) [
            | inl b ↦ rw b (record {
              inv = record {
                sound = q.inv.sound;
                paired = Pairs-unschedule q.inv.paired url idle;
                buried = q.inv.buried;
              };
              distinct = λ m. omega (arith, q.distinct m);
              due = λ m h. rw (r.zscore-zrem k.listing_next url m) (
                  rest_due url m items (r.zscore k.listing_next m) none (q.due m) (q.distinct m) h);
            })
            | inr b ↦ rw b (elim (Bool-cases (ltb now until)) [
              | inl c ↦ rw c (record {
                inv = record {
                  sound = q.inv.sound;
                  paired = Pairs-reschedule q.inv.paired until url idle early;
                  buried = q.inv.buried;
                };
                distinct = λ m. omega (arith, q.distinct m);
                due = λ m h. rw (r.zscore-zadd k.listing_next until url m) (
                    rest_due url m items (r.zscore k.listing_next m) (some until) (q.due m)
                      (q.distinct m) h);
              })
              | inr c ↦ rw c (
                  admit_due-page url items (record k { dead = r.hdel k.dead url })
                    (record {
                      inv = record {
                        sound = q.inv.sound;
                        paired = q.inv.paired;
                        buried = Buried-hdel q.inv.buried url;
                      };
                      distinct = q.distinct;
                      due = q.due;
                    }))
            ])
          ]))
  ]

  pub due-page :
      (now limit : ℕ) (k : Keyspace r)
      → now < pending_score
      → Inv r video k
      → DuePage r video (r.zrange_by_score k.listing_next now limit) k
  due-page now limit k h v = record {
    inv = v;
    distinct = r.zrange_distinct k.listing_next now limit;
    due = λ m some_due.
        unfold is_pending in ground (arith, r.zrange_due k.listing_next now limit m some_due);
  }

  pub listing_scheduler-Inv :
      (now limit : ℕ) (k : Keyspace r)
      → now < pending_score
      → Inv r video k
      → Inv r video (lua_listing_scheduler now limit pending_score k).1
  unfolding lua_listing_scheduler
  listing_scheduler-Inv now limit k h v =
      for_each-keeps (Inv r video) (DuePage r video) (schedule_one now pending_score)
        (λ _ _ q. q.inv) (schedule_one-page now) (r.zrange_by_score k.listing_next now limit) 0 k
        (due-page now limit k h v)
