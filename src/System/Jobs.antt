-- ===== src/System/Jobs.antt =====
-- What the invariant says of the jobs in every reachable state.
use lost_media_finder.Prelude.{
  ◌≡◌, refl, ap, Bool, true, false, none, List, [], ◌∷◌, arith, bit, is_some, length, count_if, ◌≤◌,
  ◌<◌, sym,
}
use lost_media_finder.Text.{Text, eq_text}
use lost_media_finder.Text.Members.{occurrences}
use lost_media_finder.Redis.{Redis}
use lost_media_finder.Frontier.Parts.{Parts, Parts-IsProp}
use lost_media_finder.Frontier.Keyspace.{Keyspace}
use lost_media_finder.Frontier.Sound.Defs.{live_jobs}
use lost_media_finder.Frontier.Pending.Defs.{job_for, is_pending}
use lost_media_finder.Frontier.Pending.Inv.{Inv}
use lost_media_finder.System.Defs.{Setup, is_video, Reach}
use lost_media_finder.System.Invariant.{Reach-Inv}

-- The database before the first start, or after a flush.
pub record IsEmpty (r : Redis) (k : Keyspace r) : Type 0 where
  pub no_ready : k.ready ≡ []
  pub no_processing : k.processing ≡ []
  pub no_delayed : r.zcard k.delayed ≡ 0
  pub no_lease : (m : Text) → r.zscore k.lease m ≡ none
  pub no_listing : (url : Text) → r.zscore k.listing_next url ≡ none
  pub no_dead : (url : Text) → r.hget k.dead url ≡ none

count_if-of_empty : (p : Text → Bool) (l : List Text) → length l ≡ 0 → count_if p l ≡ 0
count_if-of_empty p [] h = refl
count_if-of_empty p (x ∷ l) h = absurd (omega arith)

module _ {r : Redis} {start : Keyspace r} (e : IsEmpty r start) where
  live-of_empty : (p : Text → Bool) → live_jobs p start ≡ 0
  live-of_empty p = omega (
    arith,
    ap (count_if p) e.no_ready,
    ap (count_if p) e.no_processing,
    count_if-of_empty p (r.zmembers start.delayed)
        (omega (arith, e.no_delayed, r.zcard_lem start.delayed)),
  )

  IsEmpty-Inv : (video : Text → Bool) → Inv r video start
  IsEmpty-Inv video = record {
    sound = record {
      unique = λ m. omega (arith, live-of_empty (eq_text m));
      issued = λ m h. absurd (omega (arith, live-of_empty (eq_text m)));
      held = λ m h. cc (e.no_lease m);
    };
    paired = record {
      at = λ url _.
          unfold is_pending in ground (arith, live-of_empty (job_for url), e.no_listing url);
    };
    buried = record { at = λ url d h. absurd (cc (e.no_dead url)) };
  }

  module _ {k : Keyspace r} (s : Setup) (reach : Reach s start k) where
    pub reached : Inv r (is_video s) k
    reached = Reach-Inv s reach (IsEmpty-Inv (is_video s))

    -- In every state that any interleaving of calls reaches from an empty database, a listing URL
    -- has exactly one job in ready, processing and delayed together while its score is PENDING,
    -- and none while it is not.
    pub listing_jobs :
        (url : Text)
        → is_video s url ≡ false
        → live_jobs (job_for url) k ≡ bit (is_pending (r.zscore k.listing_next url))
    listing_jobs url listing = reached.paired.at url listing

    -- In every such state no member occurs twice in ready, processing and delayed together.
    members_distinct : (m : Text) → live_jobs (eq_text m) k ≤ 1
    members_distinct m = reached.sound.unique m

    -- In every state that any interleaving of calls reaches from an empty database, a member in ready,
    -- processing or delayed is made of a job number and a URL, and of no others: the type of what makes
    -- it is a proposition.
    pub live-Parts : (m : Text) → 0 < live_jobs (eq_text m) k → Parts m × IsProp (Parts m)
    live-Parts m some_job =
        let i = reached.sound.issued m some_job in ((i.id, i.url, sym i.made), Parts-IsProp m)

    -- In every state that any interleaving of calls reaches from an empty database, a leased member
    -- occurs once in processing, and neither in ready nor in delayed.
    pub leased_in_processing :
        (m : Text)
        → is_some (r.zscore k.lease m) ≡ true
        → (occurrences m k.processing ≡ 1)
          × (occurrences m k.ready ≡ 0)
          × (r.zscore k.delayed m ≡ none)
    leased_in_processing m h =
        ground (
          arith,
          reached.sound.unique m,
          reached.sound.held m h,
          r.occurrences-zmembers k.delayed m,
        )
