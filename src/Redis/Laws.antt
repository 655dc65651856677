-- ===== src/Redis/Laws.antt =====
-- Consequences of the laws of `Redis` in the form in which the proofs count.
use lost_media_finder.Prelude.{
  ◌+◌, ◌<◌, ◌≡◌, refl, ap, ◌∙◌, ◌⊎◌, inl, inr, Bool, true, none, some, List, [], ◌∷◌, ◌++◌, arith,
  bit, is_some, count_if, if◌then◌else◌,
}
use lost_media_finder.Text.{Text}
use lost_media_finder.Text.Members.{contains, occurrences, count_if-remove_first, remove_first-cons}
use lost_media_finder.Redis.{Redis, BloomReply, added, present, full}

-- A list is empty or has a last element.
pub snoc_cases :
    (l : List Text) → (l ≡ []) ⊎ ((x : Text) × (init : List Text) × (l ≡ init ++ x ∷ []))
snoc_cases [] = inl refl
snoc_cases (x ∷ xs) = elim (snoc_cases xs) [
  | inl e ↦ inr (x, [], ap (λ l. x ∷ l) e)
  | inr (y, init, e) ↦ inr (y, x ∷ init, ap (λ l. x ∷ l) e)
]

-- The three answers of BF.ADD.
pub BloomReply-cases : (b : BloomReply) → (b ≡ full) ⊎ ((b ≡ present) ⊎ (b ≡ added))
BloomReply-cases full = inl refl
BloomReply-cases present = inr (inl refl)
BloomReply-cases added = inr (inr refl)

module _ (r : Redis) where
  open r use {lmove, lpush, lrem, zscore, zmembers}

  -- LMOVE RIGHT LEFT answers nil on an empty list, and else moves the last element to the front.
  pub lmove_cases :
      (l d : List Text)
      → ((l ≡ []) × (lmove l d ≡ none))
        ⊎ ((x : Text) × (init : List Text) × (l ≡ init ++ x ∷ [])
            × (lmove l d ≡ some (x, init, x ∷ d)))
  lmove_cases l d = elim (snoc_cases l) [
    | inl e ↦ inl (e, ap (λ l. lmove l d) e ∙ r.lmove-nil d)
    | inr (x, init, e) ↦ inr (x, init, e, ap (λ l. lmove l d) e ∙ r.lmove-snoc init d x)
  ]

  pub count-lrem :
      (p : Text → Bool) (l : List Text) (x : Text)
      → count_if p (lrem l x) + (if contains x l then bit (p x) else 0) ≡ count_if p l
  count-lrem p l x = rw (r.lrem_lem l x) (count_if-remove_first p x l)

  -- LREM takes back what LPUSH has put in front.
  pub lrem-lpush : (l : List Text) (x : Text) → lrem (lpush l x) x ≡ l
  lrem-lpush l x = rw (r.lpush_lem l x, r.lrem_lem (x ∷ l) x) (remove_first-cons x l)

  -- A member of a sorted set has a score.
  pub zscore-of_member :
      (z : r.Zset) (m : Text) → 0 < occurrences m (zmembers z) → is_some (zscore z m) ≡ true
  zscore-of_member z m h = ground (arith, r.occurrences-zmembers z m)
