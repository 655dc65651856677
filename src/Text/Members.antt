-- ===== src/Text/Members.antt =====
-- Lists of texts: the occurrences of an element and its removal, in the form of counts.
use lost_media_finder.Prelude.{
  ℕ, ◌+◌, ◌≤◌, ◌<◌, ◌≡◌, refl, Bool, true, false, ◌||◌, List, [], ◌∷◌, arith, bit, count_if,
  if◌then◌else◌,
}
use lost_media_finder.Text.Base.{Text, eq_text, eq_text_iff, eq_text_refl}

abbrev pub occurrences : Text → List Text → ℕ
occurrences m = count_if (eq_text m)

unfoldable pub contains : Text → List Text → Bool
contains m [] = false
contains m (x ∷ xs) = eq_text m x || contains m xs

-- Without the first occurrence.
unfoldable pub remove_first : Text → List Text → List Text
remove_first m [] = []
remove_first m (x ∷ xs) = if eq_text m x then xs else x ∷ remove_first m xs

-- Removal takes one occurrence away, if there is one, whatever is counted.
pub count_if-remove_first :
    (p : Text → Bool) (m : Text) (xs : List Text)
    → count_if p (remove_first m xs) + (if contains m xs then bit (p m) else 0) ≡ count_if p xs
unfolding contains remove_first
count_if-remove_first p m [] = refl
count_if-remove_first p m (x ∷ xs) = ground (arith, eq_text_iff m x, count_if-remove_first p m xs)

pub contains-occurrences : (m : Text) (xs : List Text) → contains m xs ≡ true → 0 < occurrences m xs
unfolding contains
contains-occurrences m [] h = ground arith
contains-occurrences m (x ∷ xs) h = ground (arith, contains-occurrences m xs)

pub occurrences-contains : (m : Text) (xs : List Text) → 0 < occurrences m xs → contains m xs ≡ true
unfolding contains
occurrences-contains m [] h = ground arith
occurrences-contains m (x ∷ xs) h = ground (arith, occurrences-contains m xs)

-- What occurs is counted by every test that it passes.
pub occurrences-le :
    (p : Text → Bool) (m : Text) (xs : List Text) → 0 < occurrences m xs → bit (p m) ≤ count_if p xs
occurrences-le p m [] h = ground arith
occurrences-le p m (x ∷ xs) h = ground (arith, eq_text_iff m x, occurrences-le p m xs)

pub remove_first-cons : (x : Text) (xs : List Text) → remove_first x (x ∷ xs) ≡ xs
unfolding remove_first
remove_first-cons x xs = rw (eq_text_refl x)
