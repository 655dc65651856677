-- ===== src/Text/Search.antt =====
-- Searching a text: `strings.IndexByte`, and Lua's plain `string.find` of one byte.
use lost_media_finder.Prelude.{
  Bool, true, false, ◌&&◌, is_some, ℕ, suc, ◌≡◌, refl, Option, none, some, List, [], ◌∷◌, ◌++◌,
  arith, ◌==◌, length, take, drop, if◌then◌else◌,
}
use lost_media_finder.Text.Base.{Text}

-- The position, from 0, of the first byte `c`.
unfoldable pub index_byte : Text → ℕ → Option ℕ
index_byte [] c = none
index_byte (x ∷ xs) c =
    if x == c then some 0 else elim (index_byte xs c) [ none ↦ none | some i ↦ some (suc i) ]

pub index_byte-append :
    (xs ys : Text) (c : ℕ) → index_byte xs c ≡ none → index_byte (xs ++ c ∷ ys) c ≡ some (length xs)
unfolding index_byte
index_byte-append [] ys c h = ground arith
index_byte-append (x ∷ xs) ys c h = ground (arith, index_byte-append xs ys c)

pub index_byte-append_none :
    (xs ys : Text) (c : ℕ)
    → index_byte xs c ≡ none
    → index_byte ys c ≡ none
    → index_byte (xs ++ ys) c ≡ none
unfolding index_byte
index_byte-append_none [] ys c h k = k
index_byte-append_none (x ∷ xs) ys c h k = ground (arith, index_byte-append_none xs ys c)

pub take-length {ℓ} : {A : Type ℓ} (xs ys : List A) → take (length xs) (xs ++ ys) ≡ xs
take-length [] ys = refl
take-length (x ∷ xs) ys = λ i. x ∷ take-length xs ys i

pub drop-length {ℓ} :
    {A : Type ℓ} (xs ys : List A) (y : A) → drop (suc (length xs)) (xs ++ y ∷ ys) ≡ ys
drop-length [] ys y = refl
drop-length (x ∷ xs) ys y = drop-length xs ys y

-- strings.HasPrefix
unfoldable pub has_prefix : Text → Text → Bool
has_prefix s [] = true
has_prefix [] (c ∷ cs) = false
has_prefix (x ∷ s) (c ∷ cs) = x == c && has_prefix s cs

-- strings.Index: the position of the first occurrence of `sub`.
unfoldable pub index : Text → Text → Option ℕ
unfolding has_prefix
index [] sub = if has_prefix [] sub then some 0 else none
index (x ∷ s) sub =
    if has_prefix (x ∷ s) sub
    then some 0
    else elim (index s sub) [ none ↦ none | some i ↦ some (suc i) ]

-- strings.Contains
unfoldable pub contains_text : Text → Text → Bool
unfolding index
contains_text s sub = is_some (index s sub)

-- In front of what is left of a trimmed rest.
abbrev cons_trimmed : ℕ → ℕ → Text → Text
cons_trimmed c x [] = if x == c then [] else x ∷ []
cons_trimmed c x (y ∷ s) = x ∷ y ∷ s

-- strings.TrimRight with a cutset of one byte
unfoldable pub trim_right : ℕ → Text → Text
trim_right c [] = []
trim_right c (x ∷ s) = cons_trimmed c x (trim_right c s)
