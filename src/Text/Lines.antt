-- ===== src/Text/Lines.antt =====
-- The lines of a file: `strings.Split` at a byte and `strings.TrimSpace` of an ASCII text.
use lost_media_finder.Prelude.{
  ℕ, length, Bool-cases, inl, inr, ◌≡◌, ◌<◌, ◌≤◌, ◌∙◌, refl, ap, arith, Bool, true, false, ◌&&◌,
  ◌||◌, ◌==◌, leb, List, [], ◌∷◌, ◌++◌, if◌then◌else◌,
}
use lost_media_finder.Text.Base.{Text}

-- The first piece gets one byte more.
abbrev extend_first : ℕ → List Text → List Text
extend_first x [] = (x ∷ []) ∷ []
extend_first x (piece ∷ pieces) = (x ∷ piece) ∷ pieces

unfoldable pub split_byte : ℕ → Text → List Text
split_byte c [] = [] ∷ []
split_byte c (x ∷ s) =
    let pieces = split_byte c s in if x == c then [] ∷ pieces else extend_first x pieces

-- '\t', '\n', '\v', '\f', '\r' and ' '
abbrev pub is_space : ℕ → Bool
is_space c = (leb 9 c && leb c 13) || c == 32

unfoldable pub trim_left_space : Text → Text
trim_left_space [] = []
trim_left_space (x ∷ s) = if is_space x then trim_left_space s else x ∷ s

abbrev cons_unless_space : ℕ → Text → Text
cons_unless_space x [] = if is_space x then [] else x ∷ []
cons_unless_space x (y ∷ s) = x ∷ y ∷ s

unfoldable pub trim_right_space : Text → Text
trim_right_space [] = []
trim_right_space (x ∷ s) = cons_unless_space x (trim_right_space s)

unfoldable pub trim_space : Text → Text
unfolding trim_left_space trim_right_space
trim_space s = trim_right_space (trim_left_space s)

-- Every byte is above `lo`.
abbrev pub AllAbove : ℕ → Text → Type 0
AllAbove lo [] = Unit
AllAbove lo (c ∷ s) = (lo < c) × AllAbove lo s

pub append-AllAbove : (lo : ℕ) (s t : Text) → AllAbove lo s → AllAbove lo t → AllAbove lo (s ++ t)
append-AllAbove lo [] t above rest = rest
append-AllAbove lo (c ∷ s) t (first, above) rest = (first, append-AllAbove lo s t above rest)

pub AllAbove-le : (lo hi : ℕ) (s : Text) → lo ≤ hi → AllAbove hi s → AllAbove lo s
AllAbove-le lo hi [] le above = tt
AllAbove-le lo hi (c ∷ s) le (first, above) = (omega arith, AllAbove-le lo hi s le above)

no_space : (c : ℕ) → 32 < c → is_space c ≡ false
no_space c h = ground arith

trim_right_space-AllAbove : (s : Text) → AllAbove 32 s → trim_right_space s ≡ s
unfolding trim_right_space
trim_right_space-AllAbove [] above = refl
trim_right_space-AllAbove (c ∷ []) (first, above) = rw (no_space c first) refl
trim_right_space-AllAbove (c ∷ d ∷ s) (first, above) =
    ap (cons_unless_space c) (trim_right_space-AllAbove (d ∷ s) above)

-- A text without blanks is not trimmed.
pub trim_space-AllAbove : (s : Text) → AllAbove 32 s → trim_space s ≡ s
unfolding trim_space trim_left_space
trim_space-AllAbove [] above = trim_right_space-AllAbove [] above
trim_space-AllAbove (c ∷ s) above =
    rw (no_space c above.0) (trim_right_space-AllAbove (c ∷ s) above)

other_byte : (x c : ℕ) → c < x → (x == c) ≡ false
other_byte x c h = ground arith

same_byte : (c : ℕ) → (c == c) ≡ true
same_byte c = ground arith

pub split_byte-whole : (c : ℕ) (s : Text) → AllAbove c s → split_byte c s ≡ s ∷ []
unfolding split_byte
split_byte-whole c [] above = refl
split_byte-whole c (x ∷ s) (first, above) =
    rw (other_byte x c first) (ap (extend_first x) (split_byte-whole c s above))

pub split_byte-append :
    (c : ℕ) (s rest : Text) → AllAbove c s → split_byte c (s ++ c ∷ rest) ≡ s ∷ split_byte c rest
unfolding split_byte
split_byte-append c [] rest above = rw (same_byte c) refl
split_byte-append c (x ∷ s) rest (first, above) =
    rw (other_byte x c first) (ap (extend_first x) (split_byte-append c s rest above))

-- The pieces with the byte between them.
unfoldable pub join : ℕ → List Text → Text
join c [] = []
join c (s ∷ []) = s
join c (s ∷ t ∷ rest) = s ++ c ∷ join c (t ∷ rest)

abbrev pub AllPiecesAbove : ℕ → List Text → Type 0
AllPiecesAbove c [] = Unit
AllPiecesAbove c (s ∷ pieces) = AllAbove c s × AllPiecesAbove c pieces

-- Splitting what was joined gives the pieces back.
pub split_byte-join :
    (c : ℕ) (s : Text) (pieces : List Text)
    → AllPiecesAbove c (s ∷ pieces)
    → split_byte c (join c (s ∷ pieces)) ≡ s ∷ pieces
unfolding join
split_byte-join c s [] (above, rest) = split_byte-whole c s above
split_byte-join c s (t ∷ pieces) (above, rest) =
    split_byte-append c s (join c (t ∷ pieces)) above
    ∙ ap (λ l. s ∷ l) (split_byte-join c t pieces rest)

extend_first-some : (x : ℕ) (pieces : List Text) → 0 < length (extend_first x pieces)
extend_first-some x [] = omega arith
extend_first-some x (piece ∷ pieces) = omega arith

-- There is always a piece.
pub split_byte-some : (c : ℕ) (s : Text) → 0 < length (split_byte c s)
unfolding split_byte
split_byte-some c [] = omega arith
split_byte-some c (x ∷ s) = elim (Bool-cases (x == c)) [
  | inl e ↦ rw e (omega arith)
  | inr e ↦ rw e (extend_first-some x (split_byte c s))
]
