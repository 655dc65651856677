-- ===== src/Text/Integers.antt =====
-- `strconv.Atoi` and `strconv.Itoa`, where an int has 64 bits.
use lost_media_finder.Prelude.{
  ℕ, zero, suc, ◌≡◌, ◌<◌, ◌^◌, ◌-◌, refl, arith, ltb, ◌==◌, false, Option, none, some, ◌>>=◌, [],
  ◌∷◌, if◌then◌else◌, ℤ, pos, negsuc, lt→ltb,
}
use lost_media_finder.Text.Base.{Text}
use lost_media_finder.Text.Decimal.{print, to_number, to_number-print, print-AllAbove}
use lost_media_finder.Text.Lines.{AllAbove, AllAbove-le}

-- Where the range ends.
positive : ℕ → Option ℤ
positive n = if ltb n (2 ^ 63) then some (pos n) else none

negative : ℕ → Option ℤ
negative zero = some (pos 0)
negative (suc n) = if ltb n (2 ^ 63) then some (negsuc n) else none

-- `none` stands for an error.
unfoldable pub atoi : Text → Option ℤ
unfolding to_number positive negative
atoi [] = none
atoi (c ∷ s) =
    if c == 45
    then to_number s >>= negative
    else if c == 43
    then to_number s >>= positive
    else to_number (c ∷ s) >>= positive

-- What strconv.Atoi returns together with an error: 0 for bad syntax, the nearest value out of range.
limited_positive : ℕ → ℤ
limited_positive n = if ltb n (2 ^ 63) then pos n else pos (2 ^ 63 - 1)

limited_negative : ℕ → ℤ
limited_negative zero = pos 0
limited_negative (suc n) = if ltb n (2 ^ 63) then negsuc n else negsuc (2 ^ 63 - 1)

-- The value of strconv.Atoi for a caller that ignores the error.
unfoldable pub atoi_value : Text → ℤ
unfolding to_number limited_positive limited_negative
atoi_value [] = pos 0
atoi_value (c ∷ s) =
    if c == 45
    then elim (to_number s) [ none ↦ pos 0 | some n ↦ limited_negative n ]
    else if c == 43
    then elim (to_number s) [ none ↦ pos 0 | some n ↦ limited_positive n ]
    else elim (to_number (c ∷ s)) [ none ↦ pos 0 | some n ↦ limited_positive n ]

unfoldable pub itoa : ℤ → Text
unfolding print
itoa (pos n) = print n
itoa (negsuc n) = 45 ∷ print (suc n)

abbrev pub IsInt64 : ℤ → Type 0
IsInt64 (pos n) = n < 2 ^ 63
IsInt64 (negsuc n) = n < 2 ^ 63

-- A text that starts with a digit is read as a number without a sign.
unsigned :
    (s : Text) (n : ℕ) → AllAbove 47 s → to_number s ≡ some n → n < 2 ^ 63 → atoi s ≡ some (pos n)
unfolding atoi
unsigned [] n above e small = absurd (unfold to_number in cc e)
unsigned (c ∷ s) n (first, above) e small =
    rw (other c 45 first (omega arith), other c 43 first (omega arith), e, lt→ltb n (2 ^ 63) small)
      refl
  where
    other : (c d : ℕ) → 47 < c → d < 47 → (c == d) ≡ false
    other c d h k = ground arith

-- Reading what was written gives the integer back.
pub atoi-itoa : (z : ℤ) → IsInt64 z → atoi (itoa z) ≡ some z
unfolding itoa atoi
atoi-itoa (pos n) small = unsigned (print n) n (print-AllAbove n) (to_number-print n) small
atoi-itoa (negsuc n) small = rw (to_number-print (suc n), lt→ltb n (2 ^ 63) small) refl

-- Signs and digits come after the comma.
pub itoa-AllAbove : (z : ℤ) → AllAbove 44 (itoa z)
unfolding itoa
itoa-AllAbove (pos n) = AllAbove-le 44 47 (print n) (omega arith) (print-AllAbove n)
itoa-AllAbove (negsuc n) =
    (omega arith, AllAbove-le 44 47 (print (suc n)) (omega arith) (print-AllAbove (suc n)))
