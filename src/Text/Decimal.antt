-- ===== src/Text/Decimal.antt =====
-- Decimal notation, as Lua's `..` and Go's `strconv` write a natural number and `tonumber` reads
-- one that consists of digits.
use lost_media_finder.Prelude.{
  ℕ, Bool-cases, inl, inr, zero, suc, ◌+◌, ◌-◌, ◌*◌, ◌/◌, ◌%◌, ◌<◌, ◌≡◌, refl, Bool, true, false,
  ◌&&◌, Option, none, some, [], ◌∷◌, ◌++◌, arith, ltb, leb, if◌then◌else◌,
}
use lost_media_finder.Text.Base.{Text}
use lost_media_finder.Text.Lines.{AllAbove, append-AllAbove}
use lost_media_finder.Text.Search.{index_byte, index_byte-append_none}

-- The digits of `n`, most significant first; `n + 1` rounds are enough.
print_from : ℕ → ℕ → Text
print_from zero n = []
print_from (suc fuel) n =
    let higher = print_from fuel (n / 10) ++ (48 + n % 10) ∷ [] in
    if ltb n 10 then (48 + n) ∷ [] else higher

unfoldable pub print : ℕ → Text
unfolding print_from
print n = print_from (suc n) n

is_digit : ℕ → Bool
is_digit c = leb 48 c && leb c 57

parse_from : ℕ → Text → Option ℕ
unfolding is_digit
parse_from acc [] = some acc
parse_from acc (c ∷ cs) =
    let rest = parse_from (acc * 10 + (c - 48)) cs in if is_digit c then rest else none

abbrev is_empty : Text → Bool
is_empty [] = true
is_empty (c ∷ cs) = false

-- `none` stands for Lua's nil.
unfoldable pub to_number : Text → Option ℕ
unfolding parse_from
to_number s = if is_empty s then none else parse_from 0 s

append-not_empty : (cs : Text) (d : ℕ) → is_empty (cs ++ d ∷ []) ≡ false
append-not_empty [] d = refl
append-not_empty (c ∷ cs) d = refl

-- Reading one more digit at the end.
parse_from-snoc :
    (acc : ℕ) (cs : Text) (d n : ℕ)
    → d < 10
    → parse_from acc cs ≡ some n
    → parse_from acc (cs ++ (48 + d) ∷ []) ≡ some (n * 10 + d)
unfolding parse_from
parse_from-snoc acc [] d n small h = ground arith
parse_from-snoc acc (c ∷ cs) d n small h =
    ground (arith, parse_from-snoc (acc * 10 + (c - 48)) cs d n)

parse_from-print_from : (fuel n : ℕ) → n < fuel → parse_from 0 (print_from fuel n) ≡ some n
unfolding parse_from print_from
parse_from-print_from zero n h = absurd (omega arith)
parse_from-print_from (suc fuel) n h = ground (
  arith,
  parse_from-print_from fuel (n / 10),
  parse_from-snoc 0 (print_from fuel (n / 10)) (n % 10) (n / 10),
)

print_from-not_empty : (fuel n : ℕ) → is_empty (print_from (suc fuel) n) ≡ false
unfolding print_from
print_from-not_empty fuel n =
    ground (arith, append-not_empty (print_from fuel (n / 10)) (48 + n % 10))

-- Reading what was written gives the number back.
pub to_number-print : (n : ℕ) → to_number (print n) ≡ some n
unfolding to_number print
to_number-print n = rw (print_from-not_empty n n) (parse_from-print_from (suc n) n (omega arith))

print_from-index_byte : (fuel n c : ℕ) → 57 < c → index_byte (print_from fuel n) c ≡ none
unfolding print_from index_byte
print_from-index_byte zero n c h = refl
print_from-index_byte (suc fuel) n c h = ground (
  arith,
  index_byte-append_none (print_from fuel (n / 10)) ((48 + n % 10) ∷ []) c,
  print_from-index_byte fuel (n / 10) c,
)

-- A number's notation holds no byte past the digits, so no separator.
pub index_byte-print : (n c : ℕ) → 57 < c → index_byte (print n) c ≡ none
unfolding print
index_byte-print n c h = print_from-index_byte (suc n) n c h

print_from-AllAbove : (fuel n : ℕ) → AllAbove 47 (print_from fuel n)
unfolding print_from
print_from-AllAbove zero n = tt
print_from-AllAbove (suc fuel) n = elim (Bool-cases (ltb n 10)) [
  | inl e ↦ rw e (omega arith, tt)
  | inr e ↦ rw e (
      append-AllAbove 47 (print_from fuel (n / 10)) ((48 + n % 10) ∷ [])
        (print_from-AllAbove fuel (n / 10)) (omega arith, tt))
]

-- A number's notation is digits and bytes above them.
pub print-AllAbove : (n : ℕ) → AllAbove 47 (print n)
unfolding print
print-AllAbove n = print_from-AllAbove (suc n) n
