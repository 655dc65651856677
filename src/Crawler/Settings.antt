-- ===== src/Crawler/Settings.antt =====
-- What Load of internal/config/config.go makes of the environment.
use lost_media_finder.Prelude.{
  suc, ◌≡◌, ◌<◌, refl, ap, subst, arith, Option, none, some, Option-cases, inl, inr, List, [], ◌∷◌,
  ◌++◌, map, length, ℤ, pos,
}
use lost_media_finder.Text.{Text, codes}
use lost_media_finder.Text.Lines.{
  AllAbove-le, AllPiecesAbove, join, split_byte, split_byte-join, split_byte-some, trim_space,
  trim_space-AllAbove,
}
use lost_media_finder.Text.Integers.{atoi, itoa, IsInt64, atoi-itoa, itoa-AllAbove}
use lost_media_finder.Crawler.Environment.{atoi_all, int_slice_of, get_env_int_slice, load}

abbrev pub AllInt64 : List ℤ → Type 0
AllInt64 [] = Unit
AllInt64 (z ∷ zs) = IsInt64 z × AllInt64 zs

atoi_all-itoa : (zs : List ℤ) → AllInt64 zs → atoi_all (map itoa zs) ≡ some zs
atoi_all-itoa [] h = refl
atoi_all-itoa (z ∷ zs) (first, rest) =
    rw
      (
        trim_space-AllAbove (itoa z) (AllAbove-le 32 44 (itoa z) (omega arith) (itoa-AllAbove z)),
        atoi-itoa z first,
        atoi_all-itoa zs rest,
      )
      refl

itoa-AllPiecesAbove : (zs : List ℤ) → AllPiecesAbove 44 (map itoa zs)
itoa-AllPiecesAbove [] = tt
itoa-AllPiecesAbove (z ∷ zs) = (itoa-AllAbove z, itoa-AllPiecesAbove zs)

-- A text whose pieces are numbers is not empty.
int_slice_of-parts :
    (raw : Text) (def out : List ℤ)
    → atoi_all (split_byte 44 raw) ≡ some out
    → int_slice_of raw def ≡ out
int_slice_of-parts [] def out h = absurd (unfold split_byte atoi trim_space in cc h)
int_slice_of-parts (c ∷ raw) def out h = rw h refl

-- A list of 64-bit integers that is written to a variable, with commas between them, is what
-- getEnvIntSlice reads from it, if there is one at all.
pub get_env_int_slice-join :
    (getenv : Text → Text) (key : Text) (def : List ℤ) (z : ℤ) (zs : List ℤ)
    → AllInt64 (z ∷ zs)
    → getenv key ≡ join 44 (map itoa (z ∷ zs))
    → get_env_int_slice getenv key def ≡ z ∷ zs
unfolding get_env_int_slice
get_env_int_slice-join getenv key def z zs all e = int_slice_of-parts (getenv key) def (z ∷ zs) (
    rw (e, split_byte-join 44 (itoa z) (map itoa zs) (itoa-AllPiecesAbove (z ∷ zs)))
      (atoi_all-itoa (z ∷ zs) all))

atoi_all-malformed :
    (before after : List Text) (p : Text)
    → atoi (trim_space p) ≡ none
    → atoi_all (before ++ p ∷ after) ≡ none
atoi_all-malformed [] after p bad = rw bad refl
atoi_all-malformed (q ∷ before) after p bad = elim (Option-cases (atoi (trim_space q))) [
  | inl e ↦ rw e refl
  | inr (n, e) ↦ rw (e, atoi_all-malformed before after p bad) refl
]

int_slice_of-malformed :
    (raw : Text) (def : List ℤ) → atoi_all (split_byte 44 raw) ≡ none → int_slice_of raw def ≡ def
int_slice_of-malformed [] def h = refl
int_slice_of-malformed (c ∷ raw) def h = rw h refl

-- Where one of the comma-separated parts of a variable is no integer, getEnvIntSlice applies none of
-- them, and returns the default.
pub get_env_int_slice-malformed :
    (getenv : Text → Text) (key : Text) (def : List ℤ) (before after : List Text) (p : Text)
    → split_byte 44 (getenv key) ≡ before ++ p ∷ after
    → atoi (trim_space p) ≡ none
    → get_env_int_slice getenv key def ≡ def
unfolding get_env_int_slice
get_env_int_slice-malformed getenv key def before after p e bad =
    int_slice_of-malformed (getenv key) def (rw e (atoi_all-malformed before after p bad))

-- As many numbers as parts.
abbrev Sized : List Text → Option (List ℤ) → Type 0
Sized parts none = Unit
Sized parts (some out) = length out ≡ length parts

atoi_all-Sized : (parts : List Text) → Sized parts (atoi_all parts)
atoi_all-Sized [] = refl
atoi_all-Sized (p ∷ parts) = elim (Option-cases (atoi (trim_space p))) [
  | inl e ↦ rw e tt
  | inr (n, e) ↦ elim (Option-cases (atoi_all parts)) [
    | inl f ↦ rw (e, f) tt
    | inr (out, f) ↦ rw (e, f) (ap suc (subst (Sized parts) f (atoi_all-Sized parts)))
  ]
]

int_slice_of-some : (raw : Text) (def : List ℤ) → 0 < length def → 0 < length (int_slice_of raw def)
int_slice_of-some [] def h = h
int_slice_of-some (c ∷ raw) def h = elim (Option-cases (atoi_all (split_byte 44 (c ∷ raw)))) [
  | inl e ↦ rw e h
  | inr (out, e) ↦ rw e (
      omega (
        arith,
        subst (Sized (split_byte 44 (c ∷ raw))) e (atoi_all-Sized (split_byte 44 (c ∷ raw))),
        split_byte-some 44 (c ∷ raw),
      ))
]

-- Whatever the environment is, neither ladder of Load is empty.
load-ladders :
    (getenv : Text → Text)
    → (0 < length (load getenv).rate_limit_backoff_sec)
      × (0 < length (load getenv).strike_backoff_sec)
unfolding load get_env_int_slice
load-ladders getenv = (
  int_slice_of-some (getenv (codes "RATE_LIMIT_BACKOFF_SEC")) (pos 300 ∷ pos 900 ∷ pos 2700 ∷ [])
      (omega arith),
  int_slice_of-some (getenv (codes "STRIKE_BACKOFF_SEC")) (pos 60 ∷ pos 300 ∷ pos 1500 ∷ [])
      (omega arith),
)
