-- ===== src/Redis/Memory/Blooms.antt =====
-- The filter of the in-memory server: an exact set with a capacity.
use lost_media_finder.Prelude.{
  ℕ, ◌≡◌, Bool, true, false, List, ◌∷◌, arith, length, leb, if◌then◌else◌,
}
use lost_media_finder.Text.{Text, eq_text_refl}
use lost_media_finder.Text.Members.{contains}
use lost_media_finder.Redis.{BloomReply, added, present, full}

unfoldable pub bf_exists : List Text → Text → Bool
unfolding contains
bf_exists b u = contains u b

unfoldable pub bf_add : ℕ → List Text → Text → BloomReply × List Text
unfolding contains
bf_add capacity b u =
    if contains u b
    then (present, b)
    else if leb capacity (length b)
    then (full, b)
    else (added, u ∷ b)

module _ (capacity : ℕ) (b : List Text) (u : Text) where
  pub bf_add_added :
      (bf_add capacity b u).0 ≡ added
      → (bf_exists b u ≡ false) × (bf_exists (bf_add capacity b u).1 u ≡ true)
  unfolding bf_add bf_exists contains
  bf_add_added h = ground (arith, eq_text_refl u)

  pub bf_add_present : bf_exists b u ≡ true → (bf_add capacity b u).0 ≡ present
  unfolding bf_add bf_exists
  bf_add_present h = ground arith

  pub bf_add_present_exists : (bf_add capacity b u).0 ≡ present → bf_exists b u ≡ true
  unfolding bf_add bf_exists
  bf_add_present_exists h = ground arith

  pub bf_add_same : ((bf_add capacity b u).0 ≡ added → ⊥) → (bf_add capacity b u).1 ≡ b
  unfolding bf_add
  bf_add_same h = ground arith

  pub bf_exists_mono :
      (v : Text) → bf_exists b v ≡ true → bf_exists (bf_add capacity b u).1 v ≡ true
  unfolding bf_add bf_exists contains
  bf_exists_mono v h = ground arith
