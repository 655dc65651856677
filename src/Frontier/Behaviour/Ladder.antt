-- ===== src/Frontier/Behaviour/Ladder.antt =====
-- The backoff ladder of luaFail in internal/storage/frontier.go, as the script indexes it.
use lost_media_finder.Prelude.{
  ℕ, zero, suc, ◌-◌, ◌<◌, ◌≡◌, ◌∙◌, refl, some, List, [], ◌∷◌, arith, get_elem?, length,
}
use native.Mathlib.Numerals.{unary_clauses}
use lost_media_finder.Frontier.Scripts.Complete.{clamp}

-- The ladder's entry for the given attempt, counted from 1; the last one for all later attempts.
unfoldable pub rung : List ℕ → ℕ → ℕ
rung [] attempt = 0
rung (d ∷ []) attempt = d
rung (d ∷ next ∷ ds) zero = d
rung (d ∷ next ∷ ds) (suc zero) = d
rung (d ∷ next ∷ ds) (suc (suc n)) = rung (next ∷ ds) (suc n)

rung_lem :
    (d : ℕ) (ds : List ℕ) (n : ℕ)
    → get_elem? (d ∷ ds) (clamp (suc n) (length (d ∷ ds)) - 1) ≡ some (rung (d ∷ ds) (suc n))
unfolding rung
rung_lem d [] n = rw first refl
  where
    first : clamp (suc n) 1 - 1 ≡ 0
    first = ground arith
rung_lem d (next ∷ ds) zero = rw first refl
  where
    first : clamp 1 (length (d ∷ next ∷ ds)) - 1 ≡ 0
    first = ground arith
rung_lem d (next ∷ ds) (suc n) = rw later (rung_lem next ds n)
  where
    later :
        clamp (suc (suc n)) (length (d ∷ next ∷ ds)) - 1
        ≡ suc (clamp (suc n) (length (next ∷ ds)) - 1)
    later = ground arith

after_first : (u : ℕ) (xs : List ℕ) (i : ℕ) → 0 < i → get_elem? (u ∷ xs) i ≡ get_elem? xs (i - 1)
after_first u xs zero pos = absurd (omega arith)
after_first u xs (suc i) pos = simp unary_clauses refl

-- luaFail's ladder begins at index 1, after the deadline at index 0.
pub ladder_entry :
    (attempts until d : ℕ) (ds : List ℕ)
    → 0 < attempts
    → get_elem? (until ∷ d ∷ ds) (clamp attempts (length (d ∷ ds))) ≡ some (rung (d ∷ ds) attempts)
ladder_entry zero until d ds pos = absurd (omega arith)
ladder_entry (suc n) until d ds pos =
    after_first until (d ∷ ds) (clamp (suc n) (length (d ∷ ds))) (ground arith) ∙ rung_lem d ds n
