-- ===== src/Redis/Memory/Hashes.antt =====
-- Hashes of the in-memory server: association lists whose first entry for a field counts.
use lost_media_finder.Prelude.{
  ℕ, ◌+◌, ◌≡◌, refl, Option, none, some, List, [], ◌∷◌, arith, length, get_or, if◌then◌else◌,
}
use lost_media_finder.Text.{Text, eq_text, eq_text_iff}

abbrev pub Hash : Type 0 → Type 0
Hash V = List (Text × V)

module _ {V : Type 0} where
  unfoldable pub hget : Hash V → Text → Option V
  hget [] k = none
  hget ((j, v) ∷ h) k = if eq_text j k then some v else hget h k

  unfoldable pub hdel : Hash V → Text → Hash V
  hdel [] k = []
  hdel ((j, v) ∷ h) k = let rest = hdel h k in if eq_text j k then rest else (j, v) ∷ rest

  unfoldable pub hset : Hash V → Text → V → Hash V
  unfolding hdel
  hset h k v = (k, v) ∷ hdel h k

  unfoldable pub hlen : Hash V → ℕ
  hlen h = length h

  pub hget-hdel :
      (h : Hash V) (k j : Text) → hget (hdel h k) j ≡ (if eq_text k j then none else hget h j)
  unfolding hget hdel
  hget-hdel [] k j = ground arith
  hget-hdel ((i, v) ∷ h) k j =
      ground (arith, hget-hdel h k j, eq_text_iff i k, eq_text_iff i j, eq_text_iff k j)

  pub hget-hset :
      (h : Hash V) (k j : Text) (v : V)
      → hget (hset h k v) j ≡ (if eq_text k j then some v else hget h j)
  unfolding hget hset
  hget-hset h k j v = ground (arith, hget-hdel h k j)

unfoldable pub hincrby : Hash ℕ → Text → ℕ → ℕ × Hash ℕ
unfolding hset hget
hincrby h k n = let v = get_or (hget h k) 0 + n in (v, hset h k v)

pub hincrby_value : (h : Hash ℕ) (k : Text) (n : ℕ) → (hincrby h k n).0 ≡ get_or (hget h k) 0 + n
unfolding hincrby
hincrby_value h k n = refl

pub hget-hincrby :
    (h : Hash ℕ) (k j : Text) (n : ℕ)
    → hget (hincrby h k n).1 j ≡ (if eq_text k j then some (get_or (hget h k) 0 + n) else hget h j)
unfolding hincrby
hget-hincrby h k j n = hget-hset h k j (get_or (hget h k) 0 + n)
