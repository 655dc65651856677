-- ===== src/Redis/Memory/Zsets.antt =====
-- Sorted sets of the in-memory server: association lists whose first entry for a member counts.
use lost_media_finder.Prelude.{
  ℕ, zero, suc, ◌+◌, ◌≤◌, ◌<◌, ◌≡◌, refl, ap, Bool, Option, none, some, List, [], ◌∷◌, arith,
  length, take, count_if, length-take, bit, is_some, leb, if◌then◌else◌,
}
use lost_media_finder.Text.{Text, eq_text, eq_text_iff}
use lost_media_finder.Text.Members.{occurrences}
use lost_media_finder.Redis.{within}

abbrev pub Zset : Type 0
Zset = List (Text × ℕ)

unfoldable pub without : Text → List Text → List Text
without m [] = []
without m (x ∷ xs) = let rest = without m xs in if eq_text m x then rest else x ∷ rest

unfoldable pub zscore : Zset → Text → Option ℕ
zscore [] m = none
zscore ((k, s) ∷ z) m = if eq_text k m then some s else zscore z m

unfoldable pub zmembers : Zset → List Text
unfolding without
zmembers [] = []
zmembers ((k, s) ∷ z) = k ∷ without k (zmembers z)

delete : Zset → Text → Zset
delete [] m = []
delete ((k, s) ∷ z) m = let rest = delete z m in if eq_text m k then rest else (k, s) ∷ rest

unfoldable pub zadd : Zset → ℕ → Text → Zset
zadd z s m = (m, s) ∷ z

unfoldable pub zadd_nx : Zset → ℕ → Text → Zset
unfolding zscore
zadd_nx z s m = if is_some (zscore z m) then z else (m, s) ∷ z

unfoldable pub zrem : Zset → Text → ℕ × Zset
unfolding delete zscore
zrem z m = if is_some (zscore z m) then (1, delete z m) else (0, z)

select : (Text → Bool) → List Text → List Text
select p [] = []
select p (x ∷ xs) = let rest = select p xs in if p x then x ∷ rest else rest

unfoldable pub zrange_by_score : Zset → ℕ → ℕ → List Text
unfolding select zscore zmembers
zrange_by_score z hi n = take n (select (λ m. within 0 hi (zscore z m)) (zmembers z))

count-without :
    (p : Text → Bool) (m : Text) (xs : List Text)
    → occurrences m xs ≤ 1
    → count_if p (without m xs) + (if leb 1 (occurrences m xs) then bit (p m) else 0)
      ≡ count_if p xs
unfolding without
count-without p m [] h = refl
count-without p m (x ∷ xs) h = ground (arith, eq_text_iff m x, count-without p m xs)

occurrences-without :
    (m k : Text) (xs : List Text)
    → occurrences m (without k xs) ≡ (if eq_text k m then 0 else occurrences m xs)
unfolding without
occurrences-without m k [] = ground arith
occurrences-without m k (x ∷ xs) =
    ground (arith, eq_text_iff m x, eq_text_iff k x, eq_text_iff k m, occurrences-without m k xs)

pub occurrences-zmembers :
    (z : Zset) (m : Text) → occurrences m (zmembers z) ≡ bit (is_some (zscore z m))
unfolding zmembers zscore
occurrences-zmembers [] m = refl
occurrences-zmembers ((k, s) ∷ z) m = ground (
  arith,
  eq_text_iff k m,
  eq_text_iff m k,
  occurrences-without m k (zmembers z),
  occurrences-zmembers z m,
)

without_comm : (m k : Text) (xs : List Text) → without m (without k xs) ≡ without k (without m xs)
unfolding without
without_comm m k [] = refl
without_comm m k (x ∷ xs) = ground (arith, without_comm m k xs)

without_twice : (m : Text) (xs : List Text) → without m (without m xs) ≡ without m xs
unfolding without
without_twice m [] = refl
without_twice m (x ∷ xs) = ground (arith, without_twice m xs)

zmembers-delete : (z : Zset) (m : Text) → zmembers (delete z m) ≡ without m (zmembers z)
unfolding delete zmembers without
zmembers-delete [] m = refl
zmembers-delete ((k, s) ∷ z) m = ground (
  arith,
  eq_text_iff m k,
  without_comm m k (zmembers z),
  without_twice m (zmembers z),
  zmembers-delete z m,
)

module _ (z : Zset) (m : Text) where
  pub zscore-zadd :
      (s : ℕ) (k : Text) → zscore (zadd z s m) k ≡ (if eq_text m k then some s else zscore z k)
  unfolding zscore zadd
  zscore-zadd s k = refl

  pub zadd_nx_lem : (s : ℕ) → zadd_nx z s m ≡ (if is_some (zscore z m) then z else zadd z s m)
  unfolding zadd_nx zadd
  zadd_nx_lem s = refl

zscore-delete :
    (z : Zset) (m k : Text) → zscore (delete z m) k ≡ (if eq_text m k then none else zscore z k)
unfolding zscore delete
zscore-delete [] m k = ground arith
zscore-delete ((j, s) ∷ z) m k =
    ground (arith, eq_text_iff m j, eq_text_iff j k, eq_text_iff m k, zscore-delete z m k)

pub zscore-zrem :
    (z : Zset) (m k : Text) → zscore (zrem z m).1 k ≡ (if eq_text m k then none else zscore z k)
unfolding zrem
zscore-zrem z m k = ground (arith, eq_text_iff m k, zscore-delete z m k)

pub zrem_count : (z : Zset) (m : Text) → (zrem z m).0 ≡ bit (is_some (zscore z m))
unfolding zrem
zrem_count z m = ground arith

pub zrem_absent : (z : Zset) (m : Text) → zscore z m ≡ none → (zrem z m).1 ≡ z
unfolding zrem
zrem_absent z m h = ground arith

pub count-zadd :
    (p : Text → Bool) (z : Zset) (s : ℕ) (m : Text)
    → count_if p (zmembers (zadd z s m))
      ≡ count_if p (zmembers z) + (if is_some (zscore z m) then 0 else bit (p m))
unfolding zadd zmembers
count-zadd p z s m = ground (arith, occurrences-zmembers z m, count-without p m (zmembers z))

pub count-zrem :
    (p : Text → Bool) (z : Zset) (m : Text)
    → count_if p (zmembers (zrem z m).1) + (if is_some (zscore z m) then bit (p m) else 0)
      ≡ count_if p (zmembers z)
unfolding zrem
count-zrem p z m =
    ground (arith, zmembers-delete z m, occurrences-zmembers z m, count-without p m (zmembers z))

occurrences-select :
    (q : Text → Bool) (m : Text) (xs : List Text)
    → occurrences m (select q xs) ≡ (if q m then occurrences m xs else 0)
unfolding select
occurrences-select q m [] = ground arith
occurrences-select q m (x ∷ xs) = ground (arith, eq_text_iff m x, occurrences-select q m xs)

occurrences-take :
    (n : ℕ) (m : Text) (xs : List Text) → occurrences m (take n xs) ≤ occurrences m xs
occurrences-take zero m xs = omega arith
occurrences-take (suc n) m [] = omega arith
occurrences-take (suc n) m (x ∷ xs) = omega (arith, occurrences-take n m xs)

take_short : (n : ℕ) (xs : List Text) → length (take n xs) < n → take n xs ≡ xs
take_short zero xs h = absurd (omega arith)
take_short (suc n) [] h = refl
take_short (suc n) (x ∷ xs) h = ap (λ l. x ∷ l) (take_short n xs (omega arith))

module _ (z : Zset) (hi n : ℕ) where
  due : Text → Bool
  due m = within 0 hi (zscore z m)

  occurrences-range_le :
      (m : Text)
      → occurrences m (zrange_by_score z hi n)
        ≤ (if within 0 hi (zscore z m) then bit (is_some (zscore z m)) else 0)
  unfolding zrange_by_score
  occurrences-range_le m = omega (
    arith,
    occurrences-take n m (select (λ k. within 0 hi (zscore z k)) (zmembers z)),
    occurrences-select (λ k. within 0 hi (zscore z k)) m (zmembers z),
    ap (λ (t : ℕ). if within 0 hi (zscore z m) then t else 0) (occurrences-zmembers z m),
  )

  pub zrange_due :
      (m : Text)
      → 0 < occurrences m (zrange_by_score z hi n)
      → (s : ℕ) × (zscore z m ≡ some s) × (s ≤ hi)
  zrange_due m h = ground (arith, occurrences-range_le m)

  pub zrange_distinct : (m : Text) → occurrences m (zrange_by_score z hi n) ≤ 1
  zrange_distinct m = ground (arith, occurrences-range_le m)

  pub zrange_limit : length (zrange_by_score z hi n) ≤ n
  unfolding zrange_by_score
  zrange_limit = omega (arith, length-take n (select (λ k. within 0 hi (zscore z k)) (zmembers z)))

  pub zrange_all :
      (s : ℕ) (m : Text)
      → length (zrange_by_score z hi n) < n
      → zscore z m ≡ some s
      → s ≤ hi
      → 0 < occurrences m (zrange_by_score z hi n)
  unfolding zrange_by_score
  zrange_all s m short e h = rw (take_short n _ short) (
      ground (
        arith,
        occurrences-select (λ k. within 0 hi (zscore z k)) m (zmembers z),
        occurrences-zmembers z m,
      ))
