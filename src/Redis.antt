-- ===== src/Redis.antt =====
-- The Redis server, which this repository only calls: a parameter. The fields before the laws are
-- the values of a key and the commands that the code issues; the laws are the documented behaviour
-- of those commands. A counter hash holds integers, which HINCRBY keeps in decimal.

pub mod Memory
pub mod Laws
use lost_media_finder.Prelude.{
  leb, ◌&&◌, ℕ, suc, ◌+◌, ◌-◌, ◌≤◌, ◌<◌, ◌≡◌, Bool, true, false, Option, none, some, List, [], ◌∷◌,
  ◌++◌, length, drop, count_if, bit, is_some, get_or, if◌then◌else◌,
}
use lost_media_finder.Text.{Text, eq_text}
use lost_media_finder.Text.Members.{occurrences, remove_first}

-- What BF.ADD answers: 1, 0, or an error when a NONSCALING filter is at its capacity.
pub data BloomReply : Type 0 where
  added present full : BloomReply

-- A score in a closed range.
abbrev pub within : ℕ → ℕ → Option ℕ → Bool
within lo hi none = false
within lo hi (some s) = leb lo s && leb s hi

pub record Redis : Type 1 where
  pub Hash : Type 0 → Type 0
  pub Zset : Type 0
  pub Bloom : Type 0
  -- INCR
  pub incr : ℕ → ℕ
  pub incr_lem : (n : ℕ) → incr n ≡ suc n
  -- LPUSH, LREM with count 1, LMOVE RIGHT LEFT, LRANGE -n -1 and LLEN on lists, head on the left.
  pub lpush : List Text → Text → List Text
  pub lrem : List Text → Text → List Text
  pub lmove : List Text → List Text → Option (Text × List Text × List Text)
  pub lrange_last : List Text → ℕ → List Text
  pub llen : List Text → ℕ
  pub lpush_lem : (l : List Text) (x : Text) → lpush l x ≡ x ∷ l
  pub lrem_lem : (l : List Text) (x : Text) → lrem l x ≡ remove_first x l
  pub lmove-nil : (d : List Text) → lmove [] d ≡ none
  pub lmove-snoc : (l d : List Text) (x : Text) → lmove (l ++ x ∷ []) d ≡ some (x, l, x ∷ d)
  pub lrange_last_lem : (l : List Text) (n : ℕ) → 0 < n → lrange_last l n ≡ drop (length l - n) l
  pub llen_lem : (l : List Text) → llen l ≡ length l
  -- HGET, HSET, HDEL and HLEN; HINCRBY returns the new value.
  pub hget : {V : Type 0} → Hash V → Text → Option V
  pub hset : {V : Type 0} → Hash V → Text → V → Hash V
  pub hdel : {V : Type 0} → Hash V → Text → Hash V
  pub hincrby : Hash ℕ → Text → ℕ → ℕ × Hash ℕ
  pub hlen : {V : Type 0} → Hash V → ℕ
  pub hget-hset :
      {V : Type 0} (h : Hash V) (k j : Text) (v : V)
      → hget (hset h k v) j ≡ (if eq_text k j then some v else hget h j)
  pub hget-hdel :
      {V : Type 0} (h : Hash V) (k j : Text)
      → hget (hdel h k) j ≡ (if eq_text k j then none else hget h j)
  pub hincrby_value : (h : Hash ℕ) (k : Text) (n : ℕ) → (hincrby h k n).0 ≡ get_or (hget h k) 0 + n
  pub hget-hincrby :
      (h : Hash ℕ) (k j : Text) (n : ℕ)
      → hget (hincrby h k n).1 j
        ≡ (if eq_text k j then some (get_or (hget h k) 0 + n) else hget h j)
  -- ZADD, ZADD NX, ZREM with the number of members removed, ZSCORE, ZRANGEBYSCORE -inf hi LIMIT 0 n,
  -- ZCARD, ZCOUNT, and all members, by which the laws count.
  pub zadd : Zset → ℕ → Text → Zset
  pub zadd_nx : Zset → ℕ → Text → Zset
  pub zrem : Zset → Text → ℕ × Zset
  pub zscore : Zset → Text → Option ℕ
  pub zrange_by_score : Zset → ℕ → ℕ → List Text
  pub zcard : Zset → ℕ
  pub zcount : Zset → ℕ → ℕ → ℕ
  pub zmembers : Zset → List Text
  pub zscore-zadd :
      (z : Zset) (s : ℕ) (m k : Text)
      → zscore (zadd z s m) k ≡ (if eq_text m k then some s else zscore z k)
  pub zadd_nx_lem :
      (z : Zset) (s : ℕ) (m : Text)
      → zadd_nx z s m ≡ (if is_some (zscore z m) then z else zadd z s m)
  pub zscore-zrem :
      (z : Zset) (m k : Text) → zscore (zrem z m).1 k ≡ (if eq_text m k then none else zscore z k)
  pub zrem_count : (z : Zset) (m : Text) → (zrem z m).0 ≡ bit (is_some (zscore z m))
  pub zrem_absent : (z : Zset) (m : Text) → zscore z m ≡ none → (zrem z m).1 ≡ z
  pub count-zadd :
      (p : Text → Bool) (z : Zset) (s : ℕ) (m : Text)
      → count_if p (zmembers (zadd z s m))
        ≡ count_if p (zmembers z) + (if is_some (zscore z m) then 0 else bit (p m))
  pub count-zrem :
      (p : Text → Bool) (z : Zset) (m : Text)
      → count_if p (zmembers (zrem z m).1) + (if is_some (zscore z m) then bit (p m) else 0)
        ≡ count_if p (zmembers z)
  pub occurrences-zmembers :
      (z : Zset) (m : Text) → occurrences m (zmembers z) ≡ bit (is_some (zscore z m))
  pub zcard_lem : (z : Zset) → zcard z ≡ length (zmembers z)
  pub zcount_lem :
      (z : Zset) (lo hi : ℕ)
      → zcount z lo hi ≡ count_if (λ m. within lo hi (zscore z m)) (zmembers z)
  pub zrange_due :
      (z : Zset) (hi n : ℕ) (m : Text)
      → 0 < occurrences m (zrange_by_score z hi n)
      → (s : ℕ) × (zscore z m ≡ some s) × (s ≤ hi)
  pub zrange_distinct :
      (z : Zset) (hi n : ℕ) (m : Text) → occurrences m (zrange_by_score z hi n) ≤ 1
  pub zrange_limit : (z : Zset) (hi n : ℕ) → length (zrange_by_score z hi n) ≤ n
  pub zrange_all :
      (z : Zset) (hi n s : ℕ) (m : Text)
      → length (zrange_by_score z hi n) < n
      → zscore z m ≡ some s
      → s ≤ hi
      → 0 < occurrences m (zrange_by_score z hi n)
  -- BF.ADD, and BF.EXISTS, by which the laws speak: no false negatives, and nothing is forgotten.
  pub bf_add : Bloom → Text → BloomReply × Bloom
  pub bf_exists : Bloom → Text → Bool
  pub bf_add_added :
      (b : Bloom) (u : Text)
      → (bf_add b u).0 ≡ added
      → (bf_exists b u ≡ false) × (bf_exists (bf_add b u).1 u ≡ true)
  pub bf_add_present : (b : Bloom) (u : Text) → bf_exists b u ≡ true → (bf_add b u).0 ≡ present
  pub bf_add_present_exists :
      (b : Bloom) (u : Text) → (bf_add b u).0 ≡ present → bf_exists b u ≡ true
  pub bf_add_same : (b : Bloom) (u : Text) → ((bf_add b u).0 ≡ added → ⊥) → (bf_add b u).1 ≡ b
  pub bf_exists_mono :
      (b : Bloom) (u v : Text) → bf_exists b v ≡ true → bf_exists (bf_add b u).1 v ≡ true
