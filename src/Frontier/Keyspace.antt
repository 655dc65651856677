-- ===== src/Frontier/Keyspace.antt =====
-- The keys of internal/storage/frontier.go, and scripts as functions on them. A script that raises
-- an error keeps what it has written.
use lost_media_finder.Prelude.{ℕ, ◌+◌, List, [], ◌∷◌}
use lost_media_finder.Text.{Text}
use lost_media_finder.Redis.{Redis}
use lost_media_finder.Frontier.Member.{member}

pub record Keyspace (r : Redis) : Type 0 where
  pub job_seq : ℕ
  pub ready : List Text
  pub processing : List Text
  pub lease : r.Zset
  pub delayed : r.Zset
  pub dead : r.Hash Text
  pub attempts : r.Hash ℕ
  pub strikes : r.Hash ℕ
  pub listing_next : r.Zset
  pub listing_barren : r.Hash ℕ
  pub bloom : r.Bloom

pub data Reply {ℓ} (A : Type ℓ) : Type ℓ where
  returned : A → Reply A
  raised : Reply A

abbrev pub Script : Redis → Type 0 → Type 0
Script r A = Keyspace r → Reply A × Keyspace r

module _ {r : Redis} where
  open r use {incr, lpush}

  -- What follows a redis.call or an iteration that may raise an error.
  infixl 5 ◌>>=◌
  abbrev pub ◌>>=◌ : {A B : Type 0} → Reply A × Keyspace r → (A → Script r B) → Reply B × Keyspace r
  (returned a, k) >>= f = f a k
  (raised, k) >>= f = (raised, k)

  -- redis.call('LPUSH', ready, redis.call('INCR', job:seq) .. '|' .. url)
  unfoldable pub push_job : Text → Keyspace r → Keyspace r
  unfolding member
  push_job url k = record k {
    job_seq = incr k.job_seq;
    ready = lpush k.ready (member (incr k.job_seq) url);
  }

  -- for _, item in ipairs(items) do ... end, where an iteration adds to the count that is returned.
  unfoldable pub for_each : (Text → Script r ℕ) → List Text → ℕ → Script r ℕ
  for_each body [] n k = (returned n, k)
  for_each body (item ∷ items) n k = body item k >>= λ m k'. for_each body items (n + m) k'
