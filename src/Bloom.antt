-- ===== src/Bloom.antt =====
-- internal/storage/redis.go: the administration of the bloom filter. The commands and float64
-- arithmetic are parameters.
use lost_media_finder.Prelude.{
  ℕ, ◌>>=◌, ◌*◌, ◌≡◌, Bool, true, false, not, ◌&&◌, ◌==◌, Option, none, some, List, [], ◌∷◌, ltb,
  if◌then◌else◌,
}
use lost_media_finder.Text.{Text, codes}
use lost_media_finder.Text.Search.{contains_text}
use lost_media_finder.Redis.{Redis, BloomReply, added, present, full}

pub data Attempt (E A : Type 0) : Type 0 where
  done : A → Attempt E A
  failed : E → Attempt E A

-- float64: `decimal m n` is the constant m / 10^n.
pub record Floats : Type 1 where
  pub Float : Type 0
  pub of_int : ℕ → Float
  pub decimal : ℕ → ℕ → Float
  pub div : Float → Float → Float
  pub mul : Float → Float → Float
  pub pow : Float → Float → Float
  pub lt : Float → Float → Bool
  pub le : Float → Float → Bool

abbrev pub bloom_capacity : ℕ
bloom_capacity = 1000000000

abbrev pub bloom_error_rate : (x : Floats) → x.Float
bloom_error_rate x = x.decimal 1 5

pub record BloomStats : Type 0 where
  pub capacity : ℕ
  pub size : ℕ
  pub filters : ℕ
  pub items_inserted : ℕ

pub data BloomError : Type 0 where
  command_failed : Text → BloomError
  unreadable : BloomError
  wrong_capacity : ℕ → BloomError
  scaled : ℕ → BloomError
  degraded : BloomError

-- BF.RESERVE NONSCALING at the configured error rate, which answers nothing or an error, the fields
-- of BF.INFO, and a key that is missing. An error changes nothing, and a filter is made only where
-- there was none.
pub record BloomServer (r : Redis) : Type 0 where
  pub bf_reserve : ℕ → r.Bloom → Option Text × r.Bloom
  pub bf_info_capacity : r.Bloom → Option ℕ
  pub bf_info_size : r.Bloom → Option ℕ
  pub bf_info_filters : r.Bloom → Option ℕ
  pub bf_info_items : r.Bloom → Option ℕ
  pub bf_missing : r.Bloom
  pub bf_reserve_same :
      (n : ℕ) (b : r.Bloom) (e : Text) → (bf_reserve n b).0 ≡ some e → (bf_reserve n b).1 ≡ b
  pub bf_reserve_new :
      (n : ℕ) (b : r.Bloom) (url : Text) → (bf_reserve n b).0 ≡ none → r.bf_exists b url ≡ false

-- The pipeline fails where one of its commands does.
unfoldable pub bloom_stats : {r : Redis} → BloomServer r → r.Bloom → Option BloomStats
bloom_stats v b = do
  capacity ← v.bf_info_capacity b
  size ← v.bf_info_size b
  filters ← v.bf_info_filters b
  items ← v.bf_info_items b
  some (record { capacity = capacity; size = size; filters = filters; items_inserted = items })

-- The checks of BloomVerify on the statistics that were read, in their order.
abbrev pub verify_stats : Floats → BloomStats → Option BloomError
verify_stats x info =
    let bits = x.div (x.of_int (info.size * 8)) (x.of_int info.capacity) in
    let implied = x.pow (x.decimal 6185 4) bits in
    if not (info.capacity == bloom_capacity)
    then some (wrong_capacity info.capacity)
    else if ltb 1 info.filters
    then some (scaled info.filters)
    else if x.lt (x.mul (bloom_error_rate x) (x.decimal 2 0)) implied
    then some degraded
    else none

abbrev pub accepts : BloomReply → Bool
accepts added = true
accepts present = true
accepts full = false

-- The pipeline sends every BF.ADD; an error of one is the error of all.
unfoldable pub bloom_add_batch : (r : Redis) → List Text → r.Bloom → Bool × r.Bloom
bloom_add_batch r [] b = (true, b)
bloom_add_batch r (url ∷ urls) b =
    let (reply, b') = r.bf_add b url in
    let (good, b'') = bloom_add_batch r urls b' in (accepts reply && good, b'')

module _ {r : Redis} where
  -- Whether the filter was created; a filter that exists is no error.
  unfoldable pub bloom_init : BloomServer r → r.Bloom → Attempt BloomError Bool × r.Bloom
  unfolding contains_text
  bloom_init v b =
      let (answer, b') = v.bf_reserve bloom_capacity b in
      elim answer [
        | none ↦ (done true, b')
        | some e ↦
            if contains_text e (codes "exists")
            then (done false, b')
            else (failed (command_failed e), b')
      ]

  unfoldable pub bloom_verify : Floats → BloomServer r → r.Bloom → Option BloomError
  unfolding bloom_stats
  bloom_verify x v b = elim (bloom_stats v b) [
    | none ↦ some unreadable
    | some info ↦ verify_stats x info
  ]

  unfoldable pub bloom_fill_ratio :
      (x : Floats) → BloomServer r → r.Bloom → Attempt BloomError x.Float
  unfolding bloom_stats
  bloom_fill_ratio x v b = elim (bloom_stats v b) [
    | none ↦ failed unreadable
    | some info ↦ done (x.div (x.of_int info.items_inserted) (x.of_int info.capacity))
  ]

  unfoldable pub bloom_reset : BloomServer r → r.Bloom → r.Bloom
  bloom_reset v b = v.bf_missing
