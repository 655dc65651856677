-- ===== src/Redis/Memory.antt =====
-- An in-memory server that meets the laws of `Redis`, by association lists and lists. Its filter
-- is exact, and full at a given capacity.
mod Lists
mod Hashes
mod Zsets
mod Blooms
use lost_media_finder.Prelude.{ℕ, suc, refl, List, ◌∷◌, length, count_if, drop, ◌-◌}
use lost_media_finder.Text.{Text}
use lost_media_finder.Text.Members.{remove_first}
use lost_media_finder.Redis.{Redis, within}
use Lists
use Hashes
use Zsets
use Blooms

unfoldable pub memory : ℕ → Redis
unfolding Lists.lmove Hashes.hget Hashes.hset Hashes.hdel Hashes.hincrby Hashes.hlen Zsets.zadd
    Zsets.zadd_nx Zsets.zrem Zsets.zscore Zsets.zrange_by_score Zsets.zmembers Blooms.bf_add
    remove_first Blooms.bf_exists
memory capacity = record {
  Hash = Hashes.Hash;
  Zset = Zsets.Zset;
  Bloom = List Text;
  incr = suc;
  incr_lem = λ n. refl;
  lpush = λ l x. x ∷ l;
  lrem = λ l x. remove_first x l;
  lmove = Lists.lmove;
  lrange_last = λ l n. drop (length l - n) l;
  llen = length;
  lpush_lem = λ l x. refl;
  lrem_lem = λ l x. refl;
  lmove-nil = λ d. refl;
  lmove-snoc = Lists.lmove-snoc;
  lrange_last_lem = λ l n h. refl;
  llen_lem = λ l. refl;
  hget = Hashes.hget;
  hset = Hashes.hset;
  hdel = Hashes.hdel;
  hincrby = Hashes.hincrby;
  hlen = Hashes.hlen;
  hget-hset = Hashes.hget-hset;
  hget-hdel = Hashes.hget-hdel;
  hincrby_value = Hashes.hincrby_value;
  hget-hincrby = Hashes.hget-hincrby;
  zadd = Zsets.zadd;
  zadd_nx = Zsets.zadd_nx;
  zrem = Zsets.zrem;
  zscore = Zsets.zscore;
  zrange_by_score = Zsets.zrange_by_score;
  zcard = λ z. length (Zsets.zmembers z);
  zcount = λ z lo hi. count_if (λ m. within lo hi (Zsets.zscore z m)) (Zsets.zmembers z);
  zmembers = Zsets.zmembers;
  zscore-zadd = λ z s m k. Zsets.zscore-zadd z m s k;
  zadd_nx_lem = λ z s m. Zsets.zadd_nx_lem z m s;
  zscore-zrem = Zsets.zscore-zrem;
  zrem_count = Zsets.zrem_count;
  zrem_absent = Zsets.zrem_absent;
  count-zadd = Zsets.count-zadd;
  count-zrem = Zsets.count-zrem;
  occurrences-zmembers = Zsets.occurrences-zmembers;
  zcard_lem = λ z. refl;
  zcount_lem = λ z lo hi. refl;
  zrange_due = Zsets.zrange_due;
  zrange_distinct = Zsets.zrange_distinct;
  zrange_limit = Zsets.zrange_limit;
  zrange_all = Zsets.zrange_all;
  bf_add = Blooms.bf_add capacity;
  bf_exists = Blooms.bf_exists;
  bf_add_added = Blooms.bf_add_added capacity;
  bf_add_present = Blooms.bf_add_present capacity;
  bf_add_present_exists = Blooms.bf_add_present_exists capacity;
  bf_add_same = Blooms.bf_add_same capacity;
  bf_exists_mono = Blooms.bf_exists_mono capacity;
}
