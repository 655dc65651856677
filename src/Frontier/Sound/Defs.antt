-- ===== src/Frontier/Sound/Defs.antt =====
-- The invariant on the member-keyed structures of internal/storage/frontier.go.
use lost_media_finder.Prelude.{ℕ, ◌+◌, ◌≤◌, ◌<◌, ◌≡◌, Bool, true, List, is_some, count_if}
use lost_media_finder.Text.{Text, eq_text}
use lost_media_finder.Text.Members.{occurrences}
use lost_media_finder.Redis.{Redis}
use lost_media_finder.Frontier.Member.{member}
use lost_media_finder.Frontier.Keyspace.{Keyspace}

-- The member was minted by one of the first `n` increments of the job sequence.
pub record Issued (n : ℕ) (m : Text) : Type 0 where
  pub id : ℕ
  pub url : Text
  pub bounded : id ≤ n
  pub made : m ≡ member id url

-- How many jobs that wait, run or are delayed pass a test on their member.
abbrev pub live : (r : Redis) → (Text → Bool) → List Text → List Text → r.Zset → ℕ
live r p ready processing delayed =
    count_if p ready + count_if p processing + count_if p (r.zmembers delayed)

pub record Tracks (r : Redis) (seq : ℕ) (ready processing : List Text) (delayed lease : r.Zset)
    : Type 0 where
  -- No member stands twice, in one structure or in two.
  pub unique : (m : Text) → live r (eq_text m) ready processing delayed ≤ 1
  pub issued : (m : Text) → 0 < live r (eq_text m) ready processing delayed → Issued seq m
  -- A lease belongs to a job that is being processed.
  pub held : (m : Text) → is_some (r.zscore lease m) ≡ true → 0 < occurrences m processing

abbrev pub IsSound : {r : Redis} → Keyspace r → Type 0
IsSound {r} k = Tracks r k.job_seq k.ready k.processing k.delayed k.lease

abbrev pub live_jobs : {r : Redis} → (Text → Bool) → Keyspace r → ℕ
live_jobs {r} p k = live r p k.ready k.processing k.delayed
