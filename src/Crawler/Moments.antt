-- ===== src/Crawler/Moments.antt =====
-- What surrounds the calls of a worker's turn, in internal/crawler/worker.go: the clock, and what the
-- other goroutines do to the database before each call.
use lost_media_finder.Prelude.{ℕ, suc}
use lost_media_finder.Redis.{Redis}
use lost_media_finder.Frontier.Keyspace.{Keyspace}

pub record Moments (r : Redis) : Type 0 where
  -- The lease.
  pub leased_at : ℕ
  pub arriving : Keyspace r → Keyspace r
  -- The i-th admission of a child.
  pub clock : ℕ → ℕ
  pub others : ℕ → Keyspace r → Keyspace r
  -- The resolving call.
  pub resolved_at : ℕ
  pub meanwhile : Keyspace r → Keyspace r

module _ {r : Redis} where
  -- After the first admission.
  abbrev pub later : Moments r → Moments r
  later s = record s { clock = λ i. s.clock (suc i); others = λ i. s.others (suc i) }

  -- A turn that nothing comes between.
  abbrev pub alone : ℕ → Moments r
  alone now = record {
    leased_at = now;
    arriving = λ k. k;
    clock = λ i. now;
    others = λ i k. k;
    resolved_at = now;
    meanwhile = λ k. k;
  }
