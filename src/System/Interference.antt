-- ===== src/System/Interference.antt =====
-- What a worker's turn in internal/crawler/worker.go relies on: the clock, and that the other
-- goroutines make only calls of the frontier.
use lost_media_finder.Prelude.{ℕ, suc}
use lost_media_finder.Redis.{Redis}
use lost_media_finder.Frontier.Keyspace.{Keyspace}
use lost_media_finder.Crawler.Moments.{Moments, later, alone}
use lost_media_finder.System.Defs.{Setup, InTime, Reach, here}

pub record Rely {r : Redis} (s : Setup) (u : Moments r) : Type 0 where
  pub arrives : (k : Keyspace r) → Reach s k (u.arriving k)
  pub admits : (i : ℕ) (k : Keyspace r) → Reach s k (u.others i k)
  pub resolves : (k : Keyspace r) → Reach s k (u.meanwhile k)
  pub clock_in_time : (i : ℕ) → InTime s (u.clock i)
  pub resolved_in_time : InTime s u.resolved_at

module _ {r : Redis} (s : Setup) where
  abbrev pub later-Rely : (u : Moments r) → Rely s u → Rely s (later u)
  later-Rely u h = record {
    arrives = h.arrives;
    admits = λ i. h.admits (suc i);
    resolves = h.resolves;
    clock_in_time = λ i. h.clock_in_time (suc i);
    resolved_in_time = h.resolved_in_time;
  }

  pub alone-Rely : (now : ℕ) → InTime s now → Rely {r = r} s (alone now)
  alone-Rely now t = record {
    arrives = λ k. here;
    admits = λ i k. here;
    resolves = λ k. here;
    clock_in_time = λ i. t;
    resolved_in_time = t;
  }
