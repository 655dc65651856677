-- ===== src/Frontier/Behaviour/Idle.antt =====
-- Idle and Stats of internal/storage/frontier.go.
use lost_media_finder.Prelude.{◌≡◌, ◌==◌, refl, true, List, [], ◌∷◌, arith, length, count_if}
use lost_media_finder.Text.{Text}
use lost_media_finder.Redis.{Redis}
use lost_media_finder.Frontier.Keyspace.{Keyspace}
use lost_media_finder.Frontier.Methods.{stats, idle}
use lost_media_finder.Frontier.Sound.Defs.{live_jobs}

count_if-all : (l : List Text) → count_if (λ _. true) l ≡ length l
count_if-all [] = refl
count_if-all (x ∷ l) = omega (arith, count_if-all l)

module _ {r : Redis} where
  -- Idle tells exactly whether no job at all is in ready, processing or delayed.
  pub idle-live_jobs : (k : Keyspace r) → idle k ≡ (live_jobs (λ _. true) k == 0)
  unfolding idle stats
  idle-live_jobs k = ground (
    arith,
    r.llen_lem k.ready,
    r.llen_lem k.processing,
    r.zcard_lem k.delayed,
    count_if-all k.ready,
    count_if-all k.processing,
    count_if-all (r.zmembers k.delayed),
  )
