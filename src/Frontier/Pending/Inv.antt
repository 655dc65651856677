-- ===== src/Frontier/Pending/Inv.antt =====
-- What the state of the frontier satisfies between any two scripts.
use lost_media_finder.Prelude.{Bool}
use lost_media_finder.Text.{Text}
use lost_media_finder.Redis.{Redis}
use lost_media_finder.Frontier.Keyspace.{Keyspace}
use lost_media_finder.Frontier.Sound.Defs.{IsSound}
use lost_media_finder.Frontier.Pending.Defs.{IsPaired}
use lost_media_finder.Frontier.Pending.Dead.{Buried}

-- The invariants of a keyspace together.
pub record Inv (r : Redis) (video : Text → Bool) (k : Keyspace r) : Type 0 where
  pub sound : IsSound k
  pub paired : IsPaired video k
  pub buried : Buried r k.dead
