-- ===== src/Frontier/Replies.antt =====
-- The methods' readings of a script's reply leave its state alone.
use lost_media_finder.Prelude.{Option, none, some}
use lost_media_finder.Text.{Text}
use lost_media_finder.Redis.{Redis}
use lost_media_finder.Frontier.Keyspace.{Keyspace, Reply, returned, raised}
use lost_media_finder.Frontier.Scripts.Complete.{
  Answer, answer_stale, answer_ok, answer_dead, answer_delayed,
}
use lost_media_finder.Frontier.Methods.{Frontier, answered, resolved, disposed, leased}

module _ {r : Redis} (P : Keyspace r → Type 0) where
  pub answered-keeps : {A : Type 0} (a : Reply A) (k : Keyspace r) → P k → P (answered (a, k)).1
  answered-keeps (returned a) k h = h
  answered-keeps raised k h = h

  pub resolved-keeps : (a : Reply Answer) (k : Keyspace r) → P k → P (resolved (a, k)).1
  resolved-keeps (returned answer_stale) k h = h
  resolved-keeps (returned answer_ok) k h = h
  resolved-keeps (returned answer_dead) k h = h
  resolved-keeps (returned answer_delayed) k h = h
  resolved-keeps raised k h = h

  pub disposed-keeps : (a : Reply Answer) (k : Keyspace r) → P k → P (disposed (a, k)).1
  disposed-keeps (returned answer_stale) k h = h
  disposed-keeps (returned answer_ok) k h = h
  disposed-keeps (returned answer_dead) k h = h
  disposed-keeps (returned answer_delayed) k h = h
  disposed-keeps raised k h = h

  pub leased-keeps :
      (f : Frontier) (a : Reply (Option Text)) (k : Keyspace r) → P k → P (leased f (a, k)).1
  leased-keeps f (returned none) k h = h
  leased-keeps f (returned (some m)) k h = h
  leased-keeps f raised k h = h
