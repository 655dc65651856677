-- ===== src/Frontier/Pending/Dead.antt =====
-- The dead hash: every entry reads back as a time before PENDING.
use lost_media_finder.Prelude.{ℕ, ◌<◌, ◌≡◌, none, some, arith, Bool-cases, inl, inr}
use lost_media_finder.Text.{Text, eq_text}
use lost_media_finder.Text.Search.{index_byte}
use lost_media_finder.Redis.{Redis}
use lost_media_finder.Frontier.Types.{pending_score}
use lost_media_finder.Frontier.Member.{separator, dead_entry, dead_until, dead_until-dead_entry}

pub record Buried (r : Redis) (dead : r.Hash Text) : Type 0 where
  pub at :
      (url d : Text)
      → r.hget dead url ≡ some d
      → (until : ℕ) × (dead_until d ≡ some until) × (until < pending_score)

module _ {r : Redis} {dead : r.Hash Text} (b : Buried r dead) where
  pub Buried-hdel : (url : Text) → Buried r (r.hdel dead url)
  Buried-hdel url = record {
    at = λ u d e. elim (Bool-cases (eq_text url u)) [
      | inl same ↦ ground (arith, r.hget-hdel dead url u)
      | inr other ↦ b.at u d (ground (arith, r.hget-hdel dead url u))
    ];
  }

  pub Buried-hset :
      (url reason : Text) (until : ℕ)
      → index_byte reason separator ≡ none
      → until < pending_score
      → Buried r (r.hset dead url (dead_entry reason until))
  Buried-hset url reason until plain early = record {
    at = λ u d e. elim (Bool-cases (eq_text url u)) [
      | inl same ↦ (
        until,
        ground (
          arith,
          r.hget-hset dead url u (dead_entry reason until),
          dead_until-dead_entry reason until,
        ),
        early,
      )
      | inr other ↦ b.at u d (ground (arith, r.hget-hset dead url u (dead_entry reason until)))
    ];
  }
