-- ===== src/Frontier/Parts.antt =====
-- Members of internal/storage/frontier.go as a type: what a member was made of.
use lost_media_finder.Prelude.{ℕ, ◌≡◌, ◌∙◌, sym, List}
use mathlib.Core.HLevel.{is_prop→PathP}
use lost_media_finder.Text.{Text}
use lost_media_finder.Frontier.Member.{member, member-injective}

-- The numbers and URLs that make a member.
abbrev pub Parts : Text → Type 0
Parts m = (id : ℕ) × (url : Text) × (member id url ≡ m)

Text-IsSet : IsSet (List ℕ)
Text-IsSet = hlevel

-- A member is made of one number and one URL, in one way.
pub Parts-IsProp : (m : Text) → IsProp (Parts m)
Parts-IsProp m (id, url, p) (id', url', q) =
    let (same_id, same_url) = member-injective (p ∙ sym q) in
    λ t. (
      same_id t,
      same_url t,
      is_prop→PathP (λ t. member (same_id t) (same_url t) ≡ m)
          (λ t. Text-IsSet (member (same_id t) (same_url t)) m) p q t,
    )
