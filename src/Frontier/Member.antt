-- ===== src/Frontier/Member.antt =====
-- Members "<jobID>|<url>" and dead entries "<reason>|<until>" of internal/storage/frontier.go.
use lost_media_finder.Prelude.{
  ℕ, suc, ◌≡◌, ap, sym, ◌∙◌, Option, none, some, [], ◌∷◌, ◌++◌, arith, take, drop,
}
use lost_media_finder.Text.{Text}
use lost_media_finder.Text.Decimal.{print, to_number, to_number-print, index_byte-print}
use lost_media_finder.Text.Search.{index_byte, index_byte-append, take-length, drop-length}

-- The byte '|'.
abbrev pub separator : ℕ
separator = 124

-- redis.call('INCR', ...) .. '|' .. url
unfoldable pub member : ℕ → Text → Text
member id url = print id ++ separator ∷ url

unfoldable pub split_member : Text → Text × Text
split_member m = elim (index_byte m separator) [
  | none ↦ (m, [])
  | some i ↦ (take i m, drop (suc i) m)
]

-- string.sub(item, string.find(item, '|', 1, true) + 1); nil + 1 raises an error.
unfoldable pub after_separator : Text → Option Text
after_separator item = elim (index_byte item separator) [
  | none ↦ none
  | some i ↦ some (drop (suc i) item)
]

-- reason .. '|' .. until
unfoldable pub dead_entry : Text → ℕ → Text
dead_entry reason until = reason ++ separator ∷ print until

-- tonumber(string.sub(d, sep + 1)); without a number the comparison that follows raises an error.
unfoldable pub dead_until : Text → Option ℕ
unfolding after_separator
dead_until d = elim (after_separator d) [ none ↦ none | some t ↦ to_number t ]

-- A member splits into the identifier and the URL that it was made of, whatever the URL holds.
pub split_member-member : (id : ℕ) (url : Text) → split_member (member id url) ≡ (print id, url)
unfolding split_member member
split_member-member id url = ground (
  arith,
  index_byte-append (print id) url separator (index_byte-print id separator (omega arith)),
  take-length (print id) (separator ∷ url),
  drop-length (print id) url separator,
)

pub after_separator-member : (id : ℕ) (url : Text) → after_separator (member id url) ≡ some url
unfolding after_separator member
after_separator-member id url = ground (
  arith,
  index_byte-append (print id) url separator (index_byte-print id separator (omega arith)),
  drop-length (print id) url separator,
)

-- An entry is read back as the time that was written, if the reason holds no separator.
pub dead_until-dead_entry :
    (reason : Text) (until : ℕ)
    → index_byte reason separator ≡ none
    → dead_until (dead_entry reason until) ≡ some until
unfolding dead_until dead_entry
dead_until-dead_entry reason until h = ground (
  arith,
  index_byte-append reason (print until) separator h,
  drop-length reason (print until) separator,
  to_number-print until,
)

same_split :
    (i j : ℕ) (u v : Text)
    → member i u ≡ member j v
    → ◌≡◌ {A = Text × Text} (print i, u) (print j, v)
same_split i j u v e = sym (split_member-member i u) ∙ ap split_member e ∙ split_member-member j v

-- Two members are equal only if their identifiers and URLs are.
pub member-injective : {i j : ℕ} {u v : Text} → member i u ≡ member j v → (i ≡ j) × (u ≡ v)
member-injective {i} {j} {u} {v} e = ground (
  arith,
  split_member-member i u,
  split_member-member j v,
  to_number-print i,
  to_number-print j,
  ap split_member e,
  ap to_number (ap (λ (p : Text × Text). p.0) (same_split i j u v e)),
)
