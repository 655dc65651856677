-- ===== src/Model.antt =====
-- internal/model/video.go: a video and the test whether it is a target. The calendar and the Unicode
-- tables are parameters.
use lost_media_finder.Prelude.{
  ℕ, Bool, true, false, not, ◌&&◌, ◌||◌, Option, none, some, List, [], ◌∷◌, ltb, ℤ, pos, negsuc,
  if◌then◌else◌,
}
use lost_media_finder.Text.{Text, codes}

-- What the code calls of the packages time and unicode. A time is a number of seconds, `parse` is
-- time.Parse with the layout first, and `runes` decodes a string as `range` does.
pub record Tables : Type 0 where
  pub parse : Text → Text → Option ℕ
  pub runes : Text → List ℕ
  pub in_han : ℕ → Bool
  pub in_hiragana : ℕ → Bool
  pub in_katakana : ℕ → Bool
  pub in_hangul : ℕ → Bool
  pub is_letter : ℕ → Bool

pub record Video : Type 0 where
  pub url : Text
  pub title : Text
  pub date : Text
  pub duration : ℤ
  pub match_date : Bool
  pub match_duration : Bool
  pub has_cjk_char : Bool
  pub has_non_english_char : Bool
  pub is_target : Bool

abbrev pub duration_threshold : ℕ
duration_threshold = 599

abbrev pub formats : List Text
formats = codes "Jan 2, 2006" ∷ codes "January 2, 2006" ∷ codes "2006-01-02" ∷ []

-- The first integer is greater than the second number.
abbrev pub exceeds : ℤ → ℕ → Bool
exceeds (pos n) limit = ltb limit n
exceeds (negsuc n) limit = false

-- Whether some element passes, in the order of the list.
abbrev pub any : (ℕ → Bool) → List ℕ → Bool
any p [] = false
any p (x ∷ xs) = if p x then true else any p xs

module _ (t : Tables) where
  -- The first format that parses decides.
  abbrev pub not_after_by : List Text → Text → ℕ → Bool
  not_after_by [] date cutoff = false
  not_after_by (format ∷ rest) date cutoff = elim (t.parse format date) [
    | none ↦ not_after_by rest date cutoff
    | some time ↦ not (ltb cutoff time)
  ]

  unfoldable pub matches_cutoff_date : Text → ℕ → Bool
  matches_cutoff_date [] cutoff = false
  matches_cutoff_date (c ∷ date) cutoff = not_after_by formats (c ∷ date) cutoff

  abbrev pub is_cjk : ℕ → Bool
  is_cjk ch = t.in_han ch || (t.in_hiragana ch || (t.in_katakana ch || t.in_hangul ch))

  unfoldable pub has_cjk : Text → Bool
  has_cjk title = any is_cjk (t.runes title)

  -- '\u024F'
  abbrev pub is_foreign : ℕ → Bool
  is_foreign ch = t.is_letter ch && ltb 591 ch

  unfoldable pub has_non_latin : Text → Bool
  has_non_latin title = any is_foreign (t.runes title)

  -- Video.Match
  unfoldable pub match_video : ℕ → Video → Video
  unfolding matches_cutoff_date has_cjk has_non_latin
  match_video cutoff v =
      let dated = matches_cutoff_date v.date cutoff in
      let long = exceeds v.duration duration_threshold in
      let cjk = has_cjk v.title in
      let non_latin = has_non_latin v.title in
      record v {
        match_date = dated;
        match_duration = long;
        has_cjk_char = cjk;
        has_non_english_char = non_latin;
        is_target = dated && long && (cjk || non_latin);
      }
