-- ===== src/Crawler/Canonical.antt =====
-- canonicalize of internal/crawler/crawler.go.
pub mod Watch
use lost_media_finder.Prelude.{ℕ, ◌+◌, none, some, [], ◌∷◌, ◌++◌, take, drop, length, if◌then◌else◌}
use lost_media_finder.Text.{Text}
use lost_media_finder.Text.Search.{index_byte, has_prefix, index, trim_right}
use lost_media_finder.Crawler.Config.{Config}

-- s[:i] at the first byte `c`, and else s.
unfoldable pub before : ℕ → Text → Text
unfolding index_byte
before c s = elim (index_byte s c) [ none ↦ s | some i ↦ take i s ]

-- The rest of the URL after the video pattern; nothing at all is no video.
unfoldable pub canonical_video : Config → Text → Text
unfolding before
canonical_video c [] = []
canonical_video c (x ∷ rest) = c.base_url ++ c.video_pattern ++ before 38 (x ∷ rest)

-- A URL without its fragment.
unfoldable pub canonical_page : Config → Text → Text
unfolding canonical_video has_prefix index trim_right
canonical_page c url =
    let page : Text = elim (index url c.video_pattern) [
      | none ↦ trim_right 47 url
      | some i ↦ canonical_video c (drop (i + length c.video_pattern) url)
    ] in
    if has_prefix url c.base_url then page else []

-- The canonical form, or "" to skip.
unfoldable pub canonicalize : Config → Text → Text
unfolding canonical_page
canonicalize c raw = canonical_page c (before 35 raw)
