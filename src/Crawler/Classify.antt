-- ===== src/Crawler/Classify.antt =====
-- untilFor and NewURLClassifier of internal/crawler/worker.go.
use lost_media_finder.Prelude.{ℕ, ◌+◌, Option, none, some, List, if◌then◌else◌}
use lost_media_finder.Text.{Text}
use lost_media_finder.Text.Members.{contains}
use lost_media_finder.Text.Search.{contains_text}
use lost_media_finder.Frontier.Types.{UrlClass, class_video, class_listing, class_seed}

-- The zero time.Time is `none`.
unfoldable pub until_for : UrlClass → ℕ → ℕ → Option ℕ
until_for class_video quarantine now = none
until_for class_listing quarantine now = some (now + quarantine)
until_for class_seed quarantine now = some (now + quarantine)

unfoldable pub new_url_classifier : Text → List Text → Text → UrlClass
unfolding contains_text contains
new_url_classifier video_pattern seed_urls url =
    if contains_text url video_pattern
    then class_video
    else if contains url seed_urls
    then class_seed
    else class_listing
