-- ===== src/Crawler/Tests.antt =====
-- Links to pages and their canonical forms.
use lost_media_finder.Prelude.{◌≡◌, refl, ◌++◌, none, []}
use lost_media_finder.Text.{codes}
use lost_media_finder.Text.Search.{index_byte}
use lost_media_finder.Crawler.Config.{default_config}
use lost_media_finder.Crawler.Canonical.{canonicalize}
use lost_media_finder.Crawler.Canonical.Watch.{
  watch_url, parameters, text_of, canonicalize-watch_url,
}

plain_id : index_byte (codes "dQw4") 35 ≡ none
unfolding index_byte
plain_id = refl

single_id : index_byte (codes "dQw4") 38 ≡ none
unfolding index_byte
single_id = refl

canonicalize-watch_url_example :
    canonicalize default_config (watch_url (codes "dQw4") ++ text_of (parameters (codes "t=1#top")))
    ≡ watch_url (codes "dQw4")
canonicalize-watch_url_example =
    canonicalize-watch_url (codes "dQw4") (parameters (codes "t=1#top")) (λ e. absurd (cc e))
      plain_id single_id

-- An id that is cut to nothing is admitted as a video without one.
empty_id : canonicalize default_config (codes "https://www.vidlii.com/watch?v=&t=1") ≡ watch_url []
unfolding canonicalize
empty_id = refl

-- A page keeps its query, but neither its fragment nor its last slashes.
user_pages :
    canonicalize default_config (codes "https://www.vidlii.com/user/a//#top")
    ≡ codes "https://www.vidlii.com/user/a"
unfolding canonicalize
user_pages = refl

other_host : canonicalize default_config (codes "https://www.youtube.com/watch?v=a") ≡ []
unfolding canonicalize
other_host = refl
