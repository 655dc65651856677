-- ===== src/Crawler/Pages.antt =====
-- pageOutcome, extractLinks and process of internal/crawler/worker.go. The response and what goquery
-- finds in it are inputs.
use lost_media_finder.Prelude.{
  ℕ, ◌-◌, false, not, ◌&&◌, ◌==◌, Option, none, some, List, [], ◌∷◌, ◌++◌, length, take,
  if◌then◌else◌,
}
use lost_media_finder.Text.{Text, codes, eq_text}
use lost_media_finder.Text.Integers.{atoi_value}
use lost_media_finder.Text.Decimal.{print}
use lost_media_finder.Text.Search.{has_prefix, contains_text}
use lost_media_finder.Frontier.Types.{FailClass, fail_rate_limited, fail_strikeable}
use lost_media_finder.Model.{Video, Tables, match_video}
use lost_media_finder.Crawler.Config.{Config}

pub data PageOutcome : Type 0 where
  page_video : Video → List Text → PageOutcome
  page_listing : List Text → PageOutcome
  page_not_found : Text → PageOutcome
  page_retryable : FailClass → PageOutcome
  page_unknown page_cancelled : PageOutcome

-- What the document holds: its title, the href of every link, the trimmed text of the first `date`,
-- and the content of the element `meta` for the video's duration, empty without one.
pub record Document : Type 0 where
  pub title : Text
  pub hrefs : List Text
  pub date : Text
  pub duration : Text

-- What client.Get and goquery return. The error of a cancelled context is one of its own.
pub data Response : Type 0 where
  get_cancelled get_failed : Response
  status : ℕ → Option Document → Response

abbrev pub link_of : Text → Text → Text
link_of base_url href =
    if has_prefix href (codes "/") && not (has_prefix href (codes "//"))
    then base_url ++ href
    else href

unfoldable pub extract_links : Text → List Text → List Text
unfolding has_prefix
extract_links base_url [] = []
extract_links base_url (href ∷ hrefs) = link_of base_url href ∷ extract_links base_url hrefs

-- strings.TrimSuffix
unfoldable pub trim_suffix : Text → Text → Text
trim_suffix s suffix =
    let front = take (length s - length suffix) s in
    if eq_text (front ++ suffix) s then front else s

module _ (t : Tables) where
  -- The page of a document that was parsed.
  unfoldable pub process_document : Config → Text → Document → PageOutcome
  unfolding contains_text extract_links trim_suffix match_video atoi_value
  process_document c url doc =
      let links = extract_links c.base_url doc.hrefs in
      let video : Video = record {
        url = url;
        title = trim_suffix doc.title c.title_suffix;
        date = doc.date;
        duration = atoi_value doc.duration;
        match_date = false;
        match_duration = false;
        has_cjk_char = false;
        has_non_english_char = false;
        is_target = false;
      } in
      if contains_text doc.title (codes "Rate Limited")
      then page_retryable fail_rate_limited
      else if not (contains_text url c.video_pattern)
      then page_listing links
      else page_video (match_video t c.cutoff_date video) links

  unfoldable pub process : Config → Text → Response → PageOutcome
  unfolding process_document
  process c url get_cancelled = page_cancelled
  process c url get_failed = page_retryable fail_strikeable
  process c url (status code body) =
      let parsed : PageOutcome = elim body [
        | none ↦ page_unknown
        | some doc ↦ process_document c url doc
      ] in
      if code == 429
      then page_retryable fail_rate_limited
      else if code == 404
      then page_not_found (print code)
      else if code == 410
      then page_not_found (print code)
      else if code == 200
      then parsed
      else page_retryable fail_strikeable
