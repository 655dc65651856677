-- ===== src/System/Explaining.antt =====
-- What answer of the server each outcome of process, in internal/crawler/worker.go, stands for.
use lost_media_finder.Prelude.{
  ◌≡◌, ◌⊎◌, inl, inr, refl, ap, subst, true, false, ◌==◌, Option, none, some, List, [], ◌∷◌, map,
  arith, Bool-cases,
}
use lost_media_finder.Text.{Text, codes}
use lost_media_finder.Text.Search.{contains_text}
use lost_media_finder.Model.{Tables, match_video}
use lost_media_finder.Crawler.Config.{Config}
use lost_media_finder.Crawler.Pages.{
  PageOutcome, page_video, page_listing, page_not_found, page_retryable, page_unknown,
  page_cancelled, Document, Response, get_cancelled, get_failed, status, link_of, extract_links,
  process, process_document,
}

-- A page of a video or a listing is a document with status 200, the links are those of the document,
-- and the video has the URL of the page, which holds the pattern; a missing page has status 404 or 410.
abbrev pub Explains : Config → Text → Response → PageOutcome → Type 0
Explains c url answer (page_video v links) =
    (contains_text url c.video_pattern ≡ true)
    × (v.url ≡ url)
    × (doc : Document) × (answer ≡ status 200 (some doc))
    × (links ≡ map (link_of c.base_url) doc.hrefs)
Explains c url answer (page_listing links) =
    (contains_text url c.video_pattern ≡ false)
    × (doc : Document) × (answer ≡ status 200 (some doc))
    × (links ≡ map (link_of c.base_url) doc.hrefs)
Explains c url answer (page_not_found reason) =
    (body : Option Document) × ((answer ≡ status 404 body) ⊎ (answer ≡ status 410 body))
Explains c url answer (page_retryable class) = Unit
Explains c url answer page_unknown = Unit
Explains c url answer page_cancelled = Unit

extract_links-map :
    (base_url : Text) (hrefs : List Text)
    → extract_links base_url hrefs ≡ map (link_of base_url) hrefs
unfolding extract_links
extract_links-map base_url [] = refl
extract_links-map base_url (href ∷ hrefs) =
    ap (λ links. link_of base_url href ∷ links) (extract_links-map base_url hrefs)

process_document-Explains :
    (t : Tables) (c : Config) (url : Text) (doc : Document)
    → Explains c url (status 200 (some doc)) (process_document t c url doc)
unfolding process_document match_video
process_document-Explains t c url doc =
    elim (Bool-cases (contains_text doc.title (codes "Rate Limited"))) [
      | inl e ↦ rw e tt
      | inr e ↦ rw e (elim (Bool-cases (contains_text url c.video_pattern)) [
        | inl v ↦ rw v (v, refl, doc, refl, extract_links-map c.base_url doc.hrefs)
        | inr v ↦ rw v (v, doc, refl, extract_links-map c.base_url doc.hrefs)
      ])
    ]

pub process-Explains :
    (t : Tables) (c : Config) (url : Text) (answer : Response)
    → Explains c url answer (process t c url answer)
unfolding process
process-Explains t c url get_cancelled = tt
process-Explains t c url get_failed = tt
process-Explains t c url (status code body) = elim (Bool-cases (code == 429)) [
  | inl e ↦ rw e tt
  | inr e ↦ rw e (elim (Bool-cases (code == 404)) [
    | inl f ↦ rw f (body, inl (ap (λ n. status n body) (ground (arith, f))))
    | inr f ↦ rw f (elim (Bool-cases (code == 410)) [
      | inl g ↦ rw g (body, inr (ap (λ n. status n body) (ground (arith, g))))
      | inr g ↦ rw g (elim (Bool-cases (code == 200)) [
        | inl h ↦
            let ok_code : 200 ≡ code = ground (arith, h) in
            rw h (
              subst
                (λ n.
                  Explains c url (status n body)
                    (elim body [ none ↦ page_unknown | some doc ↦ process_document t c url doc ]))
                ok_code (parsed body))
        | inr h ↦ rw h tt
      ])
    ])
  ])
]
  where
    parsed :
        (b : Option Document)
        → Explains c url
            (status 200 b)
            (elim b [ none ↦ page_unknown | some doc ↦ process_document t c url doc ])
    parsed none = tt
    parsed (some doc) = process_document-Explains t c url doc
