-- ===== src/Crawler/Canonical/Watch.antt =====
-- canonicalize of internal/crawler/crawler.go on the address of a video.
use lost_media_finder.Prelude.{
  ℕ, ◌≡◌, ◌≢◌, refl, ap, ◌∙◌, false, none, [], ◌∷◌, ◌++◌, arith, ◌==◌, Option-cases, inl, inr,
}
use lost_media_finder.Text.{Text}
use lost_media_finder.Text.Search.{index_byte, index_byte-append_none}
use lost_media_finder.Crawler.Config.{default_config}
use lost_media_finder.Crawler.Canonical.{before, canonical_page, canonicalize}

-- The address of the video with the given id.
abbrev pub watch_url : Text → Text
watch_url id = default_config.base_url ++ default_config.video_pattern ++ id

-- What may follow the id in a link: nothing, further parameters, or a fragment.
pub data Tail : Type 0 where
  no_tail : Tail
  parameters fragment : Text → Tail

abbrev pub text_of : Tail → Text
text_of no_tail = []
text_of (parameters s) = 38 ∷ s
text_of (fragment s) = 35 ∷ s

before-cons : (c x : ℕ) (s : Text) → (x == c) ≡ false → before c (x ∷ s) ≡ x ∷ before c s
unfolding before
before-cons c x s h = elim (Option-cases (index_byte s c)) [
  | inl e ↦ rw (h, e, before) refl
  | inr (i, e) ↦ rw (h, e, before) refl
]

index_byte-cons :
    (c x : ℕ) (s : Text)
    → index_byte (x ∷ s) c ≡ none
    → ((x == c) ≡ false) × (index_byte s c ≡ none)
unfolding index_byte
index_byte-cons c x s h = ground arith

-- A text without the byte stays in front.
before-append :
    (c : ℕ) (xs ys : Text) → index_byte xs c ≡ none → before c (xs ++ ys) ≡ xs ++ before c ys
before-append c [] ys h = refl
before-append c (x ∷ xs) ys h =
    let (other, rest) = index_byte-cons c x xs h in
    before-cons c x (xs ++ ys) other ∙ ap (λ s. x ∷ s) (before-append c xs ys rest)

append_nil : (s : Text) → s ++ [] ≡ s
append_nil [] = refl
append_nil (x ∷ s) = ap (λ s. x ∷ s) (append_nil s)

-- What is left of a tail without its fragment has no part before the parameters.
nothing_before : (tail : Tail) → before 38 (before 35 (text_of tail)) ≡ []
unfolding before
nothing_before no_tail = refl
nothing_before (parameters s) = ap (before 38) (before-cons 35 38 s refl)
nothing_before (fragment s) = refl

watch_url-plain : (id : Text) → index_byte id 35 ≡ none → index_byte (watch_url id) 35 ≡ none
unfolding index_byte
watch_url-plain id h =
    index_byte-append_none (default_config.base_url ++ default_config.video_pattern) id 35 refl h

-- The page at a video's address with a non-empty id, whatever follows.
canonical_page-watch_url :
    (x : ℕ) (id rest : Text)
    → canonical_page default_config (watch_url (x ∷ id) ++ rest)
      ≡ watch_url (before 38 (x ∷ id ++ rest))
unfolding canonical_page
canonical_page-watch_url x id rest = refl

-- Every link to the same video, with any further parameters and any fragment, has the same canonical
-- form, if its id is not empty and holds neither `&` nor `#`.
pub canonicalize-watch_url :
    (id : Text) (tail : Tail)
    → id ≢ []
    → index_byte id 35 ≡ none
    → index_byte id 38 ≡ none
    → canonicalize default_config (watch_url id ++ text_of tail) ≡ watch_url id
unfolding canonicalize
canonicalize-watch_url [] tail h f a = absurd (h refl)
canonicalize-watch_url (x ∷ id) tail h f a =
    ap (canonical_page default_config)
      (before-append 35 (watch_url (x ∷ id)) (text_of tail) (watch_url-plain (x ∷ id) f))
    ∙ canonical_page-watch_url x id (before 35 (text_of tail))
    ∙ ap watch_url (before-append 38 (x ∷ id) (before 35 (text_of tail)) a)
    ∙ ap (λ s. watch_url (x ∷ id ++ s)) (nothing_before tail)
    ∙ ap watch_url (append_nil (x ∷ id))
