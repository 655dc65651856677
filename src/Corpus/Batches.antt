-- ===== src/Corpus/Batches.antt =====
-- EachVideoURL of internal/storage/mongo.go against the list cut into batches.
use lost_media_finder.Prelude.{
  ℕ, zero, suc, ◌+◌, ◌-◌, ◌≡◌, ◌≤◌, ◌<◌, refl, ap, ◌∙◌, sym, Bool, true, Option, none, some, List,
  [], ◌∷◌, ◌++◌, map, arith, length, length-append, length-take, leb, take, drop, if◌then◌else◌,
  Bool-cases, inl, inr,
}
use lost_media_finder.Text.{Text}
use lost_media_finder.Corpus.{MongoError, callback_failed, last_batch, each_doc, each_video_url}

-- A list cut into pieces of `n`, the last one shorter; the fuel bounds their number.
abbrev pub chunks : ℕ → ℕ → List Text → List (List Text)
chunks zero n l = []
chunks (suc fuel) n [] = []
chunks (suc fuel) n (x ∷ l) = take n (x ∷ l) ∷ chunks fuel n (drop n (x ∷ l))

snoc-append : (a : List Text) (x : Text) (c : List Text) → (a ++ x ∷ []) ++ c ≡ a ++ x ∷ c
snoc-append [] x c = refl
snoc-append (y ∷ a) x c = ap (λ l. y ∷ l) (snoc-append a x c)

take-all : (n : ℕ) (a b : List Text) → length a ≡ n → take n (a ++ b) ≡ a
take-all zero [] b h = refl
take-all (suc n) [] b h = absurd (omega arith)
take-all zero (x ∷ a) b h = absurd (omega arith)
take-all (suc n) (x ∷ a) b h = ap (λ l. x ∷ l) (take-all n a b (omega arith))

drop-all : (n : ℕ) (a b : List Text) → length a ≡ n → drop n (a ++ b) ≡ b
drop-all zero [] b h = refl
drop-all (suc n) [] b h = absurd (omega arith)
drop-all zero (x ∷ a) b h = absurd (omega arith)
drop-all (suc n) (x ∷ a) b h = drop-all n a b (omega arith)

take-short : (n : ℕ) (a : List Text) → length a ≤ n → take n a ≡ a
take-short zero [] h = refl
take-short (suc n) [] h = refl
take-short zero (x ∷ a) h = absurd (omega arith)
take-short (suc n) (x ∷ a) h = ap (λ l. x ∷ l) (take-short n a (omega arith))

drop-short : (n : ℕ) (a : List Text) → length a ≤ n → drop n a ≡ []
drop-short zero [] h = refl
drop-short (suc n) [] h = refl
drop-short zero (x ∷ a) h = absurd (omega arith)
drop-short (suc n) (x ∷ a) h = drop-short n a (omega arith)

chunks-nil : (fuel n : ℕ) → chunks fuel n [] ≡ []
chunks-nil zero n = refl
chunks-nil (suc fuel) n = refl

-- A full piece comes first.
chunks-full :
    (fuel n : ℕ) (a b : List Text)
    → 0 < n
    → length a ≡ n
    → chunks (suc fuel) n (a ++ b) ≡ a ∷ chunks fuel n b
chunks-full fuel n [] b pos h = absurd (omega arith)
chunks-full fuel n (x ∷ a) b pos h =
    ap (λ l. l ∷ chunks fuel n (drop n (x ∷ a ++ b))) (take-all n (x ∷ a) b h)
    ∙ ap (λ l. (x ∷ a) ∷ chunks fuel n l) (drop-all n (x ∷ a) b h)

append_nil : (l : List Text) → l ++ [] ≡ l
append_nil [] = refl
append_nil (x ∷ l) = ap (λ l. x ∷ l) (append_nil l)

-- A short list is one piece, and none where it is empty.
chunks-short :
    (fuel n : ℕ) (t : Text) (l : List Text)
    → length (t ∷ l) ≤ n
    → chunks (suc fuel) n (t ∷ l) ≡ (t ∷ l) ∷ []
chunks-short fuel n t l h =
    ap (λ a. a ∷ chunks fuel n (drop n (t ∷ l))) (take-short n (t ∷ l) h)
    ∙ ap (λ a. (t ∷ l) ∷ a) (ap (chunks fuel n) (drop-short n (t ∷ l) h) ∙ chunks-nil fuel n)

module _ {S : Type 0} (fn : List Text → S → Bool × S) where
  -- One call after the other, up to the first that fails.
  abbrev pub call_all : List (List Text) → S → Option MongoError × S
  call_all [] s = (none, s)
  call_all (piece ∷ pieces) s =
      let (good, s') = fn piece s in
      let rest = call_all pieces s' in if good then rest else (some callback_failed, s')

module _ {S : Type 0} (batch : ℕ) (fn : List Text → S → Bool × S) where
  each_doc-chunks :
      (fuel : ℕ) (urls docs : List Text) (s : S)
      → 0 < batch
      → length urls < batch
      → length urls + length docs ≤ fuel
      → each_doc batch fn urls (map some docs) true s
        ≡ call_all fn (chunks fuel batch (urls ++ docs)) s
  unfolding each_doc last_batch
  each_doc-chunks fuel [] [] s pos short enough = rw (chunks-nil fuel batch) refl
  each_doc-chunks zero (x ∷ urls) [] s pos short enough = absurd (omega arith)
  each_doc-chunks (suc fuel) (x ∷ urls) [] s pos short enough =
      ap (λ p. call_all fn p s)
        (sym (
          ap (λ l. chunks (suc fuel) batch (x ∷ l)) (append_nil urls)
          ∙ chunks-short fuel batch x urls (omega arith)))
  each_doc-chunks zero urls (url ∷ docs) s pos short enough = absurd (omega arith)
  each_doc-chunks (suc fuel) urls (url ∷ docs) s pos short enough =
      elim (Bool-cases (leb batch (length (urls ++ url ∷ [])))) [
        | inl full ↦
            rw (full, each_doc)
              (elim (Bool-cases (fn (urls ++ url ∷ []) s).0) [
                | inl good ↦
                    rw good (
                      each_doc-chunks fuel [] docs (fn (urls ++ url ∷ []) s).1 pos pos
                        (omega arith))
                | inr bad ↦ rw bad refl
              ])
            ∙ ap (λ p. call_all fn p s)
                (sym (
                  ap (chunks (suc fuel) batch) (sym (snoc-append urls url docs))
                  ∙ chunks-full fuel batch (urls ++ url ∷ []) docs pos
                      (ground (arith, length-append urls (url ∷ [])))))
        | inr waits ↦
            rw (waits, each_doc)
              (each_doc-chunks (suc fuel) (urls ++ url ∷ []) docs s pos (ground arith)
                (ground (arith, length-append urls (url ∷ []))))
            ∙ ap (λ l. call_all fn (chunks (suc fuel) batch l) s) (snoc-append urls url docs)
      ]

abbrev pub concat : List (List Text) → List Text
concat [] = []
concat (piece ∷ pieces) = piece ++ concat pieces

-- Every piece holds between 1 and `n` elements.
abbrev pub AllSized : ℕ → List (List Text) → Type 0
AllSized n [] = Unit
AllSized n (piece ∷ pieces) = (0 < length piece) × (length piece ≤ n) × AllSized n pieces

take-drop : (n : ℕ) (l : List Text) → take n l ++ drop n l ≡ l
take-drop zero l = refl
take-drop (suc n) [] = refl
take-drop (suc n) (x ∷ l) = ap (λ a. x ∷ a) (take-drop n l)

length-drop : (n : ℕ) (l : List Text) → length (drop n l) ≡ length l - n
length-drop zero l = omega arith
length-drop (suc n) [] = omega arith
length-drop (suc n) (x ∷ l) = omega (arith, length-drop n l)

chunks-AllSized :
    (fuel n : ℕ) (l : List Text)
    → 0 < n
    → length l ≤ fuel
    → (concat (chunks fuel n l) ≡ l) × AllSized n (chunks fuel n l)
chunks-AllSized zero n [] pos enough = (refl, tt)
chunks-AllSized zero n (x ∷ l) pos enough = absurd (omega arith)
chunks-AllSized (suc fuel) n [] pos enough = (refl, tt)
chunks-AllSized (suc fuel) n (x ∷ l) pos enough =
    let (whole, sized) =
      chunks-AllSized fuel n (drop n (x ∷ l)) pos (omega (arith, length-drop n (x ∷ l))) in
    (
      ap (λ a. take n (x ∷ l) ++ a) whole ∙ take-drop n (x ∷ l),
      (omega (arith, length-take n (x ∷ l)), omega (arith, length-take n (x ∷ l)), sized),
    )

-- Where every document decodes and the cursor ends well, EachVideoURL is the calls of its callback,
-- up to the first that fails, on pieces that hold all URLs in their order, each piece between 1 and
-- `batch` of them.
pub each_video_url-pieces :
    {S : Type 0} (batch : ℕ) (fn : List Text → S → Bool × S) (urls : List Text) (s : S)
    → 0 < batch
    → (pieces : List (List Text)) × (each_video_url batch fn
          (some (record { docs = map some urls; ends_well = true }))
          s
        ≡ call_all fn pieces s)
      × (concat pieces ≡ urls)
      × AllSized batch pieces
unfolding each_video_url
each_video_url-pieces batch fn urls s pos =
    let (whole, sized) = chunks-AllSized (length urls) batch urls pos (omega arith) in
    (
      chunks (length urls) batch urls,
      each_doc-chunks batch fn (length urls) [] urls s pos pos (omega arith),
      whole,
      sized,
    )
