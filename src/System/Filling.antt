-- ===== src/System/Filling.antt =====
-- The filling of the bloom filter from MongoDB: BloomAddBatch of internal/storage/redis.go, called by
-- EachVideoURL of internal/storage/mongo.go.
use lost_media_finder.Prelude.{
  ℕ, ◌+◌, ◌≡◌, ◌<◌, refl, subst, sym, ap, Bool, true, false, Option, none, some, List, [], ◌∷◌,
  ◌++◌, map, arith, length, ltb, count_if, leb, count_if-append, Bool-cases, inl, inr,
}
use lost_media_finder.Text.{Text, eq_text, eq_text_iff}
use lost_media_finder.Text.Members.{occurrences}
use lost_media_finder.Redis.{Redis}
use lost_media_finder.Redis.Laws.{BloomReply-cases}
use lost_media_finder.Bloom.{accepts, bloom_add_batch}
use lost_media_finder.Corpus.{is_doc, callback_failed, each_doc, each_video_url}
use lost_media_finder.Corpus.Batches.{call_all, concat, each_video_url-pieces}
use lost_media_finder.Startup.{add_counted, bloom_reconcile_batch, reconcile_bloom_from_mongo}

module _ (r : Redis) where
  -- The second filter holds all that the first one holds.
  abbrev pub Grows : r.Bloom → r.Bloom → Type 0
  Grows b b' = (u : Text) → r.bf_exists b u ≡ true → r.bf_exists b' u ≡ true

  bloom_add_batch-Grows : (urls : List Text) (b : r.Bloom) → Grows b (bloom_add_batch r urls b).1
  unfolding bloom_add_batch
  bloom_add_batch-Grows [] b u h = h
  bloom_add_batch-Grows (url ∷ urls) b u h =
      bloom_add_batch-Grows urls (r.bf_add b url).1 u (r.bf_exists_mono b url u h)

  accepts-adds :
      (b : r.Bloom) (url : Text)
      → accepts (r.bf_add b url).0 ≡ true
      → r.bf_exists (r.bf_add b url).1 url ≡ true
  accepts-adds b url h = elim (BloomReply-cases (r.bf_add b url).0) [
    | inl e ↦ absurd (cc (rw e at h))
    | inr (inl e) ↦ r.bf_exists_mono b url url (r.bf_add_present_exists b url e)
    | inr (inr e) ↦ (r.bf_add_added b url e).1
  ]

  bloom_add_batch-adds :
      (urls : List Text) (b : r.Bloom) (u : Text)
      → (bloom_add_batch r urls b).0 ≡ true
      → 0 < occurrences u urls
      → r.bf_exists (bloom_add_batch r urls b).1 u ≡ true
  unfolding bloom_add_batch
  bloom_add_batch-adds [] b u good some_u = absurd (omega arith)
  bloom_add_batch-adds (url ∷ urls) b u good some_u = elim (Bool-cases (eq_text u url)) [
    | inl same ↦ bloom_add_batch-Grows urls (r.bf_add b url).1 u (
        subst (λ x. r.bf_exists (r.bf_add b url).1 x ≡ true) (sym ((eq_text_iff u url).0 same))
          (accepts-adds b url (ground arith)))
    | inr other ↦ bloom_add_batch-adds urls (r.bf_add b url).1 u (ground arith) (ground arith)
  ]

  call_all-Grows :
      (pieces : List (List Text)) (n : ℕ) (b : r.Bloom)
      → Grows b (call_all (add_counted r) pieces (n, b)).1.1
  call_all-Grows [] n b u h = h
  call_all-Grows (piece ∷ pieces) n b u h = elim (Bool-cases (bloom_add_batch r piece b).0) [
    | inl e ↦ rw e (
        call_all-Grows pieces (n + length piece) (bloom_add_batch r piece b).1 u
          (bloom_add_batch-Grows piece b u h))
    | inr e ↦ rw e (bloom_add_batch-Grows piece b u h)
  ]

  call_all-adds :
      (pieces : List (List Text)) (n : ℕ) (b : r.Bloom) (u : Text)
      → (call_all (add_counted r) pieces (n, b)).0 ≡ none
      → 0 < occurrences u (concat pieces)
      → r.bf_exists (call_all (add_counted r) pieces (n, b)).1.1 u ≡ true
  call_all-adds [] n b u good some_u = absurd (omega arith)
  call_all-adds (piece ∷ pieces) n b u good some_u =
      elim (Bool-cases (bloom_add_batch r piece b).0) [
        | inr e ↦ absurd (failed_call (rw e at good))
        | inl e ↦ rw e (elim (Bool-cases (ltb 0 (occurrences u piece))) [
          | inl first ↦
              call_all-Grows pieces (n + length piece) (bloom_add_batch r piece b).1 u
                (bloom_add_batch-adds piece b u e (ground arith))
          | inr later ↦
              call_all-adds pieces (n + length piece) (bloom_add_batch r piece b).1 u (rw e at good)
                (ground (arith, count_if-append (eq_text u) piece (concat pieces)))
        ])
      ]
    where
      failed_call : some callback_failed ≡ none → ⊥
      failed_call h = cc h

count_if-docs :
    (u : Text) (urls : List Text) → count_if (is_doc u) (map some urls) ≡ occurrences u urls
count_if-docs u [] = refl
count_if-docs u (url ∷ urls) = omega (arith, count_if-docs u urls)

-- What a cursor yields where nothing fails.
abbrev pub Decodes : List (Option Text) → Bool → Type 0
Decodes docs ends_well = (urls : List Text) × (docs ≡ map some urls) × (ends_well ≡ true)

module _ {S : Type 0} (batch : ℕ) (fn : List Text → S → Bool × S) where
  each_doc-Decodes :
      (urls : List Text) (docs : List (Option Text)) (ends_well : Bool) (s : S)
      → (each_doc batch fn urls docs ends_well s).0 ≡ none
      → Decodes docs ends_well
  unfolding each_doc
  each_doc-Decodes urls [] true s h = ([], refl, refl)
  each_doc-Decodes urls [] false s h = absurd (cc h)
  each_doc-Decodes urls (none ∷ docs) ends_well s h = absurd (cc h)
  each_doc-Decodes urls (some url ∷ docs) ends_well s h =
      elim (Bool-cases (leb batch (length (urls ++ url ∷ [])))) [
        | inr waits ↦ more (each_doc-Decodes (urls ++ url ∷ []) docs ends_well s (rw waits at h))
        | inl ready ↦ elim (Bool-cases (fn (urls ++ url ∷ []) s).0) [
          | inl good ↦ more (
              each_doc-Decodes [] docs ends_well (fn (urls ++ url ∷ []) s).1
                (rw (ready, good) at h))
          | inr bad ↦ absurd (cc (rw (ready, bad) at h))
        ]
      ]
    where
      more : Decodes docs ends_well → Decodes (some url ∷ docs) ends_well
      more (us, e, t) = (url ∷ us, ap (λ l. some url ∷ l) e, t)

module _ (r : Redis) where
  reconcile-pieces :
      (urls : List Text) (b : r.Bloom) (u : Text)
      → (reconcile_bloom_from_mongo r
          (some (record { docs = map some urls; ends_well = true }))
          b).0
        ≡ none
      → 0 < occurrences u urls
      → r.bf_exists
          (reconcile_bloom_from_mongo r
            (some (record { docs = map some urls; ends_well = true }))
            b).1.1
          u
        ≡ true
  unfolding reconcile_bloom_from_mongo
  reconcile-pieces urls b u good some_u =
      let (pieces, same, whole, sized) =
        each_video_url-pieces bloom_reconcile_batch (add_counted r) urls (0, b) (omega arith) in
      rw same (
        call_all-adds r pieces 0 b u (rw same at good)
          (subst (λ l. 0 < occurrences u l) (sym whole) some_u))

  pub reconcile-Decodes :
      (docs : List (Option Text)) (ends_well : Bool) (b : r.Bloom)
      → (reconcile_bloom_from_mongo r (some (record { docs = docs; ends_well = ends_well })) b).0
        ≡ none
      → Decodes docs ends_well
  unfolding reconcile_bloom_from_mongo each_video_url
  reconcile-Decodes docs ends_well b good =
      each_doc-Decodes bloom_reconcile_batch (add_counted r) [] docs ends_well (0, b) good

  -- A reconciliation that ends well leaves every URL of the cursor in the filter.
  pub reconcile-adds :
      (docs : List (Option Text)) (ends_well : Bool) (b : r.Bloom) (u : Text)
      → (reconcile_bloom_from_mongo r (some (record { docs = docs; ends_well = ends_well })) b).0
        ≡ none
      → 0 < count_if (is_doc u) docs
      → r.bf_exists
          (reconcile_bloom_from_mongo r
            (some (record { docs = docs; ends_well = ends_well }))
            b).1.1
          u
        ≡ true
  reconcile-adds docs ends_well b u good some_u =
      let (urls, e, t) = reconcile-Decodes docs ends_well b good in
      rw (e, t)
        (reconcile-pieces urls b u (rw (e, t) at good)
          (subst (λ n. 0 < n) (count_if-docs u urls) (rw e at some_u)))

  -- One that ends well takes nothing out of it.
  pub reconcile-Grows :
      (docs : List (Option Text)) (ends_well : Bool) (b : r.Bloom)
      → (reconcile_bloom_from_mongo r (some (record { docs = docs; ends_well = ends_well })) b).0
        ≡ none
      → Grows r b
          (reconcile_bloom_from_mongo r
            (some (record { docs = docs; ends_well = ends_well }))
            b).1.1
  reconcile-Grows docs ends_well b good u h =
      let (urls, e, t) = reconcile-Decodes docs ends_well b good in rw (e, t) (grown urls)
    where
      grown :
          (urls : List Text)
          → r.bf_exists
              (reconcile_bloom_from_mongo r
                (some (record { docs = map some urls; ends_well = true }))
                b).1.1
              u
            ≡ true
      grown urls =
          let (pieces, same, _, _) =
            each_video_url-pieces bloom_reconcile_batch (add_counted r) urls (0, b) (omega arith) in
          unfold reconcile_bloom_from_mongo in rw same (call_all-Grows r pieces 0 b u h)
