-- ===== src/System/Known.antt =====
-- A stored video through the loss of Redis: the upserts of internal/storage/mongo.go and the production
-- start of cmd/crawler/main.go.
use lost_media_finder.Prelude.{
  ℕ, ◌≡◌, ◌≢◌, sym, subst, Bool, true, Option, some, List, [], ◌∷◌, Option-cases, inl, inr,
}
use lost_media_finder.Text.{Text}
use lost_media_finder.Redis.{Redis}
use lost_media_finder.Frontier.Types.{ok, new}
use lost_media_finder.Frontier.Keyspace.{Keyspace}
use lost_media_finder.Frontier.Methods.{admit_video}
use lost_media_finder.Bloom.{done, Floats, BloomServer}
use lost_media_finder.Corpus.{Cursor, each_video_url}
use lost_media_finder.Crawler.Config.{Config}
use lost_media_finder.Crawler.Worker.{World}
use lost_media_finder.Model.{Video}
use lost_media_finder.Mongo.{Collection, everything, upsert, corpus_of}
use lost_media_finder.Startup.{reconcile_bloom_from_mongo, start_up}
use lost_media_finder.System.Defs.{frontier, InTime, Reach}
use lost_media_finder.System.Filling.{reconcile-Decodes}
use lost_media_finder.System.Starting.{configured, start_up-opens, start_up-covers}

module _ (d : Collection) where
  -- The collection after upserts, whether they succeed or not.
  abbrev pub after_upserts : List Video → d.Store → d.Store
  after_upserts [] s = s
  after_upserts (v ∷ videos) s = after_upserts videos (upsert d s v).1

  upserts-Holds :
      (url : Text) (videos : List Video) (s : d.Store)
      → d.Holds s url
      → d.Holds (after_upserts videos s) url
  unfolding upsert
  upserts-Holds url [] s h = h
  upserts-Holds url (v ∷ videos) s h =
      upserts-Holds url videos (upsert d s v).1 (d.kept s v.url url v true h)

module _ {r : Redis} (d : Collection) (x : Floats) (v : BloomServer r) (c : Config)
    (file : Option Text) (fresh : Bool) (clock : ℕ → ℕ) where
  -- A start that succeeds has read the whole collection.
  listing :
      (w w' : World r (corpus_of d))
      → (start_up x v c file fresh clock w).0 ≡ done w'
      → (cur : Cursor) × (d.find_ids w.store everything ≡ some cur) × (cur.ends_well ≡ true)
  unfolding reconcile_bloom_from_mongo each_video_url
  listing w w' h = elim (Option-cases (d.find_ids w.store everything)) [
    | inl e ↦ absurd (cc (rw e at (start_up-opens x v c file fresh clock w w' h).0))
    | inr (cur, e) ↦
        let (urls, decoded, ends) =
          reconcile-Decodes r cur.docs cur.ends_well _
            (rw e at (start_up-opens x v c file fresh clock w w' h).0) in
        (cur, e, ends)
  ]

  -- A stored video is not crawled as new again, even if Redis lost everything: where an upsert of a
  -- video succeeded, and any others followed it, then after a production start that succeeds on that
  -- collection, from any state of Redis, in every state that calls of the frontier reach from there,
  -- AdmitVideo never admits the video's URL as new.
  pub stored_video_known :
      (video : Video) (others : List Video) (s : d.Store) (w w' : World r (corpus_of d)) (later : ℕ)
      (k : Keyspace r)
      → ((i : ℕ) → InTime (configured c file) (clock i))
      → (upsert d s video).0 ≡ true
      → w.store ≡ after_upserts d others (upsert d s video).1
      → (start_up x v c file fresh clock w).0 ≡ done w'
      → Reach (configured c file) w'.redis k
      → (admit_video (frontier (configured c file)) later video.url k).0 ≢ ok new
  unfolding upsert
  stored_video_known video others s w w' later k t stored same h reach =
      let (cur, found, ends) = listing w w' h in
      start_up-covers x v c file fresh clock w w' cur video.url later k t h found
        (d.listed w.store video.url cur
          (subst (λ st. d.Holds st video.url) (sym same)
            (upserts-Holds d video.url others (upsert d s video).1
              (d.replaced s video.url video stored)))
          found ends)
        reach
