-- ===== src/Mongo.antt =====
-- internal/storage/mongo.go: the corpus in MongoDB. The driver's collection is a parameter; EachVideoURL
-- is in Corpus.
use lost_media_finder.Prelude.{
  ℕ, ◌<◌, ◌≡◌, Bool, true, Option, none, some, List, [], ◌∷◌, count_if, if◌then◌else◌, ◌>>=◌,
}
use lost_media_finder.Text.{Text}
use lost_media_finder.Corpus.{Cursor, is_doc}
use lost_media_finder.Crawler.Worker.{Corpus}
use lost_media_finder.Model.{Video}

-- bson.M{} and bson.M{"is_target": true}
pub data Filter : Type 0 where
  everything targets_only : Filter

-- What a cursor over whole documents yields: each one, `none` where it does not decode, and whether the
-- cursor ends without an error.
pub record Videos : Type 0 where
  pub docs : List (Option Video)
  pub ends_well : Bool

-- A collection of the driver, with the commands that the code sends: ReplaceOne of the document with
-- an _id, with or without an upsert, CountDocuments, Find, Find with a projection to _id, and Drop.
-- The laws are the documented behaviour: a document that an upsert has stored is in the collection, a
-- replacement removes none, and a cursor that comes to its end has listed each.
pub record Collection : Type 1 where
  pub Store : Type 0
  pub replace_one : Store → Text → Video → Bool → Bool × Store
  pub count_documents : Store → Filter → Option ℕ
  pub find : Store → Filter → Option Videos
  pub find_ids : Store → Filter → Option Cursor
  pub drop : Store → Bool × Store
  pub Holds : Store → Text → Type 0
  pub replaced :
      (s : Store) (id : Text) (v : Video)
      → (replace_one s id v true).0 ≡ true
      → Holds (replace_one s id v true).1 id
  pub kept :
      (s : Store) (id u : Text) (v : Video) (or_insert : Bool)
      → Holds s u
      → Holds (replace_one s id v or_insert).1 u
  pub listed :
      (s : Store) (u : Text) (cur : Cursor)
      → Holds s u
      → find_ids s everything ≡ some cur
      → cur.ends_well ≡ true
      → 0 < count_if (is_doc u) cur.docs

-- cursor.All
unfoldable pub decode_all : List (Option Video) → Bool → Option (List Video)
decode_all [] ends_well = if ends_well then some [] else none
decode_all (none ∷ docs) ends_well = none
decode_all (some v ∷ docs) ends_well = do videos ← decode_all docs ends_well; some (v ∷ videos)

module _ (d : Collection) where
  abbrev pub all_videos : Option Videos → Option (List Video)
  all_videos none = none
  all_videos (some c) = decode_all c.docs c.ends_well

  unfoldable pub upsert : d.Store → Video → Bool × d.Store
  upsert s v = d.replace_one s v.url v true

  unfoldable pub find_all : d.Store → Option (List Video)
  unfolding decode_all
  find_all s = all_videos (d.find s everything)

  unfoldable pub find_targets : d.Store → Option (List Video)
  unfolding decode_all
  find_targets s = all_videos (d.find s targets_only)

  unfoldable pub count : d.Store → Option ℕ
  count s = d.count_documents s everything

  unfoldable pub drop_all : d.Store → Bool × d.Store
  drop_all s = d.drop s

  -- The corpus of the crawler.
  abbrev pub corpus_of : Corpus
  corpus_of = record {
    Store = d.Store;
    upsert = upsert;
    count_documents = count;
    find_targets = find_targets;
    find_urls = λ s. d.find_ids s everything;
    drop = drop_all;
  }
