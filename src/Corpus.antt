-- ===== src/Corpus.antt =====
-- internal/storage/mongo.go: the batches of EachVideoURL. What the driver's cursor yields is an
-- input.
pub mod Batches
use lost_media_finder.Prelude.{
  ℕ, Bool, true, false, Option, none, some, List, [], ◌∷◌, ◌++◌, length, leb, if◌then◌else◌,
}
use lost_media_finder.Text.{Text, eq_text}

pub data MongoError : Type 0 where
  find_failed decode_failed cursor_failed callback_failed : MongoError

-- The documents in their order, `none` where one does not decode, and whether the cursor ends
-- without an error.
pub record Cursor : Type 0 where
  pub docs : List (Option Text)
  pub ends_well : Bool

-- A document with the given URL.
abbrev pub is_doc : Text → Option Text → Bool
is_doc u none = false
is_doc u (some v) = eq_text u v

module _ {S : Type 0} (batch : ℕ) (fn : List Text → S → Bool × S) where
  -- The call for what is left at the end.
  unfoldable pub last_batch : List Text → S → Option MongoError × S
  last_batch [] s = (none, s)
  last_batch (url ∷ urls) s =
      let (good, s') = fn (url ∷ urls) s in if good then (none, s') else (some callback_failed, s')

  -- The loop over the cursor, with the URLs that wait for their batch.
  unfoldable pub each_doc : List Text → List (Option Text) → Bool → S → Option MongoError × S
  unfolding last_batch
  each_doc urls [] ends_well s = if ends_well then last_batch urls s else (some cursor_failed, s)
  each_doc urls (none ∷ docs) ends_well s = (some decode_failed, s)
  each_doc urls (some url ∷ docs) ends_well s =
      let ready = urls ++ url ∷ [] in
      let (good, s') = fn ready s in
      let rest = each_doc [] docs ends_well s' in
      let wait = each_doc ready docs ends_well s in
      let call = if good then rest else (some callback_failed, s') in
      if leb batch (length ready) then call else wait

  unfoldable pub each_video_url : Option Cursor → S → Option MongoError × S
  unfolding each_doc
  each_video_url none s = (some find_failed, s)
  each_video_url (some c) s = each_doc [] c.docs c.ends_well s
