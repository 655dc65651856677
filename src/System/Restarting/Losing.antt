-- ===== src/System/Restarting/Losing.antt =====
-- A video that was stored before Redis lost everything, on the in-memory server.
use lost_media_finder.Prelude.{
  pos, ◌≡◌, ◌≢◌, ◌<◌, refl, true, some, Option, List, [], ◌∷◌, arith, subst, count_if,
}
use lost_media_finder.Text.{Text, eq_text, eq_text_refl}
use lost_media_finder.Text.Search.{contains_text}
use lost_media_finder.Redis.Memory.{memory}
use lost_media_finder.Frontier.Types.{ok, new}
use lost_media_finder.Frontier.Methods.{admit_video}
use lost_media_finder.Bloom.{done, bloom_init, bloom_verify, bloom_add_batch}
use lost_media_finder.Corpus.{Cursor, is_doc, each_doc, each_video_url}
use lost_media_finder.Crawler.Config.{default_config}
use lost_media_finder.Crawler.Worker.{World}
use lost_media_finder.Model.{Video}
use lost_media_finder.Mongo.{Collection, upsert, corpus_of, count, find_targets, decode_all}
use lost_media_finder.Startup.{start_up, reconcile_bloom_from_mongo}
use lost_media_finder.System.Defs.{frontier, here}
use lost_media_finder.System.Known.{after_upserts, stored_video_known}
use lost_media_finder.System.Scenario.{server, empty, moment}
use lost_media_finder.System.Starting.{configured}
use lost_media_finder.System.Restarting.{
  fixed, bloom_server, reserve, items, video, seeds_file, opening-InTime,
}

-- A collection that never fails and keeps the identifiers alone.
identifiers-listed :
    (s : List (Option Text)) (u : Text) (cur : Cursor)
    → 0 < count_if (is_doc u) s
    → ◌≡◌ {A = Option Cursor} (some (record { docs = s; ends_well = true })) (some cur)
    → cur.ends_well ≡ true
    → 0 < count_if (is_doc u) cur.docs
identifiers-listed s u cur h e ends =
    let same : record { docs = s; ends_well = true } ≡ cur = cc e in
    subst (λ (x : Cursor). 0 < count_if (is_doc u) x.docs) same h

abbrev identifiers : Collection
identifiers = record {
  Store = List (Option Text);
  replace_one = λ s id v or_insert. (true, some id ∷ s);
  count_documents = λ s f. some 0;
  find = λ s f. some (record { docs = []; ends_well = true });
  find_ids = λ s f. some (record { docs = s; ends_well = true });
  drop = λ s. (true, []);
  Holds = λ s u. 0 < count_if (is_doc u) s;
  replaced = λ s id v h. ground (arith, eq_text_refl id);
  kept = λ s id u v or_insert h. ground (arith, h);
  listed = identifiers-listed;
}

abbrev found : Video
found = record {
  url = video;
  title = [];
  date = [];
  duration = pos 600;
  match_date = true;
  match_duration = true;
  has_cjk_char = true;
  has_non_english_char = true;
  is_target = true;
}

-- Redis is empty, the collection is not.
abbrev survived : World server (corpus_of identifiers)
survived = record {
  redis = empty;
  store = after_upserts identifiers (found ∷ []) (upsert identifiers [] found).1;
  count = 0;
  targets = [];
  resolve_errors = 0;
  stopped = true;
}

abbrev restarted : World server (corpus_of identifiers)
restarted = (start_up fixed bloom_server default_config seeds_file true (λ i. moment) survived).1

restarted-done :
    (start_up fixed bloom_server default_config seeds_file true (λ i. moment) survived).0
    ≡ done restarted
unfolding start_up bloom_init bloom_verify reserve items reconcile_bloom_from_mongo each_video_url
    each_doc bloom_add_batch memory empty contains_text eq_text upsert count find_targets decode_all
restarted-done = refl

found-stored : (upsert identifiers [] found).0 ≡ true
unfolding upsert
found-stored = refl

stored_video_known_example :
    (admit_video (frontier (configured default_config seeds_file)) moment video restarted.redis).0
    ≢ ok new
stored_video_known_example =
    stored_video_known identifiers fixed bloom_server default_config seeds_file true (λ i. moment)
      found (found ∷ []) [] survived restarted moment restarted.redis (λ i. opening-InTime)
      found-stored refl restarted-done here
