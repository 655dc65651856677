-- ===== src/Startup.antt =====
-- The production start of cmd/crawler/main.go: readSeedURLs, reconcileBloomFromMongo, and main from
-- BloomInit to the seeds. Connections, the log and the login come before it.
use lost_media_finder.Prelude.{
  ℕ, ◌+◌, Bool, Option, none, some, List, [], ◌∷◌, length, if◌then◌else◌,
}
use lost_media_finder.Text.{Text}
use lost_media_finder.Text.Lines.{split_byte, trim_space}
use lost_media_finder.Redis.{Redis}
use lost_media_finder.Frontier.Methods.{seed_listing}
use lost_media_finder.Bloom.{
  Attempt, done, failed, Floats, BloomServer, BloomError, bloom_init, bloom_verify, bloom_add_batch,
}
use lost_media_finder.Corpus.{MongoError, Cursor, each_video_url}
use lost_media_finder.Crawler.Config.{Config}
use lost_media_finder.Crawler.Worker.{Corpus, World}
use lost_media_finder.Crawler.Startup.{resume, seed}

abbrev pub bloom_reconcile_batch : ℕ
bloom_reconcile_batch = 5000

abbrev pub keep_line : Text → List Text → List Text
keep_line [] urls = urls
keep_line (x ∷ line) urls = (x ∷ line) ∷ urls

abbrev pub seed_urls_of : List Text → List Text
seed_urls_of [] = []
seed_urls_of (line ∷ lines) = keep_line (trim_space line) (seed_urls_of lines)

unfoldable pub read_seed_urls : Option Text → Text → List Text
unfolding split_byte trim_space
read_seed_urls none base_url = base_url ∷ []
read_seed_urls (some contents) base_url = base_url ∷ seed_urls_of (split_byte 10 contents)

-- What ends the start with log.Fatalf.
pub data StartError : Type 0 where
  bloom_init_failed bloom_verify_failed : BloomError → StartError
  bloom_reconcile_failed : MongoError → StartError

module _ (r : Redis) where
  -- The callback counts a batch before it adds it.
  abbrev pub add_counted : List Text → ℕ × r.Bloom → Bool × (ℕ × r.Bloom)
  add_counted urls (n, b) =
      let (good, b') = bloom_add_batch r urls b in (good, (n + length urls, b'))

  unfoldable pub reconcile_bloom_from_mongo :
      Option Cursor → r.Bloom → Option MongoError × (ℕ × r.Bloom)
  unfolding each_video_url bloom_add_batch
  reconcile_bloom_from_mongo urls b = each_video_url bloom_reconcile_batch add_counted urls (0, b)

module _ {r : Redis} {m : Corpus} where
  abbrev pub with_bloom : r.Bloom → World r m → World r m
  with_bloom b w = record w { redis = record w.redis { bloom = b } }

module _ {r : Redis} {m : Corpus} (c : Config) where
  -- After the reconciliation: SeedListing, Resume, and Seed in a fresh run.
  unfoldable pub open_crawl : Option Text → Bool → (ℕ → ℕ) → World r m → World r m
  unfolding resume seed read_seed_urls
  open_crawl seeds_file fresh clock w =
      let w' = resume (record w { redis = seed_listing c.base_url w.redis }) in
      if fresh
      then record w' {
        redis = seed c (read_seed_urls seeds_file c.base_url) clock seeds_file w'.redis;
      }
      else w'

module _ {r : Redis} {m : Corpus} (x : Floats) (v : BloomServer r) (c : Config) where
  unfoldable pub start_up :
      Option Text → Bool → (ℕ → ℕ) → World r m → Attempt StartError (World r m) × World r m
  unfolding open_crawl reconcile_bloom_from_mongo bloom_init bloom_verify
  start_up seeds_file fresh clock w =
      let (created, b) = bloom_init v w.redis.bloom in
      let w' = with_bloom b w in
      let (problem, (n, b')) = reconcile_bloom_from_mongo r (m.find_urls w.store) b in
      let w'' = with_bloom b' w' in
      let opened = open_crawl c seeds_file fresh clock w'' in
      elim created [
        | failed e ↦ (failed (bloom_init_failed e), w')
        | done _ ↦ elim (bloom_verify x v b) [
          | some e ↦ (failed (bloom_verify_failed e), w')
          | none ↦ elim problem [
            | some e ↦ (failed (bloom_reconcile_failed e), w'')
            | none ↦ (done opened, opened)
          ]
        ]
      ]
