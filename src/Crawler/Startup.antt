-- ===== src/Crawler/Startup.antt =====
-- Resume and Seed of internal/crawler/crawler.go, which run before the workers. An unreadable file is
-- `none`.
use lost_media_finder.Prelude.{ℕ, suc, Option, none, some, List, [], ◌∷◌, ◌++◌}
use lost_media_finder.Text.{Text}
use lost_media_finder.Text.Lines.{split_byte, trim_space}
use lost_media_finder.Redis.{Redis}
use lost_media_finder.Frontier.Keyspace.{Keyspace}
use lost_media_finder.Crawler.Config.{Config}
use lost_media_finder.Crawler.Worker.{Corpus, World, admit_url}

module _ {r : Redis} {m : Corpus} where
  -- Both reads come before the fields change.
  unfoldable pub resume : World r m → World r m
  resume w = elim (m.count_documents w.store) [
    | none ↦ w
    | some n ↦ elim (m.find_targets w.store) [
      | none ↦ w
      | some targets ↦ record w { targets = w.targets ++ targets; count = n }
    ]
  ]

module _ {r : Redis} (c : Config) (seeds : List Text) where
  -- A line that is blank is skipped; any other is admitted as it stands, errors or not.
  abbrev pub seed_line : ℕ → Text → Text → Keyspace r → Keyspace r
  seed_line now [] line k = k
  seed_line now (x ∷ trimmed) line k = (admit_url c seeds now line k).1

  unfoldable pub seed_lines : (ℕ → ℕ) → List Text → Keyspace r → Keyspace r
  unfolding admit_url trim_space
  seed_lines clock [] k = k
  seed_lines clock (line ∷ lines) k =
      seed_lines (λ i. clock (suc i)) lines (seed_line (clock 0) (trim_space line) line k)

  unfoldable pub seed : (ℕ → ℕ) → Option Text → Keyspace r → Keyspace r
  unfolding seed_lines split_byte
  seed clock none k = k
  seed clock (some contents) k = seed_lines clock (split_byte 10 contents) k
