-- ===== src/Lib.antt =====
-- A model of the lost-media crawler: the frontier that keeps its jobs in Redis, the worker that
-- fetches pages, and the system of many workers and reconcilers that share the frontier.
--
-- The parts and their files:
-- - Prelude, Text: native numbers, lists and texts. A text is a list of byte codes.
-- - Redis: the commands that internal/storage/frontier.go sends, as a record of functions and the
--   documented laws that the proofs use. Every definition and theorem takes this record as a
--   parameter. Redis.Memory is an executable server that satisfies the laws; the tests run on it.
-- - Frontier: internal/storage/frontier.go. Keyspace has one field for each key; Scripts.Admit,
--   Scripts.Complete and Scripts.Reconcile hold the Lua scripts (luaLease is lua_lease), as functions
--   from a keyspace to a reply and a keyspace; Methods holds the Go methods (AdmitVideo is
--   admit_video). A script that raises an error keeps what it wrote before, as in Redis. The part
--   of a script after its lease or dead check is a definition of its own. Scripts.Rules,
--   Scripts.Branches and Calls are the rules by which the proofs go through a script or a method.
-- - Frontier.Member and Frontier.Parts: the members `<id>|<url>`, and what makes them.
-- - Frontier.Sound and Frontier.Pending: the invariant of the keyspace. Frontier.Fencing and
--   Frontier.Behaviour: what single methods do.
-- - Model: internal/model/video.go. The date parser and the Unicode tables are parameters.
-- - Crawler: internal/crawler. Classify and Worker are worker.go, Canonical is canonicalize of
--   crawler.go, Pages is process, and Config is internal/config/config.go with frontierConfig of
--   cmd/crawler/main.go. The answer of the server, the parsed document and the MongoDB collection
--   are parameters.
--   Moments is what surrounds the calls of a worker's turn: a clock reading for each, and what the
--   other goroutines do to the database before it.
--   Startup is Resume and Seed of crawler.go, Loop the loops of worker and workerTest, and Crowd the
--   workers of a test run, interleaved; TestMode is the start of a test run and its wait loop.
--   Environment is Load of config.go over an environment; Settings is about what it reads. Config
--   holds the settings that are not negative.
-- - Bloom: internal/storage/redis.go, over the replies of the filter's commands, with float64 as a
--   parameter. Corpus: EachVideoURL of internal/storage/mongo.go over a cursor; Batches is about the
--   pieces it hands on. Mongo: the other methods of mongo.go, over a collection of the driver.
-- - Metrics: the collectors and the handler of /stop of internal/metrics/metrics.go.
-- - Scheduler: internal/scheduler/scheduler.go, the functions that the reconcilers run at each tick.
--   Draining and Loop are about the loop of the listing scheduler, Monitor is the bloom monitor.
-- - Startup: readSeedURLs, reconcileBloomFromMongo and the production start of cmd/crawler/main.go.
-- - System: the calls that workers, reconcilers and main make on one frontier, as a step relation;
--   a script runs atomically in Redis, so an interleaving is a sequence of steps. Invariant, Jobs,
--   Leasing, Once, Readmission and Blocking are about all reachable states. Surviving, Resolving, Keeping and
--   Queued follow a URL through the calls; Counting, Bag, Changes and Refining count the jobs of
--   each URL, the abstract view of the frontier; Queueing and Serving follow a ready job to its
--   lease, and Requeueing and Recovery a leased or delayed one back to ready. Interference says
--   what the other goroutines may do during a worker's turn; Workers, Turns, Looping, Halting and
--   Crowding are about the workers, and Admitting, Explaining, Ending, Outcomes and Endings about what
--   becomes of a job and of the links of its page; Reaping, Promoting, Sweeping, Scheduling and
--   Reconcilers are about the scheduler; Filling, Starting and Known are about the start, and Trial
--   is about the test mode. Scenario, Tests, Turning, Restarting, Running and Resuming run the
--   system on Redis.Memory.
--
-- How the pieces meet: a worker leases a member, `<id>|<url>`, from ready into processing; its
-- resolution takes the lease first and is stale without one. The reaper and the sweeper bring back
-- what lost its lease, the promoter what waited in delayed, and the listing scheduler what is due.
-- A listing's score in listing_next is PENDING while it has a job.
--
-- Bounds: times, durations and counts are natural numbers; configured values are not negative. The
-- system's steps assume clocks after 1970 whose deadlines lie before PENDING, the year 9999. Lua
-- prints an identifier exactly below 10^14, which a counter does not reach, and the scripts' numbers
-- are exact below 2^53; the model has no bound there. strconv's int has 64 bits, and a rate limit
-- wraps around; strings.TrimSpace is that of ASCII text. The loop of the listing scheduler takes
-- fuel, one for each call: more than there are listings with a score up to the last clock reading is
-- enough where the limit is positive, since a call that fills its page takes one off them. Nothing
-- else takes fuel.
--
-- Not modelled: a lost connection (a call that did not reach Redis is no step), time-outs, logging,
-- the counters of the worker but the resolve errors, the login, the HTTP servers, the MongoDB driver,
-- SaveTest's file, signals and flags, and the periods of the reconcilers.
pub mod Prelude
pub mod Text
pub mod Redis
pub mod Frontier
pub mod Crawler
pub mod Model
pub mod System
pub mod Bloom
pub mod Corpus
pub mod Metrics
pub mod Scheduler
pub mod Startup
pub mod Mongo
