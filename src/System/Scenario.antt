-- ===== src/System/Scenario.antt =====
-- One listing admitted to an empty server and leased: the states that the tests run on.
use lost_media_finder.Prelude.{ℕ, ◌*◌, ◌≡◌, refl, true, false, some, [], arith, is_some}
use lost_media_finder.Text.{Text, codes, eq_text}
use lost_media_finder.Text.Search.{contains_text, index_byte}
use lost_media_finder.Text.Decimal.{print}
use lost_media_finder.Redis.{Redis}
use lost_media_finder.Redis.Memory.{memory}
use lost_media_finder.Frontier.Types.{Job, ok, second, default_frontier_config, class_listing}
use lost_media_finder.Frontier.Member.{member, split_member}
use lost_media_finder.Frontier.Keyspace.{Keyspace}
use lost_media_finder.Frontier.Scripts.Admit.{lua_admit_listing, lua_lease}
use lost_media_finder.Frontier.Methods.{admit_listing, lease}
use lost_media_finder.Crawler.Classify.{new_url_classifier}
use lost_media_finder.System.Defs.{
  Setup, frontier, is_video, InTime, Reach, admits_listing, leases, here, next,
}
use lost_media_finder.System.Jobs.{IsEmpty}

abbrev pub server : Redis
server = memory 100

unfoldable pub empty : Keyspace server
unfolding memory
empty = record {
  job_seq = 0;
  ready = [];
  processing = [];
  lease = [];
  delayed = [];
  dead = [];
  attempts = [];
  strikes = [];
  listing_next = [];
  listing_barren = [];
  bloom = [];
}

pub empty-IsEmpty : IsEmpty server empty
unfolding empty memory
empty-IsEmpty = record {
  no_ready = refl;
  no_processing = refl;
  no_delayed = refl;
  no_lease = λ m. refl;
  no_listing = λ url. refl;
  no_dead = λ url. refl;
}

abbrev pub setup : Setup
setup = record { cfg = default_frontier_config; video_pattern = codes "/watch?v="; seed_urls = [] }

-- A moment of the year 2025.
abbrev pub moment : ℕ
moment = 1750000000 * second

pub moment-InTime : InTime setup moment
moment-InTime = record { begun = omega arith; revisit = omega arith; quarantine = omega arith }

abbrev pub user_page : Text
user_page = codes "https://www.vidlii.com/user/a"

abbrev pub admitted : Keyspace server
admitted = (admit_listing (frontier setup) moment user_page empty).1

abbrev pub in_work : Keyspace server
in_work = (lease (frontier setup) moment admitted).1

pub Reach-admitted : Reach setup empty admitted
Reach-admitted = next here (admits_listing moment user_page empty moment-InTime)

pub Reach-in_work : Reach setup empty in_work
Reach-in_work = next Reach-admitted (leases moment admitted)

pub user_page-listing : is_video setup user_page ≡ false
unfolding contains_text
user_page-listing = refl

pub user_page-leased : is_some (server.zscore in_work.lease (member 1 user_page)) ≡ true
unfolding empty memory admit_listing lease lua_admit_listing lua_lease member eq_text print
user_page-leased = refl

abbrev pub user_job : Job
user_job = record {
  id = codes "1";
  url = user_page;
  class = class_listing;
  member = member 1 user_page;
}

pub lease-user_job : lease (frontier setup) moment admitted ≡ (ok (some user_job), in_work)
unfolding empty memory admit_listing lease lua_admit_listing lua_lease member split_member
    new_url_classifier index_byte print
lease-user_job = refl
