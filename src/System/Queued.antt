-- ===== src/System/Queued.antt =====
-- A video that AdmitVideo of internal/storage/frontier.go admits as new keeps a job until a call ends it.
use lost_media_finder.Prelude.{ℕ, ◌<◌, ◌≡◌, true, arith, inl, inr}
use lost_media_finder.Text.{Text, eq_text_refl}
use lost_media_finder.Redis.{Redis}
use lost_media_finder.Redis.Laws.{BloomReply-cases}
use lost_media_finder.Frontier.Types.{AdmitResult, new, ok}
use lost_media_finder.Frontier.Member.{member}
use lost_media_finder.Frontier.Keyspace.{Keyspace, Reply, returned, raised, push_job}
use lost_media_finder.Frontier.Scripts.Admit.{admit_live_video, lua_admit_video}
use lost_media_finder.Frontier.Scripts.Rules.{check_dead-holds}
use lost_media_finder.Frontier.Methods.{unix, answered, admit_video}
use lost_media_finder.Frontier.Sound.Defs.{live_jobs}
use lost_media_finder.Frontier.Pending.Defs.{job_for, job_for-member}
use lost_media_finder.System.Defs.{Setup, frontier, is_video, Reach, admits_video, next}
use lost_media_finder.System.Jobs.{IsEmpty}
use lost_media_finder.System.Keeping.{SparesAll, job_kept}
use lost_media_finder.System.Surviving.{Lives}

module _ {r : Redis} (url : Text) where
  -- An admission as new leaves a job.
  abbrev Queues : Reply AdmitResult × Keyspace r → Type 0
  Queues x = x.0 ≡ returned new → Lives url x.1

  push_job-queues : (k : Keyspace r) → Lives url (push_job url k)
  unfolding push_job
  push_job-queues k =
      rw (r.lpush_lem k.ready (member (r.incr k.job_seq) url))
        (ground (arith, job_for-member (r.incr k.job_seq) url url, eq_text_refl url))

  admit_live_video-Queues : (k : Keyspace r) → Queues (admit_live_video url k)
  unfolding admit_live_video
  admit_live_video-Queues k = elim (BloomReply-cases (r.bf_add k.bloom url).0) [
    | inl e ↦ rw (e, admit_live_video) (λ h. absurd (cc h))
    | inr (inl e) ↦ rw (e, admit_live_video) (λ h. absurd (cc h))
    | inr (inr e) ↦ rw (e, admit_live_video) (λ _. push_job-queues k)
  ]

  lua_admit_video-Queues : (now : ℕ) (k : Keyspace r) → Queues (lua_admit_video url now k)
  unfolding lua_admit_video
  lua_admit_video-Queues now k =
      check_dead-holds Queues url now (admit_live_video url) k (λ h. absurd (cc h))
        (λ h. absurd (cc h)) (admit_live_video-Queues k)
        (admit_live_video-Queues (record k { dead = r.hdel k.dead url }))

  answered-Queues :
      (a : Reply AdmitResult) (k : Keyspace r)
      → Queues (a, k)
      → (answered (a, k)).0 ≡ ok new
      → Lives url (answered (a, k)).1
  answered-Queues (returned x) k h e = h (cc e)
  answered-Queues raised k h e = absurd (cc e)

  admit_video-queues :
      (s : Setup) (now : ℕ) (k : Keyspace r)
      → (admit_video (frontier s) now url k).0 ≡ ok new
      → Lives url (admit_video (frontier s) now url k).1
  unfolding admit_video
  admit_video-queues s now k h = answered-Queues _ _ (lua_admit_video-Queues (unix now) k) h

module _ {r : Redis} {start : Keyspace r} (e : IsEmpty r start) (s : Setup) (url : Text) where
  -- A video URL that AdmitVideo admits as new, in a state that calls of the frontier reach from an
  -- empty database, has a job in ready, processing or delayed after any further calls, unless a Fail
  -- on a job of the URL returns Dead or an Ack, Terminal or CompleteListing on one succeeds.
  new_video_kept :
      (now : ℕ) {k k' : Keyspace r} (reach : Reach s start k)
      → is_video s url ≡ true
      → (admit_video (frontier s) now url k).0 ≡ ok new
      → (later : Reach s (admit_video (frontier s) now url k).1 k') → SparesAll s url later
      → 0 < live_jobs (job_for url) k'
  new_video_kept now {k} reach is_v first later spared =
      job_kept e s url (next reach (admits_video now url k is_v)) later
        (admit_video-queues url s now k first) spared
