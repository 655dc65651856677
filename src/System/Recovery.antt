-- ===== src/System/Recovery.antt =====
-- A job of a crashed worker, and one that failed, are served again: Reap and Promote of
-- internal/storage/frontier.go put them back in ready, from where Lease takes them.
use lost_media_finder.Prelude.{
  ℕ, suc, ◌+◌, ◌≡◌, ◌≤◌, ◌<◌, refl, sym, subst, true, false, some, List, arith, is_some, length,
}
use lost_media_finder.Text.{Text, eq_text}
use lost_media_finder.Redis.{Redis}
use lost_media_finder.Frontier.Types.{reap_batch_limit, promote_batch_limit}
use lost_media_finder.Frontier.Member.{member, after_separator-member}
use lost_media_finder.Frontier.Keyspace.{Keyspace, returned, push_job, for_each}
use lost_media_finder.Frontier.Scripts.Reconcile.{reap_one, lua_reap, promote_one, lua_promote}
use lost_media_finder.Frontier.Scripts.Branches.{reap_one-keeps, promote_one-keeps}
use lost_media_finder.Frontier.Scripts.Rules.{>>=-returns}
use lost_media_finder.Frontier.Methods.{unix, reap, promote}
use lost_media_finder.Frontier.Replies.{answered-keeps}
use lost_media_finder.System.Defs.{Setup, Reach, is_video}
use lost_media_finder.System.Jobs.{IsEmpty, reached}
use lost_media_finder.System.Queueing.{reap_one-Waits, promote_one-Waits}
use lost_media_finder.System.Reaping.{Expired, Expired-next, Expired-page}
use lost_media_finder.System.Promoting.{Overdue, Overdue-next, Overdue-page}
use lost_media_finder.System.Requeueing.{Requeues, Recovered, Lost, for_each-Recovered}
use lost_media_finder.System.Serving.{Serves, leases_in, ready_served}

still :
    (r : Redis) (number : ℕ) (url : Text) (z : r.Zset) (item : Text)
    → eq_text item (member number url) ≡ false
    → is_some (r.zscore z (member number url)) ≡ true
    → is_some (r.zscore (r.zrem z item).1 (member number url)) ≡ true
still r number url z item e h = rw (r.zscore-zrem z item (member number url), e) h

module _ (r : Redis) (number : ℕ) (url : Text) where
  -- The member has a score in the set, and ready holds at most one job more than `n`.
  abbrev Stays : ℕ → (Keyspace r → r.Zset) → Keyspace r → Type 0
  Stays n z k = (is_some (r.zscore (z k) (member number url)) ≡ true) × (length k.ready ≤ suc n)

  one_more : (k : Keyspace r) (u : Text) → length (push_job u k).ready ≤ suc (length k.ready)
  unfolding push_job
  one_more k u = rw (r.lpush_lem k.ready (member (r.incr k.job_seq) u)) (omega arith)

  reap_one-Requeues : Requeues {r = r} number url (λ k. k.lease) reap_one
  unfolding reap_one push_job
  reap_one-Requeues = record {
    mints = λ k h. (
      r.incr k.job_seq,
      rw (r.zrem_count k.lease (member number url), h, after_separator-member number url, reap_one)
          (r.lpush_lem k.ready (member (r.incr k.job_seq) url)),
    );
    leaves = λ item k e h.
        reap_one-keeps (Stays (length k.ready) (λ k. k.lease)) item k
          (still r number url k.lease item e h, omega arith)
          (λ u _. (still r number url k.lease item e h, one_more k u));
    queues = reap_one-Waits;
  }

  promote_one-Requeues : Requeues {r = r} number url (λ k. k.delayed) promote_one
  unfolding promote_one push_job
  promote_one-Requeues = record {
    mints = λ k h. (
      r.incr k.job_seq,
      rw (after_separator-member number url, promote_one)
          (r.lpush_lem k.ready (member (r.incr k.job_seq) url)),
    );
    leaves = λ item k e h.
        promote_one-keeps (Stays (length k.ready) (λ k. k.delayed)) item k (h, omega arith)
          (λ u _. (still r number url k.delayed item e h, one_more k u));
    queues = promote_one-Waits;
  }

module _ {r : Redis} {start k : Keyspace r} (e : IsEmpty r start) (s : Setup)
    (reach : Reach s start k) (number : ℕ) (url : Text) where
  -- A member of the set that the page holds is lost until the loop takes it.
  paged :
      (z : Keyspace r → r.Zset) (now limit at : ℕ)
      → r.zscore (z k) (member number url) ≡ some at
      → at ≤ now
      → length (r.zrange_by_score (z k) now limit) < limit
      → Lost number url
          (length k.ready + length (r.zrange_by_score (z k) now limit))
          z
          (r.zrange_by_score (z k) now limit)
          k
  paged z now limit at scored late short = record {
    in_set = rw scored refl;
    to_come = r.zrange_all (z k) now limit at (member number url) short scored late;
    few = omega arith;
  }

  reap-Recovered :
      (now at : ℕ)
      → r.zscore k.lease (member number url) ≡ some at
      → at ≤ unix now
      → length (r.zrange_by_score k.lease (unix now) reap_batch_limit) < reap_batch_limit
      → Recovered number url
          (length k.ready + length (r.zrange_by_score k.lease (unix now) reap_batch_limit))
          (reap now k).1
  unfolding reap lua_reap
  reap-Recovered now at leased late short =
      let page : List Text = r.zrange_by_score k.lease (unix now) reap_batch_limit in
      let most : ℕ = length k.ready + length page in
      let (_, recovered) =
        for_each-Recovered number url most (λ k. k.lease) reap_one (reap_one-Requeues r number url)
          (Expired r (is_video s) (unix now)) (Expired-next (unix now)) page 0 k
          (Expired-page (unix now) reap_batch_limit k (reached e s reach) short)
          (paged (λ k. k.lease) (unix now) reap_batch_limit at leased late short) in
      answered-keeps (Recovered number url most) _ _ recovered

  promote-Recovered :
      (now at : ℕ)
      → r.zscore k.delayed (member number url) ≡ some at
      → at ≤ unix now
      → length (r.zrange_by_score k.delayed (unix now) promote_batch_limit) < promote_batch_limit
      → Recovered number url
          (length k.ready + length (r.zrange_by_score k.delayed (unix now) promote_batch_limit))
          (promote now k).1
  unfolding promote lua_promote
  promote-Recovered now at delayed late short =
      let page : List Text = r.zrange_by_score k.delayed (unix now) promote_batch_limit in
      let most : ℕ = length k.ready + length page in
      let ((n, returns), recovered) =
        for_each-Recovered number url most (λ k. k.delayed) promote_one
          (promote_one-Requeues r number url) (Overdue r (is_video s) (unix now))
          (Overdue-next (unix now)) page 0 k
          (Overdue-page (unix now) promote_batch_limit k (reached e s reach) short)
          (paged (λ k. k.delayed) (unix now) promote_batch_limit at delayed late short) in
      answered-keeps (Recovered number url most) _ _ (
        subst (λ x. Recovered number url most x.1)
          (sym (
            >>=-returns (for_each promote_one page 0 k) (λ _ k'. (returned (length page), k')) n
              returns))
          recovered)

  -- The job of a crashed worker is served again: in every state reachable from an empty database in
  -- which fewer leases than the batch limit have expired, among them that of a job, Reap puts a job
  -- for the same URL into ready; and among any calls of the frontier after it, of which at least as
  -- many are calls of Lease as jobs were ready and leases had expired, one of these returns it.
  pub crashed_job_served :
      {k' : Keyspace r} (now at : ℕ)
      → r.zscore k.lease (member number url) ≡ some at
      → at ≤ unix now
      → length (r.zrange_by_score k.lease (unix now) reap_batch_limit) < reap_batch_limit
      → (later : Reach s (reap now k).1 k')
      → length k.ready + length (r.zrange_by_score k.lease (unix now) reap_batch_limit)
        ≤ leases_in s later
      → (new : ℕ) × Serves s (member new url) later
  crashed_job_served now at leased late short later enough =
      let b = reap-Recovered now at leased late short in
      (
        b.new,
        ready_served s (member b.new url) b.waits.0 b.after later b.waits.1
            (omega (arith, b.few, enough)),
      )

  -- A job that failed is served again: in every state reachable from an empty database in which
  -- fewer delays than the batch limit are over, among them that of a job, Promote puts a job for the
  -- same URL into ready; and among any calls of the frontier after it, of which at least as many are
  -- calls of Lease as jobs were ready and delays were over, one of these returns it.
  pub delayed_job_served :
      {k' : Keyspace r} (now at : ℕ)
      → r.zscore k.delayed (member number url) ≡ some at
      → at ≤ unix now
      → length (r.zrange_by_score k.delayed (unix now) promote_batch_limit) < promote_batch_limit
      → (later : Reach s (promote now k).1 k')
      → length k.ready + length (r.zrange_by_score k.delayed (unix now) promote_batch_limit)
        ≤ leases_in s later
      → (new : ℕ) × Serves s (member new url) later
  delayed_job_served now at delayed late short later enough =
      let b = promote-Recovered now at delayed late short in
      (
        b.new,
        ready_served s (member b.new url) b.waits.0 b.after later b.waits.1
            (omega (arith, b.few, enough)),
      )
