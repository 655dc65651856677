-- ===== src/Frontier/Sound/Leases.antt =====
-- Leasing and resolving a job keep the invariant, whatever the script returns or raises.
use lost_media_finder.Prelude.{
  ℕ, ◌+◌, subst, Bool, List, ◌∷◌, leb, get_elem?, length, ◌&&◌, Bool-cases, Option-cases, inl, inr,
}
use lost_media_finder.Text.{Text}
use lost_media_finder.Redis.{Redis}
use lost_media_finder.Redis.Laws.{lmove_cases}
use lost_media_finder.Frontier.Keyspace.{Keyspace}
use lost_media_finder.Frontier.Scripts.Admit.{lua_lease}
use lost_media_finder.Frontier.Scripts.Complete.{
  clamp, leave_processing, ack_held, nack_held, terminal_held, complete_held, fail_held, lua_ack,
  lua_nack, lua_terminal, lua_complete_listing, count_strike, delay_job, lua_fail,
}
use lost_media_finder.Frontier.Scripts.Rules.{take_lease-keeps}
use lost_media_finder.Frontier.Sound.Defs.{Tracks, IsSound}
use lost_media_finder.Frontier.Sound.Parts.{
  Tracks-push, Tracks-delay, Tracks-finish, Tracks-unlease, Tracks-lease, Tracks-skip,
}

module _ {r : Redis} where
  pub ack-IsSound : (item url : Text) (k : Keyspace r) → IsSound k → IsSound (lua_ack item url k).1
  unfolding lua_ack
  ack-IsSound item url k t =
      take_lease-keeps IsSound item (ack_held item url) k (λ _. Tracks-unlease t item)
        (λ _. Tracks-finish t item)

  pub nack-IsSound :
      (item url : Text) (k : Keyspace r) → IsSound k → IsSound (lua_nack item url k).1
  unfolding lua_nack
  nack-IsSound item url k t =
      take_lease-keeps IsSound item (nack_held item url) k (λ _. Tracks-unlease t item)
        (λ _. Tracks-push (Tracks-finish t item) url)

  pub terminal-IsSound :
      (item url reason : Text) (until : ℕ) (k : Keyspace r)
      → IsSound k
      → IsSound (lua_terminal item url reason until k).1
  unfolding lua_terminal
  terminal-IsSound item url reason until k t =
      take_lease-keeps IsSound item (terminal_held item url reason until) k
        (λ _. Tracks-unlease t item) (λ _. Tracks-finish t item)

  pub complete_listing-IsSound :
      (item url : Text) (new_children now base_ttl max_ttl : ℕ) (k : Keyspace r)
      → IsSound k
      → IsSound (lua_complete_listing item url new_children now base_ttl max_ttl k).1
  unfolding lua_complete_listing
  complete_listing-IsSound item url new_children now base_ttl max_ttl k t =
      take_lease-keeps IsSound item (complete_held item url new_children now base_ttl max_ttl) k
        (λ _. Tracks-unlease t item) (λ _. Tracks-finish t item)

  delay_job-IsSound :
      (item url : Text) (attempts now until : ℕ) (backoff : List ℕ) (k : Keyspace r)
      → IsSound k
      → IsSound (leave_processing item k)
      → IsSound (delay_job item url attempts now until backoff k).1
  unfolding delay_job
  delay_job-IsSound item url attempts now until backoff k s t =
      elim (Option-cases (get_elem? (until ∷ backoff) (clamp attempts (length backoff)))) [
        | inl e ↦ rw (e, delay_job) (Tracks-skip s)
        | inr (delay, e) ↦ rw (e, delay_job) (Tracks-delay t (now + delay) url)
      ]

  pub fail-IsSound :
      (item url : Text) (inc_strike : Bool) (max_strikes now : ℕ) (reason : Text) (until : ℕ)
      (backoff : List ℕ) (k : Keyspace r)
      → IsSound k
      → IsSound (lua_fail item url inc_strike max_strikes now reason until backoff k).1
  unfolding lua_fail leave_processing
  fail-IsSound item url inc_strike max_strikes now reason until backoff k t =
      take_lease-keeps IsSound item
        (fail_held item url inc_strike max_strikes now reason until backoff) k
        (λ _. Tracks-unlease t item)
        (λ _. elim (Bool-cases (inc_strike && leb max_strikes (count_strike url inc_strike k).0)) [
          | inl e ↦ rw e (Tracks-finish t item)
          | inr e ↦ rw e (
              delay_job-IsSound item url _ now until backoff _ (Tracks-unlease t item)
                (Tracks-finish t item))
        ])

  pub lease-IsSound :
      (now lease_timeout : ℕ) (k : Keyspace r)
      → IsSound k
      → IsSound (lua_lease now lease_timeout k).1
  unfolding lua_lease
  lease-IsSound now lease_timeout k t = elim (lmove_cases r k.ready k.processing) [
    | inl (_, e) ↦ rw (e, lua_lease) t
    | inr (item, init, split, e) ↦
        rw (e, lua_lease)
          (Tracks-lease item
            (subst (λ l. Tracks r k.job_seq l k.processing k.delayed k.lease) split t)
            (now + lease_timeout))
  ]
