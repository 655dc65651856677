-- ===== src/Frontier/Pending/Calls.antt =====
-- The scripts of a worker keep the invariant of the frontier.
use lost_media_finder.Prelude.{
  ℕ, ◌+◌, ◌<◌, ◌≡◌, Bool, true, none, List, ◌∷◌, ◌&&◌, leb, ltb, get_elem?, length, Bool-cases,
  Option-cases, inl, inr,
}
use lost_media_finder.Text.{Text}
use lost_media_finder.Text.Search.{index_byte}
use lost_media_finder.Redis.{Redis}
use lost_media_finder.Redis.Laws.{lmove_cases, BloomReply-cases}
use lost_media_finder.Frontier.Types.{pending_score}
use lost_media_finder.Frontier.Member.{member, separator}
use lost_media_finder.Frontier.Keyspace.{Keyspace}
use lost_media_finder.Frontier.Scripts.Admit.{
  lua_lease, admit_live_video, lua_admit_video, admit_live_listing, lua_admit_listing,
}
use lost_media_finder.Frontier.Scripts.Complete.{
  clamp, ack_held, nack_held, terminal_held, complete_held, fail_held, lua_ack, lua_nack,
  lua_terminal, lua_complete_listing, count_strike, delay_job, lua_fail,
}
use lost_media_finder.Frontier.Scripts.Rules.{take_lease-keeps, check_dead-keeps}
use lost_media_finder.Frontier.Sound.Leases.{
  ack-IsSound, nack-IsSound, terminal-IsSound, complete_listing-IsSound, fail-IsSound,
  lease-IsSound,
}
use lost_media_finder.Frontier.Sound.Admit.{admit_video-IsSound, admit_listing-IsSound}
use lost_media_finder.Frontier.Pending.Dead.{Buried, Buried-hdel, Buried-hset}
use lost_media_finder.Frontier.Pending.Inv.{Inv}
use lost_media_finder.Frontier.Pending.Leases.{
  Deadline, ack-IsPaired, nack-IsPaired, terminal-IsPaired, complete_listing-IsPaired,
  fail-IsPaired, lease-IsPaired,
}
use lost_media_finder.Frontier.Pending.Admit.{
  admit_video-IsPaired, admit_listing-IsPaired, seed-IsPaired,
}

abbrev HasBuried : {r : Redis} → Keyspace r → Type 0
HasBuried {r} k = Buried r k.dead

module _ {r : Redis} {video : Text → Bool} (k : Keyspace r) (v : Inv r video k) where
  pub lease-Inv : (now lease_timeout : ℕ) → Inv r video (lua_lease now lease_timeout k).1
  lease-Inv now lease_timeout = record {
    sound = lease-IsSound now lease_timeout k v.sound;
    paired = lease-IsPaired now lease_timeout k v.paired;
    buried = elim (lmove_cases r k.ready k.processing) [
      | inl (_, e) ↦ unfold lua_lease in rw (e, lua_lease) v.buried
      | inr (item, init, _, e) ↦ unfold lua_lease in rw (e, lua_lease) v.buried
    ];
  }

  pub seed-Inv :
      (url : Text) → Inv r video (record k { listing_next = r.zadd_nx k.listing_next 0 url })
  seed-Inv url = record {
    sound = v.sound;
    paired = seed-IsPaired url k v.paired;
    buried = v.buried;
  }

  module _ (url : Text) (now : ℕ) where
    admit_live_video-Buried : (j : Keyspace r) → HasBuried j → HasBuried (admit_live_video url j).1
    admit_live_video-Buried j b = elim (BloomReply-cases (r.bf_add j.bloom url).0) [
      | inl e ↦ unfold admit_live_video in rw (e, admit_live_video) b
      | inr (inl e) ↦ unfold admit_live_video in rw (e, admit_live_video) b
      | inr (inr e) ↦ unfold admit_live_video in rw (e, admit_live_video) b
    ]

    pub admit_video-Inv : video url ≡ true → Inv r video (lua_admit_video url now k).1
    admit_video-Inv is_video = record {
      sound = admit_video-IsSound url now k v.sound;
      paired = admit_video-IsPaired url now k is_video v.paired;
      buried =
          unfold lua_admit_video in
          check_dead-keeps HasBuried url now (admit_live_video url) k v.buried
            (admit_live_video-Buried k v.buried)
            (admit_live_video-Buried (record k { dead = r.hdel k.dead url })
              (Buried-hdel v.buried url));
    }

    admit_live_listing-Buried :
        (j : Keyspace r) → HasBuried j → HasBuried (admit_live_listing url now pending_score j).1
    admit_live_listing-Buried j b = elim (Option-cases (r.zscore j.listing_next url)) [
      | inl e ↦ unfold admit_live_listing in rw (e, admit_live_listing) b
      | inr (prev, e) ↦
          unfold admit_live_listing in
          rw (e, admit_live_listing)
            (elim (Bool-cases (ltb now prev)) [ inl late ↦ rw late b | inr due ↦ rw due b ])
    ]

    pub admit_listing-Inv :
        now < pending_score → Inv r video (lua_admit_listing url now pending_score k).1
    admit_listing-Inv early = record {
      sound = admit_listing-IsSound url now pending_score k v.sound;
      paired = admit_listing-IsPaired url now k early v.paired;
      buried =
          unfold lua_admit_listing in
          check_dead-keeps HasBuried url now (admit_live_listing url now pending_score) k v.buried
            (admit_live_listing-Buried k v.buried)
            (admit_live_listing-Buried (record k { dead = r.hdel k.dead url })
              (Buried-hdel v.buried url));
    }

  module _ (id : ℕ) (url : Text) where
    pub ack-Inv : video url ≡ true → Inv r video (lua_ack (member id url) url k).1
    ack-Inv is_video = record {
      sound = ack-IsSound (member id url) url k v.sound;
      paired = ack-IsPaired id url k v.sound v.paired is_video;
      buried =
          unfold lua_ack in
          take_lease-keeps HasBuried (member id url) (ack_held (member id url) url) k
            (λ _. v.buried) (λ _. v.buried);
    }

    pub nack-Inv : Inv r video (lua_nack (member id url) url k).1
    nack-Inv = record {
      sound = nack-IsSound (member id url) url k v.sound;
      paired = nack-IsPaired id url k v.sound v.paired;
      buried =
          unfold lua_nack in
          take_lease-keeps HasBuried (member id url) (nack_held (member id url) url) k
            (λ _. v.buried) (λ _. v.buried);
    }

    pub terminal-Inv :
        (reason : Text) (until : ℕ)
        → index_byte reason separator ≡ none
        → Deadline video url until
        → Inv r video (lua_terminal (member id url) url reason until k).1
    terminal-Inv reason until plain d = record {
      sound = terminal-IsSound (member id url) url reason until k v.sound;
      paired = terminal-IsPaired id url k v.sound v.paired reason until d;
      buried =
          unfold lua_terminal in
          take_lease-keeps HasBuried (member id url)
            (terminal_held (member id url) url reason until) k (λ _. v.buried)
            (λ _. Buried-hset v.buried url reason until plain d.early);
    }

    pub complete_listing-Inv :
        (new_children now base_ttl max_ttl : ℕ)
        → now + max_ttl < pending_score
        → Inv r video
            (lua_complete_listing (member id url) url new_children now base_ttl max_ttl k).1
    complete_listing-Inv new_children now base_ttl max_ttl early = record {
      sound =
          complete_listing-IsSound (member id url) url new_children now base_ttl max_ttl k v.sound;
      paired =
          complete_listing-IsPaired id url k v.sound v.paired new_children now base_ttl max_ttl
            early;
      buried =
          unfold lua_complete_listing in
          take_lease-keeps HasBuried (member id url)
            (complete_held (member id url) url new_children now base_ttl max_ttl) k (λ _. v.buried)
            (λ _. Buried-hdel v.buried url);
    }

    pub fail-Inv :
        (inc_strike : Bool) (max_strikes now : ℕ) (reason : Text) (until : ℕ) (backoff : List ℕ)
        → index_byte reason separator ≡ none
        → Deadline video url until
        → Inv r video
            (lua_fail (member id url) url inc_strike max_strikes now reason until backoff k).1
    fail-Inv inc_strike max_strikes now reason until backoff plain d = record {
      sound =
          fail-IsSound (member id url) url inc_strike max_strikes now reason until backoff k
            v.sound;
      paired =
          fail-IsPaired id url k v.sound v.paired inc_strike max_strikes now reason until backoff d;
      buried =
          unfold lua_fail in
          take_lease-keeps HasBuried (member id url)
            (fail_held (member id url) url inc_strike max_strikes now reason until backoff) k
            (λ _. v.buried)
            (λ _.
              elim (Bool-cases (inc_strike && leb max_strikes (count_strike url inc_strike k).0)) [
                | inl e ↦ rw e (Buried-hset v.buried url reason until plain d.early)
                | inr e ↦
                    rw e
                      (elim (Option-cases (
                        get_elem? (until ∷ backoff)
                          (clamp (r.hincrby k.attempts url 1).0 (length backoff)))) [
                            | inl f ↦ rw (f, delay_job) v.buried
                            | inr (delay, f) ↦ rw (f, delay_job) v.buried
                          ])
              ]);
    }
