-- ===== src/Frontier/Sound/Parts.antt =====
-- The invariant under each change that the scripts make to the member-keyed structures.
use lost_media_finder.Prelude.{
  ℕ, suc, ◌+◌, ◌<◌, ◌≡◌, refl, sym, ◌∙◌, false, List, [], ◌∷◌, ◌++◌, arith, is_some,
  count_if-append, bit, ltb, Bool-cases, inl, inr, subst, ltb→lt,
}
use lost_media_finder.Text.{Text, eq_text, eq_text_iff, eq_text_refl}
use lost_media_finder.Redis.{Redis}
use lost_media_finder.Redis.Laws.{count-lrem}
use lost_media_finder.Frontier.Member.{member, member-injective}
use lost_media_finder.Frontier.Sound.Defs.{Issued, live, Tracks}

Issued-suc : {n : ℕ} {m : Text} → Issued n m → Issued (suc n) m
Issued-suc i = record { id = i.id; url = i.url; bounded = omega (arith, i.bounded); made = i.made }

-- The next member is not among those that were minted.
next-not-Issued : (n : ℕ) (url m : Text) → m ≡ member (suc n) url → ¬ Issued n m
next-not-Issued n url m e i = omega (arith, i.bounded, (member-injective (sym i.made ∙ e)).0)

module _ {r : Redis} {seq : ℕ} {ready processing : List Text} {delayed lease : r.Zset}
    (t : Tracks r seq ready processing delayed lease) where
  fresh :
      (url m : Text) → m ≡ member (suc seq) url → live r (eq_text m) ready processing delayed ≡ 0
  fresh url m e = elim (Bool-cases (ltb 0 (live r (eq_text m) ready processing delayed))) [
    | inl some_live ↦ absurd (next-not-Issued seq url m e (t.issued m (ltb→lt _ _ some_live)))
    | inr none_live ↦ ground arith
  ]

  -- The next member has no score in delayed.
  pub next_free : (url : Text) → is_some (r.zscore delayed (member (r.incr seq) url)) ≡ false
  next_free url = rw (r.incr_lem seq) (
      ground (
        arith,
        fresh url (member (suc seq) url) refl,
        r.occurrences-zmembers delayed (member (suc seq) url),
      ))

  -- A member that occurs once the next one is minted is that one, or was minted before.
  Issued-next :
      (url m : Text)
      → 0 < bit (eq_text m (member (suc seq) url)) + live r (eq_text m) ready processing delayed
      → Issued (suc seq) m
  Issued-next url m h = elim (Bool-cases (eq_text m (member (suc seq) url))) [
    | inl same ↦ record {
      id = suc seq;
      url = url;
      bounded = omega arith;
      made = (eq_text_iff m (member (suc seq) url)).0 same;
    }
    | inr other ↦ Issued-suc (t.issued m (ground arith))
  ]

  -- Minting a job into ready.
  pub Tracks-push :
      (url : Text)
      → Tracks r (r.incr seq) (r.lpush ready (member (r.incr seq) url)) processing delayed lease
  Tracks-push url =
      rw (r.incr_lem seq, r.lpush_lem ready (member (suc seq) url))
        (record {
          unique =
              λ m. ground (arith, t.unique m, fresh url m, eq_text_iff m (member (suc seq) url));
          issued = λ m h. Issued-next url m (omega (arith, h));
          held = t.held;
        })

  -- Minting a job into delayed.
  pub Tracks-delay :
      (score : ℕ) (url : Text)
      → Tracks r
          (r.incr seq)
          ready
          processing
          (r.zadd delayed score (member (r.incr seq) url))
          lease
  Tracks-delay score url = rw (r.incr_lem seq) (record {
    unique = λ m. ground (
      arith,
      t.unique m,
      fresh url m,
      eq_text_iff m (member (suc seq) url),
      r.count-zadd (eq_text m) delayed score (member (suc seq) url),
    );
    issued = λ m h.
        Issued-next url m
          (ground (arith, r.count-zadd (eq_text m) delayed score (member (suc seq) url)));
    held = t.held;
  })

  -- Taking a job out of delayed.
  pub Tracks-undelay : (item : Text) → Tracks r seq ready processing (r.zrem delayed item).1 lease
  Tracks-undelay item = record {
    unique = λ m. omega (arith, t.unique m, r.count-zrem (eq_text m) delayed item);
    issued = λ m h. t.issued m (omega (arith, r.count-zrem (eq_text m) delayed item));
    held = t.held;
  }

  -- Ending a job's processing together with its lease.
  pub Tracks-finish :
      (item : Text) → Tracks r seq ready (r.lrem processing item) delayed (r.zrem lease item).1
  Tracks-finish item = record {
    unique = λ m. omega (arith, t.unique m, count-lrem r (eq_text m) processing item);
    issued = λ m h. t.issued m (omega (arith, count-lrem r (eq_text m) processing item));
    held = λ m h. ground (
      arith,
      r.zscore-zrem lease item m,
      eq_text_iff item m,
      eq_text_iff m item,
      t.held m,
      count-lrem r (eq_text m) processing item,
    );
  }

  -- Ending the processing of a job that has no lease.
  pub Tracks-orphan :
      (item : Text)
      → is_some (r.zscore lease item) ≡ false
      → Tracks r seq ready (r.lrem processing item) delayed lease
  Tracks-orphan item free =
      subst (λ z. Tracks r seq ready (r.lrem processing item) delayed z)
        (r.zrem_absent lease item (ground arith)) (Tracks-finish item)

  -- An identifier that no member takes.
  pub Tracks-skip : Tracks r (r.incr seq) ready processing delayed lease
  Tracks-skip =
      rw (r.incr_lem seq)
        (record { unique = t.unique; issued = λ m h. Issued-suc (t.issued m h); held = t.held })

  -- Taking a lease away.
  pub Tracks-unlease : (item : Text) → Tracks r seq ready processing delayed (r.zrem lease item).1
  Tracks-unlease item = record {
    unique = t.unique;
    issued = t.issued;
    held = λ m h. ground (arith, r.zscore-zrem lease item m, t.held m);
  }

module _ {r : Redis} {seq : ℕ} {init processing : List Text} {delayed lease : r.Zset} (item : Text)
    (t : Tracks r seq (init ++ item ∷ []) processing delayed lease) where
  -- Moving the last ready job to processing, under a lease.
  pub Tracks-lease :
      (expiry : ℕ) → Tracks r seq init (item ∷ processing) delayed (r.zadd lease expiry item)
  Tracks-lease expiry = record {
    unique = λ m. omega (arith, t.unique m, count_if-append (eq_text m) init (item ∷ []));
    issued = λ m h. t.issued m (omega (arith, count_if-append (eq_text m) init (item ∷ [])));
    held = λ m h.
        ground
          (arith, r.zscore-zadd lease expiry item m, eq_text_iff item m, eq_text_refl m, t.held m);
  }
