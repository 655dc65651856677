-- ===== src/Scheduler/Monitor.antt =====
-- runBloomMonitor of internal/scheduler/scheduler.go.
use lost_media_finder.Prelude.{
  ℕ, zero, suc, ◌+◌, ◌≡◌, ◌≤◌, ◌<◌, refl, Bool, true, false, Option, none, some, List, [], ◌∷◌,
  arith, drop, get_elem?, ◌==◌, ap, ◌∙◌, if◌then◌else◌, Bool-cases, inl, inr,
}
use lost_media_finder.Redis.{Redis}
use lost_media_finder.Bloom.{
  done, failed, Floats, BloomServer, BloomError, bloom_verify, bloom_fill_ratio,
}

abbrev pub bloom_fill_alerts : (x : Floats) → List x.Float
bloom_fill_alerts x = x.decimal 80 2 ∷ x.decimal 90 2 ∷ x.decimal 95 2 ∷ []

-- The number of alerts that were logged, the gauge, the errors counted, and whether stopFn was called.
pub record Monitor (x : Floats) : Type 0 where
  pub warned : ℕ
  pub fill_ratio : x.Float
  pub reconcile_errors : ℕ
  pub stopped : Bool

module _ (x : Floats) where
  -- The loop over the alerts from number `warned` on.
  abbrev pub warn_over : x.Float → List x.Float → ℕ → ℕ
  warn_over ratio [] warned = warned
  warn_over ratio (alert ∷ alerts) warned =
      if x.le alert ratio then warn_over ratio alerts (suc warned) else warned

  unfoldable pub bloom_monitor_tick : {r : Redis} → BloomServer r → r.Bloom → Monitor x → Monitor x
  unfolding bloom_verify bloom_fill_ratio
  bloom_monitor_tick v b s = elim (bloom_verify x v b) [
    | some e ↦ record s { stopped = true }
    | none ↦ elim (bloom_fill_ratio x v b) [
      | failed e ↦ record s { reconcile_errors = suc s.reconcile_errors }
      | done ratio ↦ record s {
        fill_ratio = ratio;
        warned = warn_over ratio (drop s.warned (bloom_fill_alerts x)) s.warned;
      }
    ]
  ]

  -- The alerts from number `before` up to number `after` are reached, and the next one is not.
  abbrev pub Logs : x.Float → List x.Float → ℕ → ℕ → Type 0
  Logs ratio alerts before after =
      (before ≤ after)
      × ((i : ℕ) (alert : x.Float)
          → before ≤ i
          → i < after
          → get_elem? alerts i ≡ some alert
          → x.le alert ratio ≡ true)
      × ((alert : x.Float) → get_elem? alerts after ≡ some alert → x.le alert ratio ≡ false)

  found-le :
      (ratio : x.Float) (a b : x.Float) (o : Option x.Float)
      → o ≡ some a
      → o ≡ some b
      → x.le a ratio ≡ x.le b ratio
  found-le ratio a b o h k = let same : a ≡ b = cc (h, k) in ap (λ c. x.le c ratio) same

  warn_over-Logs :
      (ratio : x.Float) (alerts rest : List x.Float) (warned : ℕ)
      → ((i j : ℕ) → warned + i ≡ j → get_elem? alerts j ≡ get_elem? rest i)
      → Logs ratio alerts warned (warn_over ratio rest warned)
  warn_over-Logs ratio alerts [] warned at = (
    omega arith,
    λ i alert lo hi e. absurd (omega arith),
    λ alert e. absurd (cc (at 0 warned (omega arith), e)),
  )
  warn_over-Logs ratio alerts (alert ∷ rest) warned at = elim (Bool-cases (x.le alert ratio)) [
    | inr e ↦ rw e (
      omega arith,
      λ i a lo hi f. absurd (omega arith),
      λ a f. found-le ratio a alert (get_elem? alerts warned) f (at 0 warned (omega arith)) ∙ e,
    )
    | inl e ↦
        let (up, reached, next) =
          warn_over-Logs ratio alerts rest (suc warned) (λ i j h. at (suc i) j (omega arith)) in
        rw e (
          omega (arith, up),
          λ i a lo hi f. elim (Bool-cases (i == warned)) [
            | inl same ↦ found-le ratio a alert (get_elem? alerts i) f (at 0 i (ground arith)) ∙ e
            | inr other ↦ reached i a (ground arith) hi f
          ],
          next,
        )
  ]

  drop-get_elem? :
      (l : List x.Float) (n i j : ℕ) → n + i ≡ j → get_elem? l j ≡ get_elem? (drop n l) i
  drop-get_elem? l zero i j h = let same : j ≡ i = omega arith in ap (get_elem? l) same
  drop-get_elem? [] (suc n) i j h = refl
  drop-get_elem? (a ∷ l) (suc n) i zero h = absurd (omega arith)
  drop-get_elem? (a ∷ l) (suc n) i (suc j) h = drop-get_elem? l n i j (omega arith)

  -- A tick of the monitor that finds the filter's shape right and measures its fill ratio stores the
  -- ratio and logs, from the first alert that was not logged yet, exactly those up to the first that
  -- the ratio does not reach; it takes no alert back, and does not stop the crawl.
  pub bloom_monitor_tick-Logs :
      {r : Redis} (v : BloomServer r) (b : r.Bloom) (s : Monitor x) (ratio : x.Float)
      → bloom_verify x v b ≡ none
      → bloom_fill_ratio x v b ≡ done ratio
      → Logs ratio (bloom_fill_alerts x) s.warned (bloom_monitor_tick v b s).warned
        × ((bloom_monitor_tick v b s).fill_ratio ≡ ratio)
        × ((bloom_monitor_tick v b s).stopped ≡ s.stopped)
  unfolding bloom_monitor_tick
  bloom_monitor_tick-Logs v b s ratio good measured =
      rw (good, measured, bloom_monitor_tick)
        (
          warn_over-Logs ratio (bloom_fill_alerts x) (drop s.warned (bloom_fill_alerts x)) s.warned
              (drop-get_elem? (bloom_fill_alerts x) s.warned),
          refl,
          refl,
        )

  -- A tick that finds another shape, or cannot read it, stops the crawl and changes nothing else.
  pub bloom_monitor_tick-stops :
      {r : Redis} (v : BloomServer r) (b : r.Bloom) (s : Monitor x) (e : BloomError)
      → bloom_verify x v b ≡ some e
      → bloom_monitor_tick v b s ≡ record s { stopped = true }
  unfolding bloom_monitor_tick
  bloom_monitor_tick-stops v b s e bad = rw (bad, bloom_monitor_tick) refl
