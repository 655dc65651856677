-- ===== src/System/Admitting.antt =====
-- What enqueueChildren of internal/crawler/worker.go does with every link of a page, where it succeeds.
use lost_media_finder.Prelude.{
  ℕ, suc, ◌≡◌, ◌≢◌, inl, inr, refl, ap, subst, true, false, List, [], ◌∷◌, Bool-cases,
}
use lost_media_finder.Text.{Text}
use lost_media_finder.Text.Search.{contains_text}
use lost_media_finder.Redis.{Redis}
use lost_media_finder.Frontier.Types.{AdmitResult, suppressed, new, due_revisit, Result-cases, ok}
use lost_media_finder.Frontier.Keyspace.{Keyspace}
use lost_media_finder.Frontier.Methods.{admit_video, admit_listing}
use lost_media_finder.Crawler.Config.{Config}
use lost_media_finder.Crawler.Canonical.{canonicalize}
use lost_media_finder.Crawler.Moments.{Moments, later}
use lost_media_finder.Crawler.Worker.{
  built, admit_canonical, admit_url, count_new, enqueue_children,
}

-- A result adds one to the number of new children where it is New.
pub data Counts (a : AdmitResult) (n n' : ℕ) : Type 0 where
  counts_new : a ≡ new → n' ≡ suc n → Counts a n n'
  counts_old : a ≢ new → n' ≡ n → Counts a n n'

count_new-Counts : (a : AdmitResult) (n : ℕ) → Counts a n (count_new a n)
count_new-Counts new n = counts_new refl refl
count_new-Counts suppressed n = counts_old (λ h. cc) refl
count_new-Counts due_revisit n = counts_old (λ h. cc) refl

with_first : {A B : Type 0} (p : A × B) (a : A) → p.0 ≡ a → p ≡ (a, p.1)
with_first p a h = ap (λ x. (x, p.1)) h

module _ {r : Redis} (c : Config) (seeds : List Text) where
  -- The frontier's call for a canonical URL succeeds with the result and leaves the state: AdmitVideo
  -- where the URL holds the video pattern, AdmitListing where not, and none for the empty URL.
  pub data Takes (now : ℕ) (url : Text) (k : Keyspace r) (a : AdmitResult) (k' : Keyspace r)
      : Type 0 where
    takes_nothing : url ≡ [] → a ≡ suppressed → k' ≡ k → Takes now url k a k'
    takes_video :
        url ≢ []
        → contains_text url c.video_pattern ≡ true
        → admit_video (built c seeds) now url k ≡ (ok a, k')
        → Takes now url k a k'
    takes_listing :
        url ≢ []
        → contains_text url c.video_pattern ≡ false
        → admit_listing (built c seeds) now url k ≡ (ok a, k')
        → Takes now url k a k'

  admit_canonical-Takes :
      (now : ℕ) (url : Text) (k : Keyspace r) (a : AdmitResult)
      → (admit_canonical c seeds now url k).0 ≡ ok a
      → Takes now url k a (admit_canonical c seeds now url k).1
  admit_canonical-Takes now [] k a h = takes_nothing refl (cc h) refl
  admit_canonical-Takes now (x ∷ url) k a h =
      elim (Bool-cases (contains_text (x ∷ url) c.video_pattern)) [
        | inl v ↦
            takes_video (λ e. absurd (cc e)) v
              (rw v (with_first (admit_video (built c seeds) now (x ∷ url) k) (ok a) (rw v at h)))
        | inr v ↦
            takes_listing (λ e. absurd (cc e)) v
              (rw v (with_first (admit_listing (built c seeds) now (x ∷ url) k) (ok a) (rw v at h)))
      ]

  -- Every link, in its canonical form and in the order of the page, is taken by a successful call,
  -- before which the other goroutines may have changed the state; the numbers are those of the new
  -- children before and after.
  pub data Admitted : Moments r → List Text → ℕ → Keyspace r → ℕ → Keyspace r → Type 0 where
    none_left : {s : Moments r} {n : ℕ} {k : Keyspace r} → Admitted s [] n k n k
    admits :
        {s : Moments r} {raw : Text} {links : List Text} {n n₁ n₂ : ℕ} {k k₁ k₂ : Keyspace r}
        (a : AdmitResult)
        → Takes (s.clock 0) (canonicalize c raw) (s.others 0 k) a k₁
        → Counts a n n₁
        → Admitted (later s) links n₁ k₁ n₂ k₂
        → Admitted s (raw ∷ links) n k n₂ k₂

  pub enqueue_children-Admitted :
      (s : Moments r) (links : List Text) (n : ℕ) (k : Keyspace r) (n' : ℕ)
      → (enqueue_children c seeds s links n k).0 ≡ ok n'
      → Admitted s links n k n' (enqueue_children c seeds s links n k).1
  unfolding enqueue_children admit_url
  enqueue_children-Admitted s [] n k n' h =
      let same : n ≡ n' = cc h in subst (λ x. Admitted s [] n k x k) same none_left
  enqueue_children-Admitted s (raw ∷ links) n k n' h =
      elim (Result-cases (admit_url c seeds (s.clock 0) raw (s.others 0 k)).0) [
        | inl (a, f) ↦
            rw (f, enqueue_children)
              (admits a (admit_canonical-Takes (s.clock 0) (canonicalize c raw) (s.others 0 k) a f)
                (count_new-Counts a n)
                (enqueue_children-Admitted (later s) links (count_new a n)
                  (admit_url c seeds (s.clock 0) raw (s.others 0 k)).1 n'
                  (rw (f, enqueue_children) at h)))
        | inr (x, f) ↦ absurd (cc (rw (f, enqueue_children) at h))
      ]
