-- ===== src/System/Leasing.antt =====
-- What Lease hands to a worker in every reachable state.
use lost_media_finder.Prelude.{
  ℕ, ◌+◌, ◌/◌, ◌≤◌, ◌<◌, ◌≡◌, refl, sym, ap, ◌∙◌, subst, Option, none, some, List, [], ◌∷◌, ◌++◌,
  arith, is_some, count_if-append, Bool-cases, inl, inr,
}
use lost_media_finder.Text.{Text, eq_text, eq_text_refl}
use lost_media_finder.Text.Decimal.{print}
use lost_media_finder.Text.Members.{occurrences}
use lost_media_finder.Redis.{Redis}
use lost_media_finder.Redis.Laws.{lmove_cases}
use lost_media_finder.Frontier.Types.{Job, Result, ok, err, second}
use lost_media_finder.Frontier.Member.{member, split_member, split_member-member}
use lost_media_finder.Frontier.Keyspace.{Keyspace}
use lost_media_finder.Frontier.Scripts.Admit.{lua_lease}
use lost_media_finder.Frontier.Methods.{Frontier, unix, class_of, lease}
use lost_media_finder.Frontier.Sound.Defs.{Issued, live, IsSound}
use lost_media_finder.System.Defs.{Setup, frontier, Reach, IsJob}
use lost_media_finder.System.Jobs.{IsEmpty, reached}

-- The job that Lease makes of a member.
abbrev job_of : Frontier → Text → Job
job_of f m = record {
  id = (split_member m).0;
  url = (split_member m).1;
  class = class_of f.classify (split_member m).1;
  member = m;
}

-- A member that was issued makes a proper job.
job_of-IsJob : (s : Setup) (n : ℕ) (m : Text) → Issued n m → IsJob s (job_of (frontier s) m)
job_of-IsJob s n m i = record {
  number = i.id;
  id_of = ap (λ (p : Text × Text). p.0) splits;
  member_of = i.made ∙ ap (member i.id) (sym (ap (λ (p : Text × Text). p.1) splits));
  class_of_url = refl;
}
  where
    splits : split_member m ≡ (print i.id, i.url)
    splits = ap split_member i.made ∙ split_member-member i.id i.url

module _ {r : Redis} where
  -- A ready member is not leased.
  ready-unleased :
      (k : Keyspace r) (init : List Text) (item : Text)
      → IsSound k
      → k.ready ≡ init ++ item ∷ []
      → (0 < live r (eq_text item) k.ready k.processing k.delayed) × (r.zscore k.lease item ≡ none)
  ready-unleased k init item t split = elim (Bool-cases (is_some (r.zscore k.lease item))) [
    | inl h ↦ absurd (omega (arith, occurs, t.unique item, t.held item h))
    | inr h ↦ (omega (arith, occurs), ground arith)
  ]
    where
      occurs : 1 ≤ occurrences item k.ready
      occurs =
          rw split
            (ground (arith, count_if-append (eq_text item) init (item ∷ []), eq_text_refl item))

  lease-of_ready :
      (f : Frontier) (now : ℕ) (k : Keyspace r) (item : Text) (init : List Text)
      → r.lmove k.ready k.processing ≡ some (item, init, item ∷ k.processing)
      → lease f now k ≡ (
        ok (some (job_of f item)),
        record k {
          ready = init;
          processing = item ∷ k.processing;
          lease = r.zadd k.lease (unix now + f.cfg.lease_timeout / second) item;
        },
      )
  unfolding lease lua_lease
  lease-of_ready f now k item init e = rw (e, lua_lease)

  lease-of_empty :
      (f : Frontier) (now : ℕ) (k : Keyspace r)
      → r.lmove k.ready k.processing ≡ none
      → lease f now k ≡ (ok none, k)
  unfolding lease lua_lease
  lease-of_empty f now k e = rw (e, lua_lease)

-- A statement about the job and the state, where a job is returned.
abbrev Returns :
    {r : Redis} → (Job → Keyspace r → Type 0) → Result (Option Job) × Keyspace r → Type 0
Returns P (ok (some j), k) = P j k
Returns P (ok none, k) = Unit
Returns P (err x, k) = Unit

module _ {r : Redis} {start k k' : Keyspace r} (e : IsEmpty r start) (s : Setup)
    (reach : Reach s start k) where
  pub leased_job :
      (now : ℕ) (j : Job)
      → lease (frontier s) now k ≡ (ok (some j), k')
      → (r.zscore k.lease j.member ≡ none)
        × (r.zscore k'.lease j.member ≡ some (unix now + s.cfg.lease_timeout / second))
        × IsJob s j
  leased_job now j h = elim (lmove_cases r k.ready k.processing) [
    | inl (_, nothing) ↦ cc (lease-of_empty (frontier s) now k nothing)
    | inr (item, init, split, got) ↦
        let free = ready-unleased k init item (reached e s reach).sound split in
        subst
          (Returns λ x after.
            (r.zscore k.lease x.member ≡ none)
            × (r.zscore after.lease x.member ≡ some (unix now + s.cfg.lease_timeout / second))
            × IsJob s x)
          (sym (lease-of_ready (frontier s) now k item init got) ∙ h)
          (
            free.1,
            ground (
              arith,
              r.zscore-zadd k.lease (unix now + s.cfg.lease_timeout / second) item item,
              eq_text_refl item,
            ),
            job_of-IsJob s k.job_seq item ((reached e s reach).sound.issued item free.0),
          )
  ]
