-- ===== src/Adapters/Directory/Laws.antt =====
-- What the attempts of the directory source give, and what it reads of a directory.
use xconf.Prelude.{
  ℕ, zero, suc, ◌+◌, ◌≤◌, ◌<◌, ◌≡◌, sym, ap, ◌∙◌, inl, inr, Bool, true, false, some, arith,
  Bool-cases, Option-cases, [], if◌then◌else◌,
}
use xconf.Text.{Str, str_eq}
use xconf.Text.Laws.{str_eq_iff}
use xconf.Error.{ok, Result-cases}
use xconf.Layer.{Layer}
use xconf.Adapters.Numbers.{positive}
use xconf.Adapters.Directory.{
  Found, absent, failed, found, Attempt, Source, Library, read_base, generation, pinned, of_stat,
  attempt, attempts, read,
}

module _ (lib : Library) (s : Source) where
  -- The generation was the same before the reading and after it, and the reading was below it.
  abbrev pub IsPinned : Attempt → Layer → Type 0
  IsPinned a l =
      (gen : Str) × (generation lib a.link ≡ ok gen)
      × (generation lib a.link_after ≡ ok gen)
      × (read_base lib s a (if str_eq gen [] then s.dir else lib.join s.dir gen) ≡ ok l)

  pinned-IsPinned :
      (a : Attempt) (gen : Str) (l : Layer)
      → generation lib a.link ≡ ok gen
      → pinned lib s a gen ≡ some (ok l)
      → IsPinned a l
  unfolding pinned
  pinned-IsPinned a gen l g h = elim (Result-cases (generation lib a.link_after)) [
    | inr (e, d) ↦ cc (rw (d, pinned) at h)
    | inl (later, d) ↦ elim (Bool-cases (str_eq gen later)) [
      | inl same ↦
          (gen, g, d ∙ ap ok (sym ((str_eq_iff gen later).0 same)), cc (rw (d, same, pinned) at h))
      | inr other ↦ cc (rw (d, other, pinned) at h)
    ]
  ]

  of_stat-IsPinned :
      (a : Attempt) (l : Layer) (st : Found Bool) → of_stat lib s a st ≡ some (ok l) → IsPinned a l
  unfolding of_stat
  of_stat-IsPinned a l absent h = cc
  of_stat-IsPinned a l (failed e) h = cc
  of_stat-IsPinned a l (found false) h = cc
  of_stat-IsPinned a l (found true) h = elim (Result-cases (generation lib a.link)) [
    | inr (e, d) ↦ cc (rw (d, of_stat) at h)
    | inl (gen, d) ↦ pinned-IsPinned a gen l d (rw (d, of_stat) at h)
  ]

  attempt-IsPinned : (a : Attempt) (l : Layer) → attempt lib s a ≡ some (ok l) → IsPinned a l
  unfolding attempt
  attempt-IsPinned a l h = elim (Option-cases a.living) [
    | inr (e, d) ↦ cc (rw (d, attempt) at h)
    | inl d ↦ of_stat-IsPinned a l a.stat (rw (d, attempt) at h)
  ]

  attempts-IsPinned :
      (a : ℕ → Attempt) (n k : ℕ) (l : Layer)
      → attempts lib s a n k ≡ ok l
      → (j : ℕ) × (k ≤ j) × (j < k + n) × IsPinned (a j) l
  unfolding attempts
  attempts-IsPinned a zero k l h = cc
  attempts-IsPinned a (suc n) k l h = elim (Option-cases (attempt lib s (a k))) [
    | inr (r, d) ↦ (
      k,
      omega arith,
      omega arith,
      attempt-IsPinned (a k) l (d ∙ ap some (rw (d, attempts) at h)),
    )
    | inl d ↦
        let (j, lo, hi, p) = attempts-IsPinned a n (suc k) l (rw (d, attempts) at h) in
        (j, omega (arith, lo), omega (arith, hi), p)
  ]

  -- A layer comes only from one of four attempts, in which the directory had the same generation before the
  -- reading and after it, and it is what was read below that generation, or below the directory itself
  -- where it has no generations.
  pub read-IsPinned :
      (a : ℕ → Attempt) (l : Layer) → read lib s a ≡ ok l → (j : ℕ) × (j < 4) × IsPinned (a j) l
  unfolding read
  read-IsPinned a l h = elim (Bool-cases (positive s.limit)) [
    | inl d ↦ let (j, lo, hi, p) = attempts-IsPinned a 4 0 l (rw (d, read) at h) in (j, hi, p)
    | inr d ↦ cc (rw (d, read) at h)
  ]
