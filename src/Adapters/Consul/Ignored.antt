-- ===== src/Adapters/Consul/Ignored.antt =====
-- The loop of `ignored` in contrib/sources/consul/consul.go ends: the number of turns that the model
-- gives is enough.
use xconf.Prelude.{
  ℕ, zero, suc, ◌<◌, ◌≡◌, refl, ap, inl, inr, ◌||◌, some, [], ◌∷◌, ◌==◌, length, arith, List,
  Option-cases, Bool-cases,
}
use xconf.Text.{Str}
use xconf.Adapters.Consul.{Match, any_match, before_last, ignored_loop}

before_last-length : (key parent : Str) → before_last key ≡ some parent → length parent < length key
unfolding before_last
before_last-length [] parent h = cc
before_last-length (c ∷ s) parent h = elim (Option-cases (before_last s)) [
  | inr (r, e) ↦
      let same : c ∷ r ≡ parent = cc (rw (e, before_last) at h) in
      omega (arith, before_last-length s r e, ap length same)
  | inl e ↦ elim (Bool-cases (c == b'/')) [
    | inl d ↦
        let same : [] ≡ parent = cc (rw (e, d, before_last) at h) in omega (arith, ap length same)
    | inr d ↦ cc (rw (e, d, before_last) at h)
  ]
]

not_below : (n : ℕ) → ¬ (n < 0)
not_below n h = omega (arith, h)

-- As soon as there are more turns than the key has bytes, one more changes nothing.
pub ignored_loop-enough :
    (n : ℕ) (matches : Match) (ps : List Str) (key : Str)
    → length key < n
    → ignored_loop (suc n) matches ps key ≡ ignored_loop n matches ps key
unfolding ignored_loop
ignored_loop-enough zero matches ps key h = absurd (not_below (length key) h)
ignored_loop-enough (suc n) matches ps key h = elim (Option-cases (before_last key)) [
  | inl e ↦ rw (e, ignored_loop) refl
  | inr (parent, e) ↦
      rw (e, ignored_loop)
        (ap (λ b. any_match matches ps key || b)
          (ignored_loop-enough n matches ps parent
            (omega (arith, before_last-length key parent e, h))))
]
