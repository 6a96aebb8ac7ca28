-- ===== src/Adapters/Directory/Healthy.antt =====
-- A directory in which nothing fails, and the bindings that the directory source takes.
use xconf.Prelude.{
  ℕ, ◌+◌, ◌-◌, ◌^◌, ◌≤◌, ◌<◌, ◌≡◌, ◌≢◌, refl, inl, inr, true, false, Option, none, some, [], ◌∷◌,
  length, leb, arith, All, Bool-cases, if◌then◌else◌,
}
use xconf.Text.{Str, str_eq}
use xconf.Text.Laws.{str_eq_iff}
use xconf.Text.Dict.{Dict}
use xconf.Pointer.{FieldPath}
use xconf.Error.{ok, err, ◌>>=◌, too_large}
use xconf.Document.Laws.{read_lem}
use xconf.Merge.Edits.Apart.{IsApart}
use xconf.Adapters.Assign.Selected.{IsDisjoint}
use xconf.Adapters.Numbers.{positive, spend}
use xconf.Adapters.Directory.{
  absent, found, Probe, agree, agree_any, overlapping, at_least_one, read_opened, read_file,
  of_open,
}

-- A directory as its file names with their contents, each file regular and nothing failing.
abbrev pub probe_of : Option Str → Probe
probe_of none = record { living = none; stat = absent; opened = absent }
probe_of (some all) = record {
  living = none;
  stat = found true;
  opened = found (record {
    regular = ok true;
    before = none;
    after = none;
    stream = record { content = all; failure = none };
  });
}

abbrev pub healthy : (Str → Option Str) → Str → Probe
healthy tree filename = probe_of (tree filename)

at_least_one_lem :
    (n : ℕ)
    → n < 2 ^ 63 - 1
    → (0 < at_least_one n) × (at_least_one n < 2 ^ 63 - 1) × (n ≤ at_least_one n)
at_least_one_lem n small = (ground arith, ground arith, ground arith)

pub read_file-probe_of :
    (all : Str) (remaining : ℕ)
    → remaining < 2 ^ 63 - 1
    → read_file (probe_of (some all)) remaining
      ≡ (if leb (length all) (at_least_one remaining) then ok (some all) else err too_large)
unfolding read_file of_open read_opened
read_file-probe_of all remaining small =
    let (positive, low, above) = at_least_one_lem remaining small in
    rw (read_lem (record { content = all; failure = none }) (at_least_one remaining) positive low)
      (elim (leb (length all) (at_least_one remaining))
        as (λ x.
          ((if x then ok all else err too_large) >>= λ o. ok (some o))
          ≡ (if x then ok (some all) else err too_large)) [ true ↦ refl | false ↦ refl ])

IsApart-agree : (p q : FieldPath) → agree p q ≡ false → IsApart p q
unfolding agree
IsApart-agree [] q h = cc
IsApart-agree (k ∷ p) [] h = cc
IsApart-agree (k ∷ p) (j ∷ q) h = elim (Bool-cases (str_eq k j)) [
  | inl e ↦ inr ((str_eq_iff k j).0 e, IsApart-agree p q (rw e at h))
  | inr e ↦ inl (λ d. cc ((str_eq_iff k j).1 d, e))
]

IsApart-agree_any :
    (p : FieldPath) (bs : Dict FieldPath) → agree_any p bs ≡ false → All (λ b. IsApart p b.1) bs
unfolding agree_any
IsApart-agree_any p [] h = tt
IsApart-agree_any p ((b, q) ∷ bs) h = elim (Bool-cases (agree p q)) [
  | inl e ↦ cc (rw e at h)
  | inr e ↦ (IsApart-agree p q e, IsApart-agree_any p bs (rw e at h))
]

-- The two tests of the source leave only bindings that do not overlap.
pub overlapping-IsDisjoint :
    (bs : Dict FieldPath) → All (λ b. b.1 ≢ []) bs → overlapping bs ≡ false → IsDisjoint bs
unfolding overlapping
overlapping-IsDisjoint [] n h = tt
overlapping-IsDisjoint ((b, p) ∷ bs) n h = elim (Bool-cases (agree_any p bs)) [
  | inl e ↦ cc (rw e at h)
  | inr e ↦ (n.0, IsApart-agree_any p bs e, overlapping-IsDisjoint bs n.1 (rw e at h))
]

-- The bytes of the bound files that are there.
abbrev pub total : (Str → Option Str) → Dict FieldPath → ℕ
total tree [] = 0
total tree ((name, p) ∷ bs) = elim (tree name) [
  | none ↦ total tree bs
  | some all ↦ length all + total tree bs
]

pub total-some :
    (tree : Str → Option Str) (name : Str) (p : FieldPath) (bs : Dict FieldPath) (all : Str)
    → tree name ≡ some all
    → total tree ((name, p) ∷ bs) ≡ length all + total tree bs
total-some tree name p bs all e = rw (e, total) refl

pub total-none :
    (tree : Str → Option Str) (name : Str) (p : FieldPath) (bs : Dict FieldPath)
    → tree name ≡ none
    → total tree ((name, p) ∷ bs) ≡ total tree bs
total-none tree name p bs e = rw (e, total) refl

pub spend-fits :
    (remaining size : ℕ) → size ≤ remaining → spend remaining size ≡ some (remaining - size)
spend-fits remaining size fits = ground arith
