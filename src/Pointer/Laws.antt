-- ===== src/Pointer/Laws.antt =====
-- JSON pointers as names of paths, and the prefix test of `merger.invalidate`.
use mathlib.Core.List.{map-append}
use xconf.Prelude.{
  ℕ, ◌≡◌, refl, ap, ◌∙◌, ◌↔◌, ◌≢◌, true, some, List, [], ◌∷◌, ◌++◌, map, arith, append-nil,
  append_assoc,
}
use xconf.Text.{Str, has_prefix}
use xconf.Text.Laws.{has_prefix-append, has_prefix-split}
use xconf.Pointer.{
  FieldPath, replace_byte, replace_pair, tilde, slash, escape, unescape, pointer, split_parts,
  split, parse_pointer,
}

replace_pair_other :
    (a b c : ℕ) (new s : Str) → c ≢ a → replace_pair a b new (c ∷ s) ≡ c ∷ replace_pair a b new s
unfolding replace_pair
replace_pair_other a b c new [] h = refl
replace_pair_other a b c new (d ∷ s) h = ground arith

-- The first pass of `unescape` undoes the second pass of `escape`.
first_pass :
    (s : Str)
    → replace_pair tilde b'1' (slash ∷ []) (escape s) ≡ replace_byte tilde (tilde ∷ b'0' ∷ []) s
unfolding escape replace_pair
first_pass [] = refl
first_pass (c ∷ s) = ground (
  arith,
  first_pass s,
  replace_pair_other tilde b'1' b'0' (slash ∷ []) (escape s),
  replace_pair_other tilde b'1' c (slash ∷ []) (escape s),
)

second_pass :
    (s : Str) → replace_pair tilde b'0' (tilde ∷ []) (replace_byte tilde (tilde ∷ b'0' ∷ []) s) ≡ s
unfolding replace_byte replace_pair
second_pass [] = refl
second_pass (c ∷ s) = ground (
  arith,
  second_pass s,
  replace_pair_other tilde b'0' c (tilde ∷ []) (replace_byte tilde (tilde ∷ b'0' ∷ []) s),
)

pub unescape-escape : (s : Str) → unescape (escape s) ≡ s
unfolding unescape
unescape-escape s = rw first_pass (second_pass s)

-- An escaped segment holds no separator.
split_parts-escape :
    (s t : Str)
    → split_parts slash (escape s ++ t)
      ≡ (escape s ++ (split_parts slash t).0, (split_parts slash t).1)
unfolding split_parts escape
split_parts-escape [] t = refl
split_parts-escape (c ∷ s) t = ground (arith, split_parts-escape s t)

split_parts-pointer : (p : FieldPath) → split_parts slash (pointer p) ≡ ([], map escape p)
unfolding split_parts pointer
split_parts-pointer [] = refl
split_parts-pointer (s ∷ p) =
    rw (split_parts-escape s (pointer p), split_parts-pointer p, append-nil)

split_parts-append :
    (sep : ℕ) (s t : Str)
    → split_parts sep (s ++ sep ∷ t) ≡ ((split_parts sep s).0, (split_parts sep s).1 ++ split sep t)
unfolding split_parts split
split_parts-append sep [] t = ground arith
split_parts-append sep (c ∷ s) t = ground (arith, split_parts-append sep s t)

pub map-unescape-escape : (p : FieldPath) → map unescape (map escape p) ≡ p
map-unescape-escape [] = refl
map-unescape-escape (s ∷ p) = cc (unescape-escape s, map-unescape-escape p)

-- Reading the pointer of a path gives the path back, whatever bytes its segments hold.
pub parse_pointer-pointer : (p : FieldPath) → parse_pointer (pointer p) ≡ some p
unfolding parse_pointer pointer
parse_pointer-pointer [] = refl
parse_pointer-pointer (s ∷ p) =
    rw (split_parts-escape s (pointer p), split_parts-pointer p, append-nil)
      (ap some (map-unescape-escape (s ∷ p)))

pub pointer_inj : (p q : FieldPath) → pointer p ≡ pointer q → p ≡ q
pointer_inj p q h = cc (parse_pointer-pointer p, parse_pointer-pointer q, ap parse_pointer h)

pub pointer-append : (p q : FieldPath) → pointer (p ++ q) ≡ pointer p ++ pointer q
unfolding pointer
pointer-append [] q = refl
pointer-append (s ∷ p) q = simp (pointer-append p q, append_assoc)

-- `q` lies strictly below `p`.
abbrev pub IsBelow : FieldPath → FieldPath → Type 0
IsBelow p q = (k : Str) × (r : FieldPath) × (q ≡ p ++ k ∷ r)

descends-IsBelow :
    (p q : FieldPath) (rest : Str) → pointer q ≡ (pointer p ++ slash ∷ []) ++ rest → IsBelow p q
unfolding split
descends-IsBelow p q rest e = (unescape parts.0, map unescape parts.1, whole)
  where
    parts : Str × List Str
    parts = split_parts slash rest

    escaped : map escape q ≡ map escape p ++ parts.0 ∷ parts.1
    escaped = cc (
      split_parts-pointer q,
      split_parts-pointer p,
      ap (split_parts slash) (e ∙ append_assoc (pointer p) (slash ∷ []) rest),
      split_parts-append slash (pointer p) rest,
    )

    whole : q ≡ p ++ unescape parts.0 ∷ map unescape parts.1
    whole = cc (
      map-unescape-escape q,
      map-unescape-escape p,
      ap (map unescape) escaped,
      map-append unescape (map escape p) (parts.0 ∷ parts.1),
    )

-- The prefix test of `invalidate` holds of the strict descendants of a path, and of no other path.
pub has_prefix-pointer_iff :
    (p q : FieldPath) → (has_prefix (pointer q) (pointer p ++ slash ∷ []) ≡ true) ↔ IsBelow p q
unfolding pointer
has_prefix-pointer_iff p q = (below, starts)
  where
    below : has_prefix (pointer q) (pointer p ++ slash ∷ []) ≡ true → IsBelow p q
    below h =
        let (rest, e) = has_prefix-split (pointer q) (pointer p ++ slash ∷ []) h in
        descends-IsBelow p q rest e

    starts : IsBelow p q → has_prefix (pointer q) (pointer p ++ slash ∷ []) ≡ true
    starts (k, r, e) =
        rw
          (
            e,
            pointer-append p (k ∷ r),
            pointer,
            ← append_assoc (pointer p) (slash ∷ []) (escape k ++ pointer r),
          )
          (has_prefix-append (pointer p ++ slash ∷ []) (escape k ++ pointer r))
