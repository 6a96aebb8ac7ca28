-- ===== src/Filter/Paths.antt =====
-- The selection of some paths, and the part of it that is left at a path.
use Prim.Native.Nat.{Ordering}
use xconf.Prelude.{
  ◌≡◌, refl, sym, ap, ◌∙◌, Bool-cases, inl, inr, Bool, true, false, ◌||◌, ◌&&◌, Option, none, some,
  List, [], ◌∷◌, arith, if◌then◌else◌,
}
use xconf.Text.{Str, str_eq, str_compare}
use xconf.Text.Laws.{str_eq_iff, str_eq_refl, str_compare-eq_iff, StrLt, StrLt-trans, StrLt-flip}
use xconf.Pointer.{FieldPath}
use xconf.Filter.{Selection, node, Children, leaf, branch, all_of, children_of, nothing, get_child}

-- node.children[key] = s
unfoldable pub put_child : Str → Selection → Children → Children
put_child k s leaf = branch k s leaf
put_child k s (branch j t cs) =
    let later = branch j t (put_child k s cs) in
    elim (str_compare k j) [
      | Ordering.lt ↦ branch k s (branch j t cs)
      | Ordering.gt ↦ later
      | _ ↦ branch k s cs
    ]

abbrev or_nothing : Option Selection → Selection
or_nothing none = nothing
or_nothing (some s) = s

-- The inner loop of `AllowPaths`, for one path.
unfoldable pub add_path : FieldPath → Selection → Selection
unfolding put_child get_child
add_path [] s = node true (children_of s)
add_path (k ∷ p) s =
    node (all_of s)
      (put_child k (add_path p (or_nothing (get_child k (children_of s)))) (children_of s))

unfoldable pub add_paths : List FieldPath → Selection → Selection
unfolding add_path
add_paths [] s = s
add_paths (p ∷ ps) s = add_paths ps (add_path p s)

unfoldable pub allow_paths : List FieldPath → Selection
unfolding add_paths
allow_paths ps = add_paths ps nothing

-- at: the selection that remains at a path; one with `all` covers every descendant.
unfoldable pub at : FieldPath → Selection → Option Selection
unfolding get_child
at [] s = some s
at (k ∷ p) s =
    if all_of s
    then some s
    else elim (get_child k (children_of s)) [ none ↦ none | some c ↦ at p c ]

-- Whether a path lies in the selection.
abbrev pub covers : Selection → FieldPath → Bool
covers s p = elim (at p s) [ none ↦ false | some c ↦ all_of c ]

abbrev pub is_prefix : FieldPath → FieldPath → Bool
is_prefix [] q = true
is_prefix (k ∷ p) [] = false
is_prefix (k ∷ p) (j ∷ q) = str_eq k j && is_prefix p q

abbrev pub any_prefix : List FieldPath → FieldPath → Bool
any_prefix [] q = false
any_prefix (p ∷ ps) q = is_prefix p q || any_prefix ps q

-- The children stand in the order of their keys, each key once, at every depth.
abbrev pub After : Str → Children → Type 0
After k leaf = Unit
After k (branch j s cs) = StrLt k j × After k cs

abbrev mutual
  pub IsTrie : Selection → Type 0
  IsTrie (node all cs) = AllTries cs

  pub AllTries : Children → Type 0
  AllTries leaf = Unit
  AllTries (branch k s cs) = After k cs × IsTrie s × AllTries cs

After-trans : (j k : Str) (cs : Children) → StrLt j k → After k cs → After j cs
After-trans j k leaf h a = tt
After-trans j k (branch i s cs) h a = (StrLt-trans j k i h a.0, After-trans j k cs h a.1)

After-put_child :
    (j k : Str) (s : Selection) (cs : Children)
    → StrLt j k
    → After j cs
    → After j (put_child k s cs)
unfolding put_child
After-put_child j k s leaf h a = (h, tt)
After-put_child j k s (branch i t cs) h a = ground (arith, After-put_child j k s cs)

put_child-AllTries :
    (k : Str) (s : Selection) (cs : Children) → IsTrie s → AllTries cs → AllTries (put_child k s cs)
unfolding put_child
put_child-AllTries k s leaf t a = (tt, t, tt)
put_child-AllTries k s (branch i u cs) t a = ground (
  arith,
  put_child-AllTries k s cs,
  After-trans k i cs,
  str_compare-eq_iff k i,
  StrLt-flip k i,
  After-put_child i k s cs,
)

get_child-IsTrie : (k : Str) (cs : Children) → AllTries cs → IsTrie (or_nothing (get_child k cs))
unfolding get_child
get_child-IsTrie k leaf a = tt
get_child-IsTrie k (branch j s cs) a = elim (Bool-cases (str_eq j k)) [
  | inl hit ↦ rw (hit, get_child) a.1
  | inr away ↦ rw (away, get_child) (get_child-IsTrie k cs a.2)
]

add_path-IsTrie : (p : FieldPath) (s : Selection) → IsTrie s → IsTrie (add_path p s)
unfolding add_path
add_path-IsTrie [] (node all cs) t = t
add_path-IsTrie (k ∷ p) (node all cs) t =
    put_child-AllTries k _ cs
      (add_path-IsTrie p (or_nothing (get_child k cs)) (get_child-IsTrie k cs t)) t

add_paths-IsTrie : (ps : List FieldPath) (s : Selection) → IsTrie s → IsTrie (add_paths ps s)
unfolding add_paths
add_paths-IsTrie [] s t = t
add_paths-IsTrie (p ∷ ps) s t = add_paths-IsTrie ps (add_path p s) (add_path-IsTrie p s t)

pub allow_paths-IsTrie : (ps : List FieldPath) → IsTrie (allow_paths ps)
unfolding allow_paths
allow_paths-IsTrie ps = add_paths-IsTrie ps nothing tt

pub get_child-put_child :
    (j k : Str) (s : Selection) (cs : Children)
    → get_child j (put_child k s cs) ≡ (if str_eq k j then some s else get_child j cs)
unfolding get_child put_child
get_child-put_child j k s leaf = refl
get_child-put_child j k s (branch i t cs) =
    ground
      (arith, str_eq_iff k j, str_eq_iff i j, str_compare-eq_iff k i, get_child-put_child j k s cs)

covers-all : (cs : Children) (p : FieldPath) → covers (node true cs) p ≡ true
unfolding at
covers-all cs [] = refl
covers-all cs (k ∷ p) = refl

covers-nothing : (p : FieldPath) → covers nothing p ≡ false
unfolding at get_child
covers-nothing [] = refl
covers-nothing (k ∷ p) = refl

pub covers_step :
    (k : Str) (p : FieldPath) (cs : Children)
    → covers (node false cs) (k ∷ p) ≡ covers (or_nothing (get_child k cs)) p
unfolding at
covers_step k p cs = ground (arith, covers-nothing p)

covers-root : (all : Bool) (cs : Children) → covers (node all cs) [] ≡ all
unfolding at
covers-root all cs = refl

covers-add_path :
    (a : FieldPath) (s : Selection) (p : FieldPath)
    → covers (add_path a s) p ≡ (is_prefix a p || covers s p)
unfolding add_path
covers-add_path [] (node all cs) p = covers-all cs p
covers-add_path (k ∷ a) (node all cs) [] =
    covers-root all (put_child k (add_path a (or_nothing (get_child k cs))) cs)
    ∙ sym (covers-root all cs)
covers-add_path (k ∷ a) (node true cs) (j ∷ p) = ground (
  arith,
  covers-all cs (j ∷ p),
  covers-all (put_child k (add_path a (or_nothing (get_child k cs))) cs) (j ∷ p),
)
covers-add_path (k ∷ a) (node false cs) (j ∷ p) = elim (Bool-cases (str_eq k j)) [
  | inl hit ↦ rw ((str_eq_iff k j).0 hit) (
      covers_step j p (put_child j (add_path a (or_nothing (get_child j cs))) cs)
      ∙ rw (get_child-put_child, str_eq_refl)
          (covers-add_path a (or_nothing (get_child j cs)) p
            ∙ ap (λ (b : Bool). is_prefix a p || b) (sym (covers_step j p cs))))
  | inr away ↦
      covers_step j p (put_child k (add_path a (or_nothing (get_child k cs))) cs)
      ∙ rw (get_child-put_child, away) (sym (covers_step j p cs))
]

covers-add_paths :
    (ps : List FieldPath) (s : Selection) (q : FieldPath)
    → covers (add_paths ps s) q ≡ (any_prefix ps q || covers s q)
unfolding add_paths
covers-add_paths [] s q = refl
covers-add_paths (p ∷ ps) s q =
    covers-add_paths ps (add_path p s) q ∙ rw (covers-add_path p s q) (ground arith)

-- A path lies in the selection of `AllowPaths` exactly if one of the given paths is a prefix of it.
pub covers-allow_paths :
    (ps : List FieldPath) (q : FieldPath) → covers (allow_paths ps) q ≡ any_prefix ps q
unfolding allow_paths
covers-allow_paths ps q = covers-add_paths ps nothing q ∙ rw (covers-nothing q) (ground arith)
