-- ===== src/Adapters/Flags/Laws.antt =====
-- Arguments that name bound flags are read back, in both of their forms.
use xconf.Prelude.{
  ◌≡◌, ◌∙◌, ◌≢◌, refl, true, false, none, some, List, [], ◌∷◌, ◌++◌, All, is_some, arith,
}
use xconf.Text.{Str, str, has_prefix}
use xconf.Text.Dict.{Dict, lookup, insert}
use xconf.Pointer.{FieldPath}
use xconf.Error.{ok}
use xconf.Adapters.Flags.{cut, drop_dashes, flag_of, parse}

-- A flag with its value, in one argument or in two.
pub data Given : Type 0 where
  joined : Str → Str → Given
  apart : Str → Str → Given

abbrev pub render : List Given → List Str
render [] = []
render (joined name v ∷ gs) = (str "--" ++ name ++ b'=' ∷ v) ∷ render gs
render (apart name v ∷ gs) = (str "--" ++ name) ∷ v ∷ render gs

abbrev pub name_of : Given → Str
name_of (joined name v) = name
name_of (apart name v) = name

abbrev pub value_of : Given → Str
value_of (joined name v) = v
value_of (apart name v) = v

-- A name holds no `=`, and a value in an argument of its own does not begin like a flag.
abbrev pub IsPlain : Given → Type 0
IsPlain (joined name v) = All (λ c. c ≢ b'=') name
IsPlain (apart name v) = All (λ c. c ≢ b'=') name × (has_prefix v (str "--") ≡ false)

abbrev pub insert_all : List Given → Dict Str → Dict Str
insert_all [] vars = vars
insert_all (g ∷ gs) vars = insert_all gs (insert (name_of g) (value_of g) vars)

cut-joined : (name v : Str) → All (λ c. c ≢ b'=') name → cut (name ++ b'=' ∷ v) ≡ (name, some v)
unfolding cut
cut-joined [] v a = refl
cut-joined (c ∷ name) v a = ground (arith, cut-joined name v a.1)

cut-apart : (name : Str) → All (λ c. c ≢ b'=') name → cut name ≡ (name, none)
unfolding cut
cut-apart [] a = refl
cut-apart (c ∷ name) a = ground (arith, cut-apart name a.1)

flag_of-joined :
    (bindings : Dict FieldPath) (name v : Str)
    → All (λ c. c ≢ b'=') name
    → is_some (lookup name bindings) ≡ true
    → flag_of bindings (str "--" ++ name ++ b'=' ∷ v) ≡ ok (name, some v)
unfolding flag_of drop_dashes has_prefix
flag_of-joined bindings name v p k = rw (cut-joined name v p, k) refl

flag_of-apart :
    (bindings : Dict FieldPath) (name : Str)
    → All (λ c. c ≢ b'=') name
    → is_some (lookup name bindings) ≡ true
    → flag_of bindings (str "--" ++ name) ≡ ok (name, none)
unfolding flag_of drop_dashes has_prefix
flag_of-apart bindings name p k = rw (cut-apart name p, k) refl

-- One flag, before any other arguments.
parse-joined :
    (bindings : Dict FieldPath) (name v : Str) (rest : List Str) (vars : Dict Str)
    → All (λ c. c ≢ b'=') name
    → is_some (lookup name bindings) ≡ true
    → parse bindings ((str "--" ++ name ++ b'=' ∷ v) ∷ rest) vars
      ≡ parse bindings rest (insert name v vars)
unfolding parse
parse-joined bindings name v [] vars p k = rw (flag_of-joined bindings name v p k) refl
parse-joined bindings name v (next ∷ rest) vars p k = rw (flag_of-joined bindings name v p k) refl

-- The arguments of bound flags, whose names hold no `=`, and whose values begin with no dashes where they
-- stand in an argument of their own, give those values, a later one in place of an earlier one.
pub parse-render :
    (bindings : Dict FieldPath) (gs : List Given) (vars : Dict Str)
    → All IsPlain gs
    → All (λ g. is_some (lookup (name_of g) bindings) ≡ true) gs
    → parse bindings (render gs) vars ≡ ok (insert_all gs vars)
unfolding parse
parse-render bindings [] vars p k = refl
parse-render bindings (joined name v ∷ gs) vars p k =
    parse-joined bindings name v (render gs) vars p.0 k.0
    ∙ parse-render bindings gs (insert name v vars) p.1 k.1
parse-render bindings (apart name v ∷ gs) vars p k =
    rw (flag_of-apart bindings name p.0.0 k.0, p.0.1)
      (parse-render bindings gs (insert name v vars) p.1 k.1)
