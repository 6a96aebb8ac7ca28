-- ===== src/Text/Laws.antt =====
-- Lemmas on the tests of texts.
use Prim.Native.Nat.{Ordering}
use xconf.Prelude.{◌≡◌, refl, ◌↔◌, ◌⊎◌, ◌⊎◌, ◌≢◌, true, [], ◌∷◌, ◌++◌, arith}
use xconf.Text.{Str, str_eq, str_compare, has_prefix}

pub str_eq_iff : (s t : Str) → (str_eq s t ≡ true) ↔ (s ≡ t)
unfolding str_eq
str_eq_iff [] [] = (λ h. refl, λ h. refl)
str_eq_iff [] (b ∷ t) = (λ h. cc, λ h. cc)
str_eq_iff (a ∷ s) [] = (λ h. cc, λ h. cc)
str_eq_iff (a ∷ s) (b ∷ t) = ground (arith, str_eq_iff s t)

pub str_eq_refl : (s : Str) → str_eq s s ≡ true
str_eq_refl s = (str_eq_iff s s).1 refl

pub str_compare-eq_iff : (s t : Str) → (str_compare s t ≡ Ordering.eq) ↔ (s ≡ t)
unfolding str_compare
str_compare-eq_iff [] [] = (λ h. refl, λ h. refl)
str_compare-eq_iff [] (b ∷ t) = (λ h. cc, λ h. cc)
str_compare-eq_iff (a ∷ s) [] = (λ h. cc, λ h. cc)
str_compare-eq_iff (a ∷ s) (b ∷ t) = ground (arith, str_compare-eq_iff s t)

abbrev pub StrLt : Str → Str → Type 0
StrLt s t = str_compare s t ≡ Ordering.lt

pub StrLt-trans : (r s t : Str) → StrLt r s → StrLt s t → StrLt r t
unfolding str_compare
StrLt-trans [] [] t p q = cc
StrLt-trans [] (b ∷ s) [] p q = cc
StrLt-trans [] (b ∷ s) (c ∷ t) p q = refl
StrLt-trans (a ∷ r) [] t p q = cc
StrLt-trans (a ∷ r) (b ∷ s) [] p q = cc
StrLt-trans (a ∷ r) (b ∷ s) (c ∷ t) p q = ground (arith, StrLt-trans r s t)

pub StrLt-flip : (s t : Str) → str_compare s t ≡ Ordering.gt → StrLt t s
unfolding str_compare
StrLt-flip [] [] h = cc
StrLt-flip [] (b ∷ t) h = cc
StrLt-flip (a ∷ s) [] h = refl
StrLt-flip (a ∷ s) (b ∷ t) h = ground (arith, StrLt-flip s t)

pub StrLt-ne : (s t : Str) → StrLt s t → s ≢ t
StrLt-ne s t h e = ground (arith, (str_compare-eq_iff s t).1 e)

-- A prefix is what an append begins with.
pub has_prefix-append : (s t : Str) → has_prefix (s ++ t) s ≡ true
unfolding has_prefix
has_prefix-append [] t = refl
has_prefix-append (a ∷ s) t = ground (arith, has_prefix-append s t)

pub has_prefix-split :
    (s prefix : Str) → has_prefix s prefix ≡ true → (rest : Str) × (s ≡ prefix ++ rest)
unfolding has_prefix
has_prefix-split s [] h = (s, refl)
has_prefix-split [] (b ∷ prefix) h = cc
has_prefix-split (a ∷ s) (b ∷ prefix) h =
    let later = has_prefix-split s prefix (ground arith) in (later.0, ground (arith, later.1))

pub StrLt-cases : (s t : Str) → (s ≡ t) ⊎ (StrLt s t ⊎ StrLt t s)
StrLt-cases s t = ground (arith, str_compare-eq_iff s t, StrLt-flip s t)
