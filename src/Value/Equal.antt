-- ===== src/Value/Equal.antt =====
-- reflect.DeepEqual on values.
use xconf.Prelude.{ℕ, ◌/◌, ◌%◌, ◌^◌, Bool, true, false, ◌&&◌, ◌||◌, not, ◌==◌}
use xconf.Text.{str_eq}
use xconf.Value.{
  Shape, plain, named, Value, null, time, duration, number, bytes, obj, list, text, bool, int, uint,
  float, Items, nil, cons, Fields, end, field,
}

abbrev bool_eq : Bool → Bool → Bool
bool_eq true b = b
bool_eq false b = not b

abbrev shape_eq : Shape → Shape → Bool
shape_eq plain plain = true
shape_eq named named = true
shape_eq _ _ = false

-- A float64 by its bits: all bits of the exponent set and a fraction.
abbrev is_nan : ℕ → Bool
is_nan b = b / 2 ^ 52 % 2048 == 2047 && not (b % 2 ^ 52 == 0)

abbrev is_zero : ℕ → Bool
is_zero b = b % 2 ^ 63 == 0

-- `==` of float64: no NaN equals anything, and the two zeros are equal.
abbrev float_eq : ℕ → ℕ → Bool
float_eq a b = not (is_nan a) && not (is_nan b) && (a == b || (is_zero a && is_zero b))

unfoldable mutual
  pub deep_equal : Value → Value → Bool
  deep_equal null null = true
  deep_equal (time a) (time b) = a == b
  deep_equal (duration s a) (duration t b) = bool_eq s t && a == b
  deep_equal (number a) (number b) = str_eq a b
  deep_equal (bytes a) (bytes b) = str_eq a b
  deep_equal (obj s a) (obj t b) = shape_eq s t && fields_equal a b
  deep_equal (list s a) (list t b) = shape_eq s t && items_equal a b
  deep_equal (text s a) (text t b) = shape_eq s t && str_eq a b
  deep_equal (bool s a) (bool t b) = shape_eq s t && bool_eq a b
  deep_equal (int s p a) (int t q b) = shape_eq s t && bool_eq p q && a == b
  deep_equal (uint s a) (uint t b) = shape_eq s t && a == b
  deep_equal (float s a) (float t b) = shape_eq s t && float_eq a b
  deep_equal _ _ = false

  pub items_equal : Items → Items → Bool
  items_equal nil nil = true
  items_equal (cons v a) (cons w b) = deep_equal v w && items_equal a b
  items_equal _ _ = false

  pub fields_equal : Fields → Fields → Bool
  fields_equal end end = true
  fields_equal (field j v a) (field k w b) = str_eq j k && deep_equal v w && fields_equal a b
  fields_equal _ _ = false
