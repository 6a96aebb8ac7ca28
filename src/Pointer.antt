-- ===== src/Pointer.antt =====
-- `Path`, `Path.String` and `child` of xconf.go, and the reading of a JSON pointer in
-- `allowedPaths.Read` of filter.go.
pub mod Laws
use xconf.Prelude.{
  ℕ, Bool, true, false, Option, none, some, List, [], ◌∷◌, ◌++◌, map, ◌&&◌, ◌==◌, if◌then◌else◌,
}
use xconf.Text.{Str}

-- type Path []string
abbrev pub FieldPath : Type 0
FieldPath = List Str

-- strings.ReplaceAll(s, old, new) where `old` is one byte.
unfoldable pub replace_byte : ℕ → Str → Str → Str
replace_byte old new [] = []
replace_byte old new (c ∷ s) =
    let rest = replace_byte old new s in if c == old then new ++ rest else c ∷ rest

-- strings.ReplaceAll(s, old, new) where `old` is the two bytes `a` and `b`.
unfoldable pub replace_pair : ℕ → ℕ → Str → Str → Str
replace_pair a b new [] = []
replace_pair a b new (c ∷ []) = c ∷ []
replace_pair a b new (c ∷ d ∷ s) =
    let hit = new ++ replace_pair a b new s in
    let miss = c ∷ replace_pair a b new (d ∷ s) in if c == a && d == b then hit else miss

abbrev pub tilde : ℕ
tilde = b'~'

abbrev pub slash : ℕ
slash = b'/'

unfoldable pub escape : Str → Str
unfolding replace_byte
escape s = replace_byte slash (tilde ∷ b'1' ∷ []) (replace_byte tilde (tilde ∷ b'0' ∷ []) s)

unfoldable pub unescape : Str → Str
unfolding replace_pair
unescape s = replace_pair tilde b'0' (tilde ∷ []) (replace_pair tilde b'1' (slash ∷ []) s)

-- Path.String: the JSON pointer of a path.
unfoldable pub pointer : FieldPath → Str
unfolding escape
pointer [] = []
pointer (s ∷ p) = slash ∷ (escape s ++ pointer p)

unfoldable pub child : FieldPath → Str → FieldPath
child p k = p ++ k ∷ []

-- strings.Split(s, sep) where `sep` is one byte: the first part and the others.
unfoldable pub split_parts : ℕ → Str → Str × List Str
split_parts sep [] = ([], [])
split_parts sep (c ∷ s) =
    let rest = split_parts sep s in if c == sep then ([], rest.0 ∷ rest.1) else (c ∷ rest.0, rest.1)

unfoldable pub split : ℕ → Str → List Str
unfolding split_parts
split sep s = (split_parts sep s).0 ∷ (split_parts sep s).1

-- The path of a location's key: none where the key is no pointer, and the loop skips it.
unfoldable pub parse_pointer : Str → Option FieldPath
unfolding unescape split
parse_pointer [] = some []
parse_pointer (c ∷ s) = if c == slash then some (map unescape (split slash s)) else none
