-- ===== src/Document.antt =====
-- The bounded reading and the decoding of documents in internal/document/document.go, and below it
-- the source of contrib/sources/reader/reader.go.
pub mod Laws
pub mod Reader
pub mod Http
pub mod Stored
use xconf.Prelude.{
  ℕ, suc, ◌+◌, ◌-◌, ◌^◌, Bool, true, false, ◌||◌, Option, none, some, List, [], ◌∷◌, ltb, leb,
  length, ◌==◌, if◌then◌else◌,
}
use xconf.Text.{Str, str_eq}
use xconf.Text.Dict.{Dict, insert}
use xconf.Error.{
  Error, Result, ok, err, ◌>>=◌, alive, size_limit, too_large, no_decoder, not_object,
}
use xconf.Value.{Fields}
use xconf.Layer.{Location, Layer}

-- An io.Reader: the bytes that it gives before it ends, and the error with which it ends, none for
-- io.EOF.
pub record Stream : Type 0 where
  pub content : Str
  pub failure : Option Error

unfoldable pub take {ℓ} : {A : Type ℓ} → ℕ → List A → List A
take n [] = []
take n (x ∷ xs) = let rest = take (n - 1) xs in if n == 0 then [] else x ∷ rest

-- io.ReadAll(io.LimitReader(r, n)): a reader with n bytes or more is not read to its end.
unfoldable pub read_limited : ℕ → Stream → Result Str
unfolding take
read_limited n r =
    if leb n (length r.content)
    then ok (take n r.content)
    else elim r.failure [ none ↦ ok r.content | some e ↦ err e ]

-- The limit is an int64, by its bit pattern: one that is not positive, or the greatest, is refused.
unfoldable pub bad_limit : ℕ → Bool
bad_limit limit = limit == 0 || leb (2 ^ 63 - 1) limit

-- Read, where `before` and `after` are what ctx.Err() returns at its two checks.
unfoldable pub read : Option Error → Option Error → Stream → ℕ → Result Str
unfolding read_limited bad_limit
read before after r limit = do
  living ← alive before
  limited ← (if bad_limit limit then err size_limit else ok (tt {0}))
  all ← read_limited (limit + 1) r
  fitting ← (if ltb limit (length all) then err too_large else ok (tt {0}))
  still_living ← alive after
  ok all

-- A decoder gives the document's map, none if it is nil, with locations by pointers.
abbrev pub Decoder : Type 0
Decoder = Str → Result (Option Fields × Dict Location)

unfoldable pub fill_name : Str → Location → Location
fill_name name l = if str_eq l.name [] then record l { name = name } else l

-- The locations of the decoder over the one of the whole document.
unfoldable pub locate : Str → Dict Location → Dict Location
unfolding insert fill_name
locate name [] = ([], record { name = name; line = 0; column = 0 }) ∷ []
locate name ((p, l) ∷ ls) = insert p (fill_name name l) (locate name ls)

-- Decode, where `digest` is the hexadecimal SHA-256 and a nil decoder is none.
unfoldable pub decode : (Str → Str) → Str → Option Decoder → Str → Str → Result Layer
unfolding locate
decode digest doc none name revision = err no_decoder
decode digest doc (some decoder) name revision = decoder doc >>= λ out. elim out.0 [
  | none ↦ err not_object
  | some values ↦ ok (record {
    values = some values;
    revision = (if str_eq revision [] then digest doc else revision);
    locations = locate name out.1;
    edits = [];
    stale = none;
  })
]
