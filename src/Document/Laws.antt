-- ===== src/Document/Laws.antt =====
-- What a bounded read returns, and where a decoded layer locates its values.
use xconf.Prelude.{
  ℕ, ◌+◌, ◌-◌, ◌^◌, ◌<◌, ◌≤◌, ◌≡◌, Option, none, some, List, [], ◌∷◌, arith, leb, length,
  if◌then◌else◌,
}
use xconf.Text.{Str, str_eq}
use xconf.Text.Dict.{Dict, lookup, lookup-insert}
use xconf.Error.{Yields, ok, err, too_large}
use xconf.Layer.{Location}
use xconf.Document.{Decoder, decode, Stream, take, read_limited, bad_limit, read, fill_name, locate}

length-take : {A : Type 0} (n : ℕ) (xs : List A) → n ≤ length xs → length (take n xs) ≡ n
unfolding take
length-take n [] h = omega arith
length-take n (x ∷ xs) h = ground (arith, length-take (n - 1) xs)

-- While the context lives and the limit is positive and not the greatest int64, a stream within the
-- limit is read whole, with its own error if it has one, and a longer stream is refused: nothing is
-- cut off silently.
pub read_lem :
    (r : Stream) (limit : ℕ)
    → 0 < limit
    → limit < 2 ^ 63 - 1
    → read none none r limit ≡ (
        if leb (length r.content) limit
        then (elim r.failure [ none ↦ ok r.content | some e ↦ err e ])
        else err too_large)
unfolding read read_limited bad_limit
read_lem r limit positive small = ground (arith, length-take (limit + 1) r.content)

-- A decoded layer locates a value where the decoder does, under the document's name if the decoder
-- names nothing; and the whole document, if the decoder does not, under the document's name.
pub lookup-locate :
    (p name : Str) (ls : Dict Location)
    → lookup p (locate name ls) ≡ (elim (lookup p ls) [
      | some l ↦ some (fill_name name l)
      | none ↦ if str_eq [] p then some (record { name = name; line = 0; column = 0 }) else none
    ])
unfolding lookup locate
lookup-locate p name [] = ground arith
lookup-locate p name ((q, l) ∷ ls) =
    rw (lookup-insert p q (fill_name name l) (locate name ls))
      (ground (arith, lookup-locate p name ls))

-- A decoded layer has the given revision, or the digest of the document if that is empty.
pub decode-revision :
    (digest : Str → Str) (doc : Str) (decoder : Option Decoder) (name revision : Str)
    → Yields
        (λ l. l.revision ≡ (if str_eq revision [] then digest doc else revision))
        (decode digest doc decoder name revision)
unfolding decode
decode-revision digest doc none name revision = tt
decode-revision digest doc (some decoder) name revision = ground arith
