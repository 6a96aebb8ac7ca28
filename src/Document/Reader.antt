-- ===== src/Document/Reader.antt =====
-- `Source` of contrib/sources/reader/reader.go.
use xconf.Prelude.{
  ℕ, ◌≡◌, Option, none, some, Bool, false, ◌||◌, ◌^◌, ◌<◌, ◌-◌, arith, length, leb, ◌==◌,
  if◌then◌else◌, [],
}
use xconf.Text.{Str}
use xconf.Error.{
  Error, Result, ok, err, ◌>>=◌, alive, no_reader, nil_reader_or_decoder, reader_settings,
  too_large,
}
use xconf.Layer.{Layer}
use xconf.Document.{Stream, Decoder, bad_limit, decode}
use xconf.Document.Laws.{read_lem}
use xconf.Document

-- An opened reader: its bytes, and the error of its Close.
pub record Opened : Type 0 where
  pub stream : Stream
  pub close : Option Error

-- `opener` is none for a nil opener, and its result has none for a nil reader; a reader that comes
-- with an error is closed and dropped. The limit is an int64, by its bit pattern.
pub record Source : Type 0 where
  pub id : Str
  pub opener : Option (Result (Option Opened))
  pub decoder : Option Decoder
  pub limit : ℕ

abbrev pub not_positive : ℕ → Bool
not_positive limit = limit == 0 || leb (2 ^ 63) limit

-- FromReader: the stream is read once, and every later read opens the capture.
unfoldable pub from_reader :
    Option Error → Option Error → Str → Option Stream → Option Decoder → ℕ → Result Source
unfolding Document.read
from_reader before after name none decoder limit = err nil_reader_or_decoder
from_reader before after name (some r) none limit = err nil_reader_or_decoder
from_reader before after name (some r) (some d) limit = do
  all ← Document.read before after r limit
  ok (record {
    id = name;
    opener =
        some
          (ok (some (record { stream = record { content = all; failure = none }; close = none })));
    decoder = some d;
    limit = limit;
  })

unfoldable pub opened : Source → Result Opened
opened s = elim s.opener [
  | none ↦ err reader_settings
  | some r ↦ r >>= λ o. elim o [ none ↦ err no_reader | some p ↦ ok p ]
]

-- Read, where `ctx n` is what ctx.Err() returns at the n-th check. A cancelled context is told
-- before the errors of the reader, and those before the error of its Close.
unfoldable pub read : (Str → Str) → (ℕ → Option Error) → Source → Result Layer
unfolding opened decode Document.read
read digest ctx s = do
  set ← (elim s.decoder [
    | none ↦ err reader_settings
    | some d ↦ if not_positive s.limit then err reader_settings else ok (tt {0})
  ])
  provided ← (elim s.opener [ none ↦ err reader_settings | some o ↦ ok (tt {0}) ])
  living ← alive (ctx 0)
  r ← opened s
  still_living ← alive (ctx 3)
  all ← Document.read (ctx 1) (ctx 2) r.stream s.limit
  closed ← alive r.close
  decode digest all s.decoder s.id []

within_int64 : (limit : ℕ) → 0 < limit → limit < 2 ^ 63 - 1 → not_positive limit ≡ false
within_int64 limit positive small = ground arith

-- A source with a live context, an opener that succeeds and a limit within int64 decodes the whole
-- content of the reader, or returns the reader's error, or refuses content over the limit, or else
-- returns the error of Close: never a layer from a part of the content.
pub read-opened :
    (digest : Str → Str) (s : Source) (d : Decoder) (p : Opened)
    → s.opener ≡ some (ok (some p))
    → s.decoder ≡ some d
    → 0 < s.limit
    → s.limit < 2 ^ 63 - 1
    → read digest (λ n. none) s ≡ (
        if leb (length p.stream.content) s.limit
        then (elim p.stream.failure [
          | some e ↦ err e
          | none ↦ elim p.close [
            | some e ↦ err e
            | none ↦ decode digest p.stream.content (some d) s.id []
          ]
        ])
        else err too_large)
unfolding read opened
read-opened digest s d p opens decodes positive small =
    rw
      (
        opens,
        decodes,
        within_int64 s.limit positive small,
        read_lem p.stream s.limit positive small,
      )
      (ground arith)
