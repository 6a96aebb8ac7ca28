-- ===== src/Document/Http.antt =====
-- `Source` of contrib/sources/http/http.go: a document by HTTP, with a cache that answers a
-- 304. A Go http.Header is its ETag and Last-Modified only.
pub mod Laws
pub mod Again
use xconf.Prelude.{
  ℕ, ◌≡◌, refl, Option, none, some, Bool, true, ◌&&◌, arith, ◌==◌, if◌then◌else◌, List, [], ◌∷◌,
  is_some, Option-cases, ◌⊎◌, inl, inr, Bool-cases,
}
use xconf.Text.{Str}
use xconf.Error.{
  Error, Result, ok, err, Result-cases, not_found, http_settings, empty_response, not_cached,
  http_status,
}
use xconf.Layer.{Layer}
use xconf.Document.{Stream, Decoder, decode}
use xconf.Document

-- The fields of the source that a read changes.
pub record Cache : Type 0 where
  pub cached : Option Str
  pub etag : Str
  pub modified : Str

abbrev pub no_cache : Cache
no_cache = record { cached = none; etag = []; modified = [] }

-- The response of the caller's client.
pub record Response : Type 0 where
  pub status : ℕ
  pub body : Option Stream
  pub etag : Str
  pub modified : Str

-- The fields that a read does not change. `timeout` tells whether the timeout is positive, and
-- `request` is the error of http.NewRequestWithContext.
pub record Settings : Type 0 where
  pub id : Str
  pub decoder : Option Decoder
  pub limit : ℕ
  pub timeout : Bool
  pub request : Option Error

-- The conditional headers If-None-Match and If-Modified-Since, empty for none.
unfoldable pub conditional : Cache → Str × Str
conditional c = elim c.cached [ none ↦ ([], []) | some doc ↦ (c.etag, c.modified) ]

-- The end of Read: a document that can be read and decoded replaces the cache.
unfoldable pub accept :
    (Str → Str)
    → Settings
    → Option Error
    → Option Error
    → Response
    → Stream
    → Cache
    → Cache × Result Layer
unfolding decode Document.read
accept digest s before after resp body c = elim (Document.read before after body s.limit) [
  | err e ↦ (c, err e)
  | ok all ↦ elim (decode digest all s.decoder s.id []) [
    | err e ↦ (c, err e)
    | ok layer ↦
        (record { cached = some all; etag = resp.etag; modified = resp.modified }, ok layer)
  ]
]

unfoldable pub respond :
    (Str → Str)
    → Settings
    → Option Error
    → Option Error
    → Response
    → Stream
    → Cache
    → Cache × Result Layer
unfolding decode
respond digest s before after resp body c =
    if resp.status == 304
    then (
      c,
      elim c.cached [ none ↦ err not_cached | some doc ↦ decode digest doc s.decoder s.id [] ],
    )
    else if resp.status == 404
    then (no_cache, err not_found)
    else if resp.status == 200
    then accept digest s before after resp body c
    else (c, err (http_status resp.status))

unfoldable pub answer :
    (Str → Str)
    → Settings
    → Option Error
    → Option Error
    → Result (Option Response)
    → Cache
    → Cache × Result Layer
unfolding respond
answer digest s before after (err e) c = (c, err e)
answer digest s before after (ok none) c = (c, err empty_response)
answer digest s before after (ok (some resp)) c = elim resp.body [
  | none ↦ (c, err empty_response)
  | some body ↦ respond digest s before after resp body c
]

-- What comes of the request, unless the context is done or the request cannot be made.
abbrev pub outcome :
    Option Error → Option Error → Result (Option Response) → Result (Option Response)
outcome none none answered = answered
outcome none (some e) answered = err e
outcome (some e) made answered = err e

-- Read, where `ctx n` is what ctx.Err() returns at the n-th check, and `client` answers the
-- conditional headers, with none for a nil response.
unfoldable pub read :
    (Str → Str)
    → Settings
    → (ℕ → Option Error)
    → (Str × Str → Result (Option Response))
    → Cache
    → Cache × Result Layer
unfolding answer conditional
read digest s ctx client c =
    if s.timeout && is_some s.decoder
    then answer digest s (ctx 1) (ctx 2) (outcome (ctx 0) s.request (client (conditional c))) c
    else (c, err http_settings)

-- The reads of a source one after the other, with what the world gives to each.
unfoldable pub reads :
    (Str → Str)
    → Settings
    → List ((ℕ → Option Error) × (Str × Str → Result (Option Response)))
    → Cache
    → Cache
unfolding read
reads digest s [] c = c
reads digest s ((ctx, client) ∷ more) c = reads digest s more (read digest s ctx client c).0
