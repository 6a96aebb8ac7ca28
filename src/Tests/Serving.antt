-- ===== src/Tests/Serving.antt =====
-- Sources and documents, run on small layers and documents.
use xconf.Prelude.{
  ℕ, ◌+◌, ◌%◌, ◌^◌, ◌≡◌, ◌≢◌, refl, true, false, Option, none, some, List, [], ◌∷◌, arith, leb,
  length, if◌then◌else◌,
}
use xconf.Text.{Str, str, str_eq}
use xconf.Error.{Error, Result, ok, err, external, too_large}
use xconf.Layer.{Layer, no_layer}
use xconf.Text.Decimal.{itoa}
use xconf.Layer.Clone.{clone_layer, clone_edits, clone_values}
use xconf.Sources.Memory as M
use xconf.Sources.Resilient as R
use xconf.Sources.Resilient.Backoff.{Loop, IsBounded, iterate, iterate-IsBounded}
use xconf.Document.{Stream, Decoder, decode}
use xconf.Document.Reader as Reader
use xconf.Document.Http as Http
use xconf.Document.Http.Again.{read-again}
use xconf.Document.Http.Laws.{IsAnswered, read-not_modified}
use xconf.Tests.{lower}

abbrev memory : M.Memory
memory = record { layer = no_layer; revision = 1; watchers = []; next = 0 }

read-set_example :
    (after : M.Memory) × (M.set no_layer memory ≡ ok (after, []))
    × (no_layer.revision ≢ [] → M.read none after ≡ ok no_layer)
    × (no_layer.revision ≡ []
        → M.read none after ≡ ok (record no_layer { revision = itoa ((1 + 1) % 2 ^ 64) }))
unfolding clone_layer
read-set_example = M.read-set no_layer memory no_layer refl

abbrev numbered : Layer
numbered = record no_layer { revision = str "7" }

read-err_example :
    let good = R.last_good (ok numbered ∷ err (external 2) ∷ []) no_layer in
    R.read (err (external 1)) (R.reads (ok numbered ∷ err (external 2) ∷ []) R.fresh)
    ≡ (record { last = good; failing = true }, record good { stale = some (external 1) })
read-err_example = R.read-err (ok numbered ∷ err (external 2) ∷ []) (external 1)

numbered_last : R.last_good (ok numbered ∷ err (external 2) ∷ []) no_layer ≡ numbered
unfolding R.last_good clone_layer clone_edits clone_values
numbered_last = refl

abbrev waiting : Loop
waiting = record { lo = 1000; hi = 5000; delay = 4000; unregistered = true }

waiting-IsBounded : IsBounded waiting
waiting-IsBounded = record {
  positive = omega arith;
  ordered = omega arith;
  small = omega arith;
  above = omega arith;
  below = omega arith;
}

iterate-IsBounded_example : IsBounded (iterate false true waiting).0
iterate-IsBounded_example = iterate-IsBounded false true waiting waiting-IsBounded

abbrev body : Stream
body = record { content = str "{}"; failure = none }

abbrev decoder : Decoder
decoder doc = ok (some lower, [])

abbrev file : Reader.Source
file = record {
  id = str "f";
  opener = some (ok (some (record { stream = body; close = none })));
  decoder = some decoder;
  limit = 8;
}

read-opened_example : Reader.read (λ doc. doc) (λ n. none) file ≡ (
    if leb (length body.content) 8
    then decode (λ doc. doc) (str "{}") (some decoder) (str "f") []
    else err too_large)
read-opened_example =
    Reader.read-opened (λ doc. doc) file decoder (record { stream = body; close = none }) refl refl
      (omega arith) (omega arith)

abbrev settings : Http.Settings
settings = record {
  id = str "http";
  decoder = some decoder;
  limit = 8;
  timeout = true;
  request = none;
}

abbrev page : Http.Response
page = record { status = 200; body = some body; etag = str "e"; modified = [] }

abbrev unmodified : Http.Response
unmodified = record page { status = 304 }

abbrev first : List ((ℕ → Option Error) × (Str × Str → Result (Option Http.Response)))
first = ((λ n. none), (λ h. ok (some page))) ∷ []

read-not_modified_example :
    let c = Http.reads (λ doc. doc) settings first Http.no_cache in
    let r = Http.read (λ doc. doc) settings (λ n. none) (λ h. ok (some unmodified)) c in
    IsAnswered (λ doc. doc) settings c r
read-not_modified_example =
    read-not_modified (λ doc. doc) settings first (λ n. none) (λ h. ok (some unmodified)) unmodified
      body refl refl refl refl refl refl

-- The page is read, and not modified when it is asked for again.
abbrev kept_page : Http.Cache
kept_page = record { cached = some (str "{}"); etag = str "e"; modified = [] }

abbrev page_layer : Layer
page_layer = record no_layer {
  values = some lower;
  revision = str "{}";
  locations = ([], record { name = str "http"; line = 0; column = 0 }) ∷ [];
}

read-again_example :
    Http.read (λ doc. doc) settings (λ n. none) (λ h. ok (some unmodified)) kept_page
    ≡ (kept_page, ok page_layer)
unfolding Http.read Http.accept decode str_eq
read-again_example =
    read-again (λ doc. doc) settings (λ n. none) (λ h. ok (some page)) Http.no_cache kept_page
      page_layer (λ n. none) (λ h. ok (some unmodified)) unmodified body refl refl refl refl refl
      refl refl
