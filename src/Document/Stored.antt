-- ===== src/Document/Stored.antt =====
-- The Read of the sources of contrib/sources/file/file.go, contrib/sources/fs/fs.go and
-- contrib/sources/s3/s3.go.
pub mod File
pub mod Fs
pub mod S3
use xconf.Prelude.{
  ℕ, ◌^◌, ◌<◌, ◌-◌, ◌≡◌, refl, Bool, false, ◌&&◌, ◌||◌, not, Option, none, some, [], arith, is_some,
  if◌then◌else◌,
}
use xconf.Text.{Str, str, str_eq}
use xconf.Error.{
  Error, Result, ok, err, ◌>>=◌, alive, is_not_found, not_found, fs_settings, s3_settings,
  empty_response, Yields,
}
use xconf.Layer.{Layer, no_layer}
use xconf.Adapters.Numbers.{positive}
use xconf.Sources.{optional_read}
use xconf.Document.{Stream, Decoder, decode}
use xconf.Document.Laws.{read_lem, decode-revision}
use xconf.Document

-- What opening a file gives: an error that is fs.ErrNotExist, another one, or the content.
pub data Opening : Type 0 where
  missing : Opening
  refused : Error → Opening
  opens : Stream → Opening

unfoldable pub found : Opening → Result Stream
found missing = err not_found
found (refused e) = err e
found (opens r) = ok r

-- The settings of file.Source and of fs.Source; `usable` tells whether the file system is not nil
-- and the path is valid for it, and only file.Source has an interval.
pub record Stored : Type 0 where
  pub path : Str
  pub id : Str
  pub decoder : Option Decoder
  pub limit : ℕ
  pub interval : ℕ
  pub usable : Bool

-- file.Source.Read, where `ctx n` is what ctx.Err() returns at the n-th check. Its locations name
-- the path.
unfoldable pub file_read : (Str → Str) → (ℕ → Option Error) → Opening → Stored → Result Layer
unfolding found Document.read decode
file_read digest ctx opening s = do
  living ← alive (ctx 0)
  r ← found opening
  all ← Document.read (ctx 1) (ctx 2) r s.limit
  decode digest all s.decoder s.path []

-- fs.Source.Read. Its locations name the source.
unfoldable pub fs_read : (Str → Str) → (ℕ → Option Error) → Opening → Stored → Result Layer
unfolding found Document.read decode
fs_read digest ctx opening s = do
  living ← alive (ctx 0)
  valid ← (if s.usable then ok (tt {0}) else err fs_settings)
  r ← found opening
  all ← Document.read (ctx 1) (ctx 2) r s.limit
  decode digest all s.decoder s.id []

-- The settings of s3.Source. `client` tells whether there is a client.
pub record Bucket : Type 0 where
  pub bucket : Str
  pub key : Str
  pub id : Str
  pub version : Str
  pub decoder : Option Decoder
  pub limit : ℕ
  pub interval : ℕ
  pub client : Bool
  pub timeout : ℕ

-- The reply of the client: an error with its API code, if it has one, or the output, whose missing
-- strings are empty.
pub data Reply : Type 0 where
  failed : Error → Option Str → Reply
  nothing : Reply
  object : Option Stream → Str → Str → Reply

unfoldable pub is_absent : Option Str → Bool
unfolding str_eq
is_absent none = false
is_absent (some code) = str_eq code (str "NoSuchKey") || str_eq code (str "NoSuchVersion")

-- The version, unless it is empty or "null", and otherwise the ETag.
unfoldable pub object_revision : Str → Str → Str
unfolding str_eq
object_revision version etag =
    if str_eq version [] || str_eq version (str "null") then etag else version

unfoldable pub s3_answer : (Str → Str) → (ℕ → Option Error) → Reply → Bucket → Result Layer
unfolding is_absent object_revision Document.read decode
s3_answer digest ctx (failed e code) s = if is_absent code then err not_found else err e
s3_answer digest ctx nothing s = err empty_response
s3_answer digest ctx (object none version etag) s = err empty_response
s3_answer digest ctx (object (some body) version etag) s = do
  all ← Document.read (ctx 0) (ctx 1) body s.limit
  decode digest all s.decoder s.id (object_revision version etag)

-- s3.Source.Read: the request names the version only if one is pinned.
unfoldable pub s3_read :
    (Str → Str) → (ℕ → Option Error) → (Str × Str × Option Str → Reply) → Bucket → Result Layer
unfolding s3_answer
s3_read digest ctx client s =
    if s.client
      && not (str_eq s.bucket [])
      && not (str_eq s.key [])
      && is_some s.decoder
      && positive s.timeout
    then s3_answer digest ctx
        (client (s.bucket, s.key, if str_eq s.version [] then none else some s.version)) s
    else err s3_settings

-- Made optional, a file that does not exist is an empty layer, while one that cannot be opened for
-- another reason still fails with that reason.
pub optional_read-file_read :
    (digest : Str → Str) (s : Stored) (e : Error)
    → is_not_found e ≡ false
    → (optional_read (file_read digest (λ n. none) missing s) ≡ ok no_layer)
      × (optional_read (file_read digest (λ n. none) (refused e) s) ≡ err e)
unfolding optional_read file_read found is_not_found
optional_read-file_read digest s e other = (refl, rw (other, optional_read) refl)

-- With a live context and a limit within int64, a layer from S3 has the version of the object as
-- its revision; where that is empty or "null", the ETag; and where that is empty too, the digest of
-- the whole content.
pub s3_answer-revision :
    (digest : Str → Str) (body : Stream) (version etag : Str) (s : Bucket)
    → 0 < s.limit
    → s.limit < 2 ^ 63 - 1
    → Yields
        (λ l. l.revision ≡ (
          if not (str_eq version [] || str_eq version (str "null"))
          then version
          else if not (str_eq etag [])
          then etag
          else digest body.content))
        (s3_answer digest (λ n. none) (object (some body) version etag) s)
unfolding s3_answer object_revision
s3_answer-revision digest body version etag s positive small =
    rw (read_lem body s.limit positive small) (
      ground
        (arith, decode-revision digest body.content s.decoder s.id (object_revision version etag)))
