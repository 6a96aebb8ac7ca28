-- ===== src/Adapters/Vault.antt =====
-- `Source` of contrib/sources/vault/vault.go: its Read.
pub mod Options
use xconf.Prelude.{
  ℕ, Bool, false, ◌&&◌, ◌||◌, not, ◌==◌, Option, none, some, [], length, ltb, if◌then◌else◌,
}
use xconf.Text.{Str, str_eq}
use xconf.Error.{
  Error, Result, err, ◌>>=◌, alive, not_found, secret_limit, fault, vault_settings, vault_response,
  vault_data,
}
use xconf.Value.{Fields}
use xconf.Layer.{Layer}
use xconf.Document.{Decoder, decode}
use xconf.Adapters.Numbers.{positive, nonnegative}

-- The VersionMetadata of a secret: Destroyed, whether DeletionTime is not zero, and Version.
pub record Meta : Type 0 where
  pub destroyed : Bool
  pub deleted : Bool
  pub version : ℕ

-- A KVSecret; nil metadata and nil data are none.
pub record Secret : Type 0 where
  pub meta : Option Meta
  pub values : Option Fields

-- What the client answers: that there is no secret, another error, or a secret, none if it is nil.
pub data Reply : Type 0 where
  absent : Reply
  refused : Error → Reply
  answer : Option Secret → Reply

-- `client` tells whether the client is not nil. The version, the limit and the timeout are by their bits.
pub record Source : Type 0 where
  pub client : Bool
  pub path : Str
  pub id : Str
  pub version : ℕ
  pub limit : ℕ
  pub interval : ℕ
  pub timeout : ℕ

unfoldable pub valid : Source → Bool
unfolding str_eq
valid s =
    s.client
    && not (str_eq s.path [])
    && nonnegative s.version
    && positive s.limit
    && positive s.timeout

-- meta != nil && (meta.Destroyed || !meta.DeletionTime.IsZero())
unfoldable pub is_gone : Option Meta → Bool
is_gone none = false
is_gone (some m) = m.destroyed || m.deleted

-- The libraries' json.Marshal, decoder.Decode, strconv.Itoa and the hexadecimal SHA-256.
pub record Library : Type 0 where
  pub marshal : Fields → Result Str
  pub decoder : Decoder
  pub itoa : ℕ → Str
  pub digest : Str → Str

abbrev pub revision_of : Library → Option Meta → Str
revision_of lib none = []
revision_of lib (some m) = lib.itoa m.version

-- Read of the secret.
unfoldable pub read_secret : Library → Option Error → Source → Secret → Result Layer
unfolding is_gone decode
read_secret lib late s secret = if is_gone secret.meta then err not_found else (elim secret.values [
  | none ↦ err (fault vault_data)
  | some values ↦ lib.marshal values >>= λ all.
      if ltb s.limit (length all)
      then err (fault secret_limit)
      else (alive late >>= λ living.
          decode lib.digest all (some lib.decoder) s.id (revision_of lib secret.meta))
])

-- The version that Get or GetVersion is asked for: none for the latest.
abbrev pub asked : Source → Option ℕ
asked s = if s.version == 0 then none else some s.version

-- Read, where `client` answers for a version, and `late` is what ctx.Err() returns at the end.
unfoldable pub read : Library → (Option ℕ → Reply) → Option Error → Source → Result Layer
unfolding valid read_secret
read lib client late s =
    if not (valid s) then err (fault vault_settings) else (elim (client (asked s)) [
      | absent ↦ err not_found
      | refused e ↦ err e
      | answer o ↦ elim o [
        | none ↦ err (fault vault_response)
        | some secret ↦ read_secret lib late s secret
      ]
    ])
