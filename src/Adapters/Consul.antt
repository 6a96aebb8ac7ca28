-- ===== src/Adapters/Consul.antt =====
-- `Source` of contrib/sources/consul/consul.go: its Read of one key or of a prefix.
pub mod Options
pub mod Watch
pub mod Ignored
pub mod Prefix
use xconf.Prelude.{
  ℕ, zero, suc, ◌+◌, ◌-◌, ◌*◌, ◌/◌, ◌^◌, Bool, true, false, ◌&&◌, ◌||◌, not, ◌==◌, Option, none,
  some, List, [], ◌∷◌, ◌++◌, is_some, length, ltb, leb, if◌then◌else◌,
}
use xconf.Text.{Str, str, str_eq, has_prefix}
use xconf.Text.Decimal.{itoa}
use xconf.Text.Dict.{Dict, lookup, insert}
use xconf.Text.Sort.{by_key}
use xconf.Text.Split.{split}
use xconf.Text.Suffix.{has_suffix}
use xconf.Pointer.{FieldPath, pointer}
use xconf.Error.{
  Error, Result, ok, err, ◌>>=◌, alive, not_found, too_large, fault, consul_settings,
  consul_metadata, consul_acls, consul_keys, nil_entry, outside_prefix, empty_segment,
  duplicate_consul_key,
}
use xconf.Layer.{Layer, Location}
use xconf.Document.{Decoder, decode}
use xconf.Adapters.Numbers.{positive, nonnegative, spend}
use xconf.Adapters.Env

-- A KVPair, and the two fields of QueryMeta that are read.
pub record Pair : Type 0 where
  pub key : Str
  pub value : Str
  pub modified : ℕ

pub record Meta : Type 0 where
  pub filtered : Bool
  pub last_index : ℕ

-- What the client answers: an error, or pairs and metadata, either of which may be nil. The pairs of a
-- Get are the one that it returns, or none.
abbrev pub Reply : Type 0
Reply = Result (List (Option Pair) × Option Meta)

-- `client` and `list_client` tell whether these are not nil. Durations and the limit are int64, by their
-- bits.
pub record Source : Type 0 where
  pub client : Bool
  pub list_client : Bool
  pub key : Str
  pub id : Str
  pub decoder : Option Decoder
  pub ignore_keys : List Str
  pub limit : ℕ
  pub timeout : ℕ
  pub wait : ℕ

-- 10 * time.Minute
abbrev pub longest_wait : ℕ
longest_wait = 600 * 10 ^ 9

-- path.Match of a pattern and a name, none where the pattern is malformed.
abbrev pub Match : Type 0
Match = Str → Str → Option Bool

unfoldable pub any_malformed : Match → List Str → Bool
any_malformed matches [] = false
any_malformed matches (p ∷ ps) = not (is_some (matches p [])) || any_malformed matches ps

abbrev pub no_patterns : List Str → Bool
no_patterns [] = true
no_patterns (p ∷ ps) = false

-- s.timeout <= time.Duration(math.MaxInt64)-s.wait-s.wait/16, where the wait is at most ten minutes.
unfoldable pub valid : Match → Source → Bool
unfolding any_malformed str_eq has_prefix
valid matches s =
    (no_patterns s.ignore_keys || s.list_client)
    && not (any_malformed matches s.ignore_keys)
    && ((s.client && is_some s.decoder) || s.list_client)
    && not (str_eq s.key [])
    && not (has_prefix s.key (str "/"))
    && positive s.limit
    && positive s.timeout
    && nonnegative s.wait
    && leb s.wait longest_wait
    && leb s.timeout (2 ^ 63 - 1 - s.wait - s.wait / 16)

-- The loop over the pairs: each is there, and their bytes are within the limit.
unfoldable pub within : ℕ → List (Option Pair) → Result (List Pair)
within remaining [] = ok []
within remaining (none ∷ ps) = err (fault nil_entry)
within remaining (some p ∷ ps) = elim (spend remaining (length p.value)) [
  | none ↦ err too_large
  | some rest ↦ within rest ps >>= λ qs. ok (p ∷ qs)
]

-- get, where ctx.Err() is `late` after the request.
unfoldable pub get : Reply → Option Error → ℕ → Result (List Pair × Meta)
unfolding within
get reply late limit = do
  answer ← reply
  living ← alive late
  elim answer.1 [
    | none ↦ err (fault consul_metadata)
    | some meta ↦
        if meta.filtered
        then err (fault consul_acls)
        else if ltb 1024 (length answer.0)
        then err (fault consul_keys)
        else (within limit answer.0 >>= λ pairs. ok (pairs, meta))
  ]

-- key[:strings.LastIndexByte(key, '/')], none where there is no slash.
unfoldable pub before_last : Str → Option Str
before_last [] = none
before_last (c ∷ s) = elim (before_last s) [
  | some r ↦ some (c ∷ r)
  | none ↦ if c == b'/' then some [] else none
]

unfoldable pub any_match : Match → List Str → Str → Bool
any_match matches [] key = false
any_match matches (p ∷ ps) key = elim (matches p key) [
  | some true ↦ true
  | _ ↦ any_match matches ps key
]

-- The loop of ignored: each turn shortens the key, so more turns than it has bytes are never made.
unfoldable pub ignored_loop : ℕ → Match → List Str → Str → Bool
unfolding any_match before_last
ignored_loop zero matches ps key = false
ignored_loop (suc n) matches ps key =
    any_match matches ps key
    || (elim (before_last key) [ none ↦ false | some parent ↦ ignored_loop n matches ps parent ])

unfoldable pub ignored : Match → Source → Str → Bool
unfolding ignored_loop
ignored matches s key =
    if no_patterns s.ignore_keys
    then false
    else ignored_loop (suc (length key)) matches s.ignore_keys key
