-- ===== src/Error.antt =====
-- The errors of the root package: its sentinels and error types (xconf.go), and one constructor for
-- each message that its functions make. An error of code outside the repository is a number.
use xconf.Prelude.{ℕ, ◌≡◌, refl, ◌⊎◌, inl, inr, Bool, true, false, ◌||◌, Option, none, some}
use xconf.Text.{Str}

-- The stages that `SourceError` names.
pub data Stage : Type 0 where
  read merge watch : Stage

-- The messages of the sources below contrib/sources; a name is that of a variable, key or flag. A
-- failed type assertion panics with `assertion`.
pub data Fault : Type 0 where
  assertion : Fault
  kubernetes_settings resource_version kubernetes_limit document_data : Fault
  binding_path overlapping_bindings duplicate_key nil_object : Fault
  directory_limit directory_kind directory_generation generation_changed : Fault
  file_count directory_binding irregular_file directory_overlap directory_size : Fault
  etcd_settings etcd_response etcd_entry : Fault
  etcd_timeout etcd_closed etcd_unacknowledged : Fault
  nats_settings nats_response nil_watcher : Fault
  missing_version nil_watch nil_list : Fault
  vault_settings vault_response vault_data : Fault
  consul_settings consul_metadata consul_acls consul_keys nil_entry : Fault
  outside_prefix empty_segment duplicate_consul_key : Fault
  envfile_binding file_bindings : Fault
  both_values empty_file_path : Str → Fault
  ambiguous_name unknown_name ambiguous_container : Str → Fault
  invalid_json trailing_json overlapping_names : Str → Fault
  empty_separator parent_object empty_binding : Fault
  positional : Fault
  unknown_flag missing_value flag_binding flag_type : Str → Fault
  flag_overlap files_limit invalid_file_limit secret_limit : Fault
  nil_flags : Fault
  yaml_documents yaml_empty yaml_root yaml_budget yaml_nesting yaml_keys yaml_duplicate : Fault
  yaml_number yaml_scalar yaml_node : Fault

-- `degraded` is DegradedError with its map of source errors, `validation` is ValidationError
-- without its diagnostics, `bake_failed` and `joined` are what `fmt.Errorf("...%w")` and
-- `errors.Join` make.
mutual
  pub data Error : Type 0 where
    not_found closed canceled : Error
    deep_input map_key unsupported : Error
    unknown_edit root_edit edit_parent : Error
    nil_schema no_name nil_reader nil_snapshot : Error
    duplicate_source : Str → Error
    poll_interval backoff_bounds : Error
    filter_edit filter_depth filter_list filter_one_of : Error
    size_limit too_large no_decoder not_object : Error
    nil_reader_or_decoder no_reader reader_settings : Error
    fs_settings s3_settings http_settings empty_response not_cached : Error
    http_status : ℕ → Error
    source_error : Str → Stage → Error → Error
    fault : Fault → Error
    named_fault : Str → Error → Error
    public : Error → Error
    validation : Error
    degraded : Degraded → Error → Error
    bake_failed : Error → Error
    joined : Error → Error → Error
    external : ℕ → Error

  -- map[string]error
  pub data Degraded : Type 0 where
    healthy : Degraded
    stale : Str → Error → Degraded → Degraded

pub data Result {ℓ} (A : Type ℓ) : Type ℓ where
  ok : A → Result A
  err : Error → Result A

infixl 5 ◌>>=◌
abbrev pub ◌>>=◌ {ℓ κ} : {A : Type ℓ} {B : Type κ} → Result A → (A → Result B) → Result B
ok a >>= f = f a
err e >>= f = err e

-- Going on unless ctx.Err() is an error.
abbrev pub alive : Option Error → Result (Unit {0})
alive none = ok tt
alive (some e) = err e

-- errors.Is(err, ErrNotFound), along Unwrap.
unfoldable pub is_not_found : Error → Bool
is_not_found not_found = true
is_not_found (source_error s g e) = is_not_found e
is_not_found (named_fault s e) = is_not_found e
is_not_found (public e) = is_not_found e
is_not_found (degraded d e) = is_not_found e
is_not_found (bake_failed e) = is_not_found e
is_not_found (joined e f) = is_not_found e || is_not_found f
is_not_found _ = false

-- withDegraded, of an error that is not nil.
unfoldable pub with_degraded : Error → Degraded → Error
with_degraded e healthy = e
with_degraded e (stale s cause d) = degraded (stale s cause d) e

-- A result that is no error has the property.
abbrev pub Yields {ℓ κ} : {A : Type ℓ} → (A → Type κ) → Result A → Type κ
Yields P (ok a) = P a
Yields P (err e) = Unit

pub Yields-bind {ℓ κ μ} :
    {A : Type ℓ} {B : Type κ} (Q : B → Type μ) (r : Result A) (f : A → Result B)
    → Yields (λ a. Yields Q (f a)) r
    → Yields Q (r >>= f)
Yields-bind Q (ok a) f h = h
Yields-bind Q (err e) f h = tt

pub Yields-map {ℓ κ μ} :
    {A : Type ℓ} (P : A → Type κ) (Q : A → Type μ) (r : Result A)
    → ((a : A) → P a → Q a)
    → Yields P r
    → Yields Q r
Yields-map P Q (ok a) f h = f a h
Yields-map P Q (err e) f h = tt

-- A result with what is known of it, for a split that keeps the equation.
pub Result-cases {ℓ} :
    {A : Type ℓ} (r : Result A) → ((a : A) × (r ≡ ok a)) ⊎ ((e : Error) × (r ≡ err e))
Result-cases (ok a) = inl (a, refl)
Result-cases (err e) = inr (e, refl)

pub Yields-all {ℓ κ} : {A : Type ℓ} (P : A → Type κ) (r : Result A) → ((a : A) → P a) → Yields P r
Yields-all P (ok a) f = f a
Yields-all P (err e) f = tt
