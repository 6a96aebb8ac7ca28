-- ===== src/Loader.antt =====
-- `Loader.bind`, `loader.load` and `Loader.Load` of xconf.go, with the engine of schemapb, a module
-- outside the repository, as a parameter.
pub mod Sources
pub mod Noted
pub mod Entry
use xconf.Prelude.{
  ℕ, suc, ◌+◌, Bool, true, false, Option, none, some, List, [], ◌∷◌, ◌++◌, if◌then◌else◌,
}
use xconf.Text.{Str, str, str_eq}
use xconf.Text.Dict.{Dict, insert, append_at}
use xconf.Text.Decimal.{itoa}
use xconf.Pointer.{FieldPath, pointer}
use xconf.Error.{
  Error, Stage, Result, ok, err, ◌>>=◌, alive, Degraded, healthy, stale, with_degraded, no_name,
  duplicate_source, source_error, read, merge, bake_failed, validation,
}
use xconf.Value.{Fields, end}
use xconf.Schema.{Getters}
use xconf.Layer.{Layer, Origin, no_location}
use xconf.Merge.{Origins}
use xconf.Merge.Apply.{Merger, apply}

-- A source, by its name and what it returns when it is read in the load at hand.
pub record Source (Schema : Type 0) : Type 0 where
  pub name : Str
  pub read : Schema → Result Layer

-- A segment of a path in a report of the engine.
pub data Segment : Type 0 where
  key : Str → Segment
  index : ℕ → Segment
  unset : Segment

-- sp.Engine: BakeDetailed, ValidationResult.Blocking, and the events of a report with their paths
-- and operations.
pub record Engine (Baked Validation Report : Type 0) : Type 0 where
  pub bake : Fields → Result (Baked × Validation × Report)
  pub blocking : Validation → Bool
  pub events : Report → List (List Segment × Str)

-- Snapshot, a value of the moment at which it was loaded.
pub record Snapshot (Baked Validation Report : Type 0) : Type 0 where
  pub baked : Baked
  pub validation : Validation
  pub report : Report
  pub origins : Origins
  pub revisions : Dict Str
  pub degraded : Degraded
  pub version : ℕ
  pub loaded_at : ℕ

-- reportPath
unfoldable pub report_path : List Segment → FieldPath
unfolding itoa
report_path [] = []
report_path (key k ∷ s) = k ∷ report_path s
report_path (index n ∷ s) = itoa n ∷ report_path s
report_path (unset ∷ s) = report_path s

-- Whether the name was seen before.
unfoldable pub seen_before : Str → List Str → Bool
seen_before n [] = false
seen_before n (m ∷ seen) = let later = seen_before n seen in if str_eq m n then true else later

-- Loader.bind: every source has a name, and no two the same. A nil source is none.
unfoldable pub bind_from :
    {Schema : Type 0} → List Str → List (Option (Source Schema)) → Result (List (Source Schema))
unfolding seen_before
bind_from seen [] = ok []
bind_from seen (none ∷ ss) = err no_name
bind_from seen (some s ∷ ss) =
    let rest = bind_from (s.name ∷ seen) ss >>= λ out. ok (s ∷ out) in
    if str_eq s.name []
    then err no_name
    else if seen_before s.name seen
    then err (duplicate_source s.name)
    else rest

unfoldable pub bind :
    {Schema : Type 0} → List (Option (Source Schema)) → Result (List (Source Schema))
unfolding bind_from
bind ss = bind_from [] ss

-- degraded[name] = err
unfoldable pub mark_stale : Str → Error → Degraded → Degraded
mark_stale n e healthy = stale n e healthy
mark_stale n e (stale m f d) = if str_eq m n then stale n e d else stale m f (mark_stale n e d)

abbrev map_err {ℓ} : {A : Type ℓ} → (Error → Error) → Result A → Result A
map_err f (ok a) = ok a
map_err f (err e) = err (f e)

-- ctx.Err() at the n-th check of a load.
abbrev pub Context : Type 0
Context = ℕ → Option Error

-- What the loop over the sources has gathered.
pub record Loading : Type 0 where
  pub merger : Merger
  pub revisions : Dict Str
  pub degraded : Degraded

abbrev pub start : Loading
start = record {
  merger = record { values = end; origins = [] };
  revisions = [];
  degraded = healthy;
}

-- What one source adds, once its layer is merged.
unfoldable pub note_layer : Str → Layer → Merger → Loading → Loading
unfolding insert mark_stale
note_layer name l m st = record {
  merger = m;
  revisions = insert name l.revision st.revisions;
  degraded = elim l.stale [ none ↦ st.degraded | some e ↦ mark_stale name e st.degraded ];
}

module _ {Schema Field : Type 0} (g : Getters Schema Field) (root : Schema) where
  unfoldable pub load_source : Source Schema → Loading → Result Loading
  load_source s st = do
    l ← map_err (source_error s.name read) (s.read root)
    m ← map_err (source_error s.name merge) (apply g root s.name l st.merger)
    ok (note_layer s.name l m st)

  unfoldable pub load_sources : Context → ℕ → List (Source Schema) → Loading → Result Loading
  load_sources ctx i [] st = do living ← alive (ctx i); ok st
  load_sources ctx i (s ∷ ss) st = do
    living ← alive (ctx i)
    st' ← load_source s st
    load_sources ctx (suc i) ss st'

-- The origins of the schema's own operations.
unfoldable pub add_events : List (List Segment × Str) → Origins → Origins
unfolding append_at pointer report_path
add_events [] os = os
add_events ((path, operation) ∷ es) os = add_events es (
    append_at (pointer (report_path path))
      (record {
        source = str "schema";
        revision = [];
        operation = operation;
        location = no_location;
      })
      os)

module _ {Schema Field Baked Validation Report : Type 0} (g : Getters Schema Field)
    (engine : Engine Baked Validation Report) (root : Schema) where
  unfoldable pub snapshot :
      ℕ → Loading → Baked × Validation × Report → Snapshot Baked Validation Report
  unfolding add_events
  snapshot now st (baked, result, report) = record {
    baked = baked;
    validation = result;
    report = report;
    origins = add_events (engine.events report) st.merger.origins;
    revisions = st.revisions;
    degraded = st.degraded;
    version = 0;
    loaded_at = now;
  }

  -- The values are baked and checked once, after the merge.
  unfoldable pub finish : ℕ → Loading → Result (Snapshot Baked Validation Report)
  unfolding with_degraded
  finish now st = map_err bake_failed (engine.bake st.merger.values) >>= λ r.
      if engine.blocking r.1
      then err (with_degraded validation st.degraded)
      else ok (snapshot now st r)

  -- loader.load, at the time `now`
  unfoldable pub load :
      Context → ℕ → List (Source Schema) → Result (Snapshot Baked Validation Report)
  load ctx now ss = do st ← load_sources g root ctx 0 ss start; finish now st

  -- Loader.Load
  unfoldable pub load_first :
      Context → ℕ → List (Option (Source Schema)) → Result (Snapshot Baked Validation Report)
  load_first ctx now given = do ss ← bind given; s ← load ctx now ss; ok (record s { version = 1 })
