-- ===== src/RunStore/Contract.antt =====
-- platform/core/state/runstore/runstore.go: what the interface promises of a run store. `place` is where
-- a run is stored, and `stored` what stands there: the run, unless it does not parse, and its version.
use runfabric.Prelude.{String, ◌≡◌, ◌≢◌, Option, none, some, ◌⊎◌}
use runfabric.Errors.{Error, wrap, Result, ok, err}
use runfabric.Workflow.Runs.{WorkflowRun}
use runfabric.RunStore.{RunStore, Fresh, Version, not_found, names_error, version_conflict, touched}

abbrev pub Entry : Type 0
Entry = Option WorkflowRun × Version

-- What a save with this expectation may replace, by the comment on the interface: a stored run of the
-- version that is expected.
abbrev pub IsExpected : Version → Option Entry → Type 0
IsExpected expected old = (expected ≢ "") → (q : Option WorkflowRun) × (old ≡ some (q, expected))

-- What the condition of the DynamoDB store lets a save replace: also no run, or one without a version.
abbrev pub IsOpen : Version → Option Entry → Type 0
IsOpen expected old =
    (expected ≢ "")
    → (old ≡ none)
      ⊎ ((q : Option WorkflowRun) × (v : Version) × (old ≡ some (q, v))
          × ((v ≡ expected) ⊎ (v ≡ "")))

abbrev pub IsConflict : Error → Type 0
IsConflict e = (t : String) × (e ≡ wrap t version_conflict)

abbrev pub run_of : Result WorkflowRun → Option WorkflowRun
run_of (ok r) = some r
run_of (err e) = none

-- How the answers of a store differ.
pub ok_version : {u v : Version} → Path (Result Version) (ok u) (ok v) → u ≡ v
ok_version h = cc

pub not_both : {a : Result Version} {e : Error} {v : Version} → a ≡ err e → a ≡ ok v → ⊥
not_both p q = cc

pub same_error : {a : Result Version} {e x : Error} → a ≡ err e → a ≡ err x → e ≡ x
same_error p q = cc

pub not_loaded :
    {a : Result (WorkflowRun × Version)} {e : Error} {x : WorkflowRun × Version}
    → a ≡ err e
    → a ≡ ok x
    → ⊥
not_loaded p q = cc

pub names_found : Path (Result (WorkflowRun × Version)) (err names_error) (err not_found) → ⊥
names_found p = cc

-- The promise of the interface, where a save replaces only what is `replaceable`.
pub record IsRunStore {S : Type 0} (replaceable : Version → Option Entry → Type 0) (b : RunStore S)
    (place : String → String → String × String) (stored : String → String → S → Option Entry)
    : Type 0 where
  pub load_ok :
      (stage run_id : String) (s : S) (r : WorkflowRun) (v : Version)
      → b.load stage run_id s ≡ ok (r, v)
      → stored stage run_id s ≡ some (some r, v)
  pub load_missing :
      (stage run_id : String) (s : S)
      → b.load stage run_id s ≡ err not_found
      → stored stage run_id s ≡ none
  pub save_ok :
      (f : Fresh) (r : WorkflowRun) (expected : Version) (s : S) (v : Version)
      → (b.save f r expected s).answer ≡ ok v
      → (stored r.stage r.run_id (b.save f r expected s).store ≡ some (some (touched f.now r), v))
        × ((b.save f r expected s).run ≡ touched f.now r)
        × replaceable expected (stored r.stage r.run_id s)
  pub save_conflict :
      (f : Fresh) (r : WorkflowRun) (expected : Version) (s : S) (e : Error)
      → (b.save f r expected s).answer ≡ err e
      → IsConflict e
      → (stored r.stage r.run_id (b.save f r expected s).store ≡ stored r.stage r.run_id s)
        × (expected ≢ "")
        × ((q : Option WorkflowRun) → stored r.stage r.run_id s ≢ some (q, expected))
  pub save_error :
      (f : Fresh) (r : WorkflowRun) (expected : Version) (s : S) (e : Error)
      → (b.save f r expected s).answer ≡ err e
      → (stored r.stage r.run_id (b.save f r expected s).store ≡ stored r.stage r.run_id s)
        ⊎ (replaceable expected (stored r.stage r.run_id s)
            × ((v : Version) × (stored r.stage r.run_id (b.save f r expected s).store
                  ≡ some (some (touched f.now r), v))))
  pub save_others :
      (f : Fresh) (r : WorkflowRun) (expected : Version) (s : S) (stage run_id : String)
      → place r.stage r.run_id ≢ place stage run_id
      → stored stage run_id (b.save f r expected s).store ≡ stored stage run_id s
