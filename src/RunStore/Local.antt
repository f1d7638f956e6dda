-- ===== src/RunStore/Local.antt =====
-- platform/core/state/runstore/local.go: the runs as files. The in-process lock of a run makes a save
-- one step; `digest` is the SHA-256 of a file.
pub mod Check
pub mod Laws
use runfabric.Prelude.{String, ◌<>◌, ◌=?=◌, Bool, not, Option, none, some, if◌then◌else◌}
use runfabric.Errors.{Error, not_exist, wrap, Result, ok, err}
use runfabric.Disk.{Disk, read_file, write_state_file}
use runfabric.Workflow.Runs.{WorkflowRun}
use runfabric.RunStore.{
  RunStore, RunText, json, unmarshal, Fresh, Saved, Version, not_found, version_conflict, short,
  lacks_names, touched, names_error, run_names_error,
}

-- The path below `Root`; the names are taken to hold no path separator.
unfoldable pub run_path : String → String → String
run_path stage run_id = ".runfabric/runs/" <> stage <> "/" <> run_id <> ".json"

unfoldable pub conflict_of : Version → Version → Error
unfolding short
conflict_of expected found =
    wrap (": expected " <> short expected <> ", found " <> short found) version_conflict

-- What keeps a save with an expectation from writing, if anything.
unfoldable pub refused : Version → Result Version → Option Error
unfolding conflict_of
refused expected (err e) = some e
refused expected (ok found) = if found =?= expected then none else some (conflict_of expected found)

module _ (digest : RunText → Version) where
  unfoldable pub loaded : RunText → Result (WorkflowRun × Version)
  unfolding unmarshal
  loaded data_read = elim (unmarshal data_read) [
    | err e ↦ err e
    | ok run ↦ ok (run, digest data_read)
  ]

  unfoldable pub read_answer : Result RunText → Result (WorkflowRun × Version)
  unfolding loaded
  read_answer (err not_exist) = err not_found
  read_answer (err e) = err e
  read_answer (ok data_read) = loaded data_read

  unfoldable pub load : String → String → Disk RunText → Result (WorkflowRun × Version)
  unfolding read_file run_path read_answer
  load stage run_id d =
      if lacks_names stage run_id
      then err names_error
      else read_answer (read_file (run_path stage run_id) d)

  unfoldable pub version_answer : Result RunText → Result Version
  version_answer (err not_exist) = ok ""
  version_answer (err e) = err e
  version_answer (ok data_read) = ok (digest data_read)

  unfoldable pub current_version : String → String → Disk RunText → Result Version
  unfolding read_file run_path version_answer
  current_version stage run_id d = version_answer (read_file (run_path stage run_id) d)

  unfoldable pub check : WorkflowRun → Version → Disk RunText → Option Error
  unfolding refused current_version
  check run expected d =
      if expected =?= "" then none else refused expected (current_version run.stage run.run_id d)

  unfoldable pub write : Fresh → WorkflowRun → Disk RunText → Saved (Disk RunText)
  unfolding run_path
  write f run d =
      let run' = touched f.now run in
      let (failed, d') = write_state_file (run_path run.stage run.run_id) (json run') d in
      record {
        answer = elim failed [ none ↦ ok (digest (json run')) | some e ↦ err e ];
        run = run';
        store = d';
      }

  unfoldable pub save : Fresh → WorkflowRun → Version → Disk RunText → Saved (Disk RunText)
  unfolding check write
  save f run expected d =
      if lacks_names run.run_id run.stage
      then record { answer = err run_names_error; run = run; store = d }
      else elim (check run expected d) [
        | some e ↦ record { answer = err e; run = run; store = d }
        | none ↦ write f run d
      ]

  abbrev pub local_run_store : RunStore (Disk RunText)
  local_run_store = record { load = load; save = save }
