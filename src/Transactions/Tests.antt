-- ===== src/Transactions/Tests.antt =====
-- platform/core/state/transactions: runs of the theorems on small disks.
use runfabric.Prelude.{
  String, ◌<>◌, ◌≡◌, ◌≢◌, refl, true, false, Option, none, some, List, [], ◌∷◌, lookup,
}
use runfabric.Prelude.Int.{pos, le_int}
use runfabric.Errors.{Error, ok, io}
use runfabric.Disk.{Disk, write_state_file}
use runfabric.Transactions.Types.{
  JournalFile, Operation, op_create_api, op_create_role, verify_checksum, status_active,
}
use runfabric.Transactions.FileBackend.{
  Content, json, garbage, path, load, save, file_backend, find_conflict,
}
use runfabric.Transactions.Journal.{new_journal, commit, next_revision}
use runfabric.Transactions.Journal.Writers.{second_writer_is_refused}
use runfabric.Transactions.Rollback.{execute_rollback, execute_rollback_undoes, apply_all}

-- A digest that tells these journals apart well enough for a run.
abbrev digest : JournalFile → String
digest f = "sum of " <> f.updated_at

abbrev empty_disk : Disk Content
empty_disk = record {
  files = [];
  temp = none;
  torn = garbage;
  read_fails = false;
  remove_fails = false;
  fails = λ s. false;
}

abbrev fresh : JournalFile
fresh = new_journal "svc" "dev" "deploy" "t0"

-- The journal as the first commit leaves it.
abbrev first : JournalFile
first = next_revision file_backend digest "t1" fresh

abbrev disk_one : Disk Content
disk_one = record empty_disk { files = (path "svc" "dev", json first) ∷ [] }

saves : (commit file_backend digest "t1" fresh empty_disk).error ≡ none
unfolding commit next_revision new_journal find_conflict load save lookup write_state_file
saves = refl

loads : load "svc" "dev" disk_one ≡ ok first
unfolding load lookup path
loads = refl

-- Two processes have the new journal.
second_writer_is_refused_example :
    let once = commit file_backend digest "t1" fresh empty_disk in
    let twice = commit file_backend digest "t2" fresh once.store in
    (twice.error ≢ none)
    × (load "svc" "dev" twice.store ≡ ok once.file)
    × (verify_checksum digest once.file ≡ true)
    × (le_int once.file.version (pos 1) ≡ false)
    × (once.file.operations ≡ [])
    × (once.file.checkpoints ≡ [])
    × (once.file.status ≡ status_active)
unfolding new_journal
second_writer_is_refused_example =
    second_writer_is_refused digest "t1" "t2" fresh fresh empty_disk refl refl refl (λ e. cc) refl
      saves

abbrev refused : JournalFile
refused = (commit file_backend digest "t2" fresh disk_one).file

abbrev two_operations : List Operation
two_operations =
    record { type_of = op_create_role; resource = "role"; metadata = [] }
    ∷ record { type_of = op_create_api; resource = "api"; metadata = [] }
    ∷ []

abbrev deployed : JournalFile
deployed = record fresh { operations = two_operations }

-- The resources are the operations that made them, the last first.
abbrev create : Operation → List Operation → List Operation
create op w = op ∷ w

abbrev undo : Operation → List Operation → Option Error × List Operation
undo op [] = (some io, [])
undo op (x ∷ w) = (none, w)

execute_rollback_undoes_example :
    execute_rollback undo (some deployed) (apply_all create deployed.operations []) ≡ ([], [])
execute_rollback_undoes_example = execute_rollback_undoes undo create deployed [] (λ op w. refl)
