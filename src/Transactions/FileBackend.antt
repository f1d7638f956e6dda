-- ===== src/Transactions/FileBackend.antt =====
-- platform/core/state/transactions/file_backend.go. A journal's file holds a journal, or a text
-- that does not parse as one.
pub mod Laws
use runfabric.Prelude.{String, ◌<>◌, Bool, true, false, Option, none, some, if◌then◌else◌}
use runfabric.Prelude.Int.{le_int}
use runfabric.Errors.{
  Error, not_exist, parse, conflict, wrap, Result, ok, err, ◌>>=◌, ConflictError,
}
use runfabric.Disk.{Disk, read_file, remove_file, write_state_file}
use runfabric.Transactions.Types.{JournalFile}
use runfabric.Transactions.Backend.{Backend}

pub data Content : Type 0 where
  json : JournalFile → Content
  garbage : Content

-- The path below `Root`; the names are taken to hold no path separator.
unfoldable pub path : String → String → String
path service stage = ".runfabric/journals/" <> service <> "-" <> stage <> ".journal.json"

-- json.Unmarshal
unfoldable pub unmarshal : Content → Result JournalFile
unmarshal (json j) = ok j
unmarshal garbage = err (wrap "parse journal" parse)

unfoldable pub load : String → String → Disk Content → Result JournalFile
unfolding read_file unmarshal
load service stage d = read_file (path service stage) d >>= unmarshal

unfoldable pub conflict_error : JournalFile → JournalFile → Error
conflict_error j existing = conflict (record {
  backend = "file";
  service = j.service;
  stage = j.stage;
  resource = "journal";
  current_version = existing.version;
  incoming_version = j.version;
  action = "inspect journal and retry with latest state";
})

-- The conflict with what is on disk, if there is one; an unreadable file is none.
unfoldable pub find_conflict : JournalFile → Result JournalFile → Option Error
unfolding conflict_error
find_conflict j (ok existing) =
    if le_int j.version existing.version then some (conflict_error j existing) else none
find_conflict j (err e) = none

unfoldable pub write_journal : JournalFile → Disk Content → Option Error × Disk Content
write_journal j d =
    let (failed, d') = write_state_file (path j.service j.stage) (json j) d in
    (elim failed [ none ↦ none | some e ↦ some (wrap "write journal" e) ], d')

unfoldable pub save : JournalFile → Disk Content → Option Error × Disk Content
unfolding find_conflict write_journal
save j d = elim (find_conflict j (load j.service j.stage d)) [
  | some e ↦ (some e, d)
  | none ↦ write_journal j d
]

-- An absent file is no error.
unfoldable pub delete_error : Option Error → Option Error
delete_error (some not_exist) = none
delete_error (some e) = some (wrap "delete journal" e)
delete_error none = none

unfoldable pub delete : String → String → Disk Content → Option Error × Disk Content
unfolding remove_file delete_error
delete service stage d =
    let (failed, d') = remove_file (path service stage) d in (delete_error failed, d')

abbrev pub file_backend : Backend (Disk Content)
file_backend = record { load = load; save = save; delete = delete }
