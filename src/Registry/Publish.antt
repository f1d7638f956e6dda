-- ===== src/Registry/Publish.antt =====
-- apps/registry/internal/store/store.go: CreatePublishSession, UploadPublishFile and FinalizePublish. A store
-- keeps its data in memory and the database file that saveLocked writes beside the uploaded files, which
-- are kept by the session and the key whose path they have: a key is a plain file name.
pub mod Create
pub mod Files
pub mod Finalize
pub mod Outcome
pub mod Run
pub mod Saved
pub mod Immutable
pub mod Sound
pub mod Integrity
pub mod Genuine
pub mod Owner
use runfabric.Prelude.{
  ℕ, String, ◌=?=◌, Bool, true, false, not, ◌&&◌, Option, none, some, List, [], ◌∷◌, if◌then◌else◌,
  lookup, insert,
}
use runfabric.Errors.{Error, message, io, not_exist, Result, ok, err}
use runfabric.Registry.{PublishSession, Data}

-- What becomes of a written file: it is written, not touched, or cut short to some bytes with an error.
pub data Write : Type 0 where
  intact : Write
  untouched : Write
  cut_short : List ℕ → Write

-- The clock, as a time and as its nanoseconds, and what the system calls of an operation do.
pub record World : Type 0 where
  pub now : String
  pub nanoseconds : String
  pub save_fails : Bool
  pub mkdir_fails : Bool
  pub read_fails : Bool
  pub write : Write

abbrev pub Bytes : Type 0
Bytes = List ℕ

pub record Store : Type 0 where
  pub db : Data
  pub saved : Data
  pub uploads : List (String × List (String × Bytes))

-- UploadPublishFile answers with an error or none; `ok` has the session that it stored.
abbrev pub Answer : Type 0
Answer = Result PublishSession × Store

-- saveLocked, which replaces the database file or leaves it.
unfoldable pub save_locked : World → Store → Option Error × Store
save_locked w st = if w.save_fails then (some io, st) else (none, record st { saved = st.db })

unfoldable pub after_save : PublishSession → Option Error × Store → Answer
after_save s (none, st) = (ok s, st)
after_save s (some e, st) = (err e, st)

-- The session is stored under its id, and the data saved.
unfoldable pub put_session : World → String → PublishSession → Store → Answer
unfolding save_locked after_save
put_session w id s st = after_save s (
    save_locked w
      (record st { db = record st.db { publish_sessions = insert id s st.db.publish_sessions } }))

-- A missing entry of Go's map of texts is the empty text.
unfoldable pub text_at : String → List (String × String) → String
text_at key m = elim (lookup key m) [ some t ↦ t | none ↦ "" ]

unfoldable pub dir_of : String → List (String × List (String × Bytes)) → List (String × Bytes)
dir_of id uploads = elim (lookup id uploads) [ some files ↦ files | none ↦ [] ]

-- The uploaded file of a key of a session.
unfoldable pub stored_file : String → String → Store → Option Bytes
stored_file id key st = lookup key (dir_of id st.uploads)

unfoldable pub write_upload : String → String → Bytes → Store → Store
write_upload id key b st = record st {
  uploads = insert id (insert key b (dir_of id st.uploads)) st.uploads;
}

-- loadOrSeed on a database file that is there.
unfoldable pub restart : Store → Store
restart st = record st { db = st.saved }
