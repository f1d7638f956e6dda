-- ===== src/Registry/Publish/Files.antt =====
-- apps/registry/internal/store/store.go: UploadPublishFile and PublishStatus.
use runfabric.Prelude.{
  suc, zero, String, ◌<>◌, ◌=?=◌, Bool, true, false, not, ◌==◌, ◌||◌, none, some, if◌then◌else◌,
  lookup, insert, length,
}
use runfabric.Prelude.Int.{ℤ, pos, negsuc}
use runfabric.Prelude.Text.{trim_space, equal_fold}
use runfabric.Errors.{Error, message, io, Result, ok, err}
use runfabric.Registry.{PublishSession, PublishSessionFile, Codec}
use runfabric.Registry.Publish.{
  Write, intact, untouched, cut_short, World, Bytes, Store, Answer, put_session, write_upload,
}

abbrev pub session_not_found : Error
session_not_found = message "publish session not found"

unfoldable pub wrong_size : ℤ → Bytes → Bool
wrong_size (pos zero) b = false
wrong_size (pos (suc n)) b = not (suc n == length b)
wrong_size (negsuc n) b = false

unfoldable pub uploaded_file : Bytes → PublishSessionFile → PublishSessionFile
uploaded_file b f = record f { uploaded = true; uploaded_size_bytes = length b }

unfoldable pub uploaded_session :
    World → String → Bytes → PublishSessionFile → PublishSession → PublishSession
uploaded_session w key b f s = record s {
  files = insert key (uploaded_file b f) s.files;
  status = "uploaded";
  updated_at = w.now;
  uploaded_at = w.now;
}

-- os.WriteFile, and what follows it.
unfoldable pub after_write :
    Write → World → String → String → Bytes → PublishSessionFile → PublishSession → Store → Answer
after_write intact w id key b f s st =
    put_session w id (uploaded_session w key b f s) (write_upload id key b st)
after_write untouched w id key b f s st = (err io, st)
after_write (cut_short left) w id key b f s st = (err io, write_upload id key left st)

unfoldable pub upload_file :
    Codec → World → String → String → Bytes → PublishSessionFile → PublishSession → Store → Answer
upload_file c w id key b f s st =
    if not (equal_fold (c.sha256_hex b) f.declared_checksum)
    then (err (message ("checksum mismatch for key " <> key)), st)
    else if wrong_size f.declared_size_bytes b
    then (err (message ("size mismatch for key " <> key)), st)
    else if w.mkdir_fails
    then (err io, st)
    else after_write w.write w id key b f s st

unfoldable pub upload_to : Codec → World → String → String → Bytes → Store → Answer
upload_to c w id key b st = elim (lookup id st.db.publish_sessions) [
  | none ↦ (err session_not_found, st)
  | some s ↦ elim (lookup key s.files) [
    | none ↦ (err (message "publish file key not staged"), st)
    | some f ↦ upload_file c w id key b f s st
  ]
]

unfoldable pub upload_publish_file : Codec → World → String → String → Bytes → Store → Answer
upload_publish_file c w publish_id key b st =
    let id = trim_space publish_id in
    let k = trim_space key in
    if id =?= "" || k =?= ""
    then (err (message "publish id and key are required"), st)
    else upload_to c w id k b st

unfoldable pub publish_status : String → Store → Result PublishSession
publish_status publish_id st = elim (lookup (trim_space publish_id) st.db.publish_sessions) [
  | none ↦ err session_not_found
  | some s ↦ ok s
]
