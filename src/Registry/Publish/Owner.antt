-- ===== src/Registry/Publish/Owner.antt =====
-- apps/registry/internal/store/store.go: what FinalizePublish does not look at.
use runfabric.Prelude.{String, ◌≡◌, true, false, none, some, lookup}
use runfabric.Prelude.Text.{trim_space}
use runfabric.Registry.{Artifact, Extension, PublishSession, PublishSessionFile, Codec}
use runfabric.Registry.Publish.{World, Bytes, Store, stored_file}
use runfabric.Registry.Publish.Finalize.{
  all_uploaded, first_key, id_of_session, version_of_session, new_artifact,
}

-- What the code asks of a session whose version is added to an extension that is there.
pub record IsAccepted (w : World) (id : String) (s : PublishSession) (e : Extension) (key : String)
    (f : PublishSessionFile) (st : Store) : Type 0 where
  pub session : lookup id st.db.publish_sessions ≡ some s
  pub is_complete : all_uploaded s.files ≡ true
  pub extension : lookup (id_of_session s) st.db.extensions ≡ some e
  pub is_new : lookup (version_of_session s) e.versions ≡ none
  pub first : first_key s.files ≡ some key
  pub staged : lookup key s.files ≡ some f
  pub reads : w.read_fails ≡ false
  pub saves : w.save_fails ≡ false

module _ (c : Codec) (w : World) (id : String) (s : PublishSession) (e : Extension) (key : String)
    (f : PublishSessionFile) (b : Bytes) (st : Store)
    (h : IsAccepted w (trim_space id) s e key f st)
    (stored : stored_file s.session_id key st ≡ some b) where
  abbrev artifact_there : Artifact
  artifact_there = new_artifact c s key f b st.db
