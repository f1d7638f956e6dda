-- ===== src/Registry/Publish/Outcome.antt =====
-- apps/registry/internal/store/store.go: the ways in which CreatePublishSession and UploadPublishFile end.
use runfabric.Prelude.{
  String, ◌=?=◌, ◌||◌, ◌≡◌, refl, true, false, some, List, [], inl, inr, Bool-cases, Option-cases,
  lookup,
}
use runfabric.Prelude.Text.{trim_space, equal_fold}
use runfabric.Errors.{Error, io, ok, err, Result-cases}
use runfabric.Registry.{PublishSession, PublishSessionFile, Codec}
use runfabric.Registry.Publish.{
  Write, intact, untouched, cut_short, World, Bytes, Store, Answer, put_session, write_upload,
}
use runfabric.Registry.Publish.Create.{
  PublishInitInput, init_error, stage_files, publish_id, new_session, create_publish_session,
}
use runfabric.Registry.Publish.Files.{
  wrong_size, uploaded_session, after_write, upload_file, upload_to, upload_publish_file,
}

-- An error and the store stays, or a session of the staged files is put.
pub data Creates (w : World) (req : PublishInitInput) (st : Store) (r : Answer) : Type 0 where
  refused : (e : Error) → r ≡ (err e, st) → Creates w req st r
  created :
      (files : List (String × PublishSessionFile))
      → stage_files req.files [] ≡ ok files
      → r ≡ put_session w (publish_id w) (new_session w req files) st
      → Creates w req st r

pub create_publish_session-Creates :
    (w : World) (req : PublishInitInput) (st : Store)
    → Creates w req st (create_publish_session w req st)
unfolding create_publish_session
create_publish_session-Creates w req st = elim (Option-cases (init_error req)) [
  | inr (e, p) ↦ rw (p, create_publish_session) (refused e refl)
  | inl p ↦
      rw (p, create_publish_session)
        (elim (Result-cases (stage_files req.files [])) [
          | inl (e, q) ↦ rw (q, create_publish_session) (refused e refl)
          | inr (files, q) ↦ rw (q, create_publish_session) (created files q refl)
        ])
]

module _ (c : Codec) (w : World) where
  -- An error and the store stays; or a write that was cut short; or the bytes, which have the declared
  -- checksum and size, are written and the file is marked.
  pub data Uploads (id key : String) (b : Bytes) (st : Store) (r : Answer) : Type 0 where
    refused : (e : Error) → r ≡ (err e, st) → Uploads id key b st r
    was_cut :
        (left : Bytes)
        → w.write ≡ cut_short left
        → r ≡ (err io, write_upload id key left st)
        → Uploads id key b st r
    uploaded :
        (s : PublishSession) (f : PublishSessionFile)
        → lookup id st.db.publish_sessions ≡ some s
        → lookup key s.files ≡ some f
        → equal_fold (c.sha256_hex b) f.declared_checksum ≡ true
        → wrong_size f.declared_size_bytes b ≡ false
        → r ≡ put_session w id (uploaded_session w key b f s) (write_upload id key b st)
        → Uploads id key b st r

  module _ (id key : String) (b : Bytes) (s : PublishSession) (f : PublishSessionFile) (st : Store)
      (there : lookup id st.db.publish_sessions ≡ some s)
      (staged : lookup key s.files ≡ some f) where
    after_write-Uploads :
        (x : Write)
        → w.write ≡ x
        → equal_fold (c.sha256_hex b) f.declared_checksum ≡ true
        → wrong_size f.declared_size_bytes b ≡ false
        → Uploads id key b st (after_write x w id key b f s st)
    unfolding after_write
    after_write-Uploads intact e sum size = uploaded s f there staged sum size refl
    after_write-Uploads untouched e sum size = refused io refl
    after_write-Uploads (cut_short left) e sum size = was_cut left e refl

    upload_file-Uploads : Uploads id key b st (upload_file c w id key b f s st)
    unfolding upload_file
    upload_file-Uploads = elim (Bool-cases (equal_fold (c.sha256_hex b) f.declared_checksum)) [
      | inr sum ↦ rw sum (refused _ refl)
      | inl sum ↦ rw sum (elim (Bool-cases (wrong_size f.declared_size_bytes b)) [
        | inl size ↦ rw size (refused _ refl)
        | inr size ↦ rw size (elim (Bool-cases w.mkdir_fails) [
          | inl m ↦ simp m (refused io refl)
          | inr m ↦ simp m (after_write-Uploads w.write refl sum size)
        ])
      ])
    ]

  upload_to-Uploads :
      (id key : String) (b : Bytes) (st : Store) → Uploads id key b st (upload_to c w id key b st)
  unfolding upload_to
  upload_to-Uploads id key b st = elim (Option-cases (lookup id st.db.publish_sessions)) [
    | inl e ↦ rw (e, upload_to) (refused _ refl)
    | inr (s, e) ↦
        rw (e, upload_to)
          (elim (Option-cases (lookup key s.files)) [
            | inl d ↦ rw (d, upload_to) (refused _ refl)
            | inr (f, d) ↦ rw (d, upload_to) (upload_file-Uploads id key b s f st e d)
          ])
  ]

  pub upload_publish_file-Uploads :
      (id key : String) (b : Bytes) (st : Store)
      → Uploads (trim_space id) (trim_space key) b st (upload_publish_file c w id key b st)
  unfolding upload_publish_file
  upload_publish_file-Uploads id key b st =
      elim (Bool-cases (trim_space id =?= "" || trim_space key =?= "")) [
        | inl e ↦ rw e (refused _ refl)
        | inr e ↦ rw e (upload_to-Uploads (trim_space id) (trim_space key) b st)
      ]
