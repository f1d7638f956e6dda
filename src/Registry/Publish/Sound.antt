-- ===== src/Registry/Publish/Sound.antt =====
-- apps/registry/internal/store/store.go: an uploaded file has the bytes that were declared, and
-- a write or an upload of another one leaves it so.
use runfabric.Prelude.{
  String, ◌=?=◌, ◌≡◌, sym, ap, subst, true, false, Option, none, some, List, [], ◌∷◌, if◌then◌else◌,
  inl, inr, Bool-cases, Option-cases, lookup, insert, lookup-insert, lookup-insert_cases,
  text_eq_refl, eq_iff, arith,
}
use runfabric.Prelude.Text.{equal_fold}
use runfabric.Errors.{Error, Result, ok, err}
use runfabric.Registry.{PublishSession, PublishSessionFile, Codec}
use runfabric.Registry.Publish.{
  World, Bytes, Store, save_locked, after_save, put_session, dir_of, write_upload,
}
use runfabric.Registry.Publish.Create.{
  PublishFileInput, key_of, file_error, staged_file, stage_files,
}
use runfabric.Registry.Publish.Files.{wrong_size, uploaded_file, uploaded_session}

abbrev Sessions : Type 0
Sessions = List (String × PublishSession)

abbrev pub Uploaded : Type 0
Uploaded = List (String × List (String × Bytes))

-- No file is uploaded yet.
abbrev pub AreStaged : List (String × PublishSessionFile) → Type 0
AreStaged m = (key : String) (f : PublishSessionFile) → lookup key m ≡ some f → f.uploaded ≡ false

same_files {ℓ} : {A : Type ℓ} {x y : A} → Path (Result A) (ok x) (ok y) → x ≡ y
same_files h = cc

pub not_ok {ℓ} : {A : Type ℓ} {e : Error} {x : A} → Path (Result A) (err e) (ok x) → ⊥
not_ok h = cc

pub stage_files-AreStaged :
    (l : List PublishFileInput) (staged files : List (String × PublishSessionFile))
    → stage_files l staged ≡ ok files
    → AreStaged staged
    → AreStaged files
unfolding stage_files staged_file
stage_files-AreStaged [] staged files e h = subst AreStaged (same_files e) h
stage_files-AreStaged (x ∷ l) staged files e h = elim (Option-cases (file_error x)) [
  | inr (y, p) ↦ absurd (not_ok (rw (p, stage_files) at e))
  | inl p ↦
      stage_files-AreStaged l (insert (key_of x) (staged_file x) staged) files
        (rw (p, stage_files) at e)
        λ key f g. elim (lookup-insert_cases (key_of x) key (staged_file x) staged g) [
          | inl q ↦ ap (λ y. y.uploaded) (sym q.1)
          | inr q ↦ h key f q.1
        ]
]

module _ (c : Codec) where
  -- The bytes that are there have the declared checksum and size.
  abbrev pub Matches : PublishSessionFile → Option Bytes → Type 0
  Matches f none = ⊥
  Matches f (some b) =
      (equal_fold (c.sha256_hex b) f.declared_checksum ≡ true)
      × (wrong_size f.declared_size_bytes b ≡ false)

  -- The session has its id, and its uploaded files match their bytes.
  pub record SessionIsSound (id : String) (s : PublishSession) (u : Uploaded) : Type 0 where
    pub has_id : s.session_id ≡ id
    pub files_match :
        (key : String) (f : PublishSessionFile)
        → lookup key s.files ≡ some f
        → f.uploaded ≡ true
        → Matches f (lookup key (dir_of id u))

  abbrev pub IsSound : Sessions → Uploaded → Type 0
  IsSound m u = (id : String) (s : PublishSession) → lookup id m ≡ some s → SessionIsSound id s u

  insert-IsSound :
      (id : String) (s : PublishSession) (m : Sessions) (u : Uploaded)
      → SessionIsSound id s u
      → IsSound m u
      → IsSound (insert id s m) u
  insert-IsSound id s m u h k other t e = elim (lookup-insert_cases id other s m e) [
    | inl q ↦ subst (λ x. SessionIsSound other x u) q.1 (subst (λ i. SessionIsSound i s u) q.0 h)
    | inr q ↦ k other t q.1
  ]

  pub put_session-IsSound :
      (w : World) (id : String) (s : PublishSession) (st : Store)
      → SessionIsSound id s st.uploads
      → IsSound st.db.publish_sessions st.uploads
      → let r = (put_session w id s st).1 in IsSound r.db.publish_sessions r.uploads
  unfolding put_session save_locked after_save
  put_session-IsSound w id s st h k = elim (Bool-cases w.save_fails) [
    | inl e ↦ simp e (insert-IsSound id s st.db.publish_sessions st.uploads h k)
    | inr e ↦ simp e (insert-IsSound id s st.db.publish_sessions st.uploads h k)
  ]

  lookup-write_upload :
      (id other key name : String) (b : Bytes) (st : Store)
      → lookup name (dir_of other (write_upload id key b st).uploads) ≡ (
          if id =?= other
          then (if key =?= name then some b else lookup name (dir_of id st.uploads))
          else lookup name (dir_of other st.uploads))
  unfolding write_upload dir_of
  lookup-write_upload id other key name b st = ground (
    arith,
    lookup-insert id other (insert key b (dir_of id st.uploads)) st.uploads,
    lookup-insert key name b (dir_of id st.uploads),
  )

  -- The uploaded bytes match their file, and the other files of the session keep theirs.
  uploaded-SessionIsSound :
      (w : World) (id key : String) (b : Bytes) (f : PublishSessionFile) (s : PublishSession)
      (st : Store)
      → Matches f (some b)
      → SessionIsSound id s st.uploads
      → SessionIsSound id (uploaded_session w key b f s) (write_upload id key b st).uploads
  unfolding uploaded_session uploaded_file
  uploaded-SessionIsSound w id key b f s st m h = record {
    has_id = h.has_id;
    files_match = λ name g e u. rw (lookup-write_upload id id key name b st) (
        rw (text_eq_refl id) (elim (lookup-insert_cases key name (uploaded_file b f) s.files e) [
          | inl q ↦ rw ((eq_iff key name).1 q.0) (subst (λ x. Matches x (some b)) q.1 m)
          | inr q ↦ rw q.0 (h.files_match name g q.1 u)
        ]));
  }

  other-SessionIsSound :
      (id key other : String) (b : Bytes) (s : PublishSession) (st : Store)
      → (id =?= other) ≡ false
      → SessionIsSound other s st.uploads
      → SessionIsSound other s (write_upload id key b st).uploads
  other-SessionIsSound id key other b s st q h = record {
    has_id = h.has_id;
    files_match = λ name g e u.
        rw (lookup-write_upload id other key name b st) (rw q (h.files_match name g e u));
  }

  -- After the write and the change of the session every session is sound.
  pub uploaded-IsSound :
      (w : World) (id key : String) (b : Bytes) (f : PublishSessionFile) (s : PublishSession)
      (st : Store)
      → Matches f (some b)
      → lookup id st.db.publish_sessions ≡ some s
      → IsSound st.db.publish_sessions st.uploads
      → let r = (put_session w id (uploaded_session w key b f s) (write_upload id key b st)).1 in
        IsSound r.db.publish_sessions r.uploads
  unfolding put_session save_locked after_save write_upload
  uploaded-IsSound w id key b f s st m t h =
      let u = (write_upload id key b st).uploads in
      let all : IsSound (insert id (uploaded_session w key b f s) st.db.publish_sessions) u =
        λ other x e.
          elim (lookup-insert_cases id other (uploaded_session w key b f s) st.db.publish_sessions
            e) [
              | inl q ↦
                  subst (λ y. SessionIsSound other y u) q.1
                    (subst (λ i. SessionIsSound i (uploaded_session w key b f s) u) q.0
                      (uploaded-SessionIsSound w id key b f s st m (h id s t)))
              | inr q ↦ other-SessionIsSound id key other b x st q.0 (h other x q.1)
            ] in
      elim (Bool-cases w.save_fails) [ inl e ↦ simp e all | inr e ↦ simp e all ]
