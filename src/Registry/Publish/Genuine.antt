-- ===== src/Registry/Publish/Genuine.antt =====
-- apps/registry/internal/store/store.go: the artifact of a published version describes the uploaded bytes.
use runfabric.Prelude.{
  String, ◌≡◌, refl, sym, ◌∙◌, ap, subst, true, Option, none, some, List, [], ◌∷◌, inl, inr,
  Bool-cases, lookup, lookup-insert_self, length, arith, All,
}
use runfabric.Prelude.Int.{pos}
use runfabric.Prelude.Text.{trim_space, equal_fold}
use runfabric.Errors.{Result, ok}
use runfabric.Registry.{
  Artifact, ExtensionVersion, Extension, PublishSession, PublishSessionFile, Codec,
}
use runfabric.Registry.Publish.{
  World, Bytes, Store, Answer, save_locked, after_save, put_session, dir_of, stored_file,
}
use runfabric.Registry.Publish.Finalize.{
  all_uploaded, id_of_session, version_of_session, extension_of, put_extension, add_extension,
  add_version, new_artifact, new_version, publish_artifact, published_session, finalize_publish,
}
use runfabric.Registry.Publish.Finalize.Outcome.{
  Ends, stopped, published, Finalizes, completed, finalize_publish-Finalizes,
}
use runfabric.Registry.Publish.Run.{Event, run}
use runfabric.Registry.Publish.Immutable.{version_in, version_at}
use runfabric.Registry.Publish.Sound.{SessionIsSound, Matches, not_ok}
use runfabric.Registry.Publish.Integrity.{StoreIsSound, IsClean, add_extension_uploads, run-IsSound}

all_uploaded-lookup :
    (m : List (String × PublishSessionFile)) (key : String) (f : PublishSessionFile)
    → all_uploaded m ≡ true
    → lookup key m ≡ some f
    → f.uploaded ≡ true
unfolding all_uploaded lookup
all_uploaded-lookup [] key f h e = cc
all_uploaded-lookup ((k, g) ∷ rest) key f h e = ground (arith, all_uploaded-lookup rest key f)

module _ (c : Codec) where
  -- The version that the session names has one artifact, with the size of the uploaded bytes of a key of the
  -- session, and with their checksum.
  pub record IsGenuine (id : String) (s : PublishSession) (st : Store) : Type 0 where
    pub version : ExtensionVersion
    pub artifact : Artifact
    pub key : String
    pub bytes : Bytes
    pub is_published :
        version_at (id_of_session s) (version_of_session s) st.db ≡ some (some version)
    pub only_artifact : version.artifacts ≡ artifact ∷ []
    pub is_stored : stored_file id key st ≡ some bytes
    pub has_checksum : equal_fold (c.sha256_hex bytes) artifact.checksum_value ≡ true
    pub has_size : artifact.size_bytes ≡ pos (length bytes)

  put_version :
      (s : PublishSession) (v : ExtensionVersion) (e : Extension) (st : Store)
      → version_at
          (id_of_session s)
          (version_of_session s)
          (put_extension s (add_version (some v) s e) st).db
        ≡ some (some v)
  unfolding version_at put_extension add_version
  put_version s v e st =
      rw
        (
          lookup-insert_self (id_of_session s) (add_version (some v) s e) st.db.extensions,
          add_version,
        )
        (lookup-insert_self (version_of_session s) (some v) e.versions)

  same_session : {x y : PublishSession} → Path (Result PublishSession) (ok x) (ok y) → x ≡ y
  same_session h = cc

  -- A save that is answered without an error gives back the session and leaves the versions and the files.
  put_session-ok :
      (w : World) (id : String) (s : PublishSession) (st : Store) {x : PublishSession}
      → (put_session w id s st).0 ≡ ok x
      → (s ≡ x)
        × ((put_session w id s st).1.db.extensions ≡ st.db.extensions)
        × ((put_session w id s st).1.uploads ≡ st.uploads)
  unfolding put_session save_locked after_save
  put_session-ok w id s st h = elim (Bool-cases w.save_fails) [
    | inl e ↦ absurd (not_ok (simp e at h))
    | inr e ↦ simp e (same_session (simp e at h), refl, refl)
  ]

  matching :
      (f : PublishSessionFile) (o : Option Bytes) (b : Bytes)
      → o ≡ some b
      → Matches c f o
      → equal_fold (c.sha256_hex b) f.declared_checksum ≡ true
  matching f o b e h = let m : Matches c f (some b) = subst (Matches c f) e h in m.0

  Ends-IsGenuine :
      (w : World) (id : String) (s : PublishSession) (st : Store) (r : Answer) (x : PublishSession)
      → Ends c w id s st r
      → all_uploaded s.files ≡ true
      → SessionIsSound c id s st.uploads
      → r.0 ≡ ok x
      → IsGenuine id x r.1
  unfolding publish_artifact version_at stored_file new_version new_artifact published_session
      put_extension
  Ends-IsGenuine w id s st r x (stopped e p) n h q = absurd (not_ok (sym (ap (λ y. y.0) p) ∙ q))
  Ends-IsGenuine w id s st r x (published key f b ready p) n h q =
      let a = new_artifact c s key f b st.db in
      let v = new_version w s a in
      let e = add_version (some v) s (extension_of s st.db) in
      let (same, kept, files) =
        put_session-ok w id (published_session w s) (put_extension s e st)
          (sym (ap (λ y. y.0) p) ∙ q) in
      let stored : lookup key (dir_of id st.uploads) ≡ some b =
        subst (λ i. stored_file i key st ≡ some b) h.has_id ready.stored in
      record {
        version = v;
        artifact = a;
        key = key;
        bytes = b;
        is_published =
            ap (λ y. version_at (id_of_session y) (version_of_session y) r.1.db) (sym same)
            ∙ ap (λ y. version_in (version_of_session s) (lookup (id_of_session s) y))
                (ap (λ y. y.1.db.extensions) p ∙ kept)
            ∙ put_version s v (extension_of s st.db) st;
        only_artifact = refl;
        is_stored = ap (λ y. lookup key (dir_of id y)) (ap (λ y. y.1.uploads) p ∙ files) ∙ stored;
        has_checksum =
            matching f (lookup key (dir_of id st.uploads)) b stored
              (h.files_match key f ready.staged (all_uploaded-lookup s.files key f n ready.staged));
        has_size = refl;
      }

  Finalizes-IsGenuine :
      (w : World) (publish_id : String) (st : Store) (r : Answer) (x : PublishSession)
      → Finalizes c w publish_id st r
      → StoreIsSound c st
      → r.0 ≡ ok x
      → IsGenuine (trim_space publish_id) x r.1
  Finalizes-IsGenuine w publish_id st r x (Finalizes.refused e p) h q =
      absurd (not_ok (sym (ap (λ y. y.0) p) ∙ q))
  Finalizes-IsGenuine w publish_id st r x (completed s t n ends) h q =
      Ends-IsGenuine w (trim_space publish_id) s (add_extension s st) r x ends n
        (rw (add_extension_uploads s st) (h (trim_space publish_id) s t)) q

  no_sessions : (st : Store) → st.db.publish_sessions ≡ [] → StoreIsSound c st
  unfolding lookup
  no_sessions st e id s h = let there : Path (Option PublishSession) none (some s) = rw e at h in cc

  -- When a session is finalized without an error, in a store that began without sessions, was not
  -- restarted and in which no write of an upload was cut short, the version that it names is
  -- published with one artifact, whose checksum and size are those of the uploaded bytes.
  pub finalize_publish-IsGenuine :
      (w : World) (events : List Event) (st : Store) (publish_id : String) (s : PublishSession)
      → st.db.publish_sessions ≡ []
      → All IsClean events
      → (finalize_publish c w publish_id (run c events st)).0 ≡ ok s
      → IsGenuine (trim_space publish_id) s (finalize_publish c w publish_id (run c events st)).1
  finalize_publish-IsGenuine w events st publish_id s e clean q =
      let now = run c events st in
      Finalizes-IsGenuine w publish_id now (finalize_publish c w publish_id now) s
        (finalize_publish-Finalizes c w publish_id now)
        (run-IsSound c events st clean (no_sessions st e)) q
