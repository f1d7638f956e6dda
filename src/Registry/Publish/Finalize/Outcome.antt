-- ===== src/Registry/Publish/Finalize/Outcome.antt =====
-- apps/registry/internal/store/store.go: the ways in which FinalizePublish ends.
use runfabric.Prelude.{
  String, ◌≡◌, refl, true, false, ◌&&◌, none, some, inl, inr, Bool-cases, Option-cases, lookup,
}
use runfabric.Prelude.Text.{trim_space}
use runfabric.Errors.{Error, err}
use runfabric.Registry.{PublishSession, PublishSessionFile, Codec}
use runfabric.Registry.Publish.{World, Bytes, Store, Answer, stored_file}
use runfabric.Registry.Publish.Finalize.{
  all_uploaded, first_key, version_of_session, extension_of, add_extension, must_sign, new_artifact,
  publish_artifact, is_unsigned, publish_bytes, publish_file, publish_first, publish_new,
  finalize_session, finalize_publish,
}

module _ (c : Codec) (w : World) (id : String) (s : PublishSession) where
  -- What holds where the version of the session is published.
  pub record IsReady (key : String) (f : PublishSessionFile) (b : Bytes) (st : Store) : Type 0 where
    pub first : first_key s.files ≡ some key
    pub staged : lookup key s.files ≡ some f
    pub stored : stored_file s.session_id key st ≡ some b
    pub is_new : lookup (version_of_session s) (extension_of s st.db).versions ≡ none

  -- The answer is an error and the store stays, or a version is published.
  pub data Ends (st : Store) (r : Answer) : Type 0 where
    stopped : (e : Error) → r ≡ (err e, st) → Ends st r
    published :
        (key : String) (f : PublishSessionFile) (b : Bytes)
        → IsReady key f b st
        → r ≡ publish_artifact c w id s (new_artifact c s key f b st.db) st
        → Ends st r

  must_sign-signs :
      (key : String) (f : PublishSessionFile) (b : Bytes) (st : Store)
      → (must_sign s st.db && is_unsigned (new_artifact c s key f b st.db).signature) ≡ false
  unfolding new_artifact
  must_sign-signs key f b st = elim (Bool-cases (must_sign s st.db)) [
    | inl e ↦ rw e refl
    | inr e ↦ rw e refl
  ]

  pub publish_bytes-eq-publish_artifact :
      (key : String) (f : PublishSessionFile) (b : Bytes) (st : Store)
      → publish_bytes c w id s key f b st
        ≡ publish_artifact c w id s (new_artifact c s key f b st.db) st
  unfolding publish_bytes
  publish_bytes-eq-publish_artifact key f b st = rw (must_sign-signs key f b st, publish_bytes) refl

  publish_new-Ends : (st : Store) → Ends st (publish_new c w id s st)
  unfolding publish_new publish_first publish_file
  publish_new-Ends st =
      elim (Option-cases (lookup (version_of_session s) (extension_of s st.db).versions)) [
        | inr (v, e) ↦ rw (e, publish_new) (stopped _ refl)
        | inl new ↦
            rw (new, publish_new)
              (elim (Option-cases (first_key s.files)) [
                | inl e ↦ rw (e, publish_first) (stopped _ refl)
                | inr (key, first) ↦
                    rw (first, publish_first)
                      (elim (Option-cases (lookup key s.files)) [
                        | inl e ↦ rw (e, publish_first) (stopped _ refl)
                        | inr (f, staged) ↦
                            rw (staged, publish_first)
                              (elim (Option-cases (stored_file s.session_id key st)) [
                                | inl e ↦ rw (e, publish_file) (stopped _ refl)
                                | inr (b, stored) ↦
                                    rw (stored, publish_file)
                                      (elim (Bool-cases w.read_fails) [
                                        | inl e ↦ simp e (stopped _ refl)
                                        | inr e ↦ simp e (
                                            published key f b
                                              (record {
                                                first = first;
                                                staged = staged;
                                                stored = stored;
                                                is_new = new;
                                              })
                                              (publish_bytes-eq-publish_artifact key f b st))
                                      ])
                              ])
                      ])
              ])
      ]

-- The answer is an error and the store stays, or the session is complete and its extension is there or made.
pub data Finalizes (c : Codec) (w : World) (publish_id : String) (st : Store) (r : Answer)
    : Type 0 where
  refused : (e : Error) → r ≡ (err e, st) → Finalizes c w publish_id st r
  completed :
      (s : PublishSession)
      → lookup (trim_space publish_id) st.db.publish_sessions ≡ some s
      → all_uploaded s.files ≡ true
      → Ends c w (trim_space publish_id) s (add_extension s st) r
      → Finalizes c w publish_id st r

pub finalize_publish-Finalizes :
    (c : Codec) (w : World) (publish_id : String) (st : Store)
    → Finalizes c w publish_id st (finalize_publish c w publish_id st)
unfolding finalize_publish finalize_session
finalize_publish-Finalizes c w publish_id st =
    elim (Option-cases (lookup (trim_space publish_id) st.db.publish_sessions)) [
      | inl e ↦ rw (e, finalize_publish) (refused _ refl)
      | inr (s, e) ↦
          rw (e, finalize_publish)
            (elim (Bool-cases (all_uploaded s.files)) [
              | inr n ↦ rw n (refused _ refl)
              | inl n ↦ rw n (
                  completed s e n
                    (publish_new-Ends c w (trim_space publish_id) s (add_extension s st)))
            ])
    ]
