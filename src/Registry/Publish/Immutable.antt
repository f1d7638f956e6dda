-- ===== src/Registry/Publish/Immutable.antt =====
-- apps/registry/internal/store/store.go: what is published stays as it is.
use runfabric.Prelude.{
  String, ◌=?=◌, ◌≡◌, sym, ◌∙◌, true, Option, none, some, List, [], ◌∷◌, inl, inr, Bool-cases,
  Option-cases, lookup, lookup-insert, eq_iff,
}
use runfabric.Registry.{ExtensionVersion, Extension, PublishSession, Data, Codec}
use runfabric.Registry.Publish.{
  World, Bytes, Store, Answer, save_locked, after_save, put_session, write_upload, restart,
}
use runfabric.Registry.Publish.Outcome.{
  Creates, created, create_publish_session-Creates, Uploads, was_cut, uploaded,
  upload_publish_file-Uploads,
}
use runfabric.Registry.Publish.Create.{PublishInitInput}
use runfabric.Registry.Publish.Finalize.{
  id_of_session, version_of_session, extension_of, put_extension, add_extension, add_version,
  publish_artifact, new_extension,
}
use runfabric.Registry.Publish.Finalize.Outcome.{
  Ends, stopped, published, Finalizes, completed, finalize_publish-Finalizes,
}
use runfabric.Registry.Publish.Run.{
  Request, create, upload, finalize, answer_of, Event, request, relaunched, after, run,
}
use runfabric.Registry.Publish.Saved.{Saves, answered, failed, answer_of-Saves}

abbrev pub version_in : String → Option Extension → Option (Option ExtensionVersion)
version_in version none = none
version_in version (some e) = lookup version e.versions

-- What the data hold under an extension's id and a version.
unfoldable pub version_at : String → String → Data → Option (Option ExtensionVersion)
version_at id version d = version_in version (lookup id d.extensions)

module _ (id version : String) (v : Option ExtensionVersion) where
  -- The version is there, as `v`.
  abbrev Holds : Data → Type 0
  Holds d = version_at id version d ≡ some v

  put_extension-Holds :
      (s : PublishSession) (e : Extension) (st : Store)
      → ((id_of_session s =?= id) ≡ true → lookup version e.versions ≡ some v)
      → Holds st.db
      → Holds (put_extension s e st).db
  unfolding version_at put_extension
  put_extension-Holds s e st f h = elim (Bool-cases (id_of_session s =?= id)) [
    | inl q ↦ rw (lookup-insert (id_of_session s) id e st.db.extensions) (rw q (f q))
    | inr q ↦ rw (lookup-insert (id_of_session s) id e st.db.extensions) (rw q h)
  ]

  found :
      (s : PublishSession) (st : Store)
      → (id_of_session s =?= id) ≡ true
      → Holds st.db
      → lookup version (extension_of s st.db).versions ≡ some v
  unfolding version_at extension_of
  found s st q h =
      let name = (eq_iff (id_of_session s) id).0 q in
      let here : version_in version (lookup (id_of_session s) st.db.extensions) ≡ some v =
        rw name h in
      elim (Option-cases (lookup (id_of_session s) st.db.extensions)) [
        | inl p ↦
            let none_there : Path (Option (Option ExtensionVersion)) none (some v) = rw p at here in
            cc
        | inr (x, p) ↦ rw (p, extension_of) (rw p at here)
      ]

  add_extension-Holds :
      (s : PublishSession) (st : Store) → Holds st.db → Holds (add_extension s st).db
  unfolding add_extension extension_of
  add_extension-Holds s st h = elim (Option-cases (lookup (id_of_session s) st.db.extensions)) [
    | inr (x, p) ↦ rw (p, add_extension) h
    | inl p ↦
        rw (p, add_extension)
          (put_extension-Holds s (new_extension s) st
            (λ q. rw (p, extension_of) at (found s st q h)) h)
  ]

  put_session-Holds :
      (w : World) (key : String) (s : PublishSession) (st : Store)
      → Holds st.db
      → Holds (put_session w key s st).1.db
  unfolding put_session save_locked after_save version_at
  put_session-Holds w key s st h = elim (Bool-cases w.save_fails) [
    | inl e ↦ simp e h
    | inr e ↦ simp e h
  ]

  -- A version is added only where none is.
  other_version :
      (s : PublishSession) (e : Extension) (new : Option ExtensionVersion)
      → lookup (version_of_session s) e.versions ≡ none
      → lookup version e.versions ≡ some v
      → lookup version (add_version new s e).versions ≡ some v
  unfolding add_version
  other_version s e new p h =
      rw (lookup-insert (version_of_session s) version new e.versions)
        (elim (Bool-cases (version_of_session s =?= version)) [
          | inl q ↦
              let both : Path (Option (Option ExtensionVersion)) none (some v) =
                sym p ∙ rw ((eq_iff (version_of_session s) version).0 q) h in
              cc
          | inr q ↦ rw q h
        ])

  Creates-Holds :
      {w : World} {req : PublishInitInput} {st : Store} {r : Answer}
      → Creates w req st r
      → Holds st.db
      → Holds r.1.db
  Creates-Holds (Creates.refused e p) h = rw p h
  Creates-Holds {w = w} {st = st} (created files q p) h = rw p (put_session-Holds w _ _ st h)

  module _ {c : Codec} {w : World} where
    Uploads-Holds :
        {key_id key : String} {b : Bytes} {st : Store} {r : Answer}
        → Uploads c w key_id key b st r
        → Holds st.db
        → Holds r.1.db
    unfolding write_upload
    Uploads-Holds (Uploads.refused e p) h = rw p h
    Uploads-Holds (was_cut left q p) h = rw p h
    Uploads-Holds {key_id = i} {key = key} {b = b} {st = st} (uploaded s f t g x y p) h =
        rw p (put_session-Holds w i _ (write_upload i key b st) h)

    Ends-Holds :
        {key : String} {s : PublishSession} {st : Store} {r : Answer}
        → Ends c w key s st r
        → Holds st.db
        → Holds r.1.db
    unfolding publish_artifact
    Ends-Holds (stopped e p) h = rw p h
    Ends-Holds {key = key} {s = s} {st = st} (published k f b ready p) h = rw p (
        put_session-Holds w key _ (put_extension s _ st) (
          put_extension-Holds s _ st
            (λ q. other_version s (extension_of s st.db) _ ready.is_new (found s st q h)) h))

    Finalizes-Holds :
        {publish_id : String} {st : Store} {r : Answer}
        → Finalizes c w publish_id st r
        → Holds st.db
        → Holds r.1.db
    Finalizes-Holds (Finalizes.refused e p) h = rw p h
    Finalizes-Holds {st = st} (completed s q n ends) h =
        Ends-Holds ends (add_extension-Holds s st h)

  answer_of-Holds :
      (c : Codec) (w : World) (req : Request) (st : Store)
      → Holds st.db
      → Holds (answer_of c w req st).1.db
  unfolding answer_of
  answer_of-Holds c w (create req) st h = Creates-Holds (create_publish_session-Creates w req st) h
  answer_of-Holds c w (upload key_id key b) st h =
      Uploads-Holds (upload_publish_file-Uploads c w key_id key b st) h
  answer_of-Holds c w (finalize key) st h =
      Finalizes-Holds (finalize_publish-Finalizes c w key st) h

  -- Both the data in memory and the saved data hold the version.
  pub record IsPublished (st : Store) : Type 0 where
    pub in_memory : Holds st.db
    pub on_disk : Holds st.saved

  after_request :
      (r : Answer) (st : Store) → Saves st r → Holds r.1.db → Holds st.saved → IsPublished r.1
  after_request r st (answered s p q) h k = record { in_memory = h; on_disk = rw q h }
  after_request r st (failed e p q) h k = record { in_memory = h; on_disk = rw q k }

  after-IsPublished :
      (c : Codec) (e : Event) (st : Store) → IsPublished st → IsPublished (after c e st)
  unfolding after restart
  after-IsPublished c (request w req) st h =
      after_request (answer_of c w req st) st (answer_of-Saves c w req st)
        (answer_of-Holds c w req st h.in_memory) h.on_disk
  after-IsPublished c relaunched st h = record { in_memory = h.on_disk; on_disk = h.on_disk }

-- A version that is in memory and saved stays in both, as it is, whatever requests and restarts follow and
-- whichever system calls of them fail.
pub run-IsPublished :
    (c : Codec) (id version : String) (v : Option ExtensionVersion) (events : List Event)
    (st : Store)
    → IsPublished id version v st
    → IsPublished id version v (run c events st)
unfolding run
run-IsPublished c id version v [] st h = h
run-IsPublished c id version v (e ∷ rest) st h =
    run-IsPublished c id version v rest (after c e st) (after-IsPublished id version v c e st h)
