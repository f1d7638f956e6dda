-- ===== src/Registry/Publish/Integrity.antt =====
-- apps/registry/internal/store/store.go: what is published has the bytes that were declared.
use runfabric.Prelude.{
  String, ◌≡◌, refl, subst, Bool, true, false, List, [], ◌∷◌, inl, inr, Option-cases, lookup, All,
}
use runfabric.Prelude.Text.{trim_space}
use runfabric.Registry.{PublishSession, PublishSessionFile, Codec}
use runfabric.Registry.Publish.{Write, intact, untouched, cut_short, World, Bytes, Store, Answer}
use runfabric.Registry.Publish.Sound.{
  Uploaded, AreStaged, stage_files-AreStaged, SessionIsSound, IsSound, put_session-IsSound,
  uploaded-IsSound,
}
use runfabric.Registry.Publish.Outcome.{
  Creates, created, create_publish_session-Creates, Uploads, was_cut, uploaded,
  upload_publish_file-Uploads,
}
use runfabric.Registry.Publish.Create.{PublishInitInput, new_session, publish_id}
use runfabric.Registry.Publish.Finalize.{
  id_of_session, put_extension, add_extension, publish_artifact, published_session,
}
use runfabric.Registry.Publish.Finalize.Outcome.{
  Ends, stopped, published, Finalizes, completed, finalize_publish-Finalizes,
}
use runfabric.Registry.Publish.Run.{
  Request, create, upload, finalize, answer_of, Event, request, relaunched, after, run,
}

abbrev pub StoreIsSound : Codec → Store → Type 0
StoreIsSound c st = IsSound c st.db.publish_sessions st.uploads

-- The write of a file is not cut short.
abbrev IsWhole : Write → Type 0
IsWhole intact = Unit
IsWhole untouched = Unit
IsWhole (cut_short left) = ⊥

-- A request whose write is not cut short, and no restart.
abbrev pub IsClean : Event → Type 0
IsClean (request w r) = IsWhole w.write
IsClean relaunched = ⊥

not_uploaded : {b : Bool} → b ≡ false → b ≡ true → ⊥
not_uploaded p q = cc

no_files : AreStaged []
unfolding lookup
no_files key f e = cc

add_extension_sessions :
    (s : PublishSession) (st : Store)
    → (add_extension s st).db.publish_sessions ≡ st.db.publish_sessions
unfolding add_extension put_extension
add_extension_sessions s st = elim (Option-cases (lookup (id_of_session s) st.db.extensions)) [
  | inl e ↦ rw (e, add_extension) refl
  | inr (x, e) ↦ rw (e, add_extension) refl
]

pub add_extension_uploads :
    (s : PublishSession) (st : Store) → (add_extension s st).uploads ≡ st.uploads
unfolding add_extension put_extension
add_extension_uploads s st = elim (Option-cases (lookup (id_of_session s) st.db.extensions)) [
  | inl e ↦ rw (e, add_extension) refl
  | inr (x, e) ↦ rw (e, add_extension) refl
]

module _ (c : Codec) where
  created-SessionIsSound :
      (w : World) (req : PublishInitInput) (files : List (String × PublishSessionFile))
      (u : Uploaded)
      → AreStaged files
      → SessionIsSound c (publish_id w) (new_session w req files) u
  unfolding new_session
  created-SessionIsSound w req files u h = record {
    has_id = refl;
    files_match = λ key f e p. absurd (not_uploaded (h key f e) p);
  }

  Creates-IsSound :
      {w : World} {req : PublishInitInput} {st : Store} {r : Answer}
      → Creates w req st r
      → StoreIsSound c st
      → StoreIsSound c r.1
  Creates-IsSound (Creates.refused e p) h = rw p h
  Creates-IsSound {w = w} {req = req} {st = st} (created files q p) h =
      let fresh = stage_files-AreStaged req.files [] files q no_files in
      rw p (
        put_session-IsSound c w (publish_id w) (new_session w req files) st
          (created-SessionIsSound w req files st.uploads fresh) h)

  published-SessionIsSound :
      (w : World) (id : String) (s : PublishSession) (u : Uploaded)
      → SessionIsSound c id s u
      → SessionIsSound c id (published_session w s) u
  unfolding published_session
  published-SessionIsSound w id s u h = record { has_id = h.has_id; files_match = h.files_match }

  with_extension-IsSound :
      (s : PublishSession) (st : Store) → StoreIsSound c st → StoreIsSound c (add_extension s st)
  with_extension-IsSound s st h =
      rw (add_extension_sessions s st) (rw (add_extension_uploads s st) h)

  module _ {w : World} where
    Uploads-IsSound :
        {id key : String} {b : Bytes} {st : Store} {r : Answer}
        → IsWhole w.write
        → Uploads c w id key b st r
        → StoreIsSound c st
        → StoreIsSound c r.1
    Uploads-IsSound whole (Uploads.refused e p) h = rw p h
    Uploads-IsSound whole (was_cut left q p) h = absurd (subst IsWhole q whole)
    Uploads-IsSound {id = id} {key = key} {b = b} {st = st} whole (uploaded s f t g x y p) h =
        rw p (uploaded-IsSound c w id key b f s st (x, y) t h)

    Ends-IsSound :
        {id : String} {s : PublishSession} {st : Store} {r : Answer}
        → Ends c w id s st r
        → SessionIsSound c id s st.uploads
        → StoreIsSound c st
        → StoreIsSound c r.1
    unfolding publish_artifact put_extension
    Ends-IsSound (stopped e p) k h = rw p h
    Ends-IsSound {id = id} {s = s} {st = st} (published key f b ready p) k h = rw p (
        put_session-IsSound c w id (published_session w s) (put_extension s _ st)
          (published-SessionIsSound w id s st.uploads k) h)

    Finalizes-IsSound :
        {id : String} {st : Store} {r : Answer}
        → Finalizes c w id st r
        → StoreIsSound c st
        → StoreIsSound c r.1
    Finalizes-IsSound (Finalizes.refused e p) h = rw p h
    Finalizes-IsSound {id = id} {st = st} (completed s t n ends) h =
        Ends-IsSound ends (rw (add_extension_uploads s st) (h (trim_space id) s t))
          (with_extension-IsSound s st h)

  answer_of-IsSound :
      (w : World) (req : Request) (st : Store)
      → IsWhole w.write
      → StoreIsSound c st
      → StoreIsSound c (answer_of c w req st).1
  unfolding answer_of
  answer_of-IsSound w (create req) st whole h =
      Creates-IsSound (create_publish_session-Creates w req st) h
  answer_of-IsSound w (upload id key b) st whole h =
      Uploads-IsSound whole (upload_publish_file-Uploads c w id key b st) h
  answer_of-IsSound w (finalize id) st whole h =
      Finalizes-IsSound (finalize_publish-Finalizes c w id st) h

  pub run-IsSound :
      (events : List Event) (st : Store)
      → All IsClean events
      → StoreIsSound c st
      → StoreIsSound c (run c events st)
  unfolding run after
  run-IsSound [] st k h = h
  run-IsSound (request w r ∷ rest) st k h =
      run-IsSound rest (answer_of c w r st).1 k.1 (answer_of-IsSound w r st k.0 h)
  run-IsSound (relaunched ∷ rest) st k h = absurd k.0
