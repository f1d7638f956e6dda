-- ===== src/Registry/Publish/Saved.antt =====
-- apps/registry/internal/store/store.go: what is saved when a request is answered.
use runfabric.Prelude.{String, ◌≡◌, refl, inl, inr, Bool-cases, Option-cases, lookup}
use runfabric.Errors.{Error, ok, err}
use runfabric.Registry.{PublishSession, Codec}
use runfabric.Registry.Publish.{
  World, Bytes, Store, Answer, save_locked, after_save, put_session, write_upload,
}
use runfabric.Registry.Publish.Outcome.{
  Creates, created, create_publish_session-Creates, Uploads, was_cut, uploaded,
  upload_publish_file-Uploads,
}
use runfabric.Registry.Publish.Create.{PublishInitInput}
use runfabric.Registry.Publish.Finalize.{
  put_extension, add_extension, id_of_session, publish_artifact,
}
use runfabric.Registry.Publish.Finalize.Outcome.{
  Ends, stopped, published, Finalizes, completed, finalize_publish-Finalizes,
}
use runfabric.Registry.Publish.Run.{Request, create, upload, finalize, answer_of}

-- Without an error all data are saved; with one the saved data stay.
pub data Saves (st : Store) (r : Answer) : Type 0 where
  answered : (s : PublishSession) → r.0 ≡ ok s → r.1.saved ≡ r.1.db → Saves st r
  failed : (e : Error) → r.0 ≡ err e → r.1.saved ≡ st.saved → Saves st r

put_session-Saves :
    (w : World) (id : String) (s : PublishSession) (st old : Store)
    → st.saved ≡ old.saved
    → Saves old (put_session w id s st)
unfolding put_session save_locked after_save
put_session-Saves w id s st old h = elim (Bool-cases w.save_fails) [
  | inl e ↦ simp e (failed _ refl h)
  | inr e ↦ simp e (answered _ refl refl)
]

add_extension_saved : (s : PublishSession) (st : Store) → (add_extension s st).saved ≡ st.saved
unfolding add_extension put_extension
add_extension_saved s st = elim (Option-cases (lookup (id_of_session s) st.db.extensions)) [
  | inl e ↦ rw (e, add_extension) refl
  | inr (x, e) ↦ rw (e, add_extension) refl
]

Creates-Saves :
    {w : World} {req : PublishInitInput} {st : Store} {r : Answer} → Creates w req st r → Saves st r
Creates-Saves (Creates.refused e p) = rw p (failed e refl refl)
Creates-Saves {w = w} {st = st} (created files q p) = rw p (put_session-Saves w _ _ st st refl)

module _ {c : Codec} {w : World} where
  Uploads-Saves :
      {id key : String} {b : Bytes} {st : Store} {r : Answer}
      → Uploads c w id key b st r
      → Saves st r
  unfolding write_upload
  Uploads-Saves (Uploads.refused e p) = rw p (failed e refl refl)
  Uploads-Saves (was_cut left q p) = rw p (failed _ refl refl)
  Uploads-Saves {id = id} {key = key} {b = b} {st = st} (uploaded s f t g x y p) =
      rw p (put_session-Saves w id _ (write_upload id key b st) st refl)

  Ends-Saves :
      {id : String} {s : PublishSession} {st : Store} {r : Answer} (old : Store)
      → st.saved ≡ old.saved
      → Ends c w id s st r
      → Saves old r
  unfolding publish_artifact put_extension
  Ends-Saves old h (stopped e p) = rw p (failed e refl h)
  Ends-Saves {id = id} {s = s} {st = st} old h (published key f b ready p) =
      rw p (put_session-Saves w id _ (put_extension s _ st) old h)

  Finalizes-Saves :
      {publish_id : String} {st : Store} {r : Answer} → Finalizes c w publish_id st r → Saves st r
  Finalizes-Saves (Finalizes.refused e p) = rw p (failed e refl refl)
  Finalizes-Saves {st = st} (completed s h n ends) = Ends-Saves st (add_extension_saved s st) ends

-- A request that is answered without an error leaves all the data saved, and one that is answered with an
-- error leaves the saved data as they were.
pub answer_of-Saves :
    (c : Codec) (w : World) (req : Request) (st : Store) → Saves st (answer_of c w req st)
unfolding answer_of
answer_of-Saves c w (create req) st = Creates-Saves (create_publish_session-Creates w req st)
answer_of-Saves c w (upload id key b) st =
    Uploads-Saves (upload_publish_file-Uploads c w id key b st)
answer_of-Saves c w (finalize id) st = Finalizes-Saves (finalize_publish-Finalizes c w id st)
