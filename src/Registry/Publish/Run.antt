-- ===== src/Registry/Publish/Run.antt =====
-- apps/registry/internal/store/store.go: the requests of the publishers to a store, one after the other, since
-- each holds its mutex, and the restarts between them.
use runfabric.Prelude.{String, List, [], ◌∷◌}
use runfabric.Registry.{Codec}
use runfabric.Registry.Publish.{World, Bytes, Store, Answer, restart}
use runfabric.Registry.Publish.Create.{PublishInitInput, create_publish_session}
use runfabric.Registry.Publish.Files.{upload_publish_file}
use runfabric.Registry.Publish.Finalize.{finalize_publish}

pub data Request : Type 0 where
  create : PublishInitInput → Request
  upload : String → String → Bytes → Request
  finalize : String → Request

unfoldable pub answer_of : Codec → World → Request → Store → Answer
answer_of c w (create req) st = create_publish_session w req st
answer_of c w (upload id key b) st = upload_publish_file c w id key b st
answer_of c w (finalize id) st = finalize_publish c w id st

pub data Event : Type 0 where
  request : World → Request → Event
  relaunched : Event

unfoldable pub after : Codec → Event → Store → Store
after c (request w r) st = (answer_of c w r st).1
after c relaunched st = restart st

unfoldable pub run : Codec → List Event → Store → Store
run c [] st = st
run c (e ∷ rest) st = run c rest (after c e st)
