-- ===== src/RunStore/Dynamo.antt =====
-- platform/core/state/runstore/dynamodb.go: the runs and their locks as items of DynamoDB. The
-- service is a parameter: `Table` has its calls, and `IsTable` what its documentation says of them.
-- Of the two tables of a store the keys are distinct, so that one state stands for both.
pub mod Items
pub mod Laws
pub mod Lock
use runfabric.Prelude.{
  ℕ, String, ◌<>◌, ◌=?=◌, ◌+◌, ◌/◌, ◌≡◌, ◌≢◌, ◌⊎◌, Bool, true, false, Option, none, some, List, [],
  ◌∷◌, ltb, if◌then◌else◌, insert, lookup,
}
use runfabric.Errors.{Error, io, message, wrap, parse, Result, ok, err}
use runfabric.Workflow.Runs.{WorkflowRun, Stamp}
use runfabric.RunStore.{
  RunStore, RunText, json, unmarshal, Fresh, Saved, Version, not_found, version_conflict, short,
  lacks_names, touched, names_error, run_names_error,
}

-- An attribute of an item: a number or a text, of which one may be that of a run or of a time.
pub data AttributeValue : Type 0 where
  text_value : String → AttributeValue
  number_value : ℕ → AttributeValue
  run_value : RunText → AttributeValue
  time_value : Stamp → AttributeValue

abbrev pub Item : Type 0
Item = List (String × AttributeValue)

-- The partition key and the sort key.
abbrev pub Key : Type 0
Key = String × String

-- The ConditionExpressions that are used.
pub data Condition : Type 0 where
  always : Condition
  -- attribute_not_exists(name) OR name = text
  absent_or_equal : String → String → Condition
  -- attribute_not_exists(name) OR other < number
  absent_or_below : String → String → ℕ → Condition
  -- name = text
  equal : String → String → Condition

abbrev pub attribute : String → Option Item → Option AttributeValue
attribute name none = none
attribute name (some item) = lookup name item

abbrev pub is_text : String → Option AttributeValue → Bool
is_text t (some (text_value s)) = s =?= t
is_text t _ = false

abbrev is_below : ℕ → Option AttributeValue → Bool
is_below bound (some (number_value n)) = ltb n bound
is_below bound _ = false

unfoldable pub holds : Condition → Option Item → Bool
holds always item = true
holds (absent_or_equal name t) item = elim (attribute name item) [
  | none ↦ true
  | some v ↦ is_text t (some v)
]
holds (absent_or_below name other bound) item = elim (attribute name item) [
  | none ↦ true
  | some v ↦ is_below bound (attribute other item)
]
holds (equal name t) item = is_text t (attribute name item)

-- PutItem, UpdateItem with SET of one attribute, and DeleteItem.
pub data Write : Type 0 where
  put_item : Item → Write
  set_attribute : String → AttributeValue → Write
  delete_item : Write

unfoldable pub applied : Write → Option Item → Option Item
unfolding insert
applied (put_item item) old = some item
applied (set_attribute name v) none = some (insert name v [])
applied (set_attribute name v) (some old) = some (insert name v old)
applied delete_item old = none

pub data ApiError : Type 0 where
  -- ConditionalCheckFailedException, and every other failure
  condition_failed service_error : ApiError

-- GetItem with a consistent read, and the three writes.
pub record Table (T : Type 0) : Type 0 where
  pub get : Key → T → Result (Option Item)
  pub write : Write → Condition → Key → T → Option ApiError × T

-- A write without an error found its condition true and was made; one whose condition is false is
-- not made; and of one with another error it is open whether it was made. No other item changes.
pub record IsTable {T : Type 0} (tb : Table T) (find : Key → T → Option Item) : Type 0 where
  pub get_ok : (k : Key) (t : T) (i : Option Item) → tb.get k t ≡ ok i → find k t ≡ i
  pub write_ok :
      (w : Write) (c : Condition) (k : Key) (t : T)
      → (tb.write w c k t).0 ≡ none
      → (holds c (find k t) ≡ true) × (find k (tb.write w c k t).1 ≡ applied w (find k t))
  pub write_failed :
      (w : Write) (c : Condition) (k : Key) (t : T)
      → (tb.write w c k t).0 ≡ some condition_failed
      → (holds c (find k t) ≡ false) × (find k (tb.write w c k t).1 ≡ find k t)
  pub write_unknown :
      (w : Write) (c : Condition) (k : Key) (t : T)
      → (tb.write w c k t).0 ≡ some service_error
      → (find k (tb.write w c k t).1 ≡ find k t)
        ⊎ ((holds c (find k t) ≡ true) × (find k (tb.write w c k t).1 ≡ applied w (find k t)))
  pub write_others :
      (w : Write) (c : Condition) (k other : Key) (t : T)
      → k ≢ other
      → find other (tb.write w c k t).1 ≡ find other t

unfoldable pub run_key : String → String → Key
run_key stage run_id = ("run#" <> stage, "run#" <> run_id)

unfoldable pub lock_key : String → String → Key
lock_key stage run_id = ("lock#" <> stage, "lock#" <> run_id)

abbrev pub key_attributes : Key → Item → Item
key_attributes (pk, sk) rest = ("pk", text_value pk) ∷ ("sk", text_value sk) ∷ rest

-- An attribute that is missing or no text reads as the empty text.
unfoldable pub string_attr : Option AttributeValue → String
string_attr (some (text_value s)) = s
string_attr _ = ""

-- The run of the attribute "data".
unfoldable pub run_attr : Option AttributeValue → Result WorkflowRun
unfolding unmarshal
run_attr (some (run_value r)) = unmarshal r
run_attr _ = err (wrap "runstore: unmarshal run" parse)

unfoldable pub with_version : Version → Result WorkflowRun → Result (WorkflowRun × Version)
with_version v (err e) = err e
with_version v (ok run) = ok (run, v)

unfoldable pub loaded : Item → Result (WorkflowRun × Version)
unfolding run_attr string_attr lookup with_version
loaded item = with_version (string_attr (lookup "version" item)) (run_attr (lookup "data" item))

unfoldable pub run_item : WorkflowRun → Version → Item
unfolding run_key
run_item run next = key_attributes (run_key run.stage run.run_id) (
    ("version", text_value next)
    ∷ ("data", run_value (json run))
    ∷ ("startedAt", time_value run.started_at)
    ∷ [])

unfoldable pub save_condition : Version → Condition
save_condition expected = if expected =?= "" then always else absent_or_equal "version" expected

unfoldable pub save_answer : Version → Version → Option ApiError → Result Version
unfolding short
save_answer expected next none = ok next
save_answer expected next (some condition_failed) =
    err (wrap (": expected " <> short expected) version_conflict)
save_answer expected next (some service_error) = err (wrap "runstore: dynamodb put" io)

-- The answer of GetItem.
unfoldable pub got : Result (Option Item) → Result (WorkflowRun × Version)
unfolding loaded
got (err e) = err (wrap "runstore: dynamodb get" e)
got (ok none) = err not_found
got (ok (some [])) = err not_found
got (ok (some (a ∷ item))) = loaded (a ∷ item)

module _ {T : Type 0} (tb : Table T) where
  unfoldable pub load : String → String → T → Result (WorkflowRun × Version)
  unfolding run_key got
  load stage run_id t =
      if lacks_names stage run_id then err names_error else got (tb.get (run_key stage run_id) t)

  unfoldable pub put_run : WorkflowRun → Version → Version → T → Saved T
  unfolding run_key run_item save_condition save_answer
  put_run run expected next t =
      let (e, t') =
        tb.write (put_item (run_item run next)) (save_condition expected)
          (run_key run.stage run.run_id) t in
      record { answer = save_answer expected next e; run = run; store = t' }

  -- The run has its new UpdatedAt.
  unfoldable pub save_as : Option String → WorkflowRun → Version → T → Saved T
  unfolding put_run
  save_as none run expected t = record {
    answer = err (wrap "runstore: generate token" io);
    run = run;
    store = t;
  }
  save_as (some next) run expected t = put_run run expected next t

  unfoldable pub save : Fresh → WorkflowRun → Version → T → Saved T
  unfolding save_as
  save f run expected t =
      if lacks_names run.run_id run.stage
      then record { answer = err run_names_error; run = run; store = t }
      else save_as f.token (touched f.now run) expected t

  abbrev pub dynamo_run_store : RunStore T
  dynamo_run_store = record { load = load; save = save }
