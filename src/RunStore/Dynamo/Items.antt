-- ===== src/RunStore/Dynamo/Items.antt =====
-- platform/core/state/runstore/dynamodb.go: the items of DynamoDB as the runs of a run store.
use runfabric.Prelude.{
  String, ◌≡◌, ◌≢◌, refl, ◌∙◌, sym, ap, true, Option, none, some, [], ◌∷◌, ◌⊎◌, inl, inr, arith,
  lookup, eq_iff,
}
use runfabric.Errors.{Result, ok, err}
use runfabric.Workflow.Runs.{WorkflowRun}
use runfabric.RunStore.{json, garbage, unmarshal, Version, not_found}
use runfabric.RunStore.Contract.{Entry, IsOpen, run_of}
use runfabric.RunStore.Dynamo.{
  AttributeValue, text_value, number_value, run_value, time_value, Item, absent_or_equal, holds,
  is_text, run_key, run_item, string_attr, run_attr, with_version, loaded, got, save_condition,
}

-- An item as the run store sees it; an item always has its key.
abbrev pub entry_of : Option Item → Option Entry
entry_of none = none
entry_of (some []) = none
entry_of (some (a ∷ item)) =
    some (run_of (run_attr (lookup "data" (a ∷ item))), string_attr (lookup "version" (a ∷ item)))

with_version-run_of :
    (u : Version) (q : Result WorkflowRun) (r : WorkflowRun) (v : Version)
    → with_version u q ≡ ok (r, v)
    → Path (Option Entry) (some (run_of q, u)) (some (some r, v))
unfolding with_version
with_version-run_of u (err e) r v h = cc
with_version-run_of u (ok x) r v h = cc

pub loaded_entry :
    (a : String × AttributeValue) (item : Item) (r : WorkflowRun) (v : Version)
    → loaded (a ∷ item) ≡ ok (r, v)
    → entry_of (some (a ∷ item)) ≡ some (some r, v)
unfolding loaded
loaded_entry a item r v h =
    with_version-run_of (string_attr (lookup "version" (a ∷ item)))
      (run_attr (lookup "data" (a ∷ item))) r v h

pub got_entry :
    (q : Result (Option Item)) (r : WorkflowRun) (v : Version)
    → got q ≡ ok (r, v)
    → (i : Option Item) × (q ≡ ok i) × (entry_of i ≡ some (some r, v))
unfolding got
got_entry (err e) r v h = cc
got_entry (ok none) r v h = cc
got_entry (ok (some [])) r v h = cc
got_entry (ok (some (a ∷ item))) r v h = (some (a ∷ item), refl, loaded_entry a item r v h)

found_run : (o : Option AttributeValue) (u : Version) → with_version u (run_attr o) ≢ err not_found
unfolding with_version run_attr unmarshal
found_run none u h = cc
found_run (some (text_value s)) u h = cc
found_run (some (number_value n)) u h = cc
found_run (some (run_value (json r))) u h = cc
found_run (some (run_value (garbage s))) u h = cc
found_run (some (time_value s)) u h = cc

pub got_nothing :
    (q : Result (Option Item))
    → got q ≡ err not_found
    → (i : Option Item) × (q ≡ ok i) × (entry_of i ≡ none)
unfolding got loaded
got_nothing (err e) h = cc
got_nothing (ok none) h = (none, refl, refl)
got_nothing (ok (some [])) h = (some [], refl, refl)
got_nothing (ok (some (a ∷ item))) h =
    absurd (found_run (lookup "data" (a ∷ item)) (string_attr (lookup "version" (a ∷ item))) h)

text_or_none :
    (o : Option AttributeValue) (expected : Version)
    → (elim o [ none ↦ true | some v ↦ is_text expected (some v) ]) ≡ true
    → (string_attr o ≡ expected) ⊎ (string_attr o ≡ "")
unfolding string_attr
text_or_none none expected h = inr refl
text_or_none (some (text_value s)) expected h = inl ((eq_iff s expected).0 h)
text_or_none (some (number_value n)) expected h = cc
text_or_none (some (run_value r)) expected h = cc
text_or_none (some (time_value s)) expected h = cc

text_is_there :
    (o : Option AttributeValue) (expected : Version)
    → expected ≢ ""
    → string_attr o ≡ expected
    → (elim o [ none ↦ true | some v ↦ is_text expected (some v) ]) ≡ true
unfolding string_attr
text_is_there none expected ne h = absurd (ne (sym h))
text_is_there (some (text_value s)) expected ne h = (eq_iff s expected).1 h
text_is_there (some (number_value n)) expected ne h = absurd (ne (sym h))
text_is_there (some (run_value r)) expected ne h = absurd (ne (sym h))
text_is_there (some (time_value s)) expected ne h = absurd (ne (sym h))

conditional :
    (expected : Version)
    → expected ≢ ""
    → save_condition expected ≡ absent_or_equal "version" expected
unfolding save_condition
conditional expected ne = ground (arith, ne, eq_iff expected "")

pub holds-IsOpen :
    (i : Option Item) (expected : Version)
    → holds (save_condition expected) i ≡ true
    → IsOpen expected (entry_of i)
unfolding holds
holds-IsOpen none expected h ne = inl refl
holds-IsOpen (some []) expected h ne = inl refl
holds-IsOpen (some (a ∷ item)) expected h ne =
    let same = sym (ap (λ c. holds c (some (a ∷ item))) (conditional expected ne)) ∙ h in
    inr (_, _, refl, text_or_none (lookup "version" (a ∷ item)) expected same)

entry_version :
    (o : Option WorkflowRun) (q : Option WorkflowRun) (u v : Version)
    → Path (Option Entry) (some (o, u)) (some (q, v))
    → u ≡ v
entry_version o q u v h = cc

pub current_holds :
    (i : Option Item) (expected : Version) (q : Option WorkflowRun)
    → expected ≢ ""
    → entry_of i ≡ some (q, expected)
    → holds (save_condition expected) i ≡ true
unfolding holds
current_holds none expected q ne h = cc
current_holds (some []) expected q ne h = cc
current_holds (some (a ∷ item)) expected q ne h =
    ap (λ c. holds c (some (a ∷ item))) (conditional expected ne)
    ∙ text_is_there (lookup "version" (a ∷ item)) expected ne (entry_version _ q _ expected h)

pub entry_of-run_item :
    (r : WorkflowRun) (next : Version) → entry_of (some (run_item r next)) ≡ some (some r, next)
unfolding run_item run_key lookup run_attr unmarshal string_attr
entry_of-run_item r next = refl
