-- ===== src/RunStore/Dynamo/Laws.antt =====
-- platform/core/state/runstore/dynamodb.go: what the items of DynamoDB keep of the contract of a run store.
use runfabric.Prelude.{
  String, ◌≡◌, ◌≢◌, refl, ◌∙◌, sym, ap, Bool, true, false, Option, some, ◌⊎◌, inl, inr, Bool-cases,
  Option-cases, subst,
}
use runfabric.Errors.{Error, io, wrap, Result, ok, err}
use runfabric.Workflow.Runs.{WorkflowRun}
use runfabric.RunStore.{
  Fresh, Saved, Version, version_conflict, touched, lacks_names, names_error, run_names_error,
}
use runfabric.RunStore.Contract.{
  Entry, IsOpen, IsConflict, IsRunStore, ok_version, not_both, not_loaded, same_error, names_found,
}
use runfabric.RunStore.Dynamo.{
  Item, Key, holds, put_item, applied, condition_failed, service_error, Table, IsTable, run_key,
  run_item, got, load, save, save_as, put_run, save_condition, save_answer, dynamo_run_store,
}
use runfabric.RunStore.Dynamo.Items.{
  entry_of, got_entry, got_nothing, holds-IsOpen, current_holds, entry_of-run_item,
}

no_both : {a : Bool} → a ≡ false → a ≡ true → ⊥
no_both p q = cc

io_no_conflict :
    {s t : String} → Path (Result Version) (err (wrap s io)) (err (wrap t version_conflict)) → ⊥
io_no_conflict h = cc

-- A save that reaches the table, with `i` the item that was there and `j` the one that is there.
module _ (expected : Version) (r : WorkflowRun) (i j : Option Item) where
  abbrev IsWritten : Version → Type 0
  IsWritten next = (holds (save_condition expected) i ≡ true) × (j ≡ some (run_item r next))

  pub data IsPut (next : Version) : Result Version → Type 0 where
    written : IsWritten next → IsPut next (ok next)
    conflict :
        (s : String)
        → holds (save_condition expected) i ≡ false
        → j ≡ i
        → IsPut next (err (wrap s version_conflict))
    unknown : (j ≡ i) ⊎ IsWritten next → IsPut next (err (wrap "runstore: dynamodb put" io))

  IsWritten-IsPut : (next v : Version) (a : Result Version) → IsPut next a → a ≡ ok v → IsWritten v
  IsWritten-IsPut next v a (written w) h = subst IsWritten (ok_version h) w
  IsWritten-IsPut next v a (conflict s x y) h = cc
  IsWritten-IsPut next v a (unknown x) h = cc

  failed_IsPut :
      (next : Version) (e : Error) (a : Result Version)
      → IsPut next a
      → a ≡ err e
      → (j ≡ i) ⊎ IsWritten next
  failed_IsPut next e a (written w) h = cc
  failed_IsPut next e a (conflict s x y) h = inl y
  failed_IsPut next e a (unknown x) h = x

  refused_IsPut :
      (next : Version) (e : Error) (a : Result Version)
      → IsPut next a
      → a ≡ err e
      → IsConflict e
      → (holds (save_condition expected) i ≡ false) × (j ≡ i)
  refused_IsPut next e a (written w) h c = cc
  refused_IsPut next e a (conflict s x y) h c = (x, y)
  refused_IsPut next e a (unknown x) h (s, q) = absurd (io_no_conflict (h ∙ ap err q))

  entry_written :
      (next : Version)
      → IsWritten next
      → (entry_of j ≡ some (some r, next)) × IsOpen expected (entry_of i)
  entry_written next (h, q) = (ap entry_of q ∙ entry_of-run_item r next, holds-IsOpen i expected h)

always_holds :
    (i : Option Item) (expected : Version)
    → expected ≡ ""
    → holds (save_condition expected) i ≡ true
unfolding holds save_condition
always_holds i expected e = rw (e, holds) refl

conditional :
    (i : Option Item) (expected : Version)
    → holds (save_condition expected) i ≡ false
    → (expected ≢ "") × ((q : Option WorkflowRun) → entry_of i ≢ some (q, expected))
conditional i expected h =
    let ne : expected ≢ "" = λ e. no_both h (always_holds i expected e) in
    (ne, λ q e. no_both h (current_holds i expected q ne e))

module _ {T : Type 0} (tb : Table T) (find : Key → T → Option Item) (laws : IsTable tb find) where
  abbrev pub stored : String → String → T → Option Entry
  stored stage run_id t = entry_of (find (run_key stage run_id) t)

  -- A save that does not reach the table.
  pub record IsSkipped (t : T) (o : Saved T) : Type 0 where
    pub error : Error
    pub answer : o.answer ≡ err error
    pub other : ¬ IsConflict error
    pub untouched : o.store ≡ t

  save_cases :
      (f : Fresh) (r : WorkflowRun) (expected : Version) (t : T)
      → IsSkipped t (save tb f r expected t)
        ⊎ ((next : Version) × (save tb f r expected t
              ≡ put_run tb (touched f.now r) expected next t))
  unfolding save save_as
  save_cases f r expected t = elim (Bool-cases (lacks_names r.run_id r.stage)) [
    | inl e ↦ inl (
        rw (e, save)
          (record {
            error = run_names_error;
            answer = refl;
            other = λ (s, q). cc;
            untouched = refl;
          }))
    | inr e ↦ elim (Option-cases f.token) [
      | inl q ↦ inl (
          rw (e, q, save)
            (record {
              error = wrap "runstore: generate token" io;
              answer = refl;
              other = λ (s, p). cc;
              untouched = refl;
            }))
      | inr (next, q) ↦ inr (next, rw (e, q, save) refl)
    ]
  ]

  put_cases :
      (r : WorkflowRun) (expected next : Version) (t : T)
      → let o = put_run tb r expected next t in
        let k = run_key r.stage r.run_id in
        IsPut expected r (find k t) (find k o.store) next o.answer
  unfolding put_run save_answer applied
  put_cases r expected next t =
      let w = put_item (run_item r next) in
      let c = save_condition expected in
      let k = run_key r.stage r.run_id in
      elim (Option-cases (tb.write w c k t).0) [
        | inl e ↦ rw (e, save_answer) (written (laws.write_ok w c k t e))
        | inr (condition_failed, e) ↦
            rw (e, save_answer)
              (conflict _ (laws.write_failed w c k t e).0 (laws.write_failed w c k t e).1)
        | inr (service_error, e) ↦ rw (e, save_answer) (unknown (laws.write_unknown w c k t e))
      ]

  load_got :
      (stage run_id : String) (t : T)
      → (load tb stage run_id t ≡ err names_error)
        ⊎ (load tb stage run_id t ≡ got (tb.get (run_key stage run_id) t))
  unfolding load
  load_got stage run_id t = elim (Bool-cases (lacks_names stage run_id)) [
    | inl e ↦ inl (rw (e, load) refl)
    | inr e ↦ inr (rw (e, load) refl)
  ]

  -- Where the calls of DynamoDB do what is documented, its items keep a weaker contract than that of
  -- the interface: a load returns what is stored; a save without an error that expects a version
  -- replaced that version or, against the interface, found no run or one without a version; a
  -- refused one changed nothing and did not expect the stored version; after any other error the run
  -- is as it was, or it is saved; and other runs stay.
  pub dynamo_run_store-IsRunStore : IsRunStore IsOpen (dynamo_run_store tb) run_key stored
  unfolding load put_run
  dynamo_run_store-IsRunStore = record {
    load_ok = λ stage run_id t r v h. elim (load_got stage run_id t) [
      | inl e ↦ absurd (not_loaded e h)
      | inr q ↦
          let (i, g, e) = got_entry _ r v (sym q ∙ h) in
          ap entry_of (laws.get_ok (run_key stage run_id) t i g) ∙ e
    ];
    load_missing = λ stage run_id t h. elim (load_got stage run_id t) [
      | inl e ↦ absurd (names_found (sym e ∙ h))
      | inr q ↦
          let (i, g, e) = got_nothing _ (sym q ∙ h) in
          ap entry_of (laws.get_ok (run_key stage run_id) t i g) ∙ e
    ];
    save_ok = λ f r expected t v h. elim (save_cases f r expected t) [
      | inl k ↦ absurd (not_both k.answer h)
      | inr (next, q) ↦
          let p = put_cases (touched f.now r) expected next t in
          let i = find (run_key r.stage r.run_id) t in
          let j =
            find (run_key r.stage r.run_id) (put_run tb (touched f.now r) expected next t).store in
          let w = entry_written expected (touched f.now r) i j v (
            IsWritten-IsPut expected (touched f.now r) i j next v _ p
              (sym (ap (λ o. o.answer) q) ∙ h)) in
          (
            subst (λ o. stored r.stage r.run_id o.store ≡ some (some (touched f.now r), v)) (sym q)
                w.0,
            ap (λ o. o.run) q,
            w.1,
          )
    ];
    save_conflict = λ f r expected t e h c. elim (save_cases f r expected t) [
      | inl k ↦ absurd (k.other (subst IsConflict (same_error h k.answer) c))
      | inr (next, q) ↦
          let p = put_cases (touched f.now r) expected next t in
          let i = find (run_key r.stage r.run_id) t in
          let j =
            find (run_key r.stage r.run_id) (put_run tb (touched f.now r) expected next t).store in
          let w =
            refused_IsPut expected (touched f.now r) i j next e _ p (sym (ap (λ o. o.answer) q) ∙ h)
              c in
          (
            subst (λ o. stored r.stage r.run_id o.store ≡ stored r.stage r.run_id t) (sym q)
                (ap entry_of w.1),
            (conditional i expected w.0).0,
            (conditional i expected w.0).1,
          )
    ];
    save_error = λ f r expected t e h. elim (save_cases f r expected t) [
      | inl k ↦ inl (ap (stored r.stage r.run_id) k.untouched)
      | inr (next, q) ↦
          let p = put_cases (touched f.now r) expected next t in
          let i = find (run_key r.stage r.run_id) t in
          let j =
            find (run_key r.stage r.run_id) (put_run tb (touched f.now r) expected next t).store in
          elim (failed_IsPut expected (touched f.now r) i j next e _ p
            (sym (ap (λ o. o.answer) q) ∙ h)) [
              | inl same ↦ inl (
                  subst (λ o. stored r.stage r.run_id o.store ≡ stored r.stage r.run_id t) (sym q)
                    (ap entry_of same))
              | inr w ↦ inr (
                (entry_written expected (touched f.now r) i j next w).1,
                (
                  next,
                  subst (λ o. stored r.stage r.run_id o.store ≡ some (some (touched f.now r), next))
                      (sym q) (entry_written expected (touched f.now r) i j next w).0,
                ),
              )
            ]
    ];
    save_others = λ f r expected t stage run_id apart. elim (save_cases f r expected t) [
      | inl k ↦ ap (stored stage run_id) k.untouched
      | inr (next, q) ↦
          subst (λ o. stored stage run_id o.store ≡ stored stage run_id t) (sym q)
            (ap entry_of (laws.write_others _ _ _ (run_key stage run_id) t apart))
    ];
  }
