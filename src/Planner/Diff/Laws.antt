-- ===== src/Planner/Diff/Laws.antt =====
-- platform/planner/engine/diff.go: carrying out the actions for one type of resource, functions or
-- routes.
use runfabric.Prelude.{
  String, ◌=?=◌, ◌≡◌, refl, ◌∙◌, sym, Bool, true, false, not, ◌&&◌, ◌||◌, none, List, [], ◌∷◌, ◌++◌,
  if◌then◌else◌, map, remove, lookup, lookup-remove, arith, eq_iff, Option-cases, inl, inr,
}
use runfabric.Planner.Actions.{
  create, delete, ResourceType, function, http_api, http_route, PlanAction,
}
use runfabric.Planner.Diff.Index.{
  is_named, is_some, values, IsKeyed, IsKeyed-remove, IsKeyed-index, is_named-values,
  deployed_is_found,
}
use runfabric.Planner.Diff.{index, reconcile}

-- The resources of one type that exist, by name: what an action of the plan does to them.
abbrev pub Deployment : Type 0
Deployment = String → Bool

abbrev same_resource : ResourceType → ResourceType → Bool
same_resource function function = true
same_resource http_api http_api = true
same_resource http_route http_route = true
same_resource r s = false

abbrev pub carry_out : ResourceType → PlanAction → Deployment → Deployment
carry_out r a p n =
    if same_resource r a.resource
    then elim a.type_of [
      | create ↦ a.name =?= n || p n
      | delete ↦ not (a.name =?= n) && p n
      | _ ↦ p n
    ]
    else p n

abbrev pub carry_out_all : ResourceType → List PlanAction → Deployment → Deployment
carry_out_all r [] p = p
carry_out_all r (a ∷ l) p = carry_out_all r l (carry_out r a p)

pub carry_out_all-append :
    (r : ResourceType) (l k : List PlanAction) (p : Deployment)
    → carry_out_all r (l ++ k) p ≡ carry_out_all r k (carry_out_all r l p)
carry_out_all-append r [] k p = refl
carry_out_all-append r (a ∷ l) k p = carry_out_all-append r l k (carry_out r a p)

-- The actions for one type of resource.
module _ {D A : Type 0} (key : D → String) (name : A → String) (create_for : D → PlanAction)
    (keep_for : A → D → PlanAction) (delete_for : A → PlanAction) (r : ResourceType) where
  -- What is left of the map.
  rest_of :
      (ds : List D) (m : List (String × A)) (n : String)
      → lookup n (reconcile key create_for keep_for ds m).1
        ≡ (if is_named key ds n then none else lookup n m)
  unfolding reconcile
  rest_of [] m n = refl
  rest_of (d ∷ ds) m n = elim (Option-cases (lookup (key d) m)) [
    | inl e ↦ rw (e, reconcile) (ground (arith, eq_iff (key d) n, rest_of ds m n, e))
    | inr (a, e) ↦
        rw (e, reconcile)
          (rest_of ds (remove (key d) m) n ∙ ground (arith, lookup-remove (key d) n m))
  ]

  IsKeyed-reconcile :
      (ds : List D) (m : List (String × A))
      → IsKeyed name m
      → IsKeyed name (reconcile key create_for keep_for ds m).1
  unfolding reconcile
  IsKeyed-reconcile [] m h = h
  IsKeyed-reconcile (d ∷ ds) m h = elim (Option-cases (lookup (key d) m)) [
    | inl e ↦ rw (e, reconcile) (IsKeyed-reconcile ds m h)
    | inr (a, e) ↦
        rw (e, reconcile)
          (IsKeyed-reconcile ds (remove (key d) m) (IsKeyed-remove name (key d) m h))
  ]

  -- Resources of another type stay as they are.
  module _ (other_create : (d : D) (p : Deployment) → carry_out r (create_for d) p ≡ p)
      (other_keep : (a : A) (d : D) (p : Deployment) → carry_out r (keep_for a d) p ≡ p)
      (other_delete : (a : A) (p : Deployment) → carry_out r (delete_for a) p ≡ p) where
    others_deleted : (l : List A) (p : Deployment) → carry_out_all r (map delete_for l) p ≡ p
    others_deleted [] p = refl
    others_deleted (a ∷ l) p = others_deleted l (carry_out r (delete_for a) p) ∙ other_delete a p

    others_reconciled :
        (ds : List D) (m : List (String × A)) (p : Deployment)
        → carry_out_all r (reconcile key create_for keep_for ds m).0 p ≡ p
    unfolding reconcile
    others_reconciled [] m p = refl
    others_reconciled (d ∷ ds) m p = elim (Option-cases (lookup (key d) m)) [
      | inl e ↦
          rw (e, reconcile)
            (others_reconciled ds m (carry_out r (create_for d) p) ∙ other_create d p)
      | inr (a, e) ↦
          rw (e, reconcile)
            (others_reconciled ds (remove (key d) m) (carry_out r (keep_for a d) p)
              ∙ other_keep a d p)
    ]

    pub others_stay :
        (range : List (String × A) → List A) (desired : List D) (actual : List A) (p : Deployment)
        → let q = reconcile key create_for keep_for desired (index name actual []) in
          carry_out_all r (q.0 ++ map delete_for (range q.1)) p ≡ p
    others_stay range desired actual p =
        let q = reconcile key create_for keep_for desired (index name actual []) in
        rw (carry_out_all-append, others_reconciled) (others_deleted (range q.1) p)

  module _
      (makes : (d : D) (p : Deployment) (n : String)
        → carry_out r (create_for d) p n ≡ (key d =?= n || p n))
      (keeps : (a : A) (d : D) (p : Deployment) → carry_out r (keep_for a d) p ≡ p)
      (drops : (a : A) (p : Deployment) (n : String)
        → carry_out r (delete_for a) p n ≡ (not (name a =?= n) && p n)) where
    -- Deleting takes away exactly the names of the list.
    carry_out_deletes :
        (l : List A) (p : Deployment) (n : String)
        → carry_out_all r (map delete_for l) p n ≡ (not (is_named name l n) && p n)
    carry_out_deletes [] p n = refl
    carry_out_deletes (a ∷ l) p n =
        carry_out_deletes l (carry_out r (delete_for a) p) n ∙ rw (drops a p n) (ground arith)

    -- The actions before the deletes add what is desired.
    carry_out_creates :
        (ds : List D) (m : List (String × A)) (p : Deployment)
        → ((n : String) → is_some (lookup n m) ≡ true → p n ≡ true)
        → (n : String)
        → carry_out_all r (reconcile key create_for keep_for ds m).0 p n
          ≡ (is_named key ds n || p n)
    unfolding reconcile
    carry_out_creates [] m p h n = refl
    carry_out_creates (d ∷ ds) m p h n = elim (Option-cases (lookup (key d) m)) [
      | inl e ↦
          rw (e, reconcile)
            (carry_out_creates ds m (carry_out r (create_for d) p)
                (λ k q. makes d p k ∙ ground (arith, h k q)) n
              ∙ rw (makes d p n) (ground arith))
      | inr (a, e) ↦
          rw (e, reconcile)
            (rw (keeps a d p) (
              carry_out_creates ds (remove (key d) m) p
                (λ k q. ground (arith, lookup-remove (key d) k m, h k)) n
              ∙ ground (arith, eq_iff (key d) n, e, h n)))
    ]

    pub reconcile_reaches_desired :
        (range : List (String × A) → List A) (desired : List D) (actual : List A) (n : String)
        → ((m : List (String × A)) (k : String)
            → is_named name (range m) k ≡ is_named name (values m) k)
        → let q = reconcile key create_for keep_for desired (index name actual []) in
          carry_out_all r (q.0 ++ map delete_for (range q.1)) (is_named name actual) n
          ≡ is_named key desired n
    reconcile_reaches_desired range desired actual n visits =
        let m = index name actual [] in
        let found = deployed_is_found name actual n in
        rw
          (
            carry_out_all-append,
            carry_out_deletes,
            visits,
            is_named-values name _ n
                (IsKeyed-reconcile desired m (IsKeyed-index name actual [] tt)),
            rest_of desired m n,
            carry_out_creates desired m (is_named name actual)
                (λ k q. sym (deployed_is_found name actual k) ∙ q) n,
          )
          (ground arith)
