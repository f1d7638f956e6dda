-- ===== src/Compose/Laws.antt =====
-- platform/workflow/core/compose_file.go: when TopoOrder gives an order, and which.
use runfabric.Prelude.{
  suc, String, ◌<◌, ◌≤◌, ◌≡◌, ◌≢◌, refl, ◌∙◌, sym, true, false, ltb, none, some, List, [], ◌∷◌,
  length, arith, ◌⊎◌, ◌↔◌, Bool-cases, ltb→lt, Option-cases, inl, inr, subst, ap,
}
use runfabric.Errors.{Error, ok, err}
use runfabric.Compose.{
  ComposeService, ComposeFile, contains, names, Walk, unknown_error, cycle_error, find_unknown,
  find_cycle, index_of, index_names, check_cycles, visit_services, topo_order,
}
use runfabric.Compose.Position.{position, IsDistinct, index_of-index_names, position_inj}
use runfabric.Compose.Dfs.{DependsOn, Reaches, here, along, IsWalk}
use runfabric.Compose.Visit.{missing, visit_services_ok}
use runfabric.Compose.Checks.{
  dependencies-listed, dependencies_All, find_unknown-none, find_unknown-some, find_cycle-none,
  find_cycle-some,
}

-- Every service stands in the order once, and after what it depends on.
abbrev pub IsOrder : List ComposeService → List String → Type 0
IsOrder services order =
    IsDistinct order
    × ((n : String) → contains n order ≡ contains n (names services))
    × ((n d : String)
        → DependsOn services n d
        → (contains d order ≡ true) × ((n ≡ d) ⊎ (position d order < position n order)))

abbrev pub IsUnknown : List ComposeService → String → String → Type 0
IsUnknown services n d = DependsOn services n d × (contains d (names services) ≡ false)

-- A dependency on another service, from which one comes back.
abbrev pub IsCycle : List ComposeService → String → String → Type 0
IsCycle services n d = DependsOn services n d × Reaches services d n × (n ≢ d)

missing_none : (services : List ComposeService) → missing [] (names services) ≡ length services
missing_none [] = refl
missing_none (s ∷ rest) = ap suc (missing_none rest)

before_or_same :
    (n d : String) (order : List String)
    → contains n order ≡ true
    → contains d order ≡ true
    → position d order ≤ position n order
    → (n ≡ d) ⊎ (position d order < position n order)
before_or_same n d order p q h = elim (Bool-cases (ltb (position d order) (position n order))) [
  | inl e ↦ inr (ltb→lt _ _ e)
  | inr e ↦ inl (position_inj n d order p q (ground arith))
]

not_before :
    (services : List ComposeService) (n d : String) (order : List String)
    → position n order < position d order
    → ((contains d order ≡ true) × (position d order < position n order)) ⊎ Reaches services d n
    → Reaches services d n
not_before services n d order lt (inl (p, gt)) = absurd (omega arith)
not_before services n d order lt (inr r) = r

after_edge :
    (n d m : String) (order : List String)
    → (n ≡ d) ⊎ (position d order < position n order)
    → (d ≡ m) ⊎ (position m order < position d order)
    → (n ≡ m) ⊎ (position m order < position n order)
after_edge n d m order (inl e) (inl f) = inl (e ∙ f)
after_edge n d m order (inl e) (inr lt) =
    inr (subst (λ x. position m order < position x order) (sym e) lt)
after_edge n d m order (inr lt) (inl f) =
    inr (subst (λ x. position x order < position n order) f lt)
after_edge n d m order (inr lt) (inr lt') = inr (omega arith)

no_return :
    (n d : String) (order : List String)
    → (n ≡ d) ⊎ (position d order < position n order)
    → (d ≡ n) ⊎ (position n order < position d order)
    → (n ≢ d)
    → ⊥
no_return n d order (inl e) back ne = ne e
no_return n d order (inr lt) (inl e) ne = ne (sym e)
no_return n d order (inr lt) (inr gt) ne = omega arith

not_ok : {o : List String} {e : Error} → ¬ (some (ok o) ≡ some (err e))
not_ok h = cc

module _ (services : List ComposeService)
    (listed : (n d : String) → DependsOn services n d → contains d (names services) ≡ true) where
  -- What the loop of visits leaves.
  walk_ok :
      (w : Walk) × (visit_services services
          (suc (length services))
          services
          (record { visited = []; order = [] })
        ≡ some w)
      × IsWalk services [] w
      × ((n : String) → contains n w.order ≡ contains n (names services))
  walk_ok =
      let start : IsWalk services [] (record { visited = []; order = [] }) = record {
        split = λ x. refl;
        apart = λ x p. cc;
        distinct = tt;
        settled = λ n d p q. cc;
        known = λ x p. cc;
      } in
      let (w, q, k, all, more) =
        visit_services_ok services listed (suc (length services)) services
          (record { visited = []; order = [] }) (λ n p. p) start
          (omega (arith, missing_none services)) in
      (w, q, k, λ n. ground (arith, k.known n, all n, k.split n))

  module _ (h : IsDistinct (names services)) (w : Walk) (k : IsWalk services [] w)
      (all : (n : String) → contains n w.order ≡ contains n (names services)) where
    index_ok :
        (n : String)
        → contains n (names services) ≡ true
        → index_of n (index_names 0 w.order []) ≡ position n w.order
    index_ok n p = index_of-index_names n w.order k.distinct (all n ∙ p)

    order_ok : find_cycle (index_names 0 w.order []) services ≡ none → IsOrder services w.order
    order_ok e = (
      k.distinct,
      all,
      λ n d p.
          let at_n = dependencies-listed services n d p in
          let at_d = listed n d p in
          let before =
            dependencies_All
              (λ m c. index_of c (index_names 0 w.order []) ≤ index_of m (index_names 0 w.order []))
              services (find_cycle-none (index_names 0 w.order []) services e) n d p in
          (
            all d ∙ at_d,
            before_or_same n d w.order (all n ∙ at_n) (all d ∙ at_d)
                (omega (arith, index_ok n at_n, index_ok d at_d, before)),
          ),
    )

    acyclic-or-IsCycle :
        (n d : String)
        → find_cycle (index_names 0 w.order []) services ≡ some (n, d)
        → IsCycle services n d
    acyclic-or-IsCycle n d e =
        let q = find_cycle-some (index_names 0 w.order []) services n d h e in
        let at_n = dependencies-listed services n d q.0 in
        let later : position n w.order < position d w.order =
          omega (arith, index_ok n at_n, index_ok d (listed n d q.0), q.1) in
        (
          q.0,
          not_before services n d w.order later (k.settled n d (all n ∙ at_n) q.0),
          λ same. absurd (omega (arith, ap (λ x. position x w.order) same, later)),
        )

-- For services with distinct names TopoOrder always returns: an order in which every service
-- stands once and after what it depends on, itself aside; or the error that names a dependency
-- which is no service; or the error that names two services of a cycle.
pub topo_order_cases :
    (c : ComposeFile)
    → IsDistinct (names c.services)
    → ((order : List String) × (topo_order c ≡ some (ok order)) × IsOrder c.services order)
      ⊎ ((n d : String) × (topo_order c ≡ some (err (unknown_error n d)))
          × IsUnknown c.services n d)
      ⊎ ((n d : String) × (topo_order c ≡ some (err (cycle_error n d))) × IsCycle c.services n d)
unfolding topo_order check_cycles
topo_order_cases c h = elim (Option-cases (find_unknown (names c.services) c.services)) [
  | inr ((n, d), e) ↦
      inr (inl (n, d, rw (e, topo_order), find_unknown-some (names c.services) c.services n d h e))
  | inl e ↦
      let listed =
        dependencies_All (λ n d. contains d (names c.services) ≡ true) c.services
          (find_unknown-none (names c.services) c.services e) in
      let (w, q, k, all) = walk_ok c.services listed in
      elim (Option-cases (find_cycle (index_names 0 w.order []) c.services)) [
        | inl e' ↦ inl (
          w.order,
          rw (e, topo_order) (rw (q, topo_order) (rw (e', check_cycles))),
          order_ok c.services listed h w k all e',
        )
        | inr ((n, d), e') ↦ inr (
            inr (
              n,
              d,
              rw (e, topo_order) (rw (q, topo_order) (rw (e', check_cycles))),
              acyclic-or-IsCycle c.services listed h w k all n d e',
            ))
      ]
]

Reaches-before :
    (services : List ComposeService) (order : List String)
    → IsOrder services order
    → {n m : String} → Reaches services n m
    → (n ≡ m) ⊎ (position m order < position n order)
Reaches-before services order h here = inl refl
Reaches-before services order h (along {n} {d} {m} e r) =
    after_edge n d m order (h.2 n d e).1 (Reaches-before services order h r)

order_excludes-IsCycle :
    (services : List ComposeService) (order : List String) (n d : String)
    → IsOrder services order
    → ¬ IsCycle services n d
order_excludes-IsCycle services order n d h c =
    no_return n d order (h.2 n d c.0).1 (Reaches-before services order h c.1) c.2

-- For services with distinct names TopoOrder returns an order exactly if every dependency is a
-- service and no two different services depend on each other, directly or through others; a
-- service may depend on itself.
pub topo_order_iff :
    (c : ComposeFile)
    → IsDistinct (names c.services)
    → ((order : List String) × (topo_order c ≡ some (ok order))) ↔ (
        ((n d : String) → ¬ IsUnknown c.services n d) × ((n d : String) → ¬ IsCycle c.services n d))
topo_order_iff c h = (
  λ (order, e). elim (topo_order_cases c h) [
    | inl (o, q, k) ↦ (
      λ n d u. ground (arith, (k.2 n d u.0).0, k.1 d, u.1),
      λ n d. order_excludes-IsCycle c.services o n d k,
    )
    | inr (inl (n, d, q, u)) ↦ absurd (not_ok (sym e ∙ q))
    | inr (inr (n, d, q, u)) ↦ absurd (not_ok (sym e ∙ q))
  ],
  λ (known, acyclic). elim (topo_order_cases c h) [
    | inl (o, q, k) ↦ (o, q)
    | inr (inl (n, d, q, u)) ↦ absurd (known n d u)
    | inr (inr (n, d, q, u)) ↦ absurd (acyclic n d u)
  ],
)
