-- ===== src/Planner/Diff.antt =====
-- platform/planner/engine/diff.go. Go visits the entries of a map in any order: `range` gives the
-- values of a map in the order in which the loop over it meets them.
pub mod Index
pub mod Laws
pub mod Reached
use runfabric.Prelude.{
  String, ◌<>◌, ◌=?=◌, Bool, true, false, not, ◌&&◌, Option, none, some, List, [], ◌∷◌, ◌++◌,
  if◌then◌else◌, map, insert, remove, lookup,
}
use runfabric.Prelude.Int.{ℤ, le_int}
use runfabric.Planner.Actions.{
  ActionType, create, update, delete, noop, ResourceType, function, http_api, http_route,
  PlanAction, Plan, DesiredFunction, DesiredHttpApi, DesiredRoute, DesiredState, ActualFunction,
  ActualHttpApi, ActualRoute, ActualState, decimal,
}

-- A map by name or by route key, where a later entry replaces an earlier one.
module _ {A : Type 0} (key : A → String) where
  unfoldable pub index : List A → List (String × A) → List (String × A)
  index [] m = m
  index (a ∷ rest) m = index rest (insert (key a) a m)

-- The loops over the desired functions and over the desired routes: a plan's actions, and what is
-- left of the map.
module _ {D A : Type 0} (key : D → String) (create_for : D → PlanAction)
    (keep_for : A → D → PlanAction) where
  unfoldable pub reconcile : List D → List (String × A) → List PlanAction × List (String × A)
  reconcile [] m = ([], m)
  reconcile (d ∷ ds) m = elim (lookup (key d) m) [
    | none ↦ let (l, m') = reconcile ds m in (create_for d ∷ l, m')
    | some a ↦ let (l, m') = reconcile ds (remove (key d) m) in (keep_for a d ∷ l, m')
  ]

unfoldable pub eq_int : ℤ → ℤ → Bool
eq_int a b = le_int a b && le_int b a

unfoldable pub set_if :
    Bool
    → String
    → String
    → String
    → List (String × (String × String))
    → List (String × (String × String))
set_if b key old new m = if b then insert key (old, new) m else m

-- The map `changes`.
unfoldable pub changes : ActualFunction → DesiredFunction → List (String × (String × String))
unfolding eq_int set_if
changes a d =
    set_if
      (not (a.code_sha256 =?= "")
        && not (d.code_sha256 =?= "")
        && not (a.code_sha256 =?= d.code_sha256))
      "codeSha256" a.code_sha256 d.code_sha256
      (set_if (not (eq_int a.timeout d.timeout)) "timeout" (decimal a.timeout) (decimal d.timeout) (
        set_if (not (eq_int a.memory d.memory)) "memory" (decimal a.memory) (decimal d.memory) (
          set_if (not (a.handler =?= d.handler)) "handler" a.handler d.handler
            (set_if (not (a.runtime =?= d.runtime)) "runtime" a.runtime d.runtime []))))

unfoldable pub create_function : DesiredFunction → PlanAction
create_function d = record {
  id = "function:create:" <> d.name;
  type_of = create;
  resource = function;
  name = d.name;
  description = "Create function";
  depends_on = [];
  metadata = ("runtime", d.runtime) ∷ ("handler", d.handler) ∷ [];
  changes = [];
}

unfoldable pub is_empty : List (String × (String × String)) → Bool
is_empty [] = true
is_empty (c ∷ cs) = false

unfoldable pub reconcile_function : ActualFunction → DesiredFunction → PlanAction
unfolding is_empty changes
reconcile_function a d =
    let up_to_date = is_empty (changes a d) in
    record {
      id = "function:reconcile:" <> d.name;
      type_of = if up_to_date then noop else update;
      resource = function;
      name = d.name;
      description = if up_to_date then "Function is up to date" else "Update function";
      depends_on = [];
      metadata = [];
      changes = changes a d;
    }

unfoldable pub delete_function : ActualFunction → PlanAction
delete_function a = record {
  id = "function:delete:" <> a.name;
  type_of = delete;
  resource = function;
  name = a.name;
  description = "Delete stale function";
  depends_on = [];
  metadata = [];
  changes = [];
}

abbrev function_actions :
    List DesiredFunction
    → List (String × ActualFunction)
    → List PlanAction × List (String × ActualFunction)
function_actions = reconcile (λ d. d.name) create_function reconcile_function

unfoldable pub http_api_actions : Option DesiredHttpApi → Option ActualHttpApi → List PlanAction
http_api_actions (some d) none =
    record {
      id = "httpapi:create";
      type_of = create;
      resource = http_api;
      name = d.name;
      description = "Create HTTP API";
      depends_on = [];
      metadata = [];
      changes = [];
    }
    ∷ []
http_api_actions (some d) (some a) =
    record {
      id = "httpapi:noop";
      type_of = noop;
      resource = http_api;
      name = d.name;
      description = "HTTP API already exists";
      depends_on = [];
      metadata = [];
      changes = [];
    }
    ∷ []
http_api_actions none a = []

unfoldable pub create_route : DesiredRoute → PlanAction
create_route d = record {
  id = "route:create:" <> d.route_key;
  type_of = create;
  resource = http_route;
  name = d.route_key;
  description = "Create route " <> d.route_key;
  depends_on = [];
  metadata = ("function", d.function_name) ∷ [];
  changes = [];
}

unfoldable pub keep_route : ActualRoute → DesiredRoute → PlanAction
keep_route a d = record {
  id = "route:noop:" <> d.route_key;
  type_of = noop;
  resource = http_route;
  name = d.route_key;
  description = "Route " <> d.route_key <> " already exists";
  depends_on = [];
  metadata = ("routeId", a.id) ∷ [];
  changes = [];
}

unfoldable pub delete_route : ActualRoute → PlanAction
delete_route a = record {
  id = "route:delete:" <> a.route_key;
  type_of = delete;
  resource = http_route;
  name = a.route_key;
  description = "Delete stale route";
  depends_on = [];
  metadata = [];
  changes = [];
}

abbrev route_actions :
    List DesiredRoute → List (String × ActualRoute) → List PlanAction × List (String × ActualRoute)
route_actions = reconcile (λ d. d.route_key) create_route keep_route

module _ (range_functions : List (String × ActualFunction) → List ActualFunction) where
  unfoldable pub diff_functions : List DesiredFunction → List ActualFunction → List PlanAction
  unfolding index
  diff_functions desired actual =
      let (l, m) = function_actions desired (index (λ f. f.name) actual []) in
      l ++ map delete_function (range_functions m)

module _ (range_routes : List (String × ActualRoute) → List ActualRoute) where
  unfoldable pub diff_routes : List DesiredRoute → List ActualRoute → List PlanAction
  unfolding index
  diff_routes desired actual =
      let (l, m) = route_actions desired (index (λ r. r.route_key) actual []) in
      l ++ map delete_route (range_routes m)

module _ (range_functions : List (String × ActualFunction) → List ActualFunction)
    (range_routes : List (String × ActualRoute) → List ActualRoute) where
  unfoldable pub diff : DesiredState → ActualState → String → String → String → Plan
  unfolding diff_functions diff_routes
  diff desired actual service stage provider = record {
    provider = provider;
    service = service;
    stage = stage;
    actions =
        diff_functions range_functions desired.functions actual.functions
        ++ http_api_actions desired.http_api actual.http_api
        ++ diff_routes range_routes desired.routes actual.routes;
  }
