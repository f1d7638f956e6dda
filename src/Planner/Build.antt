-- ===== src/Planner/Build.antt =====
-- platform/planner/engine/plan.go. `%q` is a text between quotes: names hold no character that it
-- would escape. A method is taken to be ASCII.
pub mod Laws
use Prim.Native.Char.{Char, code}
use runfabric.Prelude.{
  ℕ, suc, ◌-◌, String, ◌<>◌, ◌=?=◌, Bool, true, false, not, ◌&&◌, Option, none, some, List, [], ◌∷◌,
  ◌++◌, leb, if◌then◌else◌, get_elem?,
}
use runfabric.Prelude.Int.{pos}
use runfabric.Planner.Actions.{
  create, build, function, http_api, schedule, PlanAction, Plan, decimal,
}
use runfabric.Planner.Config.{HttpEvent, EventConfig, FunctionConfig}

abbrev capitals : List Char
capitals =
    "A" ∷ "B" ∷ "C" ∷ "D" ∷ "E" ∷ "F" ∷ "G" ∷ "H" ∷ "I" ∷ "J" ∷ "K" ∷ "L" ∷ "M" ∷ "N" ∷ "O" ∷ "P"
    ∷ "Q" ∷ "R" ∷ "S" ∷ "T" ∷ "U" ∷ "V" ∷ "W" ∷ "X" ∷ "Y" ∷ "Z" ∷ []

abbrev upper_char : Char → Char
upper_char c =
    if leb 97 (code c)
    then (elim (get_elem? {A = Char} capitals (code c - 97)) [ some u ↦ u | none ↦ c ])
    else c

-- strings.ToUpper
unfoldable pub to_upper : String → String
to_upper String.[] = ""
to_upper (String.◌∷◌ c s) = String.◌∷◌ (upper_char c) (to_upper s)

unfoldable pub quoted : String → String
quoted s = "\"" <> s <> "\""

abbrev pub build_id : String → String
build_id fn_name = "build:" <> fn_name

abbrev pub function_id : String → String
function_id fn_name = "function:" <> fn_name

abbrev pub api_id : String
api_id = "httpapi:service"

unfoldable pub build_action : String → FunctionConfig → PlanAction
build_action fn_name fn = record {
  id = build_id fn_name;
  type_of = build;
  resource = function;
  name = fn_name;
  description = "Package function " <> quoted fn_name <> " with runtime " <> quoted fn.runtime;
  depends_on = [];
  metadata = [];
  changes = [];
}

unfoldable pub function_action : String → FunctionConfig → PlanAction
function_action fn_name fn = record {
  id = function_id fn_name;
  type_of = create;
  resource = function;
  name = fn_name;
  description = "Create/update function for handler " <> quoted fn.handler;
  depends_on = build_id fn_name ∷ [];
  metadata = [];
  changes = [];
}

unfoldable pub api_action : String → PlanAction
api_action service = record {
  id = api_id;
  type_of = create;
  resource = http_api;
  name = service;
  description = "Create/update HTTP API for service " <> quoted service;
  depends_on = [];
  metadata = [];
  changes = [];
}

unfoldable pub http_action : String → ℕ → HttpEvent → PlanAction
http_action fn_name i ev = record {
  id = "http:" <> fn_name <> ":" <> decimal (pos i);
  type_of = create;
  resource = http_api;
  name = fn_name;
  description = "Create HTTP route " <> to_upper ev.method <> " " <> ev.path;
  depends_on = api_id ∷ function_id fn_name ∷ [];
  metadata = [];
  changes = [];
}

unfoldable pub schedule_action : String → ℕ → String → PlanAction
schedule_action fn_name i cron = record {
  id = "schedule:" <> fn_name <> ":" <> decimal (pos i);
  type_of = create;
  resource = schedule;
  name = fn_name;
  description = "Create cron trigger " <> quoted cron;
  depends_on = function_id fn_name ∷ [];
  metadata = [];
  changes = [];
}

-- The HTTP part of an event; the API comes before the first route.
unfoldable pub http_actions : String → String → ℕ → Option HttpEvent → Bool → List PlanAction × Bool
http_actions service fn_name i none added = ([], added)
http_actions service fn_name i (some ev) added = (
  if added
      then http_action fn_name i ev ∷ []
      else api_action service ∷ http_action fn_name i ev ∷ [],
  true,
)

unfoldable pub cron_actions : String → ℕ → String → List PlanAction
cron_actions fn_name i cron = if cron =?= "" then [] else schedule_action fn_name i cron ∷ []

unfoldable pub event_actions :
    String → String → ℕ → List EventConfig → Bool → List PlanAction × Bool
event_actions service fn_name i [] added = ([], added)
event_actions service fn_name i (ev ∷ evs) added =
    let (routes, added1) = http_actions service fn_name i ev.http added in
    let (rest, added2) = event_actions service fn_name (suc i) evs added1 in
    (routes ++ (cron_actions fn_name i ev.cron ++ rest), added2)

unfoldable pub plan_actions : String → List (String × FunctionConfig) → Bool → List PlanAction
plan_actions service [] added = []
plan_actions service ((fn_name, fn) ∷ fns) added =
    let (l, added') = event_actions service fn_name 0 fn.events added in
    build_action fn_name fn ∷ function_action fn_name fn ∷ (l ++ plan_actions service fns added')

unfoldable pub build_plan : String → String → List (String × FunctionConfig) → String → Plan
unfolding plan_actions
build_plan provider service fns stage = record {
  provider = provider;
  service = service;
  stage = stage;
  actions = plan_actions service fns false;
}
