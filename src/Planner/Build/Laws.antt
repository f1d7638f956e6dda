-- ===== src/Planner/Build/Laws.antt =====
-- platform/planner/engine/plan.go: the actions of a plan stand in an order in which they can be done.
use runfabric.Prelude.{
  ℕ, suc, String, ◌=?=◌, ◌≡◌, refl, Bool, true, false, ◌&&◌, ◌||◌, Option, none, some, List, [],
  ◌∷◌, ◌++◌, if◌then◌else◌, arith, text_eq_refl,
}
use runfabric.Planner.Actions.{PlanAction}
use runfabric.Planner.Config.{HttpEvent, EventConfig, FunctionConfig}
use runfabric.Planner.Build.{
  build_action, function_action, api_action, http_action, schedule_action, http_actions,
  cron_actions, event_actions, plan_actions, build_plan, build_id, function_id, api_id,
}

abbrev is_member : String → List String → Bool
is_member k [] = false
is_member k (x ∷ l) = x =?= k || is_member k l

abbrev are_members : List String → List String → Bool
are_members [] seen = true
are_members (x ∷ xs) seen = is_member x seen && are_members xs seen

-- Every action depends only on ids in `seen` and on those of actions before it.
abbrev pub is_in_order : List String → List PlanAction → Bool
is_in_order seen [] = true
is_in_order seen (a ∷ l) = are_members a.depends_on seen && is_in_order (a.id ∷ seen) l

-- The ids that have been seen after a list of actions.
abbrev seen_after : List String → List PlanAction → List String
seen_after seen [] = seen
seen_after seen (a ∷ l) = seen_after (a.id ∷ seen) l

is_in_order-append :
    (seen : List String) (l k : List PlanAction)
    → is_in_order seen (l ++ k) ≡ (is_in_order seen l && is_in_order (seen_after seen l) k)
is_in_order-append seen [] k = refl
is_in_order-append seen (a ∷ l) k = ground (arith, is_in_order-append (a.id ∷ seen) l k)

still_seen :
    (x : String) (seen : List String) (l : List PlanAction)
    → is_member x seen ≡ true
    → is_member x (seen_after seen l) ≡ true
still_seen x seen [] h = h
still_seen x seen (a ∷ l) h = still_seen x (a.id ∷ seen) l (ground arith)

-- If the API has been added, its id has been seen.
abbrev HasApi : Bool → List String → Type 0
HasApi added seen = added ≡ true → is_member api_id seen ≡ true

-- A list of actions that is in order after `seen`, and what has been added after it.
abbrev Follows : List String → List PlanAction → Bool → Type 0
Follows seen l added = (is_in_order seen l ≡ true) × HasApi added (seen_after seen l)

http_actions-Follows :
    (service fn_name : String) (i : ℕ) (ev : Option HttpEvent) (added : Bool) (seen : List String)
    → HasApi added seen
    → is_member (function_id fn_name) seen ≡ true
    → let r : List PlanAction × Bool = http_actions service fn_name i ev added in
      Follows seen r.0 r.1
unfolding http_actions http_action api_action
http_actions-Follows service fn_name i none added seen h f = (refl, h)
http_actions-Follows service fn_name i (some ev) true seen h f =
    (ground (arith, h refl), λ e. ground (arith, h refl))
http_actions-Follows service fn_name i (some ev) false seen h f =
    (ground (arith, text_eq_refl api_id), λ e. ground (arith, text_eq_refl api_id))

cron_actions-Follows :
    (fn_name : String) (i : ℕ) (cron : String) (added : Bool) (seen : List String)
    → HasApi added seen
    → is_member (function_id fn_name) seen ≡ true
    → Follows seen (cron_actions fn_name i cron) added
unfolding cron_actions schedule_action
cron_actions-Follows fn_name i cron added seen h f =
    elim (cron =?= "")
      as (λ b. Follows seen (if b then [] else schedule_action fn_name i cron ∷ []) added) [
        | true ↦ (refl, h)
        | false ↦ (ground (arith, f), λ e. ground (arith, h e))
      ]

seen_after-append :
    (seen : List String) (l k : List PlanAction)
    → seen_after seen (l ++ k) ≡ seen_after (seen_after seen l) k
seen_after-append seen [] k = refl
seen_after-append seen (a ∷ l) k = seen_after-append (a.id ∷ seen) l k

Follows-append :
    (seen : List String) (l k : List PlanAction) (added : Bool)
    → is_in_order seen l ≡ true
    → Follows (seen_after seen l) k added
    → Follows seen (l ++ k) added
Follows-append seen l k added o (p, h) =
    (rw (is_in_order-append, o) p, λ e. rw seen_after-append (h e))

event_actions-Follows :
    (service fn_name : String) (i : ℕ) (evs : List EventConfig) (added : Bool) (seen : List String)
    → HasApi added seen
    → is_member (function_id fn_name) seen ≡ true
    → let r : List PlanAction × Bool = event_actions service fn_name i evs added in
      Follows seen r.0 r.1
unfolding event_actions
event_actions-Follows service fn_name i [] added seen h f = (refl, h)
event_actions-Follows service fn_name i (ev ∷ evs) added seen h f =
    let (o, h1) = http_actions-Follows service fn_name i ev.http added seen h f in
    let routes = (http_actions service fn_name i ev.http added).0 in
    let added1 = (http_actions service fn_name i ev.http added).1 in
    let seen1 = seen_after seen routes in
    let f1 = still_seen (function_id fn_name) seen routes f in
    let (o2, h2) = cron_actions-Follows fn_name i ev.cron added1 seen1 h1 f1 in
    let crons = cron_actions fn_name i ev.cron in
    let after = event_actions service fn_name (suc i) evs added1 in
    Follows-append seen routes (crons ++ after.0) after.1 o (
      Follows-append seen1 crons after.0 after.1 o2 (
        event_actions-Follows service fn_name (suc i) evs added1 (seen_after seen1 crons) h2
          (still_seen (function_id fn_name) seen1 crons f1)))

plan_actions-in_order :
    (service : String) (fns : List (String × FunctionConfig)) (added : Bool) (seen : List String)
    → HasApi added seen
    → is_in_order seen (plan_actions service fns added) ≡ true
unfolding plan_actions build_action function_action
plan_actions-in_order service [] added seen h = refl
plan_actions-in_order service ((fn_name, fn) ∷ fns) added seen h =
    let b = build_id fn_name in
    let f = function_id fn_name in
    let l = (event_actions service fn_name 0 fn.events added).0 in
    let (o, h') =
      event_actions-Follows service fn_name 0 fn.events added (f ∷ b ∷ seen)
        (λ e. ground (arith, h e)) (ground (arith, text_eq_refl f)) in
    let rest = plan_actions-in_order service fns _ (seen_after (f ∷ b ∷ seen) l) h' in
    rw (text_eq_refl b) (rw (is_in_order-append, o) rest)

-- In a plan that is built from a configuration every action depends only on actions that come
-- before it, in whatever order the functions are met.
pub build_plan_in_order :
    (provider service stage : String) (fns : List (String × FunctionConfig))
    → is_in_order [] (build_plan provider service fns stage).actions ≡ true
unfolding build_plan
build_plan_in_order provider service stage fns =
    plan_actions-in_order service fns false [] (λ e. cc)
