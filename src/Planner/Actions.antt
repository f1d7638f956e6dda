-- ===== src/Planner/Actions.antt =====
-- platform/planner/engine/types.go and remote.go. `fmt.Sprintf("%d", n)` is `decimal`.
use runfabric.Prelude.{
  ℕ, zero, suc, ◌/◌, ◌%◌, String, ◌<>◌, Option, none, some, List, [], ◌∷◌, ltb, get_elem?,
  if◌then◌else◌,
}
use runfabric.Prelude.Int.{ℤ, pos, negsuc}

pub data ActionType : Type 0 where
  create update delete build noop : ActionType

pub data ResourceType : Type 0 where
  function http_api http_route integration schedule queue storage event_bridge pub_sub kafka
        rabbit_mq :
      ResourceType

pub record PlanAction : Type 0 where
  pub id : String
  pub type_of : ActionType
  pub resource : ResourceType
  pub name : String
  pub description : String
  pub depends_on : List String
  pub metadata : List (String × String)
  pub changes : List (String × (String × String))

pub record Plan : Type 0 where
  pub provider : String
  pub service : String
  pub stage : String
  pub actions : List PlanAction

-- remote.go
pub record DesiredFunction : Type 0 where
  pub name : String
  pub runtime : String
  pub handler : String
  pub memory : ℤ
  pub timeout : ℤ
  pub code_sha256 : String
  pub config_signature : String

pub record DesiredHttpApi : Type 0 where
  pub name : String

pub record DesiredRoute : Type 0 where
  pub route_key : String
  pub function_name : String
  pub path : String
  pub method : String

pub record DesiredState : Type 0 where
  pub functions : List DesiredFunction
  pub http_api : Option DesiredHttpApi
  pub routes : List DesiredRoute

pub record ActualFunction : Type 0 where
  pub name : String
  pub runtime : String
  pub handler : String
  pub resource_identifier : String
  pub memory : ℤ
  pub timeout : ℤ
  pub code_sha256 : String

pub record ActualHttpApi : Type 0 where
  pub id : String
  pub name : String
  pub endpoint : String

pub record ActualRoute : Type 0 where
  pub id : String
  pub route_key : String
  pub target : String
  pub integration_id : String

pub record ActualIntegration : Type 0 where
  pub id : String
  pub integration_uri : String

pub record ActualState : Type 0 where
  pub functions : List ActualFunction
  pub http_api : Option ActualHttpApi
  pub routes : List ActualRoute
  pub integrations : List ActualIntegration

abbrev digit : ℕ → String
digit n =
    elim (get_elem? {A = String} ("0" ∷ "1" ∷ "2" ∷ "3" ∷ "4" ∷ "5" ∷ "6" ∷ "7" ∷ "8" ∷ "9" ∷ [])
      n) [ some d ↦ d | none ↦ "" ]

abbrev digits : ℕ → ℕ → String
digits zero n = ""
digits (suc fuel) n =
    let front = digits fuel (n / 10) in if ltb n 10 then digit n else front <> digit (n % 10)

-- The absolute value of an int has at most 19 digits.
unfoldable pub decimal : ℤ → String
decimal (pos n) = digits 20 n
decimal (negsuc n) = "-" <> digits 20 (suc n)
