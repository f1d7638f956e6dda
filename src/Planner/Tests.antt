-- ===== src/Planner/Tests.antt =====
-- platform/planner/engine: runs of the theorems on a small service.
use runfabric.Prelude.{String, ◌≡◌, true, false, none, some, List, [], ◌∷◌}
use runfabric.Prelude.Int.{pos}
use runfabric.Planner.Actions.{DesiredFunction, ActualFunction, DesiredState, ActualState}
use runfabric.Planner.Config.{EventConfig, FunctionConfig}
use runfabric.Planner.Build.{build_plan}
use runfabric.Planner.Build.Laws.{is_in_order, build_plan_in_order}

abbrev api : DesiredFunction
api = record {
  name = "api";
  runtime = "nodejs20.x";
  handler = "index.handler";
  memory = pos 256;
  timeout = pos 30;
  code_sha256 = "c1";
  config_signature = "s1";
}

abbrev deployed_api : ActualFunction
deployed_api = record {
  name = "api";
  runtime = "nodejs18.x";
  handler = "index.handler";
  resource_identifier = "arn:api";
  memory = pos 128;
  timeout = pos 30;
  code_sha256 = "c0";
}

abbrev stale_worker : ActualFunction
stale_worker = record deployed_api { name = "worker"; resource_identifier = "arn:worker" }

abbrev desired_service : DesiredState
desired_service = record {
  functions = api ∷ [];
  http_api = none;
  routes =
      record { route_key = "GET /hello"; function_name = "api"; path = "/hello"; method = "GET" }
      ∷ [];
}

abbrev deployed_service : ActualState
deployed_service = record {
  functions = deployed_api ∷ stale_worker ∷ [];
  http_api = none;
  routes =
      record {
        id = "r1";
        route_key = "GET /old";
        target = "integrations/i1";
        integration_id = "i1";
      }
      ∷ [];
  integrations = [];
}

abbrev queue_event : EventConfig
queue_event = record {
  http = none;
  cron = "";
  queue = true;
  storage = false;
  event_bridge = false;
  pub_sub = false;
  kafka = false;
  rabbit_mq = false;
}

abbrev service : List (String × List EventConfig)
service = ("api", queue_event ∷ []) ∷ []

abbrev http_event : EventConfig
http_event = record queue_event {
  http = some (record { path = "/orders"; method = "get" });
  cron = "rate(5 minutes)";
}

abbrev functions : List (String × FunctionConfig)
functions =
    (
      "api",
      record {
        handler = "index.handler";
        runtime = "nodejs20.x";
        events = http_event ∷ queue_event ∷ [];
      },
    )
    ∷ ("web", record { handler = "web.handler"; runtime = "nodejs20.x"; events = http_event ∷ [] })
    ∷ []

build_plan_in_order_example :
    is_in_order [] (build_plan "aws-lambda" "shop" functions "dev").actions ≡ true
build_plan_in_order_example = build_plan_in_order "aws-lambda" "shop" "dev" functions
