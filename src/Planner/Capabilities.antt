-- ===== src/Planner/Capabilities.antt =====
-- platform/planner/engine/capability_matrix.go and triggers.go.
use runfabric.Prelude.{
  String, ◌<>◌, ◌=?=◌, Bool, true, false, not, Option, none, some, List, [], ◌∷◌, ◌++◌,
  if◌then◌else◌, lookup,
}
use runfabric.Planner.Actions.{
  ResourceType, function, http_api, schedule, queue, storage, event_bridge, pub_sub, kafka,
  rabbit_mq,
}
use runfabric.Planner.Config.{EventConfig}

-- A row of the matrix.
abbrev row : Bool → Bool → Bool → Bool → Bool → Bool → Bool → Bool → List (String × Bool)
row on_http on_cron on_queue on_storage on_bridge on_pubsub on_kafka on_rabbit =
    ("http", on_http)
    ∷ ("cron", on_cron)
    ∷ ("queue", on_queue)
    ∷ ("storage", on_storage)
    ∷ ("eventbridge", on_bridge)
    ∷ ("pubsub", on_pubsub)
    ∷ ("kafka", on_kafka)
    ∷ ("rabbitmq", on_rabbit)
    ∷ []

abbrev http_and_cron : List (String × Bool)
http_and_cron = row true true false false false false false false

abbrev with_queues : List (String × Bool)
with_queues = row true true true true false false false false

unfoldable pub provider_capabilities : List (String × List (String × Bool))
provider_capabilities =
    ("aws-lambda", row true true true true true false false false)
    ∷ ("gcp-functions", row true true true true false true false false)
    ∷ ("azure-functions", with_queues)
    ∷ ("kubernetes", http_and_cron)
    ∷ ("cloudflare-workers", http_and_cron)
    ∷ ("vercel", http_and_cron)
    ∷ ("netlify", http_and_cron)
    ∷ ("alibaba-fc", with_queues)
    ∷ ("digitalocean-functions", http_and_cron)
    ∷ ("fly-machines", row true false false false false false false false)
    ∷ ("ibm-openwhisk", http_and_cron)
    ∷ []

unfoldable pub supports_in : String → Option (List (String × Bool)) → Bool
supports_in trigger none = false
supports_in trigger (some cap) = elim (lookup trigger cap) [ some b ↦ b | none ↦ false ]

unfoldable pub supports_trigger : String → String → Bool
unfolding supports_in
supports_trigger provider trigger = supports_in trigger (lookup provider provider_capabilities)

-- The triggers of a row that are supported.
unfoldable pub supported_in : List (String × Bool) → List String
supported_in [] = []
supported_in ((trigger, supported) ∷ cap) =
    let rest = supported_in cap in if supported then trigger ∷ rest else rest

-- `nil` and an empty slice are the same list here.
unfoldable pub supported_triggers : String → List String
unfolding supported_in
supported_triggers provider = elim (lookup provider provider_capabilities) [
  | none ↦ []
  | some cap ↦ supported_in cap
]

abbrev is_set : {A : Type 0} → Option A → Bool
is_set none = false
is_set (some a) = true

unfoldable pub trigger_kind_from_event : EventConfig → String
trigger_kind_from_event ev =
    if is_set ev.http
    then "http"
    else if not (ev.cron =?= "")
    then "cron"
    else if ev.queue
    then "queue"
    else if ev.storage
    then "storage"
    else if ev.event_bridge
    then "eventbridge"
    else if ev.pub_sub
    then "pubsub"
    else if ev.kafka
    then "kafka"
    else if ev.rabbit_mq
    then "rabbitmq"
    else ""

unfoldable pub unsupported_text : String → String → String → String
unsupported_text fn_name kind provider =
    "functions." <> fn_name <> ": trigger \"" <> kind <> "\" is not supported by provider \""
    <> provider <> "\" (see Trigger Capability Matrix)"

unfoldable pub validate_event : String → String → String → List String
validate_event provider fn_name kind =
    if kind =?= ""
    then []
    else if supports_trigger provider kind
    then []
    else unsupported_text fn_name kind provider ∷ []

unfoldable pub validate_events : String → String → List EventConfig → List String
validate_events provider fn_name [] = []
validate_events provider fn_name (ev ∷ evs) =
    validate_event provider fn_name (trigger_kind_from_event ev)
    ++ validate_events provider fn_name evs

unfoldable pub validate_triggers_for_provider :
    List (String × List EventConfig) → String → List String
validate_triggers_for_provider [] provider = []
validate_triggers_for_provider ((fn_name, evs) ∷ fns) provider =
    validate_events provider fn_name evs ++ validate_triggers_for_provider fns provider

unfoldable pub resource_type_for_trigger : String → ResourceType
resource_type_for_trigger kind =
    if kind =?= "http"
    then http_api
    else if kind =?= "cron"
    then schedule
    else if kind =?= "queue"
    then queue
    else if kind =?= "storage"
    then storage
    else if kind =?= "eventbridge"
    then event_bridge
    else if kind =?= "pubsub"
    then pub_sub
    else if kind =?= "kafka"
    then kafka
    else if kind =?= "rabbitmq"
    then rabbit_mq
    else function
