-- ===== src/Planner/Config.antt =====
-- platform/core/model/config/types.go: what the planner reads of a configuration. A trigger other than
-- HTTP and cron is present or not. The functions of a configuration, a map, are a list in the order in
-- which a loop over the map meets them.
use runfabric.Prelude.{String, Bool, Option, List}

pub record HttpEvent : Type 0 where
  pub path : String
  pub method : String

pub record EventConfig : Type 0 where
  pub http : Option HttpEvent
  pub cron : String
  pub queue : Bool
  pub storage : Bool
  pub event_bridge : Bool
  pub pub_sub : Bool
  pub kafka : Bool
  pub rabbit_mq : Bool

pub record FunctionConfig : Type 0 where
  pub handler : String
  pub runtime : String
  pub events : List EventConfig
