-- ===== src/Policy/Router.antt =====
-- pkg/policy/router.go: what a route request asks for, how the two lanes are configured, and what a
-- route is. Text that the code compares with a closed list of constants is a data type with `unset`
-- for the empty text and `other` for the rest.
pub mod Lanes
pub mod Answers
pub mod Resolve
pub mod Isolation
pub mod Fallback
mod Tests
use reinframe.Prelude.{
  ℕ, String, Bool, true, false, Option, none, some, List, [], ◌∷◌, Map, is_empty, str_eq,
  if◌then◌else◌,
}
use reinframe.Protocol.Catalog.{ModelDescriptor}

-- `LaneID`
pub data Lane : Type 0 where
  subscription responses unset : Lane
  other : String → Lane

-- `Role`
pub data Role : Type 0 where
  agent classifier reviewer unset : Role
  other : String → Role

-- `ExecutionIntent`
pub data Intent : Type 0 where
  agent_turn classifier_assessment reviewer_advice direct_api app_server_session : Intent
  benchmark_run unset : Intent
  other : String → Intent

-- `CredentialClass`
pub data CredentialClass : Type 0 where
  subscription api_key unspecified unset : CredentialClass
  other : String → CredentialClass

-- `FallbackPolicy`
pub data FallbackPolicy : Type 0 where
  fail_closed same_lane_only cross_lane_prohibited unset : FallbackPolicy
  other : String → FallbackPolicy

-- The errors that a returned error is or wraps, outermost first.
pub data RouteError : Type 0 where
  no_route_available cross_lane_fallback_prohibited lane_auth_mismatch : RouteError
  capability_not_met model_unavailable model_substitution_prohibited : RouteError
  classifier_oauth_prohibited agent_api_key_prohibited context_ended : RouteError
  foreign : String → RouteError

abbrev pub Errors : Type 0
Errors = List RouteError

pub record ModelSelection : Type 0 where
  pub model_id : String
  pub allow_substitution : Bool
  pub required_support_state : String
  pub fallback_model_id : String

pub record RouteRequest : Type 0 where
  pub intent : Intent
  pub role : Role
  pub credential_class : CredentialClass
  pub required_capabilities : ℕ
  pub model_selection : ModelSelection
  pub fallback_policy : FallbackPolicy
  pub target_lane : Lane
  pub allow_agent_api_key : Bool
  pub metadata : Map String

pub record RouteDecision : Type 0 where
  pub lane_id : Lane
  pub credential_owner : String
  pub auth_mode : String
  pub endpoint : String
  pub selected_model : String
  pub required_capabilities : ℕ
  pub resolved_capabilities : ℕ
  pub billing_boundary : String
  pub role : Role
  pub intent : Intent
  pub fallback_policy : FallbackPolicy
  pub fallback_allowed : Bool
  pub metadata : Map String

-- `RuntimeAuthSnapshot`, as far as the router reads it.
pub record AuthSnapshot : Type 0 where
  pub auth_state : String
  pub auth_mode : String

-- `LaneSubscriptionConfig`
pub record SubscriptionLane : Type 0 where
  pub enabled : Bool
  pub credential_owner : String
  pub auth_mode : String
  pub endpoint : String
  pub capabilities : ℕ
  pub catalog : Option (List ModelDescriptor)
  pub auth_snapshot : Option AuthSnapshot
  pub billing_boundary : String

-- `LaneAPIResponsesConfig`
pub record ResponsesLane : Type 0 where
  pub enabled : Bool
  pub credential_owner : String
  pub auth_mode : String
  pub base_url : String
  pub path : String
  pub api_key_ref : String
  pub has_api_key : Bool
  pub capabilities : ℕ
  pub available_models : List String
  pub catalog : Option (List ModelDescriptor)
  pub allow_agent_routing : Bool
  pub billing_boundary : String

pub record DualLaneRouter : Type 0 where
  pub sub_lane : SubscriptionLane
  pub api_lane : ResponsesLane
  pub default_fallback : FallbackPolicy

-- `if s == "" { s = d }`
abbrev pub or_default : String → String → String
or_default s d = if is_empty s then d else s

-- `NewDualLaneRouter`
unfoldable pub new_router : SubscriptionLane → ResponsesLane → FallbackPolicy → DualLaneRouter
new_router sub api fallback = record {
  sub_lane = record sub {
    credential_owner = or_default sub.credential_owner "codex_process";
    auth_mode = or_default sub.auth_mode "chatgpt_subscription";
    endpoint = or_default sub.endpoint "codex_process";
    billing_boundary = or_default sub.billing_boundary "chatgpt_subscription_quota";
  };
  api_lane = record api {
    credential_owner = or_default api.credential_owner "reinframe_env";
    auth_mode = or_default api.auth_mode "api_key";
    base_url = or_default api.base_url "https://api.openai.com";
    path = or_default api.path "/v1/responses";
    billing_boundary = or_default api.billing_boundary "openai_api_tokens";
  };
  default_fallback = fallback;
}

-- `UpdateSubscriptionCatalog`, `UpdateSubscriptionAuth`, `UpdateAPICatalog`, `SetAPIAvailability`
unfoldable pub update_subscription_catalog : DualLaneRouter → List ModelDescriptor → DualLaneRouter
update_subscription_catalog r ms = record r { sub_lane = record r.sub_lane { catalog = some ms } }

unfoldable pub update_subscription_auth : DualLaneRouter → AuthSnapshot → DualLaneRouter
update_subscription_auth r a = record r { sub_lane = record r.sub_lane { auth_snapshot = some a } }

unfoldable pub update_api_catalog : DualLaneRouter → List ModelDescriptor → DualLaneRouter
update_api_catalog r ms = record r { api_lane = record r.api_lane { catalog = some ms } }

unfoldable pub set_api_availability : DualLaneRouter → Bool → DualLaneRouter
set_api_availability r b = record r { api_lane = record r.api_lane { has_api_key = b } }
