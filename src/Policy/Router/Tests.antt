-- ===== src/Policy/Router/Tests.antt =====
-- Runs of the router of pkg/policy/router.go on small inputs.
use reinframe.Prelude.{
  Char, code, ◌==◌, if◌then◌else◌, Option, true, false, none, some, [], ◌∷◌, ok, err, ◌≡◌, ◌≢◌, ◌⊎◌,
  refl,
}
use reinframe.Detector.Fingerprint.{trim_space, map_chars, is_space}
use reinframe.Protocol.Catalog.{get_model, is_selectable_state, has_all_capabilities, normal_id}
use reinframe.Policy.Router.{
  Lane, Role, Intent, CredentialClass, FallbackPolicy, Errors, RouteRequest, RouteDecision,
  DualLaneRouter, new_router, foreign, cross_lane_fallback_prohibited,
}
use reinframe.Policy.Router.Lanes.{
  covers, model_covers, wanted_model, supports, find_or_substitute, check_model, from_catalog,
  resolve_subscription_lane, subscription_decision, is_authenticated, equal_fold,
}
use reinframe.Policy.Router.Resolve.{
  role_of, intent_of, lane_of, suits, policy_of, is_isolated, resolve_on, resolve_route_locked,
  resolve_route, FallbackOption, retry_request, retry_model, retry, wrap, same_boundary, fall_back,
  resolve_fallback,
}
use reinframe.Policy.Router.Isolation.{route_isolation, route_fits}
use reinframe.Policy.Router.Fallback.{fallback_once}
use Prim.Native.Nat.{bit_and}

abbrev same : Char → Char
same c = c

abbrev router : DualLaneRouter
router =
    new_router
      (record {
        enabled = true;
        credential_owner = "";
        auth_mode = "";
        endpoint = "";
        capabilities = 7;
        catalog = some (
            record {
              model_id = "m1";
              support_state = "selectable";
              capabilities = 3;
              is_default = true;
            }
            ∷ record {
              model_id = "m2 ";
              support_state = "live_qualified";
              capabilities = 0;
              is_default = false;
            }
            ∷ []);
        auth_snapshot =
            some (record { auth_state = "authenticated"; auth_mode = "chatgpt_subscription" });
        billing_boundary = "";
      })
      (record {
        enabled = true;
        credential_owner = "";
        auth_mode = "";
        base_url = "";
        path = "";
        api_key_ref = "";
        has_api_key = true;
        capabilities = 5;
        available_models = [];
        catalog = none;
        allow_agent_routing = false;
        billing_boundary = "";
      })
      FallbackPolicy.same_lane_only

abbrev request : RouteRequest
request = record {
  intent = Intent.unset;
  role = Role.agent;
  credential_class = CredentialClass.unset;
  required_capabilities = 3;
  model_selection = record {
    model_id = "m1";
    allow_substitution = false;
    required_support_state = "";
    fallback_model_id = "";
  };
  fallback_policy = FallbackPolicy.unset;
  target_lane = Lane.unset;
  allow_agent_api_key = false;
  metadata = [];
}

abbrev route : RouteDecision
route = record {
  lane_id = Lane.subscription;
  credential_owner = "codex_process";
  auth_mode = "chatgpt_subscription";
  endpoint = "codex_process";
  selected_model = "m1";
  required_capabilities = 3;
  resolved_capabilities = 3;
  billing_boundary = "chatgpt_subscription_quota";
  role = Role.agent;
  intent = Intent.agent_turn;
  fallback_policy = FallbackPolicy.same_lane_only;
  fallback_allowed = true;
  metadata = [];
}

route_test : resolve_route same same false router request ≡ ok route
unfolding resolve_route resolve_route_locked role_of intent_of is_isolated lane_of suits resolve_on
    resolve_subscription_lane is_authenticated covers from_catalog wanted_model find_or_substitute
    get_model normal_id trim_space map_chars is_space check_model supports is_selectable_state
    model_covers has_all_capabilities subscription_decision policy_of new_router
route_test = refl

route_isolation_example :
    (route.role ≡ Role.classifier → route.lane_id ≡ Lane.responses)
    × (route.role ≡ Role.agent → (route.lane_id ≡ Lane.subscription) ⊎ (false ≡ true))
    × (((route.lane_id ≡ Lane.subscription)
          × (route.billing_boundary ≡ router.sub_lane.billing_boundary))
        ⊎ ((route.lane_id ≡ Lane.responses)
            × (route.billing_boundary ≡ router.api_lane.billing_boundary)))
unfolding new_router
route_isolation_example = route_isolation same same router request false route route_test

route_fits_example :
    (route.required_capabilities ≡ request.required_capabilities)
    × (request.required_capabilities ≢ 0
        → bit_and route.resolved_capabilities request.required_capabilities
          ≡ request.required_capabilities)
    × (request.model_selection.model_id ≢ ""
        → false ≡ false
        → route.selected_model ≡ request.model_selection.model_id)
route_fits_example = route_fits same same router request false route route_test

abbrev other_model : FallbackOption
other_model = record { fallback_model_id = "M2"; required_capabilities = 0 }

abbrev second_route : RouteDecision
second_route = record route {
  selected_model = "M2";
  resolved_capabilities = 7;
  fallback_policy = FallbackPolicy.fail_closed;
  fallback_allowed = false;
}

-- Lower-casing of two letters.
abbrev lower : Char → Char
lower c = if code c == 77 then "m" else c

fallback_test :
    resolve_fallback lower lower false router route (some (foreign "429" ∷ [])) (some other_model)
    ≡ ok second_route
unfolding resolve_fallback fall_back retry equal_fold retry_request wrap same_boundary
    resolve_route_locked role_of intent_of is_isolated lane_of suits resolve_on
    resolve_subscription_lane is_authenticated covers from_catalog wanted_model find_or_substitute
    get_model normal_id trim_space map_chars is_space check_model supports is_selectable_state
    model_covers has_all_capabilities subscription_decision policy_of new_router
fallback_test = refl

fallback_once_example :
    (route.fallback_policy ≡ FallbackPolicy.same_lane_only)
    × (second_route.lane_id ≡ route.lane_id)
    × (second_route.billing_boundary ≡ route.billing_boundary)
    × (second_route.selected_model ≡ retry_model (some other_model))
    × (equal_fold lower lower second_route.selected_model route.selected_model ≡ false)
    × ((later : Errors) (others : Option FallbackOption)
        → resolve_fallback lower lower false router second_route (some later) others
          ≡ err (cross_lane_fallback_prohibited ∷ later))
fallback_once_example =
    fallback_once lower lower router route (foreign "429" ∷ []) (some other_model) second_route
      fallback_test
