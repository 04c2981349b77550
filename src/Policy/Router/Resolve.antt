-- ===== src/Policy/Router/Resolve.antt =====
-- pkg/policy/router.go: the route of a request, and the fallback after a failure. Whether the context
-- has ended is an argument.
use reinframe.Prelude.{
  ℕ, String, Char, Bool, true, false, not, ◌&&◌, ◌||◌, ◌==◌, Option, none, some, [], ◌∷◌, ◌++◌,
  is_empty, str_eq, if◌then◌else◌, Result, ok, err, ◌>>=◌, ◌>>◌, ensure,
}
use reinframe.Policy.Router.{
  Lane, Role, Intent, CredentialClass, FallbackPolicy, Errors, no_route_available,
  cross_lane_fallback_prohibited, lane_auth_mismatch, classifier_oauth_prohibited,
  agent_api_key_prohibited, context_ended, RouteRequest, RouteDecision, DualLaneRouter,
}
use reinframe.Policy.Router.Lanes.{equal_fold, resolve_subscription_lane, resolve_responses_lane}

-- The role, inferred from the intent where it is empty.
unfoldable pub role_of : Role → Intent → Result Errors Role
role_of Role.agent i = ok Role.agent
role_of Role.classifier i = ok Role.classifier
role_of Role.reviewer i = ok Role.reviewer
role_of (Role.other s) i = err (no_route_available ∷ [])
role_of Role.unset Intent.agent_turn = ok Role.agent
role_of Role.unset Intent.app_server_session = ok Role.agent
role_of Role.unset Intent.classifier_assessment = ok Role.classifier
role_of Role.unset Intent.reviewer_advice = ok Role.reviewer
role_of Role.unset Intent.direct_api = err (no_route_available ∷ [])
role_of Role.unset Intent.benchmark_run = err (no_route_available ∷ [])
role_of Role.unset Intent.unset = err (no_route_available ∷ [])
role_of Role.unset (Intent.other s) = err (no_route_available ∷ [])

default_intent : Role → Result Errors Intent
default_intent Role.agent = ok Intent.agent_turn
default_intent Role.classifier = ok Intent.classifier_assessment
default_intent Role.reviewer = ok Intent.reviewer_advice
default_intent _ = err (no_route_available ∷ [])

-- The intent, inferred from the role where it is empty.
unfoldable pub intent_of : Role → Intent → Result Errors Intent
unfolding default_intent
intent_of r Intent.unset = default_intent r
intent_of r (Intent.other s) = err (no_route_available ∷ [])
intent_of r i = ok i

abbrev pub is_classifying : Role → Intent → Bool
is_classifying Role.classifier i = true
is_classifying r Intent.classifier_assessment = true
is_classifying r i = false

abbrev pub is_acting : Role → Intent → Bool
is_acting Role.agent i = true
is_acting r Intent.agent_turn = true
is_acting r Intent.app_server_session = true
is_acting r i = false

abbrev pub is_agent : Role → Bool
is_agent Role.agent = true
is_agent _ = false

abbrev pub is_subscription : Lane → Bool
is_subscription Lane.subscription = true
is_subscription _ = false

abbrev pub is_responses : Lane → Bool
is_responses Lane.responses = true
is_responses _ = false

abbrev pub is_subscription_class : CredentialClass → Bool
is_subscription_class CredentialClass.subscription = true
is_subscription_class _ = false

abbrev pub is_api_class : CredentialClass → Bool
is_api_class CredentialClass.api_key = true
is_api_class _ = false

-- The lane by the role and the class of the credentials, where the request names none.
unfoldable pub inferred_lane : Role → CredentialClass → Bool → Result Errors Lane
inferred_lane Role.classifier c opted_in = ok Lane.responses
inferred_lane Role.reviewer c opted_in = ok Lane.responses
inferred_lane Role.agent c opted_in =
    if is_api_class c && opted_in then ok Lane.responses else ok Lane.subscription
inferred_lane r CredentialClass.subscription opted_in = ok Lane.subscription
inferred_lane r CredentialClass.api_key opted_in = ok Lane.responses
inferred_lane r c opted_in = err (no_route_available ∷ [])

unfoldable pub lane_of : Lane → Role → CredentialClass → Bool → Result Errors Lane
unfolding inferred_lane
lane_of Lane.unset r c opted_in = inferred_lane r c opted_in
lane_of (Lane.other s) r c opted_in = err (no_route_available ∷ [])
lane_of l r c opted_in = ok l

-- The credentials suit the lane.
unfoldable pub suits : Lane → CredentialClass → Bool
suits l CredentialClass.unset = true
suits l CredentialClass.unspecified = true
suits Lane.subscription c = is_subscription_class c
suits Lane.responses c = is_api_class c
suits l c = true

unfoldable pub policy_of : FallbackPolicy → FallbackPolicy → FallbackPolicy
policy_of FallbackPolicy.unset FallbackPolicy.unset = FallbackPolicy.fail_closed
policy_of FallbackPolicy.unset default = default
policy_of p default = p

-- `AllowAgentAPIKey` of the request, or `AllowAgentRouting` of the lane.
abbrev pub opts_in : DualLaneRouter → RouteRequest → Bool
opts_in r req = req.allow_agent_api_key || r.api_lane.allow_agent_routing

-- The checks of the roles.
unfoldable pub is_isolated :
    DualLaneRouter → RouteRequest → Role → Intent → Result Errors (Unit {0})
is_isolated r req role intent = do
  ensure
      (not (
        is_classifying role intent
        && (is_subscription req.target_lane || is_subscription_class req.credential_class)))
      (classifier_oauth_prohibited ∷ lane_auth_mismatch ∷ [])
  ensure
      (not (
        is_acting role intent
        && (is_responses req.target_lane || is_api_class req.credential_class)
        && not (opts_in r req)))
      (agent_api_key_prohibited ∷ lane_auth_mismatch ∷ [])

-- `FallbackOption`
pub record FallbackOption : Type 0 where
  pub fallback_model_id : String
  pub required_capabilities : ℕ

abbrev pub lane_eq : Lane → Lane → Bool
lane_eq Lane.subscription Lane.subscription = true
lane_eq Lane.responses Lane.responses = true
lane_eq Lane.unset Lane.unset = true
lane_eq (Lane.other a) (Lane.other b) = str_eq a b
lane_eq _ _ = false

-- The request for another model of the lane of the failed route.
unfoldable pub retry_request : RouteDecision → String → ℕ → RouteRequest
retry_request orig model required = record {
  intent = orig.intent;
  role = orig.role;
  credential_class = CredentialClass.unset;
  required_capabilities = required;
  model_selection = record {
    model_id = model;
    allow_substitution = false;
    required_support_state = "";
    fallback_model_id = "";
  };
  fallback_policy = FallbackPolicy.fail_closed;
  target_lane = orig.lane_id;
  allow_agent_api_key = is_agent orig.role && is_responses orig.lane_id;
  metadata = [];
}

-- The model and the capabilities of the retry.
abbrev pub retry_model : Option FallbackOption → String
retry_model none = ""
retry_model (some o) = o.fallback_model_id

abbrev pub retry_capabilities : Option FallbackOption → ℕ → ℕ
retry_capabilities none required = required
retry_capabilities (some o) required =
    if o.required_capabilities == 0 then required else o.required_capabilities

unfoldable pub wrap : Errors → Result Errors RouteDecision → Result Errors RouteDecision
wrap outer (ok d) = ok d
wrap outer (err e) = err (outer ++ e)

-- The new route stays on the lane, and within its billing boundary.
unfoldable pub same_boundary : RouteDecision → RouteDecision → Result Errors RouteDecision
same_boundary orig dec = do
  ensure (lane_eq dec.lane_id orig.lane_id && str_eq dec.billing_boundary orig.billing_boundary)
      (cross_lane_fallback_prohibited ∷ [])
  ok dec

module _ (lower fold : Char → Char) where
  unfoldable pub resolve_on :
      DualLaneRouter
      → RouteRequest
      → Role
      → Intent
      → FallbackPolicy
      → Lane
      → Result Errors RouteDecision
  resolve_on r req role intent policy Lane.subscription =
      resolve_subscription_lane lower fold r.sub_lane req role intent policy
  resolve_on r req role intent policy Lane.responses =
      resolve_responses_lane lower fold r.api_lane req role intent policy
  resolve_on r req role intent policy _ = err (no_route_available ∷ [])

  -- `resolveRouteLocked`
  unfoldable pub resolve_route_locked : DualLaneRouter → RouteRequest → Result Errors RouteDecision
  resolve_route_locked r req = do
    role ← role_of req.role req.intent
    intent ← intent_of role req.intent
    is_isolated r req role intent
    lane ← lane_of req.target_lane role req.credential_class (opts_in r req)
    ensure (suits lane req.credential_class) (lane_auth_mismatch ∷ [])
    resolve_on r req role intent (policy_of req.fallback_policy r.default_fallback) lane

  -- `ResolveRoute`
  unfoldable pub resolve_route : Bool → DualLaneRouter → RouteRequest → Result Errors RouteDecision
  resolve_route ended r req = if ended then err (context_ended ∷ []) else resolve_route_locked r req

  -- The part of `ResolveFallback` for the policy `FallbackSameLaneOnly`.
  unfoldable pub retry :
      DualLaneRouter → RouteDecision → Option FallbackOption → Result Errors RouteDecision
  retry r orig opts = do
    ensure
        (not (
          is_empty (retry_model opts)
          || equal_fold lower fold (retry_model opts) orig.selected_model))
        (no_route_available ∷ [])
    dec ← wrap (no_route_available ∷ []) (
        resolve_route_locked r (
          retry_request orig (retry_model opts)
            (retry_capabilities opts orig.required_capabilities)))
    same_boundary orig dec

  -- The policies.
  unfoldable pub fall_back :
      DualLaneRouter
      → RouteDecision
      → Errors
      → Option FallbackOption
      → FallbackPolicy
      → Result Errors RouteDecision
  fall_back r orig failure opts FallbackPolicy.same_lane_only = retry r orig opts
  fall_back r orig failure opts (FallbackPolicy.other s) = err (cross_lane_fallback_prohibited ∷ [])
  fall_back r orig failure opts _ = err (cross_lane_fallback_prohibited ∷ failure)

  -- `ResolveFallback`
  unfoldable pub resolve_fallback :
      Bool
      → DualLaneRouter
      → RouteDecision
      → Option Errors
      → Option FallbackOption
      → Result Errors RouteDecision
  resolve_fallback true r orig failure opts = err (context_ended ∷ [])
  resolve_fallback false r orig none opts = ok orig
  resolve_fallback false r orig (some failure) opts =
      fall_back r orig failure opts orig.fallback_policy
