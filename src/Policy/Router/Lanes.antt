-- ===== src/Policy/Router/Lanes.antt =====
-- pkg/policy/router.go: how each lane answers a request that is meant for it. `lower` maps one
-- character as `unicode.ToLower` does, `fold` to the first of those that `strings.EqualFold` equates.
use reinframe.Prelude.{
  ℕ, String, Char, Bool, true, false, not, ◌&&◌, ◌||◌, ◌==◌, Option, none, some, List, [], ◌∷◌,
  is_empty, str_eq, ◌⧺◌, if◌then◌else◌, Result, ok, err, ◌>>=◌, ◌>>◌, ensure,
}
use reinframe.Detector.Fingerprint.{trim_space, map_chars}
use reinframe.Protocol.Catalog.{
  ModelDescriptor, get_model, default_model, satisfies, is_selectable_state, has_all_capabilities,
}
use reinframe.Policy.Router.{
  Lane, Role, Intent, FallbackPolicy, Errors, no_route_available, lane_auth_mismatch,
  capability_not_met, model_unavailable, model_substitution_prohibited, ModelSelection,
  RouteRequest, RouteDecision, AuthSnapshot, SubscriptionLane, ResponsesLane, or_default,
}
use text.Mathlib.Text.{starts_with}

-- `have & want == want`, unless nothing is wanted.
unfoldable pub covers : ℕ → ℕ → Bool
covers capabilities required = required == 0 || has_all_capabilities capabilities required

-- The same test of a model, which one without capabilities passes.
unfoldable pub model_covers : ℕ → ℕ → Bool
model_covers capabilities required =
    required == 0 || capabilities == 0 || has_all_capabilities capabilities required

-- The model that is asked for, or the catalogue's default, or its first.
unfoldable pub wanted_model : List ModelDescriptor → String → String
wanted_model ms id = if not (is_empty id) then id else elim (default_model ms) [
  | some m ↦ m.model_id
  | none ↦ (elim ms [ [] ↦ "" | m ∷ rest ↦ m.model_id ])
]

-- The support state that the request asks of the model.
unfoldable pub supports : ModelSelection → ModelDescriptor → Bool
supports sel desc =
    if is_empty sel.required_support_state
    then is_selectable_state desc.support_state
    else satisfies desc.support_state sel.required_support_state

-- `strings.TrimRight(s, "/")`
trim_right_slashes : String → String
trim_right_slashes String.[] = String.[]
trim_right_slashes (String.◌∷◌ c s) =
    let r = trim_right_slashes s in
    if is_empty r && str_eq (String.◌∷◌ c String.[]) "/" then String.[] else String.◌∷◌ c r

-- `strings.TrimLeft(s, "/")`
trim_left_slashes : String → String
trim_left_slashes String.[] = String.[]
trim_left_slashes (String.◌∷◌ c s) =
    let rest = trim_left_slashes s in
    if str_eq (String.◌∷◌ c String.[]) "/" then rest else String.◌∷◌ c s

unfoldable pub api_endpoint : ResponsesLane → String
unfolding trim_right_slashes trim_left_slashes
api_endpoint lane =
    let path = or_default lane.path "/v1/responses" in
    if not (is_empty lane.base_url) && not (starts_with path "http")
    then trim_right_slashes lane.base_url ⧺ "/" ⧺ trim_left_slashes path
    else path

abbrev pub is_same_lane_only : FallbackPolicy → Bool
is_same_lane_only FallbackPolicy.same_lane_only = true
is_same_lane_only _ = false

-- `copyMetadata` makes an equal map.
unfoldable pub subscription_decision :
    SubscriptionLane → RouteRequest → Role → Intent → FallbackPolicy → String × ℕ → RouteDecision
subscription_decision lane req role intent policy chosen = record {
  lane_id = Lane.subscription;
  credential_owner = lane.credential_owner;
  auth_mode = lane.auth_mode;
  endpoint = or_default lane.endpoint "codex_process";
  selected_model = chosen.0;
  required_capabilities = req.required_capabilities;
  resolved_capabilities = chosen.1;
  billing_boundary = lane.billing_boundary;
  role = role;
  intent = intent;
  fallback_policy = policy;
  fallback_allowed = is_same_lane_only policy;
  metadata = req.metadata;
}

unfoldable pub responses_decision :
    ResponsesLane → RouteRequest → Role → Intent → FallbackPolicy → String × ℕ → RouteDecision
unfolding api_endpoint
responses_decision lane req role intent policy chosen = record {
  lane_id = Lane.responses;
  credential_owner = lane.credential_owner;
  auth_mode = lane.auth_mode;
  endpoint = api_endpoint lane;
  selected_model = chosen.0;
  required_capabilities = req.required_capabilities;
  resolved_capabilities = chosen.1;
  billing_boundary = lane.billing_boundary;
  role = role;
  intent = intent;
  fallback_policy = policy;
  fallback_allowed = is_same_lane_only policy;
  metadata = req.metadata;
}

-- The checks of the snapshot of the subscription's authentication.
unfoldable pub is_authenticated : Option AuthSnapshot → Bool
is_authenticated none = true
is_authenticated (some a) =
    str_eq a.auth_state "authenticated" && str_eq a.auth_mode "chatgpt_subscription"

module _ (lower fold : Char → Char) where
  -- `strings.EqualFold`
  unfoldable pub equal_fold : String → String → Bool
  equal_fold s t = str_eq (map_chars fold s) (map_chars fold t)

  -- The descriptor under the wanted id, or under the fallback's where substitution is allowed.
  unfoldable pub find_or_substitute :
      List ModelDescriptor → ModelSelection → String → Result Errors (ModelDescriptor × String)
  find_or_substitute ms sel id = elim (get_model lower id ms) [
    | some desc ↦ ok (desc, id)
    | none ↦
        if not sel.allow_substitution
        then err (model_unavailable ∷ model_substitution_prohibited ∷ [])
        else if is_empty sel.fallback_model_id
        then err (model_unavailable ∷ [])
        else elim (get_model lower sel.fallback_model_id ms) [
          | some desc ↦ ok (desc, desc.model_id)
          | none ↦ err (model_unavailable ∷ [])
        ]
  ]

  -- The checks of a model of the catalogue.
  unfoldable pub check_model :
      ModelSelection → ℕ → ℕ → ModelDescriptor × String → Result Errors (String × ℕ)
  check_model sel required lane_capabilities found = do
    ensure (supports sel found.0) (model_unavailable ∷ [])
    ensure (model_covers found.0.capabilities required) (capability_not_met ∷ [])
    ok (found.1, if found.0.capabilities == 0 then lane_capabilities else found.0.capabilities)

  -- The model and the capabilities that a lane with a catalogue settles on.
  unfoldable pub from_catalog :
      List ModelDescriptor → ModelSelection → ℕ → ℕ → Result Errors (String × ℕ)
  from_catalog ms sel required lane_capabilities =
      let id = wanted_model ms sel.model_id in
      if is_empty id then ok ("", lane_capabilities) else (do
        found ← find_or_substitute ms sel id
        check_model sel required lane_capabilities found)

  unfoldable pub find_fold : String → List String → Option String
  find_fold id [] = none
  find_fold id (m ∷ ms) = if equal_fold m id then some m else find_fold id ms

  -- The model of a lane with a list of names.
  unfoldable pub from_available : String → List String → ModelSelection → Result Errors String
  unfolding find_fold
  from_available first names sel =
      if is_empty sel.model_id then ok first else elim (find_fold sel.model_id names) [
        | some m ↦ ok sel.model_id
        | none ↦
            if not sel.allow_substitution
            then err (model_unavailable ∷ model_substitution_prohibited ∷ [])
            else if is_empty sel.fallback_model_id
            then err (model_unavailable ∷ [])
            else elim (find_fold sel.fallback_model_id names) [
              | some m ↦ ok m
              | none ↦ err (model_unavailable ∷ [])
            ]
      ]

  unfoldable pub subscription_model :
      SubscriptionLane → ModelSelection → ℕ → Result Errors (String × ℕ)
  subscription_model lane sel required = elim lane.catalog [
    | some ms ↦ from_catalog ms sel required lane.capabilities
    | none ↦ ok (or_default sel.model_id "gpt-5.3-codex", lane.capabilities)
  ]

  unfoldable pub responses_model : ResponsesLane → ModelSelection → ℕ → Result Errors (String × ℕ)
  responses_model lane sel required = elim lane.catalog [
    | some ms ↦ from_catalog ms sel required lane.capabilities
    | none ↦ elim lane.available_models [
      | [] ↦ ok (or_default sel.model_id "gpt-4o", lane.capabilities)
      | m ∷ rest ↦ (do id ← from_available m (m ∷ rest) sel; ok (id, lane.capabilities))
    ]
  ]

  -- `resolveSubscriptionLane`
  unfoldable pub resolve_subscription_lane :
      SubscriptionLane → RouteRequest → Role → Intent → FallbackPolicy → Result Errors RouteDecision
  unfolding subscription_model
  resolve_subscription_lane lane req role intent policy = do
    ensure lane.enabled (no_route_available ∷ [])
    ensure (is_authenticated lane.auth_snapshot) (lane_auth_mismatch ∷ [])
    ensure (covers lane.capabilities req.required_capabilities) (capability_not_met ∷ [])
    chosen ← subscription_model lane req.model_selection req.required_capabilities
    ok (subscription_decision lane req role intent policy chosen)

  -- `resolveAPIResponsesLane`
  unfoldable pub resolve_responses_lane :
      ResponsesLane → RouteRequest → Role → Intent → FallbackPolicy → Result Errors RouteDecision
  unfolding responses_model
  resolve_responses_lane lane req role intent policy = do
    ensure lane.enabled (no_route_available ∷ [])
    ensure (lane.has_api_key || not (is_empty (trim_space lane.api_key_ref)))
        (lane_auth_mismatch ∷ [])
    ensure (covers lane.capabilities req.required_capabilities) (capability_not_met ∷ [])
    chosen ← responses_model lane req.model_selection req.required_capabilities
    ok (responses_decision lane req role intent policy chosen)
