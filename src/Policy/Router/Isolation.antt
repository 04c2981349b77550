-- ===== src/Policy/Router/Isolation.antt =====
-- The isolation of the lanes that pkg/policy/router.go promises, over every request.
use reinframe.Prelude.{
  Char, Bool, true, false, not, ◌&&◌, ◌||◌, ok, Ensures, Ensures-bind, Ensures-ensure, Ensures-eq,
  Ensures-step, Ensures-guard, not-eq-true, Ensures-all, Ensures-map, ◌⊎◌, ◌≡◌, ◌≢◌, refl, arith,
  subst, Bool-cases, inl, inr,
}
use reinframe.Policy.Router.{
  Lane, Role, Intent, CredentialClass, RouteRequest, RouteDecision, DualLaneRouter,
}
use reinframe.Policy.Router.Lanes.{covers}
use reinframe.Protocol.Catalog.{has_all_capabilities}
use Prim.Native.Nat.{bit_and}
use reinframe.Policy.Router.Answers.{Answers, subscription_lane-Answers, responses_lane-Answers}
use reinframe.Policy.Router.Resolve.{
  role_of, intent_of, is_classifying, is_subscription, is_subscription_class, is_acting,
  is_responses, is_api_class, lane_of, inferred_lane, suits, policy_of, opts_in, is_isolated,
  resolve_on, resolve_route_locked, resolve_route,
}

-- The lane that the role may use.
abbrev pub Permits : Bool → Role → Lane → Type 0
Permits opted_in Role.classifier l = l ≡ Lane.responses
Permits opted_in Role.agent l = (l ≡ Lane.subscription) ⊎ (opted_in ≡ true)
Permits opted_in _ l = Unit

lane_of-Permits :
    (l : Lane) (role : Role) (intent : Intent) (c : CredentialClass) (opted_in : Bool)
    → (is_classifying role intent && (is_subscription l || is_subscription_class c)) ≡ false
    → (is_acting role intent && (is_responses l || is_api_class c) && not opted_in) ≡ false
    → Ensures (λ lane. Permits opted_in role lane) (lane_of l role c opted_in)
unfolding lane_of inferred_lane
lane_of-Permits (Lane.other s) role intent c opted_in h k = tt
lane_of-Permits l Role.reviewer intent c opted_in h k =
    Ensures-all (λ lane. Unit {0}) (lane_of l Role.reviewer c opted_in) (λ _. tt)
lane_of-Permits l Role.unset intent c opted_in h k =
    Ensures-all (λ lane. Unit {0}) (lane_of l Role.unset c opted_in) (λ _. tt)
lane_of-Permits l (Role.other s) intent c opted_in h k =
    Ensures-all (λ lane. Unit {0}) (lane_of l (Role.other s) c opted_in) (λ _. tt)
lane_of-Permits Lane.unset Role.classifier intent c opted_in h k = refl
lane_of-Permits Lane.responses Role.classifier intent c opted_in h k = refl
lane_of-Permits Lane.subscription Role.classifier intent c opted_in h k = cc
lane_of-Permits Lane.subscription Role.agent intent c opted_in h k = inl refl
lane_of-Permits Lane.responses Role.agent intent c opted_in h k = inr (ground arith)
lane_of-Permits Lane.unset Role.agent intent c opted_in h k =
    elim (Bool-cases (is_api_class c && opted_in)) [
      | inl e ↦ rw e (inr (ground arith))
      | inr e ↦ rw e (inl refl)
    ]

-- What a route has in common with the request and the router that it comes from.
pub record Routed (r : DualLaneRouter) (req : RouteRequest) (dec : RouteDecision) : Type 0 where
  pub permitted : Permits (opts_in r req) dec.role dec.lane_id
  pub bills :
      ((dec.lane_id ≡ Lane.subscription) × (dec.billing_boundary ≡ r.sub_lane.billing_boundary))
      ⊎ ((dec.lane_id ≡ Lane.responses) × (dec.billing_boundary ≡ r.api_lane.billing_boundary))
  pub requires : dec.required_capabilities ≡ req.required_capabilities
  pub covered : covers dec.resolved_capabilities req.required_capabilities ≡ true
  pub exact :
      req.model_selection.model_id ≢ ""
      → req.model_selection.allow_substitution ≡ false
      → dec.selected_model ≡ req.model_selection.model_id
  pub under_policy : dec.fallback_policy ≡ policy_of req.fallback_policy r.default_fallback

module _ (lower fold : Char → Char) (r : DualLaneRouter) (req : RouteRequest) where
  subscription-Routed :
      (role : Role) (intent : Intent)
      → Permits (opts_in r req) role Lane.subscription
      → Ensures (Routed r req) (
          resolve_on lower fold r req role intent
            (policy_of req.fallback_policy r.default_fallback)
            Lane.subscription)
  unfolding resolve_on
  subscription-Routed role intent p =
      let policy = policy_of req.fallback_policy r.default_fallback in
      Ensures-map (Answers Lane.subscription r.sub_lane.billing_boundary req role intent policy)
        (Routed r req) _
        (λ dec a. record {
          permitted = rw (a.for_role, a.on_lane) p;
          bills = inl (a.on_lane, a.bills);
          requires = a.requires;
          covered = a.chosen.covered;
          exact = a.chosen.exact;
          under_policy = a.under_policy;
        })
        (subscription_lane-Answers lower fold r.sub_lane req role intent policy)

  responses-Routed :
      (role : Role) (intent : Intent)
      → Permits (opts_in r req) role Lane.responses
      → Ensures (Routed r req) (
          resolve_on lower fold r req role intent
            (policy_of req.fallback_policy r.default_fallback)
            Lane.responses)
  unfolding resolve_on
  responses-Routed role intent p =
      let policy = policy_of req.fallback_policy r.default_fallback in
      Ensures-map (Answers Lane.responses r.api_lane.billing_boundary req role intent policy)
        (Routed r req) _
        (λ dec a. record {
          permitted = rw (a.for_role, a.on_lane) p;
          bills = inr (a.on_lane, a.bills);
          requires = a.requires;
          covered = a.chosen.covered;
          exact = a.chosen.exact;
          under_policy = a.under_policy;
        })
        (responses_lane-Answers lower fold r.api_lane req role intent policy)

  resolve_on-Routed :
      (role : Role) (intent : Intent) (l : Lane)
      → Permits (opts_in r req) role l
      → Ensures (Routed r req) (
          resolve_on lower fold r req role intent
            (policy_of req.fallback_policy r.default_fallback)
            l)
  unfolding resolve_on
  resolve_on-Routed role intent Lane.subscription p = subscription-Routed role intent p
  resolve_on-Routed role intent Lane.responses p = responses-Routed role intent p
  resolve_on-Routed role intent Lane.unset p = tt
  resolve_on-Routed role intent (Lane.other s) p = tt

  abbrev Isolated : Role → Intent → Type 0
  Isolated role intent =
      ((is_classifying role intent
          && (is_subscription req.target_lane || is_subscription_class req.credential_class))
        ≡ false)
      × ((is_acting role intent
            && (is_responses req.target_lane || is_api_class req.credential_class)
            && not (opts_in r req))
          ≡ false)

  is_isolated-Isolated :
      (role : Role) (intent : Intent)
      → Ensures (λ _. Isolated role intent) (is_isolated r req role intent)
  unfolding is_isolated
  is_isolated-Isolated role intent =
      Ensures-ensure (λ _. Isolated role intent)
        (not (
          is_classifying role intent
          && (is_subscription req.target_lane || is_subscription_class req.credential_class)))
        _ _
        (λ a.
          Ensures-guard (Isolated role intent)
            (not (
              is_acting role intent
              && (is_responses req.target_lane || is_api_class req.credential_class)
              && not (opts_in r req)))
            _ (λ b. (not-eq-true _ a, not-eq-true _ b)))

  pub resolve_route_locked-Routed : Ensures (Routed r req) (resolve_route_locked lower fold r req)
  unfolding resolve_route_locked
  resolve_route_locked-Routed =
      let Q = Routed r req in
      Ensures-step Q (role_of req.role req.intent) _ λ role.
        Ensures-step Q (intent_of role req.intent) _ λ intent.
          Ensures-bind (λ _. Isolated role intent) Q (is_isolated r req role intent) _
            (is_isolated-Isolated role intent)
            λ _ apart.
              Ensures-bind (Permits (opts_in r req) role) Q
                (lane_of req.target_lane role req.credential_class (opts_in r req)) _
                (lane_of-Permits req.target_lane role intent req.credential_class (opts_in r req)
                  apart.0 apart.1)
                λ lane permitted.
                  Ensures-ensure Q (suits lane req.credential_class) _ _
                    λ _. resolve_on-Routed role intent lane permitted

  resolve_route-Routed :
      (ended : Bool) → Ensures (Routed r req) (resolve_route lower fold ended r req)
  unfolding resolve_route
  resolve_route-Routed true = tt
  resolve_route-Routed false = resolve_route_locked-Routed

  -- A route for the classifier is never on the subscription lane, and a route for an agent is on the
  -- lane of the API only if the request or the lane's configuration opts in. It bills as its lane is
  -- configured to.
  pub route_isolation :
      (ended : Bool) (dec : RouteDecision)
      → resolve_route lower fold ended r req ≡ ok dec
      → (dec.role ≡ Role.classifier → dec.lane_id ≡ Lane.responses)
        × (dec.role ≡ Role.agent
            → (dec.lane_id ≡ Lane.subscription)
              ⊎ ((req.allow_agent_api_key || r.api_lane.allow_agent_routing) ≡ true))
        × (((dec.lane_id ≡ Lane.subscription)
              × (dec.billing_boundary ≡ r.sub_lane.billing_boundary))
            ⊎ ((dec.lane_id ≡ Lane.responses)
                × (dec.billing_boundary ≡ r.api_lane.billing_boundary)))
  route_isolation ended dec e =
      let routed : Routed r req dec =
        Ensures-eq (Routed r req) (resolve_route lower fold ended r req)
          (resolve_route-Routed ended) e in
      let permitted = routed.permitted in
      (
        λ h. subst (λ role. Permits (opts_in r req) role dec.lane_id) h permitted,
        λ h. subst (λ role. Permits (opts_in r req) role dec.lane_id) h permitted,
        routed.bills,
      )

  -- The capabilities of a route cover those that the request requires, if it requires any, and
  -- unless the request allows another model to stand in, the model is exactly the one it names, if it
  -- names one.
  pub route_fits :
      (ended : Bool) (dec : RouteDecision)
      → resolve_route lower fold ended r req ≡ ok dec
      → (dec.required_capabilities ≡ req.required_capabilities)
        × (req.required_capabilities ≢ 0
            → bit_and dec.resolved_capabilities req.required_capabilities
              ≡ req.required_capabilities)
        × (req.model_selection.model_id ≢ ""
            → req.model_selection.allow_substitution ≡ false
            → dec.selected_model ≡ req.model_selection.model_id)
  unfolding covers has_all_capabilities
  route_fits ended dec e =
      let routed : Routed r req dec =
        Ensures-eq (Routed r req) (resolve_route lower fold ended r req)
          (resolve_route-Routed ended) e in
      let covered = routed.covered in (routed.requires, λ h. ground arith, routed.exact)
