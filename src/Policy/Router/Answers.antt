-- ===== src/Policy/Router/Answers.antt =====
-- What the lanes of pkg/policy/router.go answer.
use reinframe.Prelude.{
  ℕ, String, Char, true, false, not, ◌||◌, List, ◌∷◌, is_empty, Ensures, Ensures-bind, Ensures-all,
  Ensures-map, is_empty→eq, sym, Bool-cases, Ensures-ensure, ◌≡◌, ◌≢◌, refl, arith, ne→not-is_empty,
  ◌∙◌, Option-cases, List-cases, inl, inr,
}
use reinframe.Protocol.Catalog.{ModelDescriptor, get_model}
use reinframe.Policy.Router.{
  Lane, Role, Intent, FallbackPolicy, ModelSelection, RouteRequest, RouteDecision, SubscriptionLane,
  ResponsesLane, or_default,
}
use reinframe.Detector.Fingerprint.{trim_space}
use reinframe.Policy.Router.Lanes.{
  covers, model_covers, wanted_model, find_or_substitute, check_model, from_catalog, from_available,
  find_fold, subscription_model, responses_model, subscription_decision, responses_decision,
  resolve_subscription_lane, resolve_responses_lane, is_authenticated,
}

-- The model is the one that is asked for, unless another may stand in for it, and the capabilities
-- cover those that are required.
pub record Chosen (sel : ModelSelection) (required : ℕ) (chosen : String × ℕ) : Type 0 where
  pub exact : sel.model_id ≢ "" → sel.allow_substitution ≡ false → chosen.0 ≡ sel.model_id
  pub covered : covers chosen.1 required ≡ true

-- A route on the lane `l` that keeps to its request.
pub record Answers (l : Lane) (billing : String) (req : RouteRequest) (role : Role)
    (intent : Intent) (policy : FallbackPolicy) (dec : RouteDecision) : Type 0 where
  pub on_lane : dec.lane_id ≡ l
  pub bills : dec.billing_boundary ≡ billing
  pub for_role : dec.role ≡ role
  pub for_intent : dec.intent ≡ intent
  pub under_policy : dec.fallback_policy ≡ policy
  pub requires : dec.required_capabilities ≡ req.required_capabilities
  pub chosen :
      Chosen req.model_selection req.required_capabilities
        (dec.selected_model, dec.resolved_capabilities)

wanted_model-exact : (ms : List ModelDescriptor) (id : String) → id ≢ "" → wanted_model ms id ≡ id
unfolding wanted_model
wanted_model-exact ms id h = rw (ne→not-is_empty id h) refl

module _ (lower fold : Char → Char) where
  find_or_substitute-exact :
      (ms : List ModelDescriptor) (sel : ModelSelection) (id : String)
      → Ensures
          (λ (found : ModelDescriptor × String). sel.allow_substitution ≡ false → found.1 ≡ id)
          (find_or_substitute lower fold ms sel id)
  unfolding find_or_substitute
  find_or_substitute-exact ms sel id = elim (Option-cases (get_model lower id ms)) [
    | inr (desc, e) ↦ rw (e, find_or_substitute) (λ _. refl)
    | inl e ↦ elim (Bool-cases sel.allow_substitution) [
      | inl swaps ↦
          Ensures-all
            (λ (found : ModelDescriptor × String). sel.allow_substitution ≡ false → found.1 ≡ id)
            (find_or_substitute lower fold ms sel id) (λ found h. cc)
      | inr exact ↦ rw (e, exact, find_or_substitute) tt
    ]
  ]

  check_model-covers :
      (sel : ModelSelection) (required lane_capabilities : ℕ) (found : ModelDescriptor × String)
      → covers lane_capabilities required ≡ true
      → Ensures
          (λ (chosen : String × ℕ). (chosen.0 ≡ found.1) × (covers chosen.1 required ≡ true))
          (check_model lower fold sel required lane_capabilities found)
  unfolding check_model model_covers covers
  check_model-covers sel required lane_capabilities found h = ground arith

  from_catalog-Chosen :
      (ms : List ModelDescriptor) (sel : ModelSelection) (required lane_capabilities : ℕ)
      → covers lane_capabilities required ≡ true
      → Ensures (Chosen sel required) (from_catalog lower fold ms sel required lane_capabilities)
  unfolding from_catalog
  from_catalog-Chosen ms sel required lane_capabilities h =
      let id = wanted_model ms sel.model_id in
      elim (Bool-cases (is_empty id)) [
        | inl e ↦
            rw (e, from_catalog)
              (record {
                exact = λ n a.
                    sym (is_empty→eq sel.model_id (rw (← wanted_model-exact ms sel.model_id n) e));
                covered = h;
              })
        | inr e ↦
            rw (e, from_catalog)
              (Ensures-bind
                (λ (found : ModelDescriptor × String).
                  sel.allow_substitution ≡ false → found.1 ≡ id)
                (Chosen sel required) (find_or_substitute lower fold ms sel id) _
                (find_or_substitute-exact ms sel id)
                (λ found exact.
                  Ensures-map
                    (λ (chosen : String × ℕ).
                      (chosen.0 ≡ found.1) × (covers chosen.1 required ≡ true))
                    (Chosen sel required)
                    (check_model lower fold sel required lane_capabilities found)
                    (λ chosen facts. record {
                      exact = λ n a. facts.0 ∙ exact a ∙ wanted_model-exact ms sel.model_id n;
                      covered = facts.1;
                    })
                    (check_model-covers sel required lane_capabilities found h)))
      ]

  from_available-exact :
      (first : String) (names : List String) (sel : ModelSelection)
      → Ensures
          (λ (id : String). sel.model_id ≢ "" → sel.allow_substitution ≡ false → id ≡ sel.model_id)
          (from_available lower fold first names sel)
  unfolding from_available
  from_available-exact first names sel = elim (Bool-cases (is_empty sel.model_id)) [
    | inl e ↦ rw (e, from_available) (λ n a. absurd (n (is_empty→eq sel.model_id e)))
    | inr e ↦ elim (Bool-cases sel.allow_substitution) [
      | inl swaps ↦
          Ensures-all
            (λ (id : String).
              sel.model_id ≢ "" → sel.allow_substitution ≡ false → id ≡ sel.model_id)
            (from_available lower fold first names sel) (λ id n a. cc)
      | inr exact ↦ elim (Option-cases (find_fold lower fold sel.model_id names)) [
        | inl gone ↦ rw (e, gone, from_available, exact) tt
        | inr (m, found) ↦ rw (e, found, from_available) (λ n a. refl)
      ]
    ]
  ]

  or_default-exact : (id d : String) → id ≢ "" → or_default id d ≡ id
  or_default-exact id d n = rw (ne→not-is_empty id n) refl

  subscription_model-Chosen :
      (lane : SubscriptionLane) (sel : ModelSelection) (required : ℕ)
      → covers lane.capabilities required ≡ true
      → Ensures (Chosen sel required) (subscription_model lower fold lane sel required)
  unfolding subscription_model
  subscription_model-Chosen lane sel required h = elim (Option-cases lane.catalog) [
    | inl e ↦
        rw (e, subscription_model)
          (record { exact = λ n a. or_default-exact sel.model_id _ n; covered = h })
    | inr (ms, e) ↦
        rw (e, subscription_model) (from_catalog-Chosen ms sel required lane.capabilities h)
  ]

  responses_model-Chosen :
      (lane : ResponsesLane) (sel : ModelSelection) (required : ℕ)
      → covers lane.capabilities required ≡ true
      → Ensures (Chosen sel required) (responses_model lower fold lane sel required)
  unfolding responses_model
  responses_model-Chosen lane sel required h = elim (Option-cases lane.catalog) [
    | inr (ms, e) ↦
        rw (e, responses_model) (from_catalog-Chosen ms sel required lane.capabilities h)
    | inl e ↦ elim (List-cases lane.available_models) [
      | inl none_known ↦
          rw (e, none_known, responses_model)
            (record { exact = λ n a. or_default-exact sel.model_id _ n; covered = h })
      | inr (m, (rest, known)) ↦
          rw (e, known, responses_model)
            (Ensures-bind
              (λ (id : String).
                sel.model_id ≢ "" → sel.allow_substitution ≡ false → id ≡ sel.model_id)
              (Chosen sel required) (from_available lower fold m (m ∷ rest) sel) _
              (from_available-exact m (m ∷ rest) sel)
              (λ id exact. record { exact = exact; covered = h }))
    ]
  ]

  pub subscription_lane-Answers :
      (lane : SubscriptionLane) (req : RouteRequest) (role : Role) (intent : Intent)
      (policy : FallbackPolicy)
      → Ensures
          (Answers Lane.subscription lane.billing_boundary req role intent policy)
          (resolve_subscription_lane lower fold lane req role intent policy)
  unfolding resolve_subscription_lane subscription_decision
  subscription_lane-Answers lane req role intent policy =
      let A = Answers Lane.subscription lane.billing_boundary req role intent policy in
      let required = req.required_capabilities in
      Ensures-ensure A lane.enabled _ _ λ _.
        Ensures-ensure A (is_authenticated lane.auth_snapshot) _ _ λ _.
          Ensures-ensure A (covers lane.capabilities required) _ _ λ h.
            Ensures-bind (Chosen req.model_selection required) A
              (subscription_model lower fold lane req.model_selection required) _
              (subscription_model-Chosen lane req.model_selection required h)
              (λ chosen c. record {
                on_lane = refl;
                bills = refl;
                for_role = refl;
                for_intent = refl;
                under_policy = refl;
                requires = refl;
                chosen = c;
              })

  pub responses_lane-Answers :
      (lane : ResponsesLane) (req : RouteRequest) (role : Role) (intent : Intent)
      (policy : FallbackPolicy)
      → Ensures
          (Answers Lane.responses lane.billing_boundary req role intent policy)
          (resolve_responses_lane lower fold lane req role intent policy)
  unfolding resolve_responses_lane responses_decision
  responses_lane-Answers lane req role intent policy =
      let A = Answers Lane.responses lane.billing_boundary req role intent policy in
      let required = req.required_capabilities in
      Ensures-ensure A lane.enabled _ _ λ _.
        Ensures-ensure A (lane.has_api_key || not (is_empty (trim_space lane.api_key_ref))) _ _ λ _.
          Ensures-ensure A (covers lane.capabilities required) _ _ λ h.
            Ensures-bind (Chosen req.model_selection required) A
              (responses_model lower fold lane req.model_selection required) _
              (responses_model-Chosen lane req.model_selection required h)
              (λ chosen c. record {
                on_lane = refl;
                bills = refl;
                for_role = refl;
                for_intent = refl;
                under_policy = refl;
                requires = refl;
                chosen = c;
              })
