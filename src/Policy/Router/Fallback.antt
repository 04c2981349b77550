-- ===== src/Policy/Router/Fallback.antt =====
-- ResolveFallback of pkg/policy/router.go: where a failed route may go.
use reinframe.Prelude.{
  ℕ, String, Char, true, false, not, ◌&&◌, ◌||◌, Option, some, ◌∷◌, is_empty, str_eq, Result, ok,
  err, Ensures, Ensures-bind, Ensures-ensure, Ensures-eq, Ensures-map, ◌≡◌, ◌≢◌, refl, arith,
  eq_iff, not-is_empty→ne,
}
use reinframe.Policy.Router.{
  Lane, FallbackPolicy, Errors, cross_lane_fallback_prohibited, RouteDecision, DualLaneRouter,
}
use reinframe.Policy.Router.Lanes.{equal_fold}
use reinframe.Policy.Router.Isolation.{Routed, resolve_route_locked-Routed}
use reinframe.Policy.Router.Resolve.{
  FallbackOption, retry_request, retry_model, retry_capabilities, wrap, same_boundary, lane_eq,
  policy_of, resolve_route_locked, retry, fall_back, resolve_fallback,
}

lane_eq-eq : (a b : Lane) → lane_eq a b ≡ true → a ≡ b
lane_eq-eq Lane.subscription Lane.subscription h = refl
lane_eq-eq Lane.responses Lane.responses h = refl
lane_eq-eq Lane.unset Lane.unset h = refl
lane_eq-eq (Lane.other a) (Lane.other b) h = ground (arith, eq_iff a b)
lane_eq-eq a b h = ground arith

Ensures-wrap :
    (Q : RouteDecision → Type 0) (outer : Errors) (m : Result Errors RouteDecision)
    → Ensures Q m
    → Ensures Q (wrap outer m)
unfolding wrap
Ensures-wrap Q outer (ok d) h = h
Ensures-wrap Q outer (err e) h = tt

-- A retry of the route `orig` with another model of its lane.
pub record Retries (lower fold : Char → Char) (orig : RouteDecision) (model : String)
    (dec : RouteDecision) : Type 0 where
  pub on_lane : dec.lane_id ≡ orig.lane_id
  pub bills : dec.billing_boundary ≡ orig.billing_boundary
  pub other_model : equal_fold lower fold model orig.selected_model ≡ false
  pub with_model : dec.selected_model ≡ model
  pub closed : dec.fallback_policy ≡ FallbackPolicy.fail_closed

module _ (lower fold : Char → Char) (r : DualLaneRouter) (orig : RouteDecision) where
  abbrev Retried : String → RouteDecision → Type 0
  Retried model dec =
      (dec.selected_model ≡ model) × (dec.fallback_policy ≡ FallbackPolicy.fail_closed)

  retry_request-Retried :
      (model : String) (required : ℕ)
      → model ≢ ""
      → Ensures
          (Retried model)
          (resolve_route_locked lower fold r (retry_request orig model required))
  unfolding retry_request policy_of
  retry_request-Retried model required h =
      let req = retry_request orig model required in
      Ensures-map (Routed r req) (Retried model) (resolve_route_locked lower fold r req)
        (λ dec routed. (routed.exact h refl, routed.under_policy))
        (resolve_route_locked-Routed lower fold r req)

  retry-Retries :
      (opts : Option FallbackOption)
      → Ensures (Retries lower fold orig (retry_model opts)) (retry lower fold r orig opts)
  unfolding retry same_boundary
  retry-Retries opts =
      let model = retry_model opts in
      let required = retry_capabilities opts orig.required_capabilities in
      let Q = Retries lower fold orig model in
      Ensures-ensure Q (not (is_empty model || equal_fold lower fold model orig.selected_model)) _ _
        λ named.
          let filled : is_empty model ≡ false = ground (arith, named) in
          let differs : equal_fold lower fold model orig.selected_model ≡ false =
            ground (arith, named) in
          Ensures-bind (Retried model) Q
            (wrap _ (resolve_route_locked lower fold r (retry_request orig model required))) _
            (Ensures-wrap (Retried model) _ _
              (retry_request-Retried model required (not-is_empty→ne model filled)))
            λ dec retried.
              Ensures-ensure Q
                (lane_eq dec.lane_id orig.lane_id
                  && str_eq dec.billing_boundary orig.billing_boundary)
                _ _
                λ same. record {
                  on_lane = lane_eq-eq dec.lane_id orig.lane_id (ground (arith, same));
                  bills = ground (arith, same, eq_iff dec.billing_boundary orig.billing_boundary);
                  other_model = differs;
                  with_model = retried.0;
                  closed = retried.1;
                }

  fall_back-Retries :
      (failure : Errors) (opts : Option FallbackOption) (p : FallbackPolicy)
      → Ensures
          (λ dec.
            (p ≡ FallbackPolicy.same_lane_only) × Retries lower fold orig (retry_model opts) dec)
          (fall_back lower fold r orig failure opts p)
  unfolding fall_back
  fall_back-Retries failure opts FallbackPolicy.same_lane_only =
      Ensures-map (Retries lower fold orig (retry_model opts)) _ (retry lower fold r orig opts)
        (λ dec h. (refl, h)) (retry-Retries opts)
  fall_back-Retries failure opts FallbackPolicy.fail_closed = tt
  fall_back-Retries failure opts FallbackPolicy.cross_lane_prohibited = tt
  fall_back-Retries failure opts FallbackPolicy.unset = tt
  fall_back-Retries failure opts (FallbackPolicy.other s) = tt

  -- After a failure, a fallback is granted only under the policy of the same lane. It stays on the
  -- lane and within the billing boundary of the failed route, takes exactly the alternative model,
  -- which differs from the failed one, and is itself closed: any failure of it is returned, behind
  -- the error that prohibits a fallback.
  pub fallback_once :
      (failure : Errors) (opts : Option FallbackOption) (dec : RouteDecision)
      → resolve_fallback lower fold false r orig (some failure) opts ≡ ok dec
      → (orig.fallback_policy ≡ FallbackPolicy.same_lane_only)
        × (dec.lane_id ≡ orig.lane_id)
        × (dec.billing_boundary ≡ orig.billing_boundary)
        × (dec.selected_model ≡ retry_model opts)
        × (equal_fold lower fold dec.selected_model orig.selected_model ≡ false)
        × ((later : Errors) (others : Option FallbackOption)
            → resolve_fallback lower fold false r dec (some later) others
              ≡ err (cross_lane_fallback_prohibited ∷ later))
  unfolding resolve_fallback fall_back
  fallback_once failure opts dec e =
      let (same, h) =
        Ensures-eq _ (fall_back lower fold r orig failure opts orig.fallback_policy)
          (fall_back-Retries failure opts orig.fallback_policy) e in
      (
        same,
        h.on_lane,
        h.bills,
        h.with_model,
        rw h.with_model h.other_model,
        λ later others. rw h.closed refl,
      )
