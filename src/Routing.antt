-- ===== src/Routing.antt =====
-- backend/app/model_routing/policy.py: the choice between the simple and the heavy model. What the
-- regular expressions find is a parameter, and so is the order of the retrieval scores.
pub mod Choice
mod Tests
use secure_portfolio_copilot.Base.{
  Bool, Eq, List, List-eq, Option, Option-eq, String-eq, [], contains, enum_eq, false,
  if◌then◌else◌, length, ltb, none, some, true, ℕ, ℕ-eq, ◌&&◌, ◌==◌, ◌∷◌,
}
use secure_portfolio_copilot.Text.{Text, collapse}

pub data ModelRoute : Type 0 where
  simple heavy : ModelRoute

unfoldable pub ModelRoute-discrete : Discrete ModelRoute
ModelRoute-discrete = hlevel

instance abbrev pub ModelRoute-eq : Eq ModelRoute
ModelRoute-eq = enum_eq ModelRoute-discrete

pub data WorkloadKind : Type 0 where
  grounded_answer agentic : WorkloadKind

unfoldable pub WorkloadKind-discrete : Discrete WorkloadKind
WorkloadKind-discrete = hlevel

instance abbrev pub WorkloadKind-eq : Eq WorkloadKind
WorkloadKind-eq = enum_eq WorkloadKind-discrete

pub data ResponseMode : Type 0 where
  fast auto deep : ResponseMode

unfoldable pub ResponseMode-discrete : Discrete ResponseMode
ResponseMode-discrete = hlevel

instance abbrev pub ResponseMode-eq : Eq ResponseMode
ResponseMode-eq = enum_eq ResponseMode-discrete

pub data RouteReason : Type 0 where
  user_requested_deep fast_mode_eligible deep_mode_required simple_low_risk : RouteReason
  agentic_request multi_document low_confidence complex_request : RouteReason

pub record RoutingSignals (Score : Type 0) : Type 0 where
  pub workload : WorkloadKind
  pub question : Text
  pub authorized_document_count : ℕ
  pub top_retrieval_score : Option Score

pub record RoutingDecision : Type 0 where
  pub route : ModelRoute
  pub reason : RouteReason
  pub requested_response_mode : ResponseMode
  pub resolved_response_mode : ResponseMode
  pub upgrade_required : Bool

-- The searches of `_COMPLEX_TERMS`, `_PERIOD` and `_METRIC`, and `<` of the scores.
pub record Matching (Score : Type 0) : Type 0 where
  pub complex_terms : Text → Bool
  pub periods : Text → List Text
  pub metrics : Text → List Text
  pub below : Score → Score → Bool

-- the members of a list, each once
unfoldable pub distinct_members : List Text → List Text
distinct_members [] = []
distinct_members (t ∷ ts) =
    let rest = distinct_members ts in if contains rest t then rest else t ∷ rest

module _ {Score : Type 0} (matching : Matching Score) where
  -- `_is_complex`
  unfoldable pub is_complex : Text → Bool
  unfolding distinct_members
  is_complex question =
      let normalized = collapse question in
      if matching.complex_terms normalized
      then true
      else ltb 1 (length (distinct_members (matching.periods normalized)))
        && ltb 1 (length (matching.metrics normalized))

  -- `top_retrieval_score is None or top_retrieval_score < low_confidence_threshold`
  abbrev pub is_unsure : Score → Option Score → Bool
  is_unsure threshold none = true
  is_unsure threshold (some score) = matching.below score threshold

  -- `_automatic_route`
  unfoldable pub automatic_route : RoutingSignals Score → Score → ModelRoute × RouteReason
  automatic_route signals threshold =
      if signals.workload == agentic
      then (heavy, agentic_request)
      else if ltb 1 signals.authorized_document_count
      then (heavy, multi_document)
      else if is_unsure threshold signals.top_retrieval_score
      then (heavy, low_confidence)
      else if is_complex signals.question
      then (heavy, complex_request)
      else (simple, simple_low_risk)

  -- the decision, once the automatic route is known
  abbrev pub decide : ResponseMode → ModelRoute × RouteReason → RoutingDecision
  decide response_mode (automatic, reason) =
      if response_mode == deep
      then record {
        route = heavy;
        reason = user_requested_deep;
        requested_response_mode = response_mode;
        resolved_response_mode = deep;
        upgrade_required = false;
      }
      else if response_mode == fast
      then if automatic == simple
        then record {
          route = simple;
          reason = fast_mode_eligible;
          requested_response_mode = response_mode;
          resolved_response_mode = fast;
          upgrade_required = false;
        }
        else record {
          route = heavy;
          reason = deep_mode_required;
          requested_response_mode = response_mode;
          resolved_response_mode = deep;
          upgrade_required = true;
        }
      else record {
        route = automatic;
        reason = reason;
        requested_response_mode = response_mode;
        resolved_response_mode = if automatic == simple then fast else deep;
        upgrade_required = false;
      }

  -- `route_model`
  unfoldable pub route_model : RoutingSignals Score → Score → ResponseMode → RoutingDecision
  unfolding automatic_route
  route_model signals threshold response_mode =
      decide response_mode (automatic_route signals threshold)
