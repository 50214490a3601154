-- ===== src/Routing/Tests.antt =====
-- model_routing/policy.py: a plain question on one document.
use secure_portfolio_copilot.Base.{
  List-eq, Option-eq, String-eq, [], false, ltb, refl, some, true, ℕ, ℕ-eq, ◌↔◌, ◌≡◌, ◌≢◌,
}
use secure_portfolio_copilot.Text.{codes, collapse}
use secure_portfolio_copilot.Routing.{
  ModelRoute-discrete, simple, heavy, WorkloadKind-discrete, grounded_answer, ResponseMode-discrete,
  fast, deep, auto, RoutingSignals, Matching, route_model, is_complex,
}
use secure_portfolio_copilot.Routing.Choice.{IsLowRisk, route_model_iff}

-- Nothing is complex, and scores are natural numbers.
abbrev plain_matching : Matching ℕ
plain_matching = record {
  complex_terms = λ t. false;
  periods = λ t. [];
  metrics = λ t. [];
  below = ltb;
}

abbrev plain_question : RoutingSignals ℕ
plain_question = record {
  workload = grounded_answer;
  question = codes "What was the revenue?";
  authorized_document_count = 1;
  top_retrieval_score = some 80;
}

plain_is_simple : (route_model plain_matching plain_question 50 auto).route ≡ simple
unfolding route_model is_complex ModelRoute-discrete WorkloadKind-discrete ResponseMode-discrete
    collapse
plain_is_simple = refl

route_model_iff_example :
    (((route_model plain_matching plain_question 50 fast).route ≡ simple)
      ↔ ((fast ≢ deep) × IsLowRisk plain_matching plain_question 50))
    × (((route_model plain_matching plain_question 50 fast).resolved_response_mode ≡ fast)
        ↔ ((route_model plain_matching plain_question 50 fast).route ≡ simple))
    × (((route_model plain_matching plain_question 50 fast).upgrade_required ≡ true)
        ↔ ((fast ≡ fast) × ((route_model plain_matching plain_question 50 fast).route ≡ heavy)))
route_model_iff_example = route_model_iff plain_matching plain_question 50 fast
