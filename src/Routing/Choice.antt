-- ===== src/Routing/Choice.antt =====
-- model_routing/policy.py: which requests the simple model answers.
use secure_portfolio_copilot.Base.{
  Bool-cases, List-eq, Option, Option-eq, String-eq, arith, enum_beq_iff, false, inl, inr, none,
  refl, some, true, ℕ-eq, ◌↔◌, ◌≡◌, ◌≢◌, ◌≤◌,
}
use secure_portfolio_copilot.Routing.{
  auto, heavy, decide, RoutingDecision, RouteReason, fast, ResponseMode-discrete, deep, ModelRoute,
  ModelRoute-discrete, route_model, ResponseMode, ModelRoute-eq, simple, WorkloadKind-discrete,
  WorkloadKind-eq, agentic, RoutingSignals, Matching, is_complex, is_unsure, automatic_route,
}

module _ {Score : Type 0} (matching : Matching Score) where
  -- A request of low risk, by its signals alone.
  pub record IsLowRisk (signals : RoutingSignals Score) (threshold : Score) : Type 0 where
    pub direct : signals.workload ≢ agentic
    pub single : signals.authorized_document_count ≤ 1
    pub sure :
        (score : Score) × (signals.top_retrieval_score ≡ some score)
        × (matching.below score threshold ≡ false)
    pub plain : is_complex matching signals.question ≡ false

  sure-score :
      (threshold : Score) (score : Option Score)
      → is_unsure matching threshold score ≡ false
      → (s : Score) × (score ≡ some s) × (matching.below s threshold ≡ false)
  sure-score threshold none h = cc
  sure-score threshold (some s) h = (s, refl, h)

  automatic_route-IsLowRisk :
      (signals : RoutingSignals Score) (threshold : Score)
      → (automatic_route matching signals threshold).0 ≡ simple
      → IsLowRisk signals threshold
  unfolding automatic_route
  automatic_route-IsLowRisk signals threshold h =
      let w = enum_beq_iff WorkloadKind-discrete signals.workload agentic in
      elim (Bool-cases (is_unsure matching threshold signals.top_retrieval_score)) [
        | inl e ↦ absurd (ground (arith, e))
        | inr e ↦ record {
          direct = λ a. ground (arith, w, e);
          single = ground (arith, e);
          sure = sure-score threshold signals.top_retrieval_score e;
          plain = ground (arith, e);
        }
      ]

  IsLowRisk-automatic_route :
      (signals : RoutingSignals Score) (threshold : Score)
      → IsLowRisk signals threshold
      → (automatic_route matching signals threshold).0 ≡ simple
  unfolding automatic_route
  IsLowRisk-automatic_route signals threshold r =
      let (score, e, f) = r.sure in
      let g = r.direct in
      ground (
        arith,
        enum_beq_iff WorkloadKind-discrete signals.workload agentic,
        r.single,
        e,
        f,
        r.plain,
      )

  -- How the answers of a decision hang together, for a response mode and an automatic route.
  pub record Coherent (mode : ResponseMode) (automatic : ModelRoute) (d : RoutingDecision)
      : Type 0 where
    pub routed : (d.route ≡ simple) ↔ ((mode ≢ deep) × (automatic ≡ simple))
    pub resolved : (d.resolved_response_mode ≡ fast) ↔ (d.route ≡ simple)
    pub upgraded : (d.upgrade_required ≡ true) ↔ ((mode ≡ fast) × (d.route ≡ heavy))
    pub requested : d.requested_response_mode ≡ mode

  decide-Coherent :
      (mode : ResponseMode) (automatic : ModelRoute) (reason : RouteReason)
      → Coherent mode automatic (decide matching mode (automatic, reason))
  unfolding ModelRoute-discrete ResponseMode-discrete
  decide-Coherent fast simple reason = record {
    routed = (λ _. ((λ e. cc), refl), λ _. refl);
    resolved = (λ _. refl, λ _. refl);
    upgraded = (λ e. cc, λ (p, q). cc);
    requested = refl;
  }
  decide-Coherent fast heavy reason = record {
    routed = (λ e. cc, λ (p, q). cc);
    resolved = (λ e. cc, λ e. cc);
    upgraded = (λ _. (refl, refl), λ _. refl);
    requested = refl;
  }
  decide-Coherent auto simple reason = record {
    routed = (λ _. ((λ e. cc), refl), λ _. refl);
    resolved = (λ _. refl, λ _. refl);
    upgraded = (λ e. cc, λ (p, q). cc);
    requested = refl;
  }
  decide-Coherent auto heavy reason = record {
    routed = (λ e. cc, λ (p, q). cc);
    resolved = (λ e. cc, λ e. cc);
    upgraded = (λ e. cc, λ (p, q). cc);
    requested = refl;
  }
  decide-Coherent deep simple reason = record {
    routed = (λ e. cc, λ e. absurd (e.0 refl));
    resolved = (λ e. cc, λ e. cc);
    upgraded = (λ e. cc, λ (p, q). cc);
    requested = refl;
  }
  decide-Coherent deep heavy reason = record {
    routed = (λ e. cc, λ e. absurd (e.0 refl));
    resolved = (λ e. cc, λ e. cc);
    upgraded = (λ e. cc, λ (p, q). cc);
    requested = refl;
  }

  -- The simple model is chosen exactly for requests of low risk that do not ask for the deep mode:
  -- no agentic workload, at most one document, a retrieval score that is not below the threshold,
  -- and no complex question. The resolved mode is fast exactly if the simple model is chosen, and
  -- an upgrade is required exactly if the fast mode was asked for and the heavy model is chosen.
  pub route_model_iff :
      (signals : RoutingSignals Score) (threshold : Score) (mode : ResponseMode)
      → (((route_model matching signals threshold mode).route ≡ simple)
          ↔ ((mode ≢ deep) × IsLowRisk signals threshold))
        × (((route_model matching signals threshold mode).resolved_response_mode ≡ fast)
            ↔ ((route_model matching signals threshold mode).route ≡ simple))
        × (((route_model matching signals threshold mode).upgrade_required ≡ true)
            ↔ ((mode ≡ fast) × ((route_model matching signals threshold mode).route ≡ heavy)))
  unfolding route_model
  route_model_iff signals threshold mode =
      let (automatic, reason) = automatic_route matching signals threshold in
      let c = decide-Coherent mode automatic reason in
      (
        (
          λ e. let p = c.routed.0 e in (p.0, automatic_route-IsLowRisk signals threshold p.1),
          λ p. c.routed.1 (p.0, IsLowRisk-automatic_route signals threshold p.1),
        ),
        c.resolved,
        c.upgraded,
      )
