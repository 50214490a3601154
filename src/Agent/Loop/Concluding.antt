-- ===== src/Agent/Loop/Concluding.antt =====
-- agent/loop.py: the answers that need no further model, and the choice of the next step.
use secure_portfolio_copilot.Base.{
  All, Bool-cases, Exists, Exists-in, List, List-eq, Option, Option-eq, String, String-eq, [], inl,
  inr, is_empty, length, map, not, refl, some, ℕ-eq, ◌==◌, ◌∷◌, ◌≡◌,
}
use secure_portfolio_copilot.Agent.Models.{memory_proposal_input, Action, ActionArguments}
use secure_portfolio_copilot.Text.{Text}
use secure_portfolio_copilot.Grounding.{GroundedEvidence, GroundedCitationData, citation}
use secure_portfolio_copilot.Agent.Loop.Types.{
  TerminalStatus, StoppingReason, StructuredObservation, CalculationResult, TrustedCalculationInput,
}
use secure_portfolio_copilot.Agent.Loop.Environment.{Environment}
use secure_portfolio_copilot.Agent.Loop.State.{
  terminate, Request, LoopState, log, failed_text, plain,
}
use secure_portfolio_copilot.Agent.Loop.Finish.{
  finalize_calculation, finalize_inputs, finalize_calculations, memory_answer,
}
use secure_portfolio_copilot.Agent.Loop.Observe.{conclude, conclude_proposal}
use secure_portfolio_copilot.Agent.Loop.Sound.{ledger, Sourced, Ends, Sound, Closed}
use secure_portfolio_copilot.Agent.Loop.Ending.{terminate-Closed, plain-Closed, All-of}

Exists-map :
    (f : GroundedEvidence → GroundedCitationData) (xs : List GroundedEvidence)
    (c : GroundedCitationData)
    → Exists (λ y. y ≡ c) (map f xs)
    → Exists (λ x. f x ≡ c) xs
Exists-map f [] c m = m
Exists-map f (x ∷ xs) c (inl e) = inl e
Exists-map f (x ∷ xs) c (inr m) = inr (Exists-map f xs c m)

-- The citations of an observation's own evidence.
pub citations-Sourced :
    (observations : List StructuredObservation) (o : StructuredObservation)
    → Exists (λ x. x ≡ o) observations
    → All (Sourced observations) (map citation o.evidence)
citations-Sourced observations o m = All-of (Sourced observations) (map citation o.evidence) (λ c n.
    Exists-in (λ (x : StructuredObservation). Exists (λ item. citation item ≡ c) x.evidence)
      observations o m (Exists-map citation o.evidence c n))

module _ (env : Environment) (request : Request) (approved : Option String) where
  module _ {A : Type 0} (Q : A → Type 0) (s : LoopState)
      (sound : Sound env request approved (ledger s)) where
    failed-Closed :
        Ends
          (Closed env request approved)
          Q
          (terminate request s TerminalStatus.failed StoppingReason.tool_error (plain failed_text))
    failed-Closed =
        plain-Closed env request approved Q s sound TerminalStatus.failed StoppingReason.tool_error
          failed_text

    finalize_inputs-Closed :
        (calculation : CalculationResult) (inputs : List TrustedCalculationInput)
        (evidence : List GroundedEvidence)
        → All (Sourced s.session.observations) (map citation evidence)
        → Ends
            (Closed env request approved)
            Q
            (finalize_inputs env request s calculation inputs evidence)
    unfolding finalize_inputs finalize_calculation
    finalize_inputs-Closed calculation [] evidence h = (sound, tt)
    finalize_inputs-Closed calculation (first ∷ inputs) evidence h =
        terminate-Closed env request approved Q (log _ s) sound TerminalStatus.completed
          StoppingReason.is_completed _ (inl refl) h

    finalize_calculations-Closed :
        (calculations : List CalculationResult) (evidence : List GroundedEvidence)
        → All (Sourced s.session.observations) (map citation evidence)
        → Ends
            (Closed env request approved)
            Q
            (finalize_calculations env request s calculations evidence)
    unfolding finalize_calculations
    finalize_calculations-Closed [] evidence h = failed-Closed
    finalize_calculations-Closed (c ∷ []) evidence h =
        elim (Bool-cases (not (length evidence == length c.trusted_inputs))) [
          | inl e ↦ rw e failed-Closed
          | inr e ↦ rw e (finalize_inputs-Closed c c.trusted_inputs evidence h)
        ]
    finalize_calculations-Closed (c ∷ d ∷ cs) evidence h = failed-Closed

    conclude_proposal-Closed :
        (arguments : ActionArguments) (notification : Option Text)
        → Ends (Closed env request approved) Q (conclude_proposal request s arguments notification)
    unfolding conclude_proposal
    conclude_proposal-Closed (memory_proposal_input content key explicit) notification =
        terminate-Closed env request approved Q (log _ s) sound TerminalStatus.completed
          StoppingReason.is_completed _ (inl refl) tt
    conclude_proposal-Closed _ notification = failed-Closed

  -- Where no answer ends the run, the state is as it was.
  pub conclude-Closed :
      (s : LoopState) (action : Action) (o : StructuredObservation)
      → Sound env request approved (ledger s)
      → Exists (λ x. x ≡ o) s.session.observations
      → Ends (Closed env request approved) (λ t. t ≡ s) (conclude env request s action o)
  unfolding conclude
  conclude-Closed s action o sound m = elim (Bool-cases (not (is_empty o.calculations))) [
    | inl e ↦ rw e (
        finalize_calculations-Closed (λ (t : LoopState). t ≡ s) s sound o.calculations o.evidence
          (citations-Sourced s.session.observations o m))
    | inr e ↦ rw e (elim (Bool-cases (action.action_name == some "portfolio.search_memory")) [
      | inl f ↦ rw f (
          plain-Closed env request approved (λ (t : LoopState). t ≡ s) (log _ s) sound
            TerminalStatus.completed StoppingReason.is_completed (memory_answer o.memory_context))
      | inr f ↦ rw f (elim (Bool-cases (action.action_name == some "portfolio.propose_memory")) [
        | inl g ↦ rw g (
            conclude_proposal-Closed (λ (t : LoopState). t ≡ s) s sound action.arguments
              o.memory_notification)
        | inr g ↦ rw g refl
      ])
    ])
  ]
