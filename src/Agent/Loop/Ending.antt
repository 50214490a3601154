-- ===== src/Agent/Loop/Ending.antt =====
-- agent/loop.py: `_terminal` and the phases that only end a run or hand on a value.
use secure_portfolio_copilot.Base.{
  All, Bool-cases, Exists, Exists-out, List, List-eq, Option, Option-eq, String, String-eq, [], ap,
  inl, inr, is_empty, not, refl, subst, sym, ℕ, ℕ-eq, ◌&&◌, ◌==◌, ◌||◌, ◌∷◌, ◌≡◌, ◌⊎◌,
}
use secure_portfolio_copilot.Agent.Loop.Types.{
  StructuredObservation, TerminalStatus, TerminalStatus-eq, StoppingReason, Content,
}
use secure_portfolio_copilot.Agent.Loop.Environment.{
  model_failed, model_timeout, answered, LlmGeneration, ModelAttempt, Environment,
}
use secure_portfolio_copilot.Agent.Loop.State.{
  log, failed_text, insufficient_text, plain, Request, LoopState, terminate, outcome,
}
use secure_portfolio_copilot.Text.{Text}
use secure_portfolio_copilot.Agent.Loop.Finish.{
  remaining_ms, within_budget, tick, finalize, settle, finalize_checked, awaited,
}
use secure_portfolio_copilot.Agent.Loop.Act.{settle_plan}
use secure_portfolio_copilot.Grounding.{
  rejected, validate_grounded_answer, passed, citation, Checked, ValidatedAnswer, GroundedEvidence,
}
use secure_portfolio_copilot.Agent.PlanState.{err, ok, Result, PlanError, plan_contract}
use secure_portfolio_copilot.Grounding.Citations.{validate-IsGrounded, IsGrounded}
use secure_portfolio_copilot.Agent.Loop.Sound.{
  Ledger, Ends-bind, ledger, Sourced, Ends, Sound, Closed,
}

pub All-of :
    {A : Type 0} (P : A → Type 0) (xs : List A)
    → ((x : A) → Exists (λ y. y ≡ x) xs → P x)
    → All P xs
All-of P [] h = tt
All-of P (x ∷ xs) h = (h x (inl refl), All-of P xs (λ y m. h y (inr m)))

pub All-at :
    {A : Type 0} (P : A → Type 0) (xs : List A) (x : A) → All P xs → Exists (λ y. y ≡ x) xs → P x
All-at P [] x a m = elim m [ ]
All-at P (y ∷ ys) x a (inl e) = subst P e a.0
All-at P (y ∷ ys) x a (inr m) = All-at P ys x a.1 m

module _ (env : Environment) (request : Request) (approved : Option String) where
  module _ {A : Type 0} (Q : A → Type 0) (s : LoopState)
      (sound : Sound env request approved (ledger s)) where
    -- `terminate` ends well where the content is bare or the status is completed.
    pub terminate-Closed :
        (status : TerminalStatus) (reason : StoppingReason) (content : Content)
        → (status ≡ TerminalStatus.completed)
          ⊎ ((content.claims ≡ []) × (content.citations ≡ []) × (content.calculations ≡ []))
        → All (Sourced s.session.observations) content.citations
        → Ends (Closed env request approved) Q (terminate request s status reason content)
    unfolding terminate outcome
    terminate-Closed status reason content guarded sourced =
        elim (Bool-cases (
          not (status == TerminalStatus.completed)
          && (not (is_empty content.claims)
              || (not (is_empty content.citations) || not (is_empty content.calculations))))) [
                | inl e ↦ rw e (sound, tt)
                | inr e ↦ rw e (
                  sound,
                  record {
                    guarded = guarded;
                    sourced = sourced;
                    step_count = refl;
                    replan_count = refl;
                  },
                )
              ]

    pub plain-Closed :
        (status : TerminalStatus) (reason : StoppingReason) (answer : Text)
        → Ends (Closed env request approved) Q (terminate request s status reason (plain answer))
    plain-Closed status reason answer =
        terminate-Closed status reason (plain answer) (inr (refl, refl, refl)) tt

  module _ {A : Type 0} (s : LoopState) (sound : Sound env request approved (ledger s)) where
    -- An awaited call leaves the ledger as it is.
    pub settle-Closed :
        (attempt : ModelAttempt A)
        → Ends
            (Closed env request approved)
            (λ (r : A × LoopState). ledger r.1 ≡ ledger s)
            (settle request s attempt)
    unfolding settle
    settle-Closed (answered a) = refl
    settle-Closed model_timeout =
        plain-Closed (λ (r : A × LoopState). ledger r.1 ≡ ledger s) s sound
          TerminalStatus.limit_reached StoppingReason.max_duration failed_text
    settle-Closed model_failed =
        plain-Closed (λ (r : A × LoopState). ledger r.1 ≡ ledger s) s sound TerminalStatus.failed
          StoppingReason.model_error failed_text

    pub settle_plan-Closed :
        (r : Result A)
        → Ends (Closed env request approved) (λ a. r ≡ ok a) (settle_plan request s r)
    unfolding settle_plan
    settle_plan-Closed (ok a) = refl
    settle_plan-Closed (err plan_contract) =
        plain-Closed (λ a. Result.err plan_contract ≡ ok a) s sound TerminalStatus.failed
          StoppingReason.malformed_action failed_text
    settle_plan-Closed (err PlanError.plan_exhausted) =
        plain-Closed (λ a. Result.err PlanError.plan_exhausted ≡ ok a) s sound TerminalStatus.failed
          StoppingReason.plan_exhausted failed_text

  pub awaited-Closed :
      {A : Type 0} (s : LoopState) (call : ℕ → ModelAttempt A)
      → Sound env request approved (ledger s)
      → Ends
          (Closed env request approved)
          (λ (r : A × LoopState). ledger r.1 ≡ ledger s)
          (awaited env request s call)
  unfolding awaited
  awaited-Closed s call sound =
      settle-Closed (tick s) sound (within_budget (remaining_ms env request s) call)

  cited-Sourced :
      (observations : List StructuredObservation) (evidence : List GroundedEvidence)
      (v : ValidatedAnswer)
      → All (λ item. Sourced observations (citation item)) evidence
      → IsGrounded evidence v
      → All (Sourced observations) v.citations
  cited-Sourced observations evidence v backed grounded =
      All-of (Sourced observations) v.citations (λ c m.
        let (item, i, e) =
          Exists-out (λ item. citation item ≡ c) evidence (grounded.provenance c m) in
        subst (Sourced observations) e
          (All-at (λ item. Sourced observations (citation item)) evidence item backed i))

  module _ {A : Type 0} (Q : A → Type 0) (s : LoopState)
      (sound : Sound env request approved (ledger s)) where
    finalize_checked-Closed :
        (generation : LlmGeneration) (checked : Checked ValidatedAnswer)
        → ((v : ValidatedAnswer) → checked ≡ passed v → IsGrounded s.evidence_by_id v)
        → Ends (Closed env request approved) Q (finalize_checked request s generation checked)
    unfolding finalize_checked
    finalize_checked-Closed generation (rejected code) h =
        plain-Closed Q s sound TerminalStatus.insufficient_evidence
          StoppingReason.citation_validation_failed insufficient_text
    finalize_checked-Closed generation (passed v) h =
        terminate-Closed Q (log _ s) sound TerminalStatus.completed StoppingReason.is_completed _
          (inl refl)
          (cited-Sourced s.session.observations s.evidence_by_id v sound.backed (h v refl))

  pub finalize-Closed :
      {A : Type 0} (Q : A → Type 0) (s : LoopState)
      → Sound env request approved (ledger s)
      → Ends (Closed env request approved) Q (finalize env request s)
  unfolding finalize
  finalize-Closed {A} Q s sound = elim (Bool-cases (is_empty s.evidence_by_id)) [
    | inl e ↦ rw e (
        plain-Closed Q s sound TerminalStatus.insufficient_evidence
          StoppingReason.insufficient_authorized_evidence insufficient_text)
    | inr e ↦ rw e (
        Ends-bind (Closed env request approved)
          (λ (r : LlmGeneration × LoopState). ledger r.1 ≡ ledger s) Q
          (awaited env request (log _ s) (env.generate request.query s.evidence_by_id)) _
          (awaited-Closed (log _ s) (env.generate request.query s.evidence_by_id) sound)
          (λ (r : LlmGeneration × LoopState) same.
            finalize_checked-Closed Q r.1 (subst (Sound env request approved) (sym same) sound) r.0
              (validate_grounded_answer r.0.answer s.evidence_by_id)
              (λ v h.
                subst (λ l. IsGrounded l v) (sym (ap (λ (l : Ledger). l.evidence) same))
                  (validate-IsGrounded r.0.answer s.evidence_by_id v h))))
  ]
