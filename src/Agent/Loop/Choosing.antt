-- ===== src/Agent/Loop/Choosing.antt =====
-- agent/loop.py: what holds of a round up to the step that is chosen.
use secure_portfolio_copilot.Base.{
  Bool-cases, List-eq, Option, Option-eq, String, String-eq, arith, contains, false, if◌then◌else◌,
  inl, inr, leb, none, option_beq_iff, refl, some, true, ℕ-eq, ◌&&◌, ◌+◌, ◌<◌, ◌==◌, ◌≡◌,
}
use secure_portfolio_copilot.Agent.Models.{Step, ActionType, tool_call, finalize, clarify, refuse}
use secure_portfolio_copilot.Agent.PlanState.{ok, validate_next_action}
use secure_portfolio_copilot.Agent.Loop.Types.{TerminalStatus, StoppingReason}
use secure_portfolio_copilot.Agent.Loop.Environment.{Environment}
use secure_portfolio_copilot.Agent.Loop.State.{
  goes_on, Request, LoopState, Turn, log, failed_text, refused_text, clarify_text, search_tool,
}
use secure_portfolio_copilot.Agent.Loop.Act.{
  admit_tool, dispatch, choose, settle_plan, refused_tool,
}
use secure_portfolio_copilot.Agent.Loop.Sound.{
  Ends-weaken, Ledger, ledger, Ends, Ends-bind, Sound, Closed,
}
use secure_portfolio_copilot.Agent.Loop.Ending.{plain-Closed, finalize-Closed, settle_plan-Closed}

-- What the guards establish of the tool call that they let through.
pub record Admitted (request : Request) (l : Ledger) (action_name : Option String) (name : String)
    : Type 0 where
  pub named : action_name ≡ some name
  pub permitted : contains request.permitted_tools name ≡ true
  pub below : l.step_count < request.limits.max_steps
  pub searches :
      action_name ≡ some search_tool → l.retrieval_count < 1 + request.limits.max_retrieval_rewrites

module _ (env : Environment) (request : Request) (approved : Option String) where
  module _ (s : LoopState) (sound : Sound env request approved (ledger s)) where
    refused_tool-Closed :
        {A : Type 0} (Q : A → Type 0) (name : Option String)
        → Ends (Closed env request approved) Q (refused_tool request s name)
    refused_tool-Closed Q name =
        plain-Closed env request approved Q (log _ s) sound TerminalStatus.refused
          StoppingReason.scope_denied refused_text

    abbrev LetThrough : Option String → String × LoopState → Type 0
    LetThrough action_name r = (ledger r.1 ≡ ledger s) × Admitted request (ledger s) action_name r.0

    admit_name-Closed :
        (action_name : Option String)
        → leb request.limits.max_steps s.step_count ≡ false
        → ((action_name == some search_tool)
            && leb (1 + request.limits.max_retrieval_rewrites) s.retrieval_count)
          ≡ false
        → Ends (Closed env request approved) (LetThrough action_name) (elim action_name [
          | none ↦ refused_tool request s none
          | some name ↦
              if contains request.permitted_tools name
              then goes_on (name, s)
              else refused_tool request s (some name)
        ])
    admit_name-Closed none e f = refused_tool-Closed (LetThrough none) none
    admit_name-Closed (some name) e f = elim (Bool-cases (contains request.permitted_tools name)) [
      | inl g ↦ rw g (
        refl,
        record {
          named = refl;
          permitted = g;
          below = ground arith;
          searches = λ h. ground (arith, option_beq_iff (some name) (some search_tool));
        },
      )
      | inr g ↦ rw g (refused_tool-Closed (LetThrough (some name)) (some name))
    ]

    admit_tool-Closed :
        (action_name : Option String)
        → Ends
            (Closed env request approved)
            (LetThrough action_name)
            (admit_tool request s action_name)
    unfolding admit_tool
    admit_tool-Closed action_name = elim (Bool-cases (leb request.limits.max_steps s.step_count)) [
      | inl e ↦ rw e (
          plain-Closed env request approved (LetThrough action_name) s sound
            TerminalStatus.limit_reached StoppingReason.max_steps failed_text)
      | inr e ↦
          rw e
            (elim (Bool-cases (
              (action_name == some search_tool)
              && leb (1 + request.limits.max_retrieval_rewrites) s.retrieval_count)) [
                | inl f ↦ rw f (
                    plain-Closed env request approved (LetThrough action_name) s sound
                      TerminalStatus.limit_reached StoppingReason.max_retrieval_rewrites
                      failed_text)
                | inr f ↦ rw f (admit_name-Closed action_name e f)
              ])
    ]

    abbrev Dispatched : ActionType → Option String → String × LoopState → Type 0
    Dispatched type action_name r = (type ≡ tool_call) × LetThrough action_name r

    dispatch-Closed :
        (type : ActionType) (action_name : Option String)
        → Ends
            (Closed env request approved)
            (Dispatched type action_name)
            (dispatch env request s type action_name)
    unfolding dispatch
    dispatch-Closed clarify action_name =
        plain-Closed env request approved (Dispatched clarify action_name) s sound
          TerminalStatus.needs_clarification StoppingReason.clarification_required clarify_text
    dispatch-Closed refuse action_name =
        plain-Closed env request approved (Dispatched refuse action_name) s sound
          TerminalStatus.refused StoppingReason.request_refused refused_text
    dispatch-Closed finalize action_name =
        finalize-Closed env request approved (Dispatched finalize action_name) s sound
    dispatch-Closed tool_call action_name =
        Ends-weaken (Closed env request approved) (LetThrough action_name)
          (Dispatched tool_call action_name) (admit_tool request s action_name)
          (admit_tool-Closed action_name) (λ r h. (refl, h))

  -- What is known of the step that a round has chosen.
  pub record Chosen (s : LoopState) (turn : Turn) (r : Step × String × LoopState) : Type 0 where
    pub validated :
        validate_next_action env.digest turn.plan_state turn.decision.next_action ≡ ok r.0
    pub typed : turn.decision.next_action.type ≡ tool_call
    pub same : ledger r.2 ≡ ledger s
    pub admitted : Admitted request (ledger s) turn.decision.next_action.action_name r.1

  pub choose-Closed :
      (s : LoopState) (turn : Turn)
      → Sound env request approved (ledger s)
      → Ends (Closed env request approved) (Chosen s turn) (choose env request s turn)
  unfolding choose
  choose-Closed s turn sound =
      let action = turn.decision.next_action in
      let closed = Closed env request approved in
      let decided = log _ s in
      let accepted = validate_next_action env.digest turn.plan_state action in
      Ends-bind closed (λ (step : Step). accepted ≡ ok step) (Chosen s turn)
        (settle_plan request decided accepted) _
        (settle_plan-Closed env request approved decided sound accepted)
        (λ (step : Step) v.
          Ends-bind closed (Dispatched decided sound action.type action.action_name) (Chosen s turn)
            (dispatch env request decided action.type action.action_name) _
            (dispatch-Closed decided sound action.type action.action_name)
            (λ (r : String × LoopState) d. record {
              validated = v;
              typed = d.0;
              same = d.1.0;
              admitted = d.1.1;
            }))
