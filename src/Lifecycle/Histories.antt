-- ===== src/Lifecycle/Histories.antt =====
-- agent/run_state.py: what holds along every history of transitions.
use secure_portfolio_copilot.Base.{
  Bool, Bool-cases, List-eq, Option, Option-eq, String, String-eq, ap, arith, contains, false,
  if◌then◌else◌, inl, inr, is_some, none, not, refl, some, true, ℕ, ℕ-eq, ◌∙◌, ◌≡◌, ◌⊎◌,
}
use secure_portfolio_copilot.Lifecycle.RunState.{
  AgentRunStatus, AgentRunStatus-eq, AgentRunStatus-discrete, AgentRun, running, created,
  awaiting_approval, moved, transition_run, validate_agent_run_transition,
  terminal_agent_run_statuses, allowed_transitions,
}

-- A history of a run, from one row to a later one.
pub data History (first : AgentRun) : AgentRun → Type 0 where
  same : History first first
  later :
      {run next : AgentRun} (target : AgentRunStatus) (reason : String) (now : ℕ)
      → History first run
      → transition_run run target reason now ≡ some next
      → History first next

pub transition_run-eq-some :
    (run next : AgentRun) (target : AgentRunStatus) (reason : String) (now : ℕ)
    → transition_run run target reason now ≡ some next
    → (contains (allowed_transitions run.status) target ≡ true)
      × (next ≡ moved run reason now target)
unfolding transition_run validate_agent_run_transition
transition_run-eq-some run next target reason now h = ground arith

pub transition_run-allowed :
    (run : AgentRun) (target : AgentRunStatus) (reason : String) (now : ℕ)
    → contains (allowed_transitions run.status) target ≡ true
    → transition_run run target reason now ≡ some (moved run reason now target)
unfolding transition_run validate_agent_run_transition
transition_run-allowed run target reason now h = ground arith

-- The terminal statuses are those that are not open.
abbrev pub is_terminal : AgentRunStatus → Bool
is_terminal status = contains terminal_agent_run_statuses status

terminal_allowed :
    (s t : AgentRunStatus) → is_terminal s ≡ true → contains (allowed_transitions s) t ≡ false
unfolding AgentRunStatus-discrete
terminal_allowed created t h = cc
terminal_allowed running t h = cc
terminal_allowed awaiting_approval t h = cc
terminal_allowed _ t h = refl

allowed_awaiting :
    (s : AgentRunStatus) → contains (allowed_transitions s) awaiting_approval ≡ true → s ≡ running
unfolding AgentRunStatus-discrete
allowed_awaiting running h = refl
allowed_awaiting _ h = cc

allowed_created : (s : AgentRunStatus) → contains (allowed_transitions s) created ≡ false
unfolding AgentRunStatus-discrete
allowed_created created = refl
allowed_created _ = refl

-- The times of a run agree with its status: it is completed at some time exactly if the status is
-- terminal, and started at some time where it runs or waits for an approval.
pub record Timed (run : AgentRun) : Type 0 where
  pub completed : is_some run.completed_at ≡ is_terminal run.status
  pub started :
      (run.status ≡ running) ⊎ (run.status ≡ awaiting_approval) → is_some run.started_at ≡ true

some-or : (o : Option ℕ) (now : ℕ) → is_some (if not (is_some o) then some now else o) ≡ true
some-or none now = refl
some-or (some t) now = refl

moved-Timed :
    (run : AgentRun) (target : AgentRunStatus) (reason : String) (now : ℕ)
    → contains (allowed_transitions run.status) target ≡ true
    → Timed run
    → Timed (moved run reason now target)
unfolding AgentRunStatus-discrete
moved-Timed run created reason now h timed = absurd (cc (h, allowed_created run.status))
moved-Timed run running reason now h timed = record {
  completed = elim (Bool-cases (is_terminal run.status)) [
    | inl e ↦ absurd (cc (h, terminal_allowed run.status running e))
    | inr e ↦ timed.completed ∙ e
  ];
  started = λ _. some-or run.started_at now;
}
moved-Timed run awaiting_approval reason now h timed =
    let source = allowed_awaiting run.status h in
    record {
      completed = timed.completed ∙ ap is_terminal source;
      started = λ _. timed.started (inl source);
    }
moved-Timed run _ reason now h timed = record {
  completed = refl;
  started = λ e. elim e [ inl p ↦ cc | inr p ↦ cc ];
}

-- Along every history that starts with a row whose times agree with its status, such as a new one,
-- they agree: `completed_at` is set exactly when the status is terminal, and `started_at` whenever
-- the run is running or awaits an approval.
pub History-Timed : {first last : AgentRun} → Timed first → History first last → Timed last
History-Timed timed same = timed
History-Timed timed (later {run} {next} target reason now before h) =
    let (allowed, e) = transition_run-eq-some run next target reason now h in
    rw e (moved-Timed run target reason now allowed (History-Timed timed before))

-- Nothing follows a terminal status: a history from a row with one has no transition in it.
pub terminal_final :
    {first last : AgentRun} → is_terminal first.status ≡ true → History first last → last ≡ first
terminal_final {first} {last} h same = refl
terminal_final {first} {last} h (later {run} {next} target reason now before e) =
    let (allowed, _) = transition_run-eq-some run last target reason now e in
    let back = terminal_final h before in
    let still : is_terminal run.status ≡ true =
      ap (λ (r : AgentRun). is_terminal r.status) back ∙ h in
    absurd (cc (allowed, terminal_allowed run.status target still))
