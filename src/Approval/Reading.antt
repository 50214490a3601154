-- ===== src/Approval/Reading.antt =====
-- agent/history_repository.py: the steps of a run, as `persist_outcome_history` leaves them, are
-- those of the outcome.
use secure_portfolio_copilot.Base.{
  Bool, List, List-eq, Option, Option-eq, String-eq, [], ap, arith, enum_beq_iff, eq_iff, false,
  if◌then◌else◌, leb, length, list_beq_iff, nat_eq_iff, none, refl, some, subst, suc, sym, true, ℕ,
  ℕ-eq, ◌&&◌, ◌++◌, ◌+◌, ◌<◌, ◌==◌, ◌∷◌, ◌≡◌,
}
use secure_portfolio_copilot.Agent.Loop.Types.{
  StepPolicy-eq, SafeStatus-eq, StepPolicy-discrete, SafeStatus-discrete, ObservationStatus-eq,
  ObservationStatus-discrete, SafeStepSnapshot, SafeObservationSnapshot,
}
use secure_portfolio_copilot.Approval.Recorder.{
  RunHistory, unchanged_from, tail, head, same_recorded_step, new_steps, observation_rows,
  same_observation, add_step,
}
use secure_portfolio_copilot.Approval.Rows.{
  RunRow, AgentObservationRecord, AgentPlanVersion, AgentStep,
}
use secure_portfolio_copilot.Policy.{AuthorizationScope}
use secure_portfolio_copilot.Approval.Persist.{persist_outcome_history}
use secure_portfolio_copilot.Approval.Recording.{persist-Recorded, guard-passed, Recorded}

pub and-both : (a b : Bool) → (a && b) ≡ true → (a ≡ true) × (b ≡ true)
and-both true b h = (refl, h)
and-both false b h = cc

-- A row that shows a step of an outcome; its duration may be an earlier one.
pub record Shows (number : ℕ) (row : AgentStep) (step : SafeStepSnapshot) : Type 0 where
  pub numbered : row.step_number ≡ number
  pub plan_version : row.plan_version ≡ step.plan_version
  pub plan_step_index : row.plan_step_index ≡ step.plan_step_index
  pub tool_name : row.tool_name ≡ step.tool_name
  pub action_argument_hash : row.action_argument_hash ≡ step.action_argument_hash
  pub status : row.status ≡ step.status
  pub policy_decision : row.policy_decision ≡ step.policy_decision
  pub reason_code : row.safe_reason_code ≡ step.reason_code

-- A row that shows an observation; its counts may be earlier ones.
pub data ShowsObservation
    : Option AgentObservationRecord → Option SafeObservationSnapshot → Type 0 where
  no_observation : ShowsObservation none none
  one_observation :
      {row : AgentObservationRecord} {o : SafeObservationSnapshot}
      → row.status ≡ o.status
      → row.safe_reason_code ≡ o.reason_code
      → row.authorized_document_ids ≡ o.document_ids
      → row.authorized_chunk_ids ≡ o.chunk_ids
      → row.citation_ids ≡ o.citation_ids
      → ShowsObservation (some row) (some o)

-- The rows show the steps, in order and from a number on, with their observations.
abbrev pub ShowsAll :
    ℕ → List AgentStep → List SafeStepSnapshot → List SafeObservationSnapshot → Type 0
ShowsAll number [] [] observations = Unit
ShowsAll number [] (step ∷ steps) observations = ⊥
ShowsAll number (row ∷ rows) [] observations = ⊥
ShowsAll number (row ∷ rows) (step ∷ steps) observations =
    Shows number row step
    × ShowsObservation row.observation (head observations)
    × ShowsAll (suc number) rows steps (tail observations)

same_recorded_step-Shows :
    (number : ℕ) (row : AgentStep) (step : SafeStepSnapshot)
    → same_recorded_step number row step ≡ true
    → Shows number row step
same_recorded_step-Shows number row step h =
    let (a, h1) = and-both (row.step_number == number) _ h in
    let (b, h2) = and-both (row.plan_version == step.plan_version) _ h1 in
    let (c, h3) = and-both (row.plan_step_index == step.plan_step_index) _ h2 in
    let (d, h4) = and-both (row.tool_name == step.tool_name) _ h3 in
    let (e, h5) = and-both (row.action_argument_hash == step.action_argument_hash) _ h4 in
    let (f, h6) = and-both (row.status == step.status) _ h5 in
    let (g, i) = and-both (row.policy_decision == step.policy_decision) _ h6 in
    record {
      numbered = (nat_eq_iff row.step_number number).0 a;
      plan_version = (nat_eq_iff row.plan_version step.plan_version).0 b;
      plan_step_index = (nat_eq_iff row.plan_step_index step.plan_step_index).0 c;
      tool_name = (eq_iff row.tool_name step.tool_name).0 d;
      action_argument_hash = (eq_iff row.action_argument_hash step.action_argument_hash).0 e;
      status = (enum_beq_iff SafeStatus-discrete row.status step.status).0 f;
      policy_decision =
          (enum_beq_iff StepPolicy-discrete row.policy_decision step.policy_decision).0 g;
      reason_code = (eq_iff row.safe_reason_code step.reason_code).0 i;
    }

same_observation-Shows :
    (row : Option AgentObservationRecord) (o : Option SafeObservationSnapshot)
    → same_observation row o ≡ true
    → ShowsObservation row o
unfolding same_observation
same_observation-Shows none none h = no_observation
same_observation-Shows none (some o) h = cc
same_observation-Shows (some row) none h = cc
same_observation-Shows (some row) (some o) h =
    let (a, h1) = and-both (row.status == o.status) _ h in
    let (b, h2) = and-both (row.safe_reason_code == o.reason_code) _ h1 in
    let (c, h3) = and-both (row.authorized_document_ids == o.document_ids) _ h2 in
    let (d, e) = and-both (row.authorized_chunk_ids == o.chunk_ids) _ h3 in
    one_observation ((enum_beq_iff ObservationStatus-discrete row.status o.status).0 a)
      ((eq_iff row.safe_reason_code o.reason_code).0 b)
      ((list_beq_iff row.authorized_document_ids o.document_ids).0 c)
      ((list_beq_iff row.authorized_chunk_ids o.chunk_ids).0 d)
      ((list_beq_iff row.citation_ids o.citation_ids).0 e)

observation_rows-Shows :
    (o : Option SafeObservationSnapshot) → ShowsObservation (observation_rows o) o
observation_rows-Shows none = no_observation
observation_rows-Shows (some o) = one_observation refl refl refl refl refl

add_step-eq-some :
    (row : AgentStep) (rest : Option (List AgentStep)) (rows : List AgentStep)
    → add_step row rest ≡ some rows
    → (later : List AgentStep) × (rest ≡ some later) × (row ∷ later ≡ rows)
unfolding add_step
add_step-eq-some row none rows h = cc
add_step-eq-some row (some later) rows h = (later, refl, ground arith)

else-taken : {A : Type 0} (b : Bool) (x y z : A) → b ≡ false → (if b then x else y) ≡ z → y ≡ z
else-taken true x y z e h = cc
else-taken false x y z e h = h

then-taken : {A : Type 0} (b : Bool) (x y z : A) → b ≡ true → (if b then x else y) ≡ z → x ≡ z
then-taken true x y z e h = h
then-taken false x y z e h = cc

module _ (plans : List AgentPlanVersion) (existing : ℕ) where
  -- the steps after the existing ones
  new_steps-ShowsAll :
      (number : ℕ) (steps : List SafeStepSnapshot) (observations : List SafeObservationSnapshot)
      (rows : List AgentStep)
      → existing < number
      → new_steps plans existing number steps observations ≡ some rows
      → ShowsAll number rows steps observations
  unfolding new_steps
  new_steps-ShowsAll number [] observations [] after h = tt
  new_steps-ShowsAll number [] observations (row ∷ rows) after h = absurd (ground arith)
  new_steps-ShowsAll number (step ∷ steps) observations rows after h =
      let guarded = else-taken (leb number existing) _ _ _ (ground (arith, after)) h in
      let (_, named) = guard-passed _ _ rows guarded in
      let (_, added) = guard-passed _ _ rows named in
      let (later, rest, same) = add_step-eq-some _ _ rows added in
      subst (λ r. ShowsAll number r (step ∷ steps) observations) same
        (
          record {
            numbered = refl;
            plan_version = refl;
            plan_step_index = refl;
            tool_name = refl;
            action_argument_hash = refl;
            status = refl;
            policy_decision = refl;
            reason_code = refl;
          },
          observation_rows-Shows (head observations),
          new_steps-ShowsAll (suc number) steps (tail observations) later (omega (arith, after))
              rest,
        )

  -- the existing steps, and those after them
  steps-ShowsAll :
      (number : ℕ) (old : List AgentStep) (steps : List SafeStepSnapshot)
      (observations : List SafeObservationSnapshot) (new : List AgentStep)
      → existing + 1 ≡ number + length old
      → unchanged_from number old steps observations ≡ true
      → new_steps plans existing number steps observations ≡ some new
      → ShowsAll number (old ++ new) steps observations
  unfolding new_steps unchanged_from
  steps-ShowsAll number [] steps observations new count same h =
      new_steps-ShowsAll number steps observations new (omega (arith, count)) h
  steps-ShowsAll number (row ∷ old) [] observations new count same h = cc
  steps-ShowsAll number (row ∷ old) (step ∷ steps) observations new count same h =
      let (here, rest) = and-both (same_recorded_step number row step) _ same in
      let (observed, later) =
        and-both (same_observation row.observation (head observations)) _ rest in
      let passed = then-taken (leb number existing) _ _ _ (ground (arith, count)) h in
      (
        same_recorded_step-Shows number row step here,
        same_observation-Shows row.observation (head observations) observed,
        steps-ShowsAll (suc number) old steps (tail observations) new (omega (arith, count)) later
            passed,
      )

pub length-ShowsAll :
    (number : ℕ) (rows : List AgentStep) (steps : List SafeStepSnapshot)
    (observations : List SafeObservationSnapshot)
    → ShowsAll number rows steps observations
    → length rows ≡ length steps
length-ShowsAll number [] [] observations h = refl
length-ShowsAll number [] (step ∷ steps) observations h = absurd h
length-ShowsAll number (row ∷ rows) [] observations h = absurd h
length-ShowsAll number (row ∷ rows) (step ∷ steps) observations (_, _, h) =
    ap suc (length-ShowsAll (suc number) rows steps (tail observations) h)

pub Recorded-ShowsAll :
    (run : RunRow) (history : RunHistory) (next : RunRow)
    → Recorded run history next
    → ShowsAll 1 next.steps history.safe_steps history.safe_observations
Recorded-ShowsAll run history next r =
    subst (λ (n : RunRow). ShowsAll 1 n.steps history.safe_steps history.safe_observations)
      r.written
      (steps-ShowsAll r.plans (length run.steps) 1 run.steps history.safe_steps
        history.safe_observations r.steps (omega arith) r.unchanged r.stepped)

-- Where a history is persisted, it can be read back: the rows of the run's steps are as many as
-- the steps of the history, are numbered from 1, and each has the plan position, the tool, the
-- hash, the status, the policy decision and the reason of its step, with an observation exactly
-- where the history has one, of the same status, reason, documents, chunks and citations. The rows
-- that were there before are kept, in front.
pub persist_roundtrip :
    (authorized : AuthorizationScope → List ℕ → List (ℕ × ℕ)) (run : RunRow)
    (scope : AuthorizationScope) (history : RunHistory) (next : RunRow)
    → persist_outcome_history authorized run scope history ≡ some next
    → ShowsAll 1 next.steps history.safe_steps history.safe_observations
      × ((new : List AgentStep) × (next.steps ≡ run.steps ++ new))
persist_roundtrip authorized run scope history next h =
    let r = persist-Recorded authorized run scope history next h in
    (Recorded-ShowsAll run history next r, (r.steps, ap (λ (n : RunRow). n.steps) (sym r.written)))
