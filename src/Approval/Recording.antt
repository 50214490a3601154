-- ===== src/Approval/Recording.antt =====
-- agent/history_repository.py: what `persist_outcome_history` has checked and written where it
-- returns.
use secure_portfolio_copilot.Approval.Persist.{
  recorded, history_fits, persist_outcome_history, add_steps, append_steps,
}
use secure_portfolio_copilot.Approval.Rows.{AgentStep, AgentPlanVersion, RunRow}
use secure_portfolio_copilot.Policy.{AuthorizationScope}
use secure_portfolio_copilot.Approval.Recorder.{new_steps, unchanged_from, record_plans, RunHistory}
use secure_portfolio_copilot.Base.{
  Bool, List, List-eq, Option, Option-eq, String-eq, arith, false, if◌then◌else◌, length, none, not,
  refl, some, true, ℕ, ℕ-eq, ◌≡◌,
}

pub guard-passed :
    {A : Type 0} (b : Bool) (rest : Option A) (a : A)
    → (if not b then none else rest) ≡ some a
    → (b ≡ true) × (rest ≡ some a)
guard-passed true rest a h = (refl, h)
guard-passed false rest a h = cc

pub record Recorded (run : RunRow) (history : RunHistory) (next : RunRow) : Type 0 where
  pub plans : List AgentPlanVersion
  pub steps : List AgentStep
  pub fits : history_fits run history ≡ true
  pub planned : record_plans (some run.plan_versions) history.plan_versions ≡ some plans
  pub unchanged : unchanged_from 1 run.steps history.safe_steps history.safe_observations ≡ true
  pub stepped :
      new_steps plans (length run.steps) 1 history.safe_steps history.safe_observations ≡ some steps
  pub written : recorded run history plans steps ≡ next

add_steps-Recorded :
    (run : RunRow) (history : RunHistory) (plans : List AgentPlanVersion) (next : RunRow)
    (steps : Option (List AgentStep))
    → add_steps run history plans steps ≡ some next
    → (new : List AgentStep) × (steps ≡ some new) × (recorded run history plans new ≡ next)
unfolding add_steps
add_steps-Recorded run history plans next none h = cc
add_steps-Recorded run history plans next (some steps) h = (steps, refl, ground arith)

append_steps-Recorded :
    (run : RunRow) (history : RunHistory) (next : RunRow) (plans : Option (List AgentPlanVersion))
    → history_fits run history ≡ true
    → record_plans (some run.plan_versions) history.plan_versions ≡ plans
    → append_steps run history plans ≡ some next
    → Recorded run history next
unfolding append_steps
append_steps-Recorded run history next none fits planned h = cc
append_steps-Recorded run history next (some plans) fits planned h =
    let (unchanged, rest) = guard-passed _ _ next h in
    let (steps, stepped, written) = add_steps-Recorded run history plans next _ rest in
    record {
      plans = plans;
      steps = steps;
      fits = fits;
      planned = planned;
      unchanged = unchanged;
      stepped = stepped;
      written = written;
    }

pub persist-Recorded :
    (authorized : AuthorizationScope → List ℕ → List (ℕ × ℕ)) (run : RunRow)
    (scope : AuthorizationScope) (history : RunHistory) (next : RunRow)
    → persist_outcome_history authorized run scope history ≡ some next
    → Recorded run history next
unfolding persist_outcome_history
persist-Recorded authorized run scope history next h =
    let (fits, checked) = guard-passed _ _ next h in
    let (_, rest) = guard-passed _ _ next checked in
    append_steps-Recorded run history next _ fits refl rest
