-- ===== src/Approval/Persist.antt =====
-- agent/history_repository.py: `_validate_authorized_observations` and `persist_outcome_history`;
-- `none` is an exception, after which the caller rolls back.
use secure_portfolio_copilot.Agent.Loop.Types.{SafeStepSnapshot, SafeObservationSnapshot}
use secure_portfolio_copilot.Approval.Rows.{AgentStep, AgentPlanVersion, RunRow}
use secure_portfolio_copilot.Policy.{AuthorizationScope}
use secure_portfolio_copilot.Agent.Models.{Plan}
use secure_portfolio_copilot.Approval.Recorder.{
  new_steps, unchanged_from, record_plans, contiguous_from, RunHistory,
}
use secure_portfolio_copilot.Base.{
  Bool, List, List-eq, Option, Option-eq, String-eq, [], all, any, false, if◌then◌else◌, leb,
  length, map, min, none, not, some, total, true, ℕ, ℕ-eq, ◌&&◌, ◌++◌, ◌==◌, ◌∷◌,
}

-- Pairs of document and chunk.
abbrev pub has_reference : List (ℕ × ℕ) → ℕ × ℕ → Bool
has_reference rows (document, chunk) = any (λ (r : ℕ × ℕ). (r.0 == document) && (r.1 == chunk)) rows

-- `{tuple(row) for row in rows} == set(references)`
abbrev pub same_references : List (ℕ × ℕ) → List (ℕ × ℕ) → Bool
same_references rows references =
    all (has_reference references) rows && all (has_reference rows) references

-- `zip(document_ids, chunk_ids, strict=True)`; `none` is the `ValueError`
unfoldable pub zip_strict : List ℕ → List ℕ → Option (List (ℕ × ℕ))
zip_strict [] [] = some []
zip_strict [] (c ∷ cs) = none
zip_strict (d ∷ ds) [] = none
zip_strict (d ∷ ds) (c ∷ cs) = elim (zip_strict ds cs) [
  | none ↦ none
  | some rest ↦ some ((d, c) ∷ rest)
]

unfoldable pub references : List SafeObservationSnapshot → Option (List (ℕ × ℕ))
unfolding zip_strict
references [] = some []
references (o ∷ observations) = elim (zip_strict o.document_ids o.chunk_ids) [
  | none ↦ none
  | some here ↦ elim (references observations) [ none ↦ none | some rest ↦ some (here ++ rest) ]
]

-- `authorized` answers the query: the given chunks that the scope may read, with their documents.
unfoldable pub references_authorized :
    (AuthorizationScope → List ℕ → List (ℕ × ℕ)) → AuthorizationScope → Option (List (ℕ × ℕ)) → Bool
references_authorized authorized scope none = false
references_authorized authorized scope (some []) = true
references_authorized authorized scope (some (r ∷ rs)) =
    same_references (authorized scope (map (λ (p : ℕ × ℕ). p.1) (r ∷ rs))) (r ∷ rs)

-- the checks before anything is written
abbrev pub history_fits : RunRow → RunHistory → Bool
history_fits run history =
    contiguous_from 1 history.plan_versions
    && (leb (length history.safe_steps) 4
        && (leb (length history.safe_observations) 4
            && (leb (length history.safe_observations) (length history.safe_steps)
                && leb (length run.steps) (length history.safe_steps))))

abbrev pub recorded : RunRow → RunHistory → List AgentPlanVersion → List AgentStep → RunRow
recorded run history plans steps = record run {
  plan_versions = plans;
  steps = run.steps ++ steps;
  plan_version_count = length history.plan_versions;
  step_count = length history.safe_steps;
  observation_count = length history.safe_observations;
  retry_count = min history.retry_count 4;
}

-- the rows of the new steps are added
unfoldable pub add_steps :
    RunRow → RunHistory → List AgentPlanVersion → Option (List AgentStep) → Option RunRow
add_steps run history plans none = none
add_steps run history plans (some steps) = some (recorded run history plans steps)

-- from the plans on
unfoldable pub append_steps : RunRow → RunHistory → Option (List AgentPlanVersion) → Option RunRow
unfolding unchanged_from new_steps record_plans add_steps
append_steps run history none = none
append_steps run history (some plans) =
    if not (unchanged_from 1 run.steps history.safe_steps history.safe_observations)
    then none
    else add_steps run history plans
        (new_steps plans (length run.steps) 1 history.safe_steps history.safe_observations)

-- `persist_outcome_history`
unfoldable pub persist_outcome_history :
    (AuthorizationScope → List ℕ → List (ℕ × ℕ))
    → RunRow
    → AuthorizationScope
    → RunHistory
    → Option RunRow
unfolding references_authorized references append_steps contiguous_from
persist_outcome_history authorized run scope history =
    if not (history_fits run history)
    then none
    else if not (references_authorized authorized scope (references history.safe_observations))
    then none
    else append_steps run history (record_plans (some run.plan_versions) history.plan_versions)

-- what a pause records
abbrev pub checkpoint :
    List Plan → List SafeStepSnapshot → List SafeObservationSnapshot → RunHistory
checkpoint plans safe_steps safe_observations = record {
  plan_versions = plans;
  safe_steps = safe_steps;
  safe_observations = safe_observations;
  retry_count = total (map (λ (o : SafeObservationSnapshot). o.retry_count) safe_observations);
}

-- `persist_checkpoint_history`
abbrev pub persist_checkpoint_history :
    (AuthorizationScope → List ℕ → List (ℕ × ℕ))
    → RunRow
    → AuthorizationScope
    → List Plan
    → List SafeStepSnapshot
    → List SafeObservationSnapshot
    → Option RunRow
persist_checkpoint_history authorized run scope plans safe_steps safe_observations =
    persist_outcome_history authorized run scope (checkpoint plans safe_steps safe_observations)
