-- ===== src/Lifecycle/Ingestion.antt =====
-- ingestion/state_machine.py, and `IngestionService._transition` of ingestion/service.py.
use secure_portfolio_copilot.Base.{
  Bool, Eq, List, List-eq, Option, Option-eq, String, String-eq, [], contains, enum_eq,
  if◌then◌else◌, is_some, none, not, some, ℕ, ℕ-eq, ◌&&◌, ◌==◌, ◌∷◌,
}

-- models/documents.py
pub data IngestionStatus : Type 0 where
  uploaded validating parsing preview_ready approved rejected : IngestionStatus
  validation_failed parsing_failed deleted : IngestionStatus

unfoldable pub IngestionStatus-discrete : Discrete IngestionStatus
IngestionStatus-discrete = hlevel

instance abbrev pub IngestionStatus-eq : Eq IngestionStatus
IngestionStatus-eq = enum_eq IngestionStatus-discrete

-- `_ALLOWED_TRANSITIONS`
abbrev pub allowed_targets : IngestionStatus → List IngestionStatus
allowed_targets uploaded = validating ∷ deleted ∷ []
allowed_targets validating = parsing ∷ validation_failed ∷ deleted ∷ []
allowed_targets parsing = preview_ready ∷ parsing_failed ∷ deleted ∷ []
allowed_targets preview_ready = approved ∷ rejected ∷ deleted ∷ []
allowed_targets approved = deleted ∷ []
allowed_targets rejected = deleted ∷ []
allowed_targets validation_failed = deleted ∷ []
allowed_targets parsing_failed = deleted ∷ []
allowed_targets deleted = []

-- `transition_allowed`; `validate_transition` raises where it is false
unfoldable pub transition_allowed : IngestionStatus → IngestionStatus → Bool
transition_allowed current target = contains (allowed_targets current) target

-- The columns of a job, and the status of its document version.
pub record IngestionRow : Type 0 where
  pub version_status : IngestionStatus
  pub job_status : IngestionStatus
  pub safe_error_code : Option String
  pub started_at : Option ℕ
  pub completed_at : Option ℕ

abbrev pub completing : List IngestionStatus
completing = preview_ready ∷ approved ∷ rejected ∷ validation_failed ∷ parsing_failed ∷ deleted ∷ []

-- `_transition`; `none` is `InvalidIngestionTransition`
unfoldable pub transition : IngestionRow → IngestionStatus → Option String → ℕ → Option IngestionRow
unfolding transition_allowed
transition row target safe_error_code now =
    if not (transition_allowed row.version_status target)
    then none
    else if not (transition_allowed row.job_status target)
    then none
    else some (record {
      version_status = target;
      job_status = target;
      safe_error_code = safe_error_code;
      started_at =
          if not (is_some row.started_at) && (target == validating)
          then some now
          else row.started_at;
      completed_at = if contains completing target then some now else row.completed_at;
    })
