-- ===== src/Grounding/Tests.antt =====
-- A draft with two claims over two items of evidence, and the theorems at it.
use secure_portfolio_copilot.Base.{
  List, List-eq, Option-eq, String-eq, [], none, refl, some, ℕ-eq, ◌∷◌, ◌≡◌, ◌≢◌,
}
use secure_portfolio_copilot.Text.{codes, collapse}
use secure_portfolio_copilot.Grounding.{
  reconstruction_incomplete, GroundedEvidence, GroundedAnswerDraft, ValidatedAnswer, supported,
  DraftStatus-discrete, citation, validate_grounded_answer, passed, rejected, unknown_evidence,
}
use secure_portfolio_copilot.Grounding.Citations.{
  IsGrounded, validate-IsGrounded, validate_complete,
}

abbrev item : GroundedEvidence
item = record {
  evidence_id = "ev_1";
  chunk_id = 1;
  document_id = 2;
  document_version_id = 3;
  version_number = 1;
  document_title = "P&L";
  excerpt = "Revenue 120";
  page_number = some 4;
  sheet_name = none;
  row_start = none;
  row_end = none;
  cell_start = none;
  cell_end = none;
}

abbrev other : GroundedEvidence
other = record item { evidence_id = "ev_2"; chunk_id = 9 }

abbrev evidence : List GroundedEvidence
evidence = item ∷ other ∷ []

abbrev draft : GroundedAnswerDraft
draft = record {
  status = supported;
  claims = record { text = codes " Revenue  was 120 "; evidence_ids = "ev_2" ∷ "ev_2" ∷ [] } ∷ [];
  limitations = codes "  " ∷ codes " one  year" ∷ [];
}

abbrev answer : ValidatedAnswer
answer = record {
  claims = record { text = codes "Revenue was 120"; citation_ids = "ev_2" ∷ [] } ∷ [];
  citations = citation other ∷ [];
  limitations = codes "one year" ∷ [];
}

draft_passes : validate_grounded_answer draft evidence ≡ passed answer
unfolding validate_grounded_answer DraftStatus-discrete collapse
draft_passes = refl

unknown_id : validate_grounded_answer draft (item ∷ []) ≡ rejected unknown_evidence
unfolding validate_grounded_answer DraftStatus-discrete collapse
unknown_id = refl

validate-IsGrounded_example : IsGrounded evidence answer
validate-IsGrounded_example = validate-IsGrounded draft evidence answer draft_passes

validate_complete_example :
    validate_grounded_answer draft evidence ≢ rejected reconstruction_incomplete
validate_complete_example = validate_complete draft evidence
