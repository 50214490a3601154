-- ===== src/Grounding.antt =====
-- backend/app/chat/service.py and chat/contracts.py: a provider's draft answer is checked against
-- the evidence that it was given, and its citations are rebuilt from that evidence.
mod Sets
pub mod Citations
mod Tests
use secure_portfolio_copilot.Base.{
  Bool, Eq, List, List-eq, Option, Option-eq, String, String-eq, [], all, any, contains, enum_eq,
  false, filter, if◌then◌else◌, inl, inr, is_empty, length, ltb, map, not, refl, suc, zero, ℕ, ℕ-eq,
  ◌&&◌, ◌==◌, ◌||◌, ◌∷◌, ◌≡◌, ◌⊎◌,
}
use secure_portfolio_copilot.Text.{Text, collapse}

-- chat/contracts.py
pub record GroundedEvidence : Type 0 where
  pub evidence_id : String
  pub chunk_id : ℕ
  pub document_id : ℕ
  pub document_version_id : ℕ
  pub version_number : ℕ
  pub document_title : String
  pub excerpt : String
  pub page_number : Option ℕ
  pub sheet_name : Option String
  pub row_start : Option ℕ
  pub row_end : Option ℕ
  pub cell_start : Option String
  pub cell_end : Option String

pub record GroundedClaimDraft : Type 0 where
  pub text : Text
  pub evidence_ids : List String

pub data DraftStatus : Type 0 where
  supported insufficient_evidence : DraftStatus

unfoldable pub DraftStatus-discrete : Discrete DraftStatus
DraftStatus-discrete = hlevel

instance abbrev pub DraftStatus-eq : Eq DraftStatus
DraftStatus-eq = enum_eq DraftStatus-discrete

pub record GroundedAnswerDraft : Type 0 where
  pub status : DraftStatus
  pub claims : List GroundedClaimDraft
  pub limitations : List Text

-- schemas/chat.py
pub record GroundedClaimData : Type 0 where
  pub text : Text
  pub citation_ids : List String

pub record GroundedCitationData : Type 0 where
  pub citation_id : String
  pub document_id : ℕ
  pub document_version_id : ℕ
  pub chunk_id : ℕ
  pub document_title : String
  pub version_number : ℕ
  pub excerpt : String
  pub page_number : Option ℕ
  pub sheet_name : Option String
  pub row_start : Option ℕ
  pub row_end : Option ℕ
  pub cell_start : Option String
  pub cell_end : Option String

pub record ValidatedAnswer : Type 0 where
  pub claims : List GroundedClaimData
  pub citations : List GroundedCitationData
  pub limitations : List Text

pub data GroundingCode : Type 0 where
  provider_unsupported evidence_ids_duplicate claim_invalid : GroundingCode
  unknown_evidence reconstruction_incomplete : GroundingCode

-- `rejected` is a raised `GroundingValidationError`.
pub data Checked {ℓ} (A : Type ℓ) : Type ℓ where
  rejected : GroundingCode → Checked A
  passed : A → Checked A

pub Checked-cases {ℓ} :
    {A : Type ℓ} (c : Checked A)
    → ((code : GroundingCode) × (c ≡ rejected code)) ⊎ ((a : A) × (c ≡ passed a))
Checked-cases (rejected code) = inl (code, refl)
Checked-cases (passed a) = inr (a, refl)

abbrev pub citation : GroundedEvidence → GroundedCitationData
citation item = record {
  citation_id = item.evidence_id;
  document_id = item.document_id;
  document_version_id = item.document_version_id;
  chunk_id = item.chunk_id;
  document_title = item.document_title;
  version_number = item.version_number;
  excerpt = item.excerpt;
  page_number = item.page_number;
  sheet_name = item.sheet_name;
  row_start = item.row_start;
  row_end = item.row_end;
  cell_start = item.cell_start;
  cell_end = item.cell_end;
}

abbrev pub evidence_ids : List GroundedEvidence → List String
evidence_ids = map (λ item. item.evidence_id)

-- `dict.fromkeys(ids)`: the first of each, in order; `seen` are those before
pub from_keys : List String → List String → List String
from_keys seen [] = []
from_keys seen (id ∷ ids) =
    let again = from_keys seen ids in
    let fresh = from_keys (id ∷ seen) ids in if contains seen id then again else id ∷ fresh

-- `len(by_id) != len(evidence)`
pub has_duplicates : List String → Bool
has_duplicates [] = false
has_duplicates (id ∷ ids) = contains ids id || has_duplicates ids

-- `referenced.update(ids)`
pub update : List String → List String → List String
update referenced [] = referenced
update referenced (id ∷ ids) =
    update (if contains referenced id then referenced else id ∷ referenced) ids

-- one claim of the loop
pub check_claim : List String → GroundedClaimDraft → Checked GroundedClaimData
unfolding from_keys
check_claim known draft_claim =
    let text = collapse draft_claim.text in
    let citation_ids = from_keys [] draft_claim.evidence_ids in
    if is_empty text || (ltb 500 (length text) || is_empty citation_ids)
    then rejected claim_invalid
    else if any (λ id. not (contains known id)) citation_ids
    then rejected unknown_evidence
    else passed (record { text = text; citation_ids = citation_ids })

abbrev pub add_claim :
    GroundedClaimData
    → Checked (List GroundedClaimData × List String)
    → Checked (List GroundedClaimData × List String)
add_claim claim (rejected code) = rejected code
add_claim claim (passed (claims, referenced)) = passed (claim ∷ claims, referenced)

-- the loop over the claims, with the ids referenced so far
pub check_claims :
    List String
    → List String
    → List GroundedClaimDraft
    → Checked (List GroundedClaimData × List String)
unfolding update
check_claims known referenced [] = passed ([], referenced)
check_claims known referenced (draft ∷ drafts) = elim (check_claim known draft) [
  | rejected code ↦ rejected code
  | passed claim ↦
      add_claim claim (check_claims known (update referenced claim.citation_ids) drafts)
]

abbrev pub take_limit {ℓ} : {A : Type ℓ} → ℕ → List A → List A
take_limit zero xs = []
take_limit (suc n) [] = []
take_limit (suc n) (x ∷ xs) = x ∷ take_limit n xs

-- the normalised limitations that are not empty
pub check_limitations : List Text → List Text
check_limitations limitations =
    filter (λ (text : Text). not (is_empty text))
      (map (λ (text : Text). take_limit 300 (collapse text)) (take_limit 5 limitations))

-- whether two sets of ids, as lists, have the same members
pub same_set : List String → List String → Bool
same_set xs ys = all (contains ys) xs && all (contains xs) ys

-- the answer that is rebuilt for the referenced ids
abbrev pub rebuilt :
    List GroundedEvidence → List Text → List GroundedClaimData → List String → ValidatedAnswer
rebuilt evidence limitations claims referenced = record {
  claims = claims;
  citations =
      map citation
        (filter (λ (item : GroundedEvidence). contains referenced item.evidence_id) evidence);
  limitations = check_limitations limitations;
}

-- from the claims on
abbrev pub rebuild :
    List GroundedEvidence
    → List Text
    → Checked (List GroundedClaimData × List String)
    → Checked ValidatedAnswer
rebuild evidence limitations (rejected code) = rejected code
rebuild evidence limitations (passed (claims, referenced)) =
    let answer = rebuilt evidence limitations claims referenced in
    if not (same_set (map (λ c. c.citation_id) answer.citations) referenced)
    then rejected reconstruction_incomplete
    else passed answer

unfoldable pub validate_grounded_answer :
    GroundedAnswerDraft → List GroundedEvidence → Checked ValidatedAnswer
unfolding check_claim check_claims check_limitations has_duplicates same_set
validate_grounded_answer draft evidence =
    if not (draft.status == supported) || is_empty draft.claims
    then rejected provider_unsupported
    else if has_duplicates (evidence_ids evidence)
    then rejected evidence_ids_duplicate
    else rebuild evidence draft.limitations (check_claims (evidence_ids evidence) [] draft.claims)
