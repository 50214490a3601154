-- ===== src/Grounding/Citations.antt =====
-- chat/service.py: what a validated answer promises, and which errors can occur.
use secure_portfolio_copilot.Base.{
  All, Bool, Exists, List, List-eq, Option-eq, String, String-eq, [], any, arith, contains, eq_iff,
  false, filter, inl, inr, is_empty, map, not, subst, sym, ℕ-eq, ◌∷◌, ◌≡◌, ◌≢◌,
}
use secure_portfolio_copilot.Grounding.{
  reconstruction_incomplete, rebuilt, Checked-cases, GroundedEvidence, GroundedClaimDraft,
  GroundedAnswerDraft, GroundedClaimData, GroundedCitationData, ValidatedAnswer, Checked, rejected,
  passed, citation, evidence_ids, update, check_claim, add_claim, check_claims, rebuild,
  validate_grounded_answer,
}
use secure_portfolio_copilot.Text.{Text}
use secure_portfolio_copilot.Grounding.Sets.{
  Subset, contains-update, contains-citations, same_set-citations,
}

-- A claim with at least one citation, all of them among the ids.
abbrev pub CitesIn : List String → GroundedClaimData → Type 0
CitesIn ids claim = (is_empty claim.citation_ids ≡ false) × Subset claim.citation_ids ids

any-Subset :
    (known ids : List String) → any (λ id. not (contains known id)) ids ≡ false → Subset ids known
any-Subset known [] h x m = cc
any-Subset known (id ∷ ids) h x m =
    ground (arith, eq_iff id x, any-Subset known ids (ground arith) x)

check_claim-passed :
    (known : List String) (draft : GroundedClaimDraft) (claim : GroundedClaimData)
    → check_claim known draft ≡ passed claim
    → CitesIn known claim
unfolding check_claim
check_claim-passed known draft claim h =
    (ground arith, any-Subset known claim.citation_ids (ground arith))

All-weaken :
    (xs ys : List String) (claims : List GroundedClaimData)
    → Subset xs ys
    → All (CitesIn xs) claims
    → All (CitesIn ys) claims
All-weaken xs ys [] sub h = tt
All-weaken xs ys (claim ∷ claims) sub h =
    ((h.0.0, λ x m. sub x (h.0.1 x m)), All-weaken xs ys claims sub h.1)

-- What the loop over the claims has established when it ends.
record Collected (known start : List String) (claims : List GroundedClaimData)
    (referenced : List String) : Type 0 where
  cited : All (CitesIn referenced) claims
  kept : Subset start referenced
  sourced : Subset start known → Subset referenced known

add_claim-passed :
    (claim : GroundedClaimData) (r : Checked (List GroundedClaimData × List String))
    (claims : List GroundedClaimData) (referenced : List String)
    → add_claim claim r ≡ passed (claims, referenced)
    → (rest : List GroundedClaimData) × (r ≡ passed (rest, referenced)) × (claims ≡ claim ∷ rest)
add_claim-passed claim (rejected code) claims referenced h = cc
add_claim-passed claim (passed (rest, ids)) claims referenced h = (rest, ground arith, ground arith)

-- One more claim before those of the rest of the loop.
Collected-add :
    (known start : List String) (claim : GroundedClaimData) (rest : List GroundedClaimData)
    (referenced : List String)
    → CitesIn known claim
    → Collected known (update start claim.citation_ids) rest referenced
    → Collected known start (claim ∷ rest) referenced
Collected-add known start claim rest referenced own c =
    let ids = claim.citation_ids in
    let begun = update start ids in
    record {
      cited = ((own.0, λ x m. c.kept x (ground (arith, contains-update ids start x))), c.cited);
      kept = λ x m. c.kept x (ground (arith, contains-update ids start x));
      sourced = λ sub. c.sourced λ x m. ground (arith, contains-update ids start x, sub x, own.1 x);
    }

check_claims-Collected :
    (known start : List String) (drafts : List GroundedClaimDraft) (claims : List GroundedClaimData)
    (referenced : List String)
    → check_claims known start drafts ≡ passed (claims, referenced)
    → Collected known start claims referenced
unfolding check_claims
check_claims-Collected known start [] claims referenced h =
    let e : claims ≡ [] = ground arith in
    let same : referenced ≡ start = ground arith in
    record {
      cited = subst (All (CitesIn referenced)) (sym e) tt;
      kept = λ x m. ground arith;
      sourced = λ sub x m. sub x (ground arith);
    }
check_claims-Collected known start (draft ∷ drafts) claims referenced h =
    elim (Checked-cases (check_claim known draft)) [
      | inl (code, e) ↦ absurd (ground arith)
      | inr (claim, e) ↦
          let begun = update start claim.citation_ids in
          let (rest, p, q) =
            add_claim-passed claim (check_claims known begun drafts) claims referenced
              (ground arith) in
          rw q (
            Collected-add known start claim rest referenced (check_claim-passed known draft claim e)
              (check_claims-Collected known begun drafts rest referenced p))
    ]

-- What `validate_grounded_answer` promises of an answer that it passes, given the evidence.
pub record IsGrounded (evidence : List GroundedEvidence) (v : ValidatedAnswer) : Type 0 where
  -- every citation is rebuilt from an item of the evidence
  pub provenance :
      (c : GroundedCitationData)
      → Exists (λ x. x ≡ c) v.citations
      → Exists (λ item. citation item ≡ c) evidence
  -- every claim has citations, all of which are among those rebuilt
  pub supported : All (CitesIn (map (λ c. c.citation_id) v.citations)) v.claims

provenance-filter :
    (p : GroundedEvidence → Bool) (evidence : List GroundedEvidence) (c : GroundedCitationData)
    → Exists (λ x. x ≡ c) (map citation (filter p evidence))
    → Exists (λ item. citation item ≡ c) evidence
provenance-filter p [] c m = m
provenance-filter p (item ∷ evidence) c m = ground (arith, provenance-filter p evidence c)

rebuild-passed :
    (evidence : List GroundedEvidence) (limitations : List Text) (claims : List GroundedClaimData)
    (referenced : List String)
    → Collected (evidence_ids evidence) [] claims referenced
    → rebuild evidence limitations (passed (claims, referenced))
      ≡ passed (rebuilt evidence limitations claims referenced)
rebuild-passed evidence limitations claims referenced c =
    rw (same_set-citations referenced evidence (c.sourced (λ x m. cc)))

rebuilt-IsGrounded :
    (evidence : List GroundedEvidence) (limitations : List Text) (claims : List GroundedClaimData)
    (referenced : List String)
    → Collected (evidence_ids evidence) [] claims referenced
    → IsGrounded evidence (rebuilt evidence limitations claims referenced)
rebuilt-IsGrounded evidence limitations claims referenced c =
    let test = λ (item : GroundedEvidence). contains referenced item.evidence_id in
    let ids = map (λ c. c.citation_id) (map citation (filter test evidence)) in
    record {
      provenance = provenance-filter test evidence;
      supported =
          All-weaken referenced ids claims
            (λ x m.
              ground (arith, contains-citations referenced evidence x, c.sourced (λ y n. cc) x))
            c.cited;
    }

-- An answer that passes is grounded: each of its citations is rebuilt field by field from an item
-- of the evidence, and each of its claims cites at least one of those citations and nothing else.
pub validate-IsGrounded :
    (draft : GroundedAnswerDraft) (evidence : List GroundedEvidence) (v : ValidatedAnswer)
    → validate_grounded_answer draft evidence ≡ passed v
    → IsGrounded evidence v
unfolding validate_grounded_answer
validate-IsGrounded draft evidence v h =
    elim (Checked-cases (check_claims (evidence_ids evidence) [] draft.claims)) [
      | inl (code, e) ↦ absurd (ground arith)
      | inr ((claims, referenced), e) ↦
          let c =
            check_claims-Collected (evidence_ids evidence) [] draft.claims claims referenced e in
          let same : v ≡ rebuilt evidence draft.limitations claims referenced =
            ground (arith, rebuild-passed evidence draft.limitations claims referenced c) in
          rw same (rebuilt-IsGrounded evidence draft.limitations claims referenced c)
    ]

check_claim-code :
    (known : List String) (draft : GroundedClaimDraft)
    → check_claim known draft ≢ rejected reconstruction_incomplete
unfolding check_claim
check_claim-code known draft h = ground arith

check_claims-code :
    (known start : List String) (drafts : List GroundedClaimDraft)
    → check_claims known start drafts ≢ rejected reconstruction_incomplete
unfolding check_claims
check_claims-code known start [] h = cc
check_claims-code known start (draft ∷ drafts) h = elim (Checked-cases (check_claim known draft)) [
  | inl (code, e) ↦ check_claim-code known draft (ground arith)
  | inr (claim, e) ↦
      let begun = update start claim.citation_ids in
      elim (Checked-cases (check_claims known begun drafts)) [
        | inl (code, p) ↦ check_claims-code known begun drafts (ground arith)
        | inr (r, p) ↦ absurd (ground arith)
      ]
]

-- The last check never fails: whatever the claims cite has passed as known evidence, so its
-- citation is rebuilt, and RECONSTRUCTION_INCOMPLETE is never raised.
pub validate_complete :
    (draft : GroundedAnswerDraft) (evidence : List GroundedEvidence)
    → validate_grounded_answer draft evidence ≢ rejected reconstruction_incomplete
unfolding validate_grounded_answer
validate_complete draft evidence h =
    elim (Checked-cases (check_claims (evidence_ids evidence) [] draft.claims)) [
      | inl (code, e) ↦ check_claims-code (evidence_ids evidence) [] draft.claims (ground arith)
      | inr ((claims, referenced), e) ↦
          let c =
            check_claims-Collected (evidence_ids evidence) [] draft.claims claims referenced e in
          absurd (ground (arith, rebuild-passed evidence draft.limitations claims referenced c))
    ]
