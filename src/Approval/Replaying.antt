-- ===== src/Approval/Replaying.antt =====
-- agent/approval_service.py: `_reconstruct_completed_steps`, as a relation between stored and
-- replayed steps.
use secure_portfolio_copilot.Base.{
  Bool-cases, List, List-eq, Option, Option-cases, Option-eq, String, String-eq, [], ap, arith,
  enum_beq_iff, false, inl, inr, none, refl, some, subst, sym, ℕ, ℕ-eq, ◌==◌, ◌∙◌, ◌∷◌, ◌≡◌,
}
use secure_portfolio_copilot.Approval.Rows.{AgentObservationRecord, AgentStep}
use secure_portfolio_copilot.Approval.Service.{
  reconstruct_step, reconstruct_completed_steps, cited_excerpt, reread, Services,
}
use secure_portfolio_copilot.Policy.{AuthorizationScope}
use secure_portfolio_copilot.Grounding.{GroundedEvidence}
use secure_portfolio_copilot.Agent.Loop.Types.{
  ObservationStatus-eq, ObservationStatus-discrete, ObservationStatus, ReconstructedStep,
}
use secure_portfolio_copilot.Text.{starts_with, codes}

-- The stored references of an observation, read again one by one, give this evidence, each under
-- the citation that it had.
abbrev pub Reads :
    Services → AuthorizationScope → List ℕ → List ℕ → List String → List GroundedEvidence → Type 0
Reads services scope [] [] [] [] = Unit
Reads services scope (document ∷ documents) (chunk ∷ chunks) (cited ∷ citations) (e ∷ evidence) =
    ((item : GroundedEvidence) × (services.excerpt scope document chunk ≡ some (item ∷ []))
      × (e ≡ record item { evidence_id = cited }))
    × Reads services scope documents chunks citations evidence
Reads services scope _ _ _ _ = ⊥

-- A stored step and what is replayed of it: a success, not of a calculation, with its evidence.
pub record Replays (services : Services) (scope : AuthorizationScope) (step : AgentStep)
    (replayed : ReconstructedStep) : Type 0 where
  pub row : AgentObservationRecord
  pub observed : step.observation ≡ some row
  pub succeeded : row.status ≡ ObservationStatus.success
  pub no_calculation : starts_with (codes "portfolio.calculate_") (codes step.tool_name) ≡ false
  pub evidence : List GroundedEvidence
  pub reads :
      Reads services scope row.authorized_document_ids row.authorized_chunk_ids row.citation_ids
        evidence
  pub same : replayed ≡ record {
    action_hash = step.action_argument_hash;
    observation = record {
      tool_name = step.tool_name;
      status = ObservationStatus.success;
      evidence = evidence;
      calculations = [];
      memory_context = [];
      memory_notification = none;
      duration_ms = row.duration_ms;
      retry_count = row.retry_count;
      reason_code = row.safe_reason_code;
    };
  }

-- Every stored step is replayed, in order.
abbrev pub ReplaysAll :
    Services → AuthorizationScope → List AgentStep → List ReconstructedStep → Type 0
ReplaysAll services scope [] [] = Unit
ReplaysAll services scope (step ∷ steps) (r ∷ replayed) =
    Replays services scope step r × ReplaysAll services scope steps replayed
ReplaysAll services scope _ _ = ⊥

module _ (services : Services) (scope : AuthorizationScope) where
  cited-reads :
      (cited : String) (answer : Option (List GroundedEvidence)) (e : GroundedEvidence)
      → cited_excerpt cited answer ≡ some e
      → (item : GroundedEvidence) × (answer ≡ some (item ∷ []))
        × (e ≡ record item { evidence_id = cited })
  cited-reads cited none e h = absurd (cc h)
  cited-reads cited (some []) e h = absurd (cc h)
  cited-reads cited (some (item ∷ [])) e h = (item, refl, ground arith)
  cited-reads cited (some (item ∷ other ∷ items)) e h = absurd (cc h)

  reread-Reads :
      (documents chunks : List ℕ) (citations : List String) (evidence : List GroundedEvidence)
      → reread services scope documents chunks citations ≡ some evidence
      → Reads services scope documents chunks citations evidence
  unfolding reread
  reread-Reads [] [] [] [] h = tt
  reread-Reads [] [] [] (e ∷ evidence) h = cc
  reread-Reads [] [] (t ∷ citations) evidence h = cc
  reread-Reads [] (c ∷ chunks) citations evidence h = cc
  reread-Reads (d ∷ documents) [] citations evidence h = cc
  reread-Reads (d ∷ documents) (c ∷ chunks) [] evidence h = cc
  reread-Reads (d ∷ documents) (c ∷ chunks) (t ∷ citations) evidence h =
      elim (Option-cases (cited_excerpt t (services.excerpt scope d c))) [
        | inl e ↦ absurd (ground (arith, h, e))
        | inr (item, e) ↦ elim (Option-cases (reread services scope documents chunks citations)) [
          | inl f ↦ absurd (ground (arith, h, e, f))
          | inr (items, f) ↦
              let same : item ∷ items ≡ evidence = ground (arith, h, e, f) in
              subst (Reads services scope (d ∷ documents) (c ∷ chunks) (t ∷ citations)) same (
                cited-reads t (services.excerpt scope d c) item e,
                reread-Reads documents chunks citations items f,
              )
        ]
      ]

  Reads-reread :
      (documents chunks : List ℕ) (citations : List String) (evidence : List GroundedEvidence)
      → Reads services scope documents chunks citations evidence
      → reread services scope documents chunks citations ≡ some evidence
  unfolding reread
  Reads-reread [] [] [] [] h = refl
  Reads-reread [] [] [] (e ∷ evidence) h = absurd h
  Reads-reread [] [] (t ∷ citations) evidence h = absurd h
  Reads-reread [] (c ∷ chunks) citations evidence h = absurd h
  Reads-reread (d ∷ documents) [] citations evidence h = absurd h
  Reads-reread (d ∷ documents) (c ∷ chunks) [] evidence h = absurd h
  Reads-reread (d ∷ documents) (c ∷ chunks) (t ∷ citations) [] h = absurd h
  Reads-reread (d ∷ documents) (c ∷ chunks) (t ∷ citations) (e ∷ evidence) ((item, read, same), h) =
      let rest = Reads-reread documents chunks citations evidence h in
      let here : cited_excerpt t (services.excerpt scope d c) ≡ some e =
        ap (cited_excerpt t) read ∙ ap some (sym same) in
      ground (arith, here, rest)

  reconstruct_step-Replays :
      (step : AgentStep) (r : ReconstructedStep)
      → reconstruct_step services scope step step.observation ≡ some r
      → Replays services scope step r
  unfolding reconstruct_step
  reconstruct_step-Replays step r h = elim (Option-cases step.observation) [
    | inl e ↦ absurd (ground (arith, h, e))
    | inr (row, e) ↦ elim (Bool-cases (row.status == ObservationStatus.success)) [
      | inr f ↦ absurd (ground (arith, h, e, f))
      | inl f ↦
          elim (Bool-cases (starts_with (codes "portfolio.calculate_") (codes step.tool_name))) [
            | inl g ↦ absurd (ground (arith, h, e, f, g))
            | inr g ↦
                elim (Option-cases (
                  reread services scope row.authorized_document_ids row.authorized_chunk_ids
                    row.citation_ids)) [
                      | inl k ↦ absurd (ground (arith, h, e, f, g, k))
                      | inr (evidence, k) ↦ record {
                        row = row;
                        observed = e;
                        succeeded =
                            (enum_beq_iff ObservationStatus-discrete row.status
                                ObservationStatus.success).0
                              f;
                        no_calculation = g;
                        evidence = evidence;
                        reads = reread-Reads _ _ _ evidence k;
                        same = ground (arith, h, e, f, g, k);
                      }
                    ]
          ]
    ]
  ]

  Replays-reconstruct_step :
      (step : AgentStep) (r : ReconstructedStep)
      → Replays services scope step r
      → reconstruct_step services scope step step.observation ≡ some r
  unfolding reconstruct_step
  Replays-reconstruct_step step r h =
      let read = Reads-reread _ _ _ h.evidence h.reads in
      let success =
        (enum_beq_iff ObservationStatus-discrete h.row.status ObservationStatus.success).1
          h.succeeded in
      rw (h.observed, success, h.no_calculation, read) (ap some (sym h.same))

  pub reconstruct-ReplaysAll :
      (steps : List AgentStep) (replayed : List ReconstructedStep)
      → reconstruct_completed_steps services scope steps ≡ some replayed
      → ReplaysAll services scope steps replayed
  unfolding reconstruct_completed_steps
  reconstruct-ReplaysAll [] [] h = tt
  reconstruct-ReplaysAll [] (r ∷ replayed) h = cc
  reconstruct-ReplaysAll (step ∷ steps) replayed h =
      elim (Option-cases (reconstruct_step services scope step step.observation)) [
        | inl e ↦ absurd (ground (arith, h, e))
        | inr (this, e) ↦ elim (Option-cases (reconstruct_completed_steps services scope steps)) [
          | inl f ↦ absurd (ground (arith, h, e, f))
          | inr (rest, f) ↦
              let same : this ∷ rest ≡ replayed = ground (arith, h, e, f) in
              subst (ReplaysAll services scope (step ∷ steps)) same
                (reconstruct_step-Replays step this e, reconstruct-ReplaysAll steps rest f)
        ]
      ]

  pub ReplaysAll-reconstruct :
      (steps : List AgentStep) (replayed : List ReconstructedStep)
      → ReplaysAll services scope steps replayed
      → reconstruct_completed_steps services scope steps ≡ some replayed
  unfolding reconstruct_completed_steps
  ReplaysAll-reconstruct [] [] h = refl
  ReplaysAll-reconstruct [] (r ∷ replayed) h = absurd h
  ReplaysAll-reconstruct (step ∷ steps) [] h = absurd h
  ReplaysAll-reconstruct (step ∷ steps) (r ∷ replayed) h =
      let this = Replays-reconstruct_step step r h.0 in
      let rest = ReplaysAll-reconstruct steps replayed h.1 in ground (arith, this, rest)
