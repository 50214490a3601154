-- ===== src/Lifecycle/Pipelines.antt =====
-- ingestion/state_machine.py: what holds along every sequence of transitions of a document.
use secure_portfolio_copilot.Base.{
  Bool, Exists, List-eq, Option, Option-eq, String, String-eq, ap, arith, contains, contains_iff,
  false, if◌then◌else◌, inl, inr, none, not, refl, some, suc, sym, true, ℕ, ℕ-eq, ◌+◌, ◌<◌, ◌∙◌,
  ◌≡◌, ◌≤◌, ◌⊎◌,
}
use secure_portfolio_copilot.Lifecycle.Ingestion.{
  deleted, transition_allowed, allowed_targets, IngestionStatus-eq, transition, IngestionRow,
  IngestionStatus,
}

-- The transitions of a document from one row to a later one, counted.
pub data Pipeline (first : IngestionRow) : ℕ → IngestionRow → Type 0 where
  begun : Pipeline first 0 first
  step :
      {n : ℕ} {row next : IngestionRow} (target : IngestionStatus) (code : Option String) (now : ℕ)
      → Pipeline first n row
      → transition row target code now ≡ some next
      → Pipeline first (suc n) next

guards-passed :
    (b c : Bool) (row next : IngestionRow)
    → (if not b then none else if not c then none else some row) ≡ some next
    → (b ≡ true) × (c ≡ true) × (row ≡ next)
guards-passed true true row next h = (refl, refl, ground (arith, h))
guards-passed true false row next h = cc
guards-passed false c row next h = cc

transition-eq-some :
    (row next : IngestionRow) (target : IngestionStatus) (code : Option String) (now : ℕ)
    → transition row target code now ≡ some next
    → (contains (allowed_targets row.version_status) target ≡ true)
      × (contains (allowed_targets row.job_status) target ≡ true)
      × (next.version_status ≡ target)
      × (next.job_status ≡ target)
unfolding transition transition_allowed
transition-eq-some row next target code now h =
    let (b, c, e) =
      guards-passed (transition_allowed row.version_status target)
        (transition_allowed row.job_status target) _ next h in
    (
      b,
      c,
      sym (ap (λ (r : IngestionRow). r.version_status) e),
      sym (ap (λ (r : IngestionRow). r.job_status) e),
    )

-- How far a document has come.
abbrev pub depth : IngestionStatus → ℕ
depth IngestionStatus.uploaded = 0
depth IngestionStatus.validating = 1
depth IngestionStatus.parsing = 2
depth IngestionStatus.validation_failed = 2
depth IngestionStatus.preview_ready = 3
depth IngestionStatus.parsing_failed = 3
depth IngestionStatus.approved = 4
depth IngestionStatus.rejected = 4
depth IngestionStatus.deleted = 5

depth_max : (s : IngestionStatus) → depth s ≤ 5
depth_max s = ground arith

-- A transition goes one step down, or deletes what is not deleted.
depth_of :
    (s t : IngestionStatus)
    → Exists (λ x. x ≡ t) (allowed_targets s)
    → (depth t ≡ 1 + depth s) ⊎ ((t ≡ deleted) × (depth s < 5))
depth_of IngestionStatus.uploaded t (inl e) = inl (ap depth (sym e))
depth_of IngestionStatus.uploaded t (inr (inl e)) = inr (sym e, omega arith)
depth_of IngestionStatus.validating t (inl e) = inl (ap depth (sym e))
depth_of IngestionStatus.validating t (inr (inl e)) = inl (ap depth (sym e))
depth_of IngestionStatus.validating t (inr (inr (inl e))) = inr (sym e, omega arith)
depth_of IngestionStatus.parsing t (inl e) = inl (ap depth (sym e))
depth_of IngestionStatus.parsing t (inr (inl e)) = inl (ap depth (sym e))
depth_of IngestionStatus.parsing t (inr (inr (inl e))) = inr (sym e, omega arith)
depth_of IngestionStatus.preview_ready t (inl e) = inl (ap depth (sym e))
depth_of IngestionStatus.preview_ready t (inr (inl e)) = inl (ap depth (sym e))
depth_of IngestionStatus.preview_ready t (inr (inr (inl e))) = inr (sym e, omega arith)
depth_of IngestionStatus.approved t (inl e) = inr (sym e, omega arith)
depth_of IngestionStatus.rejected t (inl e) = inr (sym e, omega arith)
depth_of IngestionStatus.validation_failed t (inl e) = inr (sym e, omega arith)
depth_of IngestionStatus.parsing_failed t (inl e) = inr (sym e, omega arith)
depth_of IngestionStatus.uploaded t (inr (inr x)) = elim x [ ]
depth_of IngestionStatus.validating t (inr (inr (inr x))) = elim x [ ]
depth_of IngestionStatus.parsing t (inr (inr (inr x))) = elim x [ ]
depth_of IngestionStatus.preview_ready t (inr (inr (inr x))) = elim x [ ]
depth_of IngestionStatus.approved t (inr x) = elim x [ ]
depth_of IngestionStatus.rejected t (inr x) = elim x [ ]
depth_of IngestionStatus.validation_failed t (inr x) = elim x [ ]
depth_of IngestionStatus.parsing_failed t (inr x) = elim x [ ]
depth_of IngestionStatus.deleted t x = elim x [ ]

transition-depth :
    (row next : IngestionRow) (target : IngestionStatus) (code : Option String) (now : ℕ)
    → transition row target code now ≡ some next
    → (depth next.version_status ≡ 1 + depth row.version_status)
      ⊎ ((next.version_status ≡ deleted) × (depth row.version_status < 5))
transition-depth row next target code now h =
    let (allowed, _, e, _) = transition-eq-some row next target code now h in
    rw e (
      depth_of row.version_status target
        ((contains_iff (allowed_targets row.version_status) target).0 allowed))

-- An ingestion makes at most five transitions, and a document that is not deleted stands exactly
-- as deep as its transitions have brought it.
pub Pipeline-depth :
    {first last : IngestionRow} {n : ℕ}
    → Pipeline first n last
    → (depth first.version_status + n ≤ depth last.version_status)
      × ((last.version_status ≡ deleted)
          ⊎ (depth last.version_status ≡ depth first.version_status + n))
Pipeline-depth begun = (omega arith, inr (omega arith))
Pipeline-depth {first} {last} {n = suc n} (step {row} target code now before h) =
    let (below, exact) = Pipeline-depth before in
    elim (transition-depth row last target code now h) [
      | inl e ↦ (
        omega (arith, e, below),
        elim exact [
          | inl gone ↦ absurd (omega (arith, e, ap depth gone, depth_max last.version_status))
          | inr d ↦ inr (omega (arith, e, d))
        ],
      )
      | inr e ↦ (omega (arith, ap depth e.0, e.1, below), inl e.0)
    ]

Pipeline-together :
    {first last : IngestionRow} {n : ℕ}
    → first.version_status ≡ first.job_status
    → Pipeline first n last
    → last.version_status ≡ last.job_status
Pipeline-together h begun = h
Pipeline-together {first} {last} h (step {row} target code now before e) =
    let (_, _, v, j) = transition-eq-some row last target code now e in v ∙ sym j

-- A document whose version and job start with one status keeps them together. Whatever is
-- accepted, it makes at most five transitions; where it is not deleted, its depth (uploaded 0,
-- validating 1, parsing or validation failed 2, preview ready or parsing failed 3, approved or
-- rejected 4) has grown by one with each, so that no stage is skipped.
pub ingestion_route :
    {first last : IngestionRow} {n : ℕ}
    → first.version_status ≡ first.job_status
    → Pipeline first n last
    → (last.version_status ≡ last.job_status)
      × (n ≤ 5)
      × ((last.version_status ≡ deleted)
          ⊎ (depth last.version_status ≡ depth first.version_status + n))
ingestion_route {first} {last} h p =
    let (below, exact) = Pipeline-depth p in
    (Pipeline-together h p, omega (arith, below, depth_max last.version_status), exact)
