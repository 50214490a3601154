-- ===== src/Grounding/Sets.antt =====
-- Lists of ids as sets: what the loops of `validate_grounded_answer` do to membership.
use secure_portfolio_copilot.Base.{
  List, List-eq, Option-eq, String, String-eq, [], all, arith, contains, eq_iff, filter,
  if◌then◌else◌, map, refl, true, ℕ-eq, ◌&&◌, ◌||◌, ◌∷◌, ◌≡◌,
}
use secure_portfolio_copilot.Grounding.{GroundedEvidence, citation, evidence_ids, update, same_set}

abbrev pub Subset : List String → List String → Type 0
Subset xs ys = (x : String) → contains xs x ≡ true → contains ys x ≡ true

pub all-contains : (xs ys : List String) → Subset xs ys → all (contains ys) xs ≡ true
all-contains [] ys h = refl
all-contains (x ∷ xs) ys h =
    ground (arith, h x, eq_iff x x, all-contains xs ys (λ y m. h y (ground arith)))

pub contains-all : (xs ys : List String) → all (contains ys) xs ≡ true → Subset xs ys
contains-all [] ys h x m = cc
contains-all (y ∷ xs) ys h x m = ground (arith, eq_iff y x, contains-all xs ys (ground arith) x)

pub contains-update :
    (xs : List String) (r : List String) (x : String)
    → contains (update r xs) x ≡ (contains r x || contains xs x)
unfolding update
contains-update [] r x = ground arith
contains-update (y ∷ xs) r x =
    ground (arith, contains-update xs (if contains r y then r else y ∷ r) x, eq_iff y x)

pub contains-citations :
    (r : List String) (evidence : List GroundedEvidence) (x : String)
    → contains
        (map
          (λ c. c.citation_id)
          (map citation
            (filter (λ (item : GroundedEvidence). contains r item.evidence_id) evidence)))
        x
      ≡ (contains r x && contains (evidence_ids evidence) x)
contains-citations r [] x = ground arith
contains-citations r (item ∷ evidence) x =
    ground (arith, contains-citations r evidence x, eq_iff item.evidence_id x)

-- Whatever is referenced and known has its citation, so the rebuilt set is the referenced one.
pub same_set-citations :
    (r : List String) (evidence : List GroundedEvidence)
    → Subset r (evidence_ids evidence)
    → same_set
        (map
          (λ c. c.citation_id)
          (map citation
            (filter (λ (item : GroundedEvidence). contains r item.evidence_id) evidence)))
        r
      ≡ true
unfolding same_set
same_set-citations r evidence h =
    let ids =
      map (λ c. c.citation_id)
        (map citation
          (filter (λ (item : GroundedEvidence). contains r item.evidence_id) evidence)) in
    ground (
      arith,
      all-contains ids r (λ x m. ground (arith, contains-citations r evidence x)),
      all-contains r ids (λ x m. ground (arith, contains-citations r evidence x, h x m)),
    )
