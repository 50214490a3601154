-- ===== src/Memory/Inheritance.antt =====
-- memory/policy.py: a memory is never less restricted than its sources.
use secure_portfolio_copilot.Base.{
  Bool, Bool-cases, Exists, List, List-eq, Option, Option-eq, String-eq, [], all, ap, arith,
  enum_beq_iff, eq_iff, false, if◌then◌else◌, inl, inr, is_empty, none, not, refl, some, subst, sym,
  true, ℕ-eq, ◌&&◌, ◌==◌, ◌↔◌, ◌∙◌, ◌∷◌, ◌≡◌, ◌⊎◌,
}
use secure_portfolio_copilot.Memory.{
  scope_by_department, MemoryScope-discrete, shared_acl, acl_by_department, private_user,
  EffectiveMemoryAcl, derive_memory_acl, MemoryScope, MemoryPolicyError, is_valid, MemoryScope-eq,
  SourceAcl, same_acl,
}

same_acl_iff : (a b : SourceAcl) → (same_acl a b ≡ true) ↔ (a ≡ b)
same_acl_iff a b = (
  λ h.
      let d = (eq_iff a.department b.department).0 (ground (arith, h)) in
      let v = (eq_iff a.visibility b.visibility).0 (ground (arith, h)) in
      let c = (eq_iff a.classification b.classification).0 (ground (arith, h)) in cc (d, v, c),
  λ h. ground (
    arith,
    h,
    eq_iff a.department b.department,
    eq_iff a.visibility b.visibility,
    eq_iff a.classification b.classification,
  ),
)

all_same_iff :
    (acl : SourceAcl) (acls : List SourceAcl)
    → (all (same_acl acl) acls ≡ true) ↔ ((x : SourceAcl) → Exists (λ y. y ≡ x) acls → x ≡ acl)
all_same_iff acl [] = (λ h x m. elim m [ ], λ h. refl)
all_same_iff acl (a ∷ acls) = (
  λ h x m. elim m [
    | inl e ↦ sym e ∙ sym ((same_acl_iff acl a).0 (ground (arith, h)))
    | inr n ↦ (all_same_iff acl acls).0 (ground (arith, h)) x n
  ],
  λ h. ground (
    arith,
    (same_acl_iff acl a).1 (sym (h a (inl refl))),
    (all_same_iff acl acls).1 (λ x m. h x (inr m)),
  ),
)

is_valid_iff : (o : Option SourceAcl) (acl : SourceAcl) → (is_valid o acl ≡ true) ↔ (o ≡ some acl)
is_valid_iff none acl = (λ h. cc, λ h. cc)
is_valid_iff (some e) acl = (
  λ h. ap (λ x. some x) ((same_acl_iff e acl).0 h),
  λ h. (same_acl_iff e acl).1 (ground (arith, h)),
)

-- What a memory with these sources may be: it has the one restriction that all its sources have,
-- which is a known one, and its scope is private or that of the restriction.
pub record Inherits (scope : MemoryScope) (sources : List SourceAcl) (r : EffectiveMemoryAcl)
    : Type 0 where
  pub sourced : (x : SourceAcl) → Exists (λ y. y ≡ x) sources → x ≡ r.source
  pub known : acl_by_department r.source.department ≡ some r.source
  pub scoped : r.scope ≡ scope
  pub narrow :
      (scope ≡ private_user)
      ⊎ ((is_empty sources ≡ false) × (scope ≡ scope_by_department r.source.department))
  pub unsourced : is_empty sources ≡ true → r.source ≡ shared_acl

guards-passed :
    (a b c : Bool) (e₁ e₂ e₃ : MemoryPolicyError) (v r : EffectiveMemoryAcl)
    → (if not a then inl e₁ else if not b then inl e₂ else if c then inl e₃ else inr v) ≡ inr r
    → (a ≡ true) × (b ≡ true) × (c ≡ false) × (v ≡ r)
guards-passed true true false e₁ e₂ e₃ v r h = (refl, refl, refl, ground (arith, h))
guards-passed true true true e₁ e₂ e₃ v r h = cc
guards-passed true false c e₁ e₂ e₃ v r h = cc
guards-passed false b c e₁ e₂ e₃ v r h = cc

scope_cases :
    (scope own : MemoryScope)
    → (not (scope == private_user) && not (scope == own)) ≡ false
    → (scope ≡ private_user) ⊎ (scope ≡ own)
scope_cases scope own h = ground (
  arith,
  h,
  enum_beq_iff MemoryScope-discrete scope private_user,
  enum_beq_iff MemoryScope-discrete scope own,
)

derive-Inherits :
    (scope : MemoryScope) (sources : List SourceAcl) (r : EffectiveMemoryAcl)
    → derive_memory_acl scope sources ≡ inr r
    → Inherits scope sources r
unfolding derive_memory_acl acl_by_department
derive-Inherits scope [] r h = elim (Bool-cases (scope == private_user)) [
  | inr e ↦ absurd (ground (arith, h, e))
  | inl e ↦
      let same : record { scope = scope; source = shared_acl } ≡ r = ground (arith, h, e) in
      subst (Inherits scope []) same (record {
        sourced = λ x m. elim m [ ];
        known = refl;
        scoped = refl;
        narrow = inl ((enum_beq_iff MemoryScope-discrete scope private_user).0 e);
        unsourced = λ _. refl;
      })
]
derive-Inherits scope (acl ∷ acls) r h =
    let own = scope_by_department acl.department in
    let (a, b, c, same) =
      guards-passed (all (same_acl acl) acls) (is_valid (acl_by_department acl.department) acl)
        (not (scope == private_user) && not (scope == own)) _ _ _
        (record { scope = scope; source = acl }) r h in
    subst (Inherits scope (acl ∷ acls)) same (record {
      sourced = λ x m. elim m [ inl e ↦ sym e | inr n ↦ (all_same_iff acl acls).0 a x n ];
      known = (is_valid_iff (acl_by_department acl.department) acl).0 b;
      scoped = refl;
      narrow = elim (scope_cases scope own c) [ inl e ↦ inl e | inr e ↦ inr (refl, e) ];
      unsourced = λ e. cc;
    })

scope_passes :
    (scope own : MemoryScope)
    → (scope ≡ private_user) ⊎ (scope ≡ own)
    → (not (scope == private_user) && not (scope == own)) ≡ false
scope_passes scope own h = ground (
  arith,
  h,
  enum_beq_iff MemoryScope-discrete scope private_user,
  enum_beq_iff MemoryScope-discrete scope own,
)

Inherits-derive :
    (scope : MemoryScope) (sources : List SourceAcl) (r : EffectiveMemoryAcl)
    → Inherits scope sources r
    → derive_memory_acl scope sources ≡ inr r
unfolding derive_memory_acl
Inherits-derive scope [] r i = elim i.narrow [
  | inr n ↦ absurd (cc (n.0))
  | inl e ↦
      let p = (enum_beq_iff MemoryScope-discrete scope private_user).1 e in
      let q : r ≡ record { scope = scope; source = shared_acl } = cc (i.scoped, i.unsourced refl) in
      rw p (ap (λ x. inr x) (sym q))
]
Inherits-derive scope (acl ∷ acls) r i =
    let mine : acl ≡ r.source = i.sourced acl (inl refl) in
    let a = (all_same_iff acl acls).1 (λ x m. i.sourced x (inr m) ∙ sym mine) in
    let b =
      (is_valid_iff (acl_by_department acl.department) acl).1
        (subst (λ s. acl_by_department s.department ≡ some s) (sym mine) i.known) in
    let own : (scope ≡ private_user) ⊎ (scope ≡ scope_by_department acl.department) =
      elim i.narrow [
        | inl e ↦ inl e
        | inr n ↦ inr (n.1 ∙ ap (λ (s : SourceAcl). scope_by_department s.department) (sym mine))
      ] in
    let c = scope_passes scope (scope_by_department acl.department) own in
    let q : r ≡ record { scope = scope; source = acl } = cc (i.scoped, mine) in
    rw a (rw b (rw c (ap (λ x. inr x) (sym q))))

-- A memory access list is derived exactly where it is what the sources allow: every source has the
-- one restriction of the list, which is that of a known department; the scope is the requested
-- one, and is private or, with a source, the scope of that department; and without a source the
-- restriction is the shared one.
pub derive_memory_acl_iff :
    (scope : MemoryScope) (sources : List SourceAcl) (r : EffectiveMemoryAcl)
    → (derive_memory_acl scope sources ≡ inr r) ↔ Inherits scope sources r
derive_memory_acl_iff scope sources r =
    (derive-Inherits scope sources r, Inherits-derive scope sources r)

is_empty-members :
    (xs ys : List SourceAcl)
    → ((x : SourceAcl) → Exists (λ y. y ≡ x) xs ↔ Exists (λ y. y ≡ x) ys)
    → is_empty xs ≡ is_empty ys
is_empty-members [] [] h = refl
is_empty-members [] (y ∷ ys) h = elim ((h y).1 (inl refl)) [ ]
is_empty-members (x ∷ xs) [] h = elim ((h x).0 (inl refl)) [ ]
is_empty-members (x ∷ xs) (y ∷ ys) h = refl

-- The order of the sources and their repetitions do not matter: sources with the same members
-- derive the same access list.
pub derive_memory_acl_members :
    (scope : MemoryScope) (xs ys : List SourceAcl) (r : EffectiveMemoryAcl)
    → ((x : SourceAcl) → Exists (λ y. y ≡ x) xs ↔ Exists (λ y. y ≡ x) ys)
    → derive_memory_acl scope xs ≡ inr r
    → derive_memory_acl scope ys ≡ inr r
derive_memory_acl_members scope xs ys r h d =
    let i = derive-Inherits scope xs r d in
    let e = is_empty-members xs ys h in
    Inherits-derive scope ys r (record {
      sourced = λ x m. i.sourced x ((h x).1 m);
      known = i.known;
      scoped = i.scoped;
      narrow = elim i.narrow [ inl p ↦ inl p | inr p ↦ inr (sym e ∙ p.0, p.1) ];
      unsourced = λ p. i.unsourced (e ∙ p);
    })
