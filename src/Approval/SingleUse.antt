-- ===== src/Approval/SingleUse.antt =====
-- agent/approval_service.py: over every sequence of requests an approval is used once at most, and
-- no request touches the run of another user.
use secure_portfolio_copilot.Base.{
  Exists, List, List-eq, Option-eq, String-eq, [], arith, false, inl, inr, nat_eq_iff, refl, some,
  subst, sym, true, ℕ, ℕ-eq, ◌++◌, ◌∷◌, ◌≡◌, ◌⊎◌,
}
use secure_portfolio_copilot.Approval.Service.{
  is_open, raised, api_error, ok, RunnerCall, Services, Reply,
}
use secure_portfolio_copilot.Approval.Rows.{
  put_approval, put_run, approval_of, AgentApprovalRequest, AuthorizationContext,
  ApprovalStatus-discrete, RunRow, Database,
}
use secure_portfolio_copilot.Approval.Commands.{
  changing, stopping, rejecting, settling, submitting, approving, all_resumptions, resumptions,
  perform, resumed_by, Command,
}
use secure_portfolio_copilot.Approval.Changes.{Evolves-Sound, GoodRow, SoundDatabase}
use secure_portfolio_copilot.Approval.Operations.{approve_once}
use secure_portfolio_copilot.Approval.Approving.{approve_once-ok}
use secure_portfolio_copilot.Approval.Consuming.{used, resumed, Guarded-Resumed}
use secure_portfolio_copilot.Approval.Resolving.{approval_of-id}
use secure_portfolio_copilot.Approval.Sequences.{perform-Evolves, kept_row}
use secure_portfolio_copilot.Approval.Ledger.{approval_of-put_same, is_pending}

-- No element occurs twice.
abbrev pub Different : List (ℕ × ℕ) → Type 0
Different [] = Unit
Different (x ∷ xs) = (Exists (λ y. y ≡ x) xs → ⊥) × Different xs

-- The approval of a run, by their ids, is resolved.
abbrev pub Resolved : Database → ℕ × ℕ → Type 0
Resolved db (run_id, approval_id) =
    (run : RunRow) × (a : AgentApprovalRequest) × (db.runs run_id ≡ some run)
    × (approval_of approval_id run.approval_requests ≡ some a)
    × (is_pending a ≡ false)

resumed_by-ok :
    (key k : ℕ × ℕ) (reply : Reply RunnerCall)
    → Exists (λ y. y ≡ k) (resumed_by key reply)
    → (key ≡ k) × ((call : RunnerCall) × (reply ≡ ok call))
resumed_by-ok key k (ok call) (inl e) = (e, (call, refl))
resumed_by-ok key k (ok call) (inr e) = absurd e
resumed_by-ok key k (api_error status code) e = absurd e
resumed_by-ok key k raised e = absurd e

Different-resumed_by : (key : ℕ × ℕ) (reply : Reply RunnerCall) → Different (resumed_by key reply)
Different-resumed_by key (ok call) = (λ e. e, tt)
Different-resumed_by key (api_error status code) = tt
Different-resumed_by key raised = tt

open-unresolved :
    (db : Database) (run_id approval_id : ℕ) (run : RunRow) (a : AgentApprovalRequest)
    → db.runs run_id ≡ some run
    → approval_of approval_id run.approval_requests ≡ some a
    → is_open run a ≡ true
    → Resolved db (run_id, approval_id)
    → ⊥
open-unresolved db run_id approval_id run a here found opened (other, b, at, has, settled) =
    let same_run : other ≡ run = ground (arith, here, at) in
    let has_here =
      subst (λ (r : RunRow). approval_of approval_id r.approval_requests ≡ some b) same_run has in
    let same : b ≡ a = ground (arith, has_here, found) in
    let pending_too : is_pending a ≡ false = subst (λ x. is_pending x ≡ false) same settled in
    ground (arith, opened, pending_too)

module _ (services : Services) where
  -- A request that uses an approval finds it pending, and leaves it resolved.
  approve-uses :
      (context : AuthorizationContext) (run_id approval_id now : ℕ) (db : Database)
      (call : RunnerCall)
      → SoundDatabase db
      → (approve_once services context run_id approval_id now db).0 ≡ ok call
      → (Resolved db (run_id, approval_id) → ⊥)
        × Resolved (approve_once services context run_id approval_id now db).1 (run_id, approval_id)
  unfolding ApprovalStatus-discrete
  approve-uses context run_id approval_id now db call sound h =
      let can = approve_once-ok services context run_id approval_id now db call h in
      let did = Guarded-Resumed services context run_id approval_id now db call can in
      let run = did.guarded.run in
      let a = did.guarded.approval in
      let good : GoodRow run_id (some run) =
        subst (GoodRow run_id) did.guarded.locked.here (sound run_id) in
      let ids = approval_of-id approval_id run.approval_requests a did.guarded.locked.found in
      let next = resumed now context run a did.lifecycle in
      let found : approval_of a.id run.approval_requests ≡ some a =
        subst (λ id. approval_of id run.approval_requests ≡ some a) (sym ids)
          did.guarded.locked.found in
      let stored : (put_run next db).runs run_id ≡ some next =
        ground (arith, good.0, nat_eq_iff run_id next.id) in
      (
        λ resolved.
            open-unresolved db run_id approval_id run a did.guarded.locked.here
              did.guarded.locked.found did.guarded.opened resolved,
        subst (λ (r : Reply RunnerCall × Database). Resolved r.1 (run_id, approval_id))
            (sym did.written)
            (
              next,
              used now context a,
              stored,
              subst
                  (λ id.
                    approval_of id (put_approval (used now context a) run.approval_requests)
                    ≡ some (used now context a))
                  ids (approval_of-put_same (used now context a) a run.approval_requests found),
              refl,
            ),
      )

  perform-Resolved :
      (c : Command) (db : Database) (key : ℕ × ℕ)
      → SoundDatabase db
      → Resolved db key
      → Resolved (perform services c db) key
  perform-Resolved c db (run_id, approval_id) sound (run, a, here, found, settled) =
      let (later, at, kept) =
        kept_row run_id approval_id run a _ _ (perform-Evolves services c db sound run_id) here
          found settled in
      (later, a, at, kept, settled)

  resumptions-uses :
      (c : Command) (db : Database) (k : ℕ × ℕ)
      → SoundDatabase db
      → Exists (λ y. y ≡ k) (resumptions services c db)
      → (Resolved db k → ⊥) × Resolved (perform services c db) k
  unfolding resumptions perform
  resumptions-uses (approving context run_id approval_id now) db k sound e =
      let (same, (call, reply)) = resumed_by-ok (run_id, approval_id) k _ e in
      subst
        (λ key.
          (Resolved db key → ⊥)
          × Resolved (approve_once services context run_id approval_id now db).1 key)
        same (approve-uses context run_id approval_id now db call sound reply)
  resumptions-uses (submitting context s now) db k sound e = absurd e
  resumptions-uses (settling context run_id s) db k sound e = absurd e
  resumptions-uses (rejecting context run_id approval_id now) db k sound e = absurd e
  resumptions-uses (stopping context run_id now) db k sound e = absurd e
  resumptions-uses (changing context run_id approval_id now content) db k sound e = absurd e

  Exists-append :
      (k : ℕ × ℕ) (xs ys : List (ℕ × ℕ))
      → Exists (λ y. y ≡ k) (xs ++ ys)
      → Exists (λ y. y ≡ k) xs ⊎ Exists (λ y. y ≡ k) ys
  Exists-append k [] ys e = inr e
  Exists-append k (x ∷ xs) ys (inl e) = inl (inl e)
  Exists-append k (x ∷ xs) ys (inr e) = elim (Exists-append k xs ys e) [
    | inl f ↦ inl (inr f)
    | inr f ↦ inr f
  ]

  -- What is resolved is not used later.
  later-unused :
      (commands : List Command) (db : Database) (k : ℕ × ℕ)
      → SoundDatabase db
      → Resolved db k
      → Exists (λ y. y ≡ k) (all_resumptions services commands db)
      → ⊥
  unfolding all_resumptions
  later-unused [] db k sound resolved e = e
  later-unused (c ∷ commands) db k sound resolved e =
      elim (Exists-append k (resumptions services c db) _ e) [
        | inl f ↦ (resumptions-uses c db k sound f).0 resolved
        | inr f ↦
            later-unused commands (perform services c db) k
              (Evolves-Sound db (perform services c db) (perform-Evolves services c db sound) sound)
              (perform-Resolved c db k sound resolved) f
      ]

  Different-append :
      (xs ys : List (ℕ × ℕ))
      → Different xs
      → Different ys
      → ((k : ℕ × ℕ) → Exists (λ y. y ≡ k) xs → Exists (λ y. y ≡ k) ys → ⊥)
      → Different (xs ++ ys)
  Different-append [] ys f g apart = g
  Different-append (x ∷ xs) ys (new, f) g apart = (
    λ e. elim (Exists-append x xs ys e) [ inl h ↦ new h | inr h ↦ apart x (inl refl) h ],
    Different-append xs ys f g (λ k h. apart k (inr h)),
  )

  resumptions-Different : (c : Command) (db : Database) → Different (resumptions services c db)
  unfolding resumptions
  resumptions-Different (approving context run_id approval_id now) db =
      Different-resumed_by (run_id, approval_id) _
  resumptions-Different (submitting context s now) db = tt
  resumptions-Different (settling context run_id s) db = tt
  resumptions-Different (rejecting context run_id approval_id now) db = tt
  resumptions-Different (stopping context run_id now) db = tt
  resumptions-Different (changing context run_id approval_id now content) db = tt

  -- Over every sequence of requests to a sound database, whatever their order and whoever sends
  -- them, no approval of a run has an action carried out twice.
  pub single_use :
      (commands : List Command) (db : Database)
      → SoundDatabase db
      → Different (all_resumptions services commands db)
  unfolding all_resumptions
  single_use [] db sound = tt
  single_use (c ∷ commands) db sound =
      let next =
        Evolves-Sound db (perform services c db) (perform-Evolves services c db sound) sound in
      Different-append (resumptions services c db) _ (resumptions-Different c db)
        (single_use commands (perform services c db) next)
        (λ k e f.
          later-unused commands (perform services c db) k next (resumptions-uses c db k sound e).1
            f)
