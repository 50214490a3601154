-- ===== src/Approval/Changes.antt =====
-- agent/approval_service.py and agent/service.py: what every request keeps of a run, and how a
-- database evolves.
use secure_portfolio_copilot.Base.{
  All, Bool-cases, List-eq, Option, Option-eq, String, String-eq, [], ap, arith, false, inl, inr,
  nat_eq_iff, none, refl, some, sym, true, ℕ, ℕ-eq, ◌++◌, ◌==◌, ◌∙◌, ◌∷◌, ◌≡◌,
}
use secure_portfolio_copilot.Approval.Rows.{
  put_approval, approval_of, AgentApprovalRequest, put_run, RunRow, Database,
}
use secure_portfolio_copilot.Approval.Ledger.{
  pending_count-put, Stamped-put, pending_count-append, DistinctIds-put, All-append,
  DistinctIds-append, approval_of-put_other, approval_of-append, pending_count, is_pending, Stamped,
  DistinctIds,
}
use secure_portfolio_copilot.Lifecycle.Histories.{
  same, later, History-Timed, transition_run-eq-some, Timed,
}
use secure_portfolio_copilot.Lifecycle.RunState.{transition_run, AgentRun, AgentRunStatus}

-- the number of approvals that a run in a status waits for
abbrev pub waiting : AgentRunStatus → ℕ
waiting AgentRunStatus.awaiting_approval = 1
waiting _ = 0

-- A run awaits an approval exactly if one of its approvals is pending, and then one only; times
-- agree with statuses, and no two approvals have the same id.
pub record SoundRun (run : RunRow) : Type 0 where
  pub distinct : DistinctIds run.approval_requests
  pub stamped : All Stamped run.approval_requests
  pub matched : pending_count run.approval_requests ≡ waiting run.lifecycle.status
  pub timed : Timed run.lifecycle

-- What is kept from a run to the same run later: what is resolved, and being sound.
pub record Change (run next : RunRow) : Type 0 where
  pub same_id : next.id ≡ run.id
  pub kept :
      (id : ℕ) (a : AgentApprovalRequest)
      → approval_of id run.approval_requests ≡ some a
      → is_pending a ≡ false
      → approval_of id next.approval_requests ≡ some a
  pub sound : SoundRun run → SoundRun next

pub Change-refl : (run : RunRow) → Change run run
Change-refl run = record { same_id = refl; kept = λ id a h k. h; sound = λ s. s }

pub Change-trans : (a b c : RunRow) → Change a b → Change b c → Change a c
Change-trans a b c f g = record {
  same_id = g.same_id ∙ f.same_id;
  kept = λ id x h k. g.kept id x (f.kept id x h k) k;
  sound = λ s. g.sound (f.sound s);
}

-- A transition, by its effect.
pub transition_run-moves :
    (run next : AgentRun) (target : AgentRunStatus) (reason : String) (now : ℕ)
    → transition_run run target reason now ≡ some next
    → (next.status ≡ target) × (Timed run → Timed next)
transition_run-moves run next target reason now h =
    let (_, e) = transition_run-eq-some run next target reason now h in
    (
      ap (λ (r : AgentRun). r.status) e,
      λ timed. History-Timed timed (later target reason now same h),
    )

module _ (run next : RunRow) (same_id : next.id ≡ run.id) where
  -- An approval that is pending is resolved, and its run goes on or ends.
  pub resolve-Change :
      (a row : AgentApprovalRequest)
      → approval_of row.id run.approval_requests ≡ some a
      → is_pending a ≡ true
      → is_pending row ≡ false
      → Stamped row
      → next.approval_requests ≡ put_approval row run.approval_requests
      → waiting run.lifecycle.status ≡ 1
      → waiting next.lifecycle.status ≡ 0
      → (Timed run.lifecycle → Timed next.lifecycle)
      → Change run next
  resolve-Change a row found was now stamp put before after timed = record {
    same_id = same_id;
    kept = λ id b h k. rw put (elim (Bool-cases (row.id == id)) [
      | inl e ↦
          let ids : row.id ≡ id = ground (arith, nat_eq_iff row.id id) in
          absurd (ground (arith, ids))
      | inr e ↦ approval_of-put_other row id run.approval_requests e ∙ h
    ]);
    sound = λ s. record {
      distinct = rw put (DistinctIds-put row run.approval_requests s.distinct);
      stamped = rw put (Stamped-put row run.approval_requests stamp s.stamped);
      matched = rw put (
          omega (
            arith,
            s.matched,
            before,
            after,
            pending_count-put row a run.approval_requests found was now,
          ));
      timed = timed s.timed;
    };
  }

  -- The run moves, with its approvals as they are.
  pub move-Change :
      next.approval_requests ≡ run.approval_requests
      → waiting next.lifecycle.status ≡ waiting run.lifecycle.status
      → (Timed run.lifecycle → Timed next.lifecycle)
      → Change run next
  move-Change unchanged after timed = record {
    same_id = same_id;
    kept = λ id b h k. rw unchanged h;
    sound = λ s. record {
      distinct = rw unchanged s.distinct;
      stamped = rw unchanged s.stamped;
      matched = rw unchanged (s.matched ∙ sym after);
      timed = timed s.timed;
    };
  }

  -- The run pauses for a new approval.
  pub pause-Change :
      (a : AgentApprovalRequest)
      → next.approval_requests ≡ run.approval_requests ++ a ∷ []
      → approval_of a.id run.approval_requests ≡ none
      → is_pending a ≡ true
      → Stamped a
      → waiting run.lifecycle.status ≡ 0
      → waiting next.lifecycle.status ≡ 1
      → (Timed run.lifecycle → Timed next.lifecycle)
      → Change run next
  pause-Change a added new now stamp before after timed = record {
    same_id = same_id;
    kept = λ id b h k. rw added (approval_of-append id b a run.approval_requests h);
    sound = λ s. record {
      distinct = rw added (DistinctIds-append run.approval_requests a new s.distinct);
      stamped = rw added (All-append Stamped run.approval_requests a s.stamped stamp);
      matched = rw added (
          omega
            (arith, s.matched, before, after, pending_count-append run.approval_requests a now));
      timed = timed s.timed;
    };
  }

-- A table, row by row.
abbrev pub GoodRow : ℕ → Option RunRow → Type 0
GoodRow id none = Unit
GoodRow id (some run) = (run.id ≡ id) × SoundRun run

abbrev pub NextRow : ℕ → Option RunRow → Option RunRow → Type 0
NextRow id none none = Unit
NextRow id none (some next) = (next.id ≡ id) × SoundRun next
NextRow id (some run) none = ⊥
NextRow id (some run) (some next) = Change run next

-- Every run of the database has the id under which it is stored, and is sound.
abbrev pub SoundDatabase : Database → Type 0
SoundDatabase db = (id : ℕ) → GoodRow id (db.runs id)

abbrev pub Evolves : Database → Database → Type 0
Evolves db next = (id : ℕ) → NextRow id (db.runs id) (next.runs id)

NextRow-refl : (id : ℕ) (row : Option RunRow) → NextRow id row row
NextRow-refl id none = tt
NextRow-refl id (some run) = Change-refl run

NextRow-trans : (id : ℕ) (a b c : Option RunRow) → NextRow id a b → NextRow id b c → NextRow id a c
NextRow-trans id none none c f g = g
NextRow-trans id none (some b) none f g = absurd g
NextRow-trans id none (some b) (some c) (e, s) g = (g.same_id ∙ e, g.sound s)
NextRow-trans id (some a) none c f g = absurd f
NextRow-trans id (some a) (some b) none f g = absurd g
NextRow-trans id (some a) (some b) (some c) f g = Change-trans a b c f g

NextRow-GoodRow : (id : ℕ) (a b : Option RunRow) → NextRow id a b → GoodRow id a → GoodRow id b
NextRow-GoodRow id a none f g = tt
NextRow-GoodRow id none (some b) f g = f
NextRow-GoodRow id (some a) (some b) f (e, s) = (f.same_id ∙ e, f.sound s)

pub Evolves-refl : (db : Database) → Evolves db db
Evolves-refl db id = NextRow-refl id (db.runs id)

pub Evolves-trans : (a b c : Database) → Evolves a b → Evolves b c → Evolves a c
Evolves-trans a b c f g id = NextRow-trans id (a.runs id) (b.runs id) (c.runs id) (f id) (g id)

pub Evolves-Sound : (a b : Database) → Evolves a b → SoundDatabase a → SoundDatabase b
Evolves-Sound a b f s id = NextRow-GoodRow id (a.runs id) (b.runs id) (f id) (s id)

-- A run that is there is written back.
pub put_run-Evolves :
    (db : Database) (run next : RunRow)
    → db.runs run.id ≡ some run
    → Change run next
    → Evolves db (put_run next db)
put_run-Evolves db run next here change id = elim (Bool-cases (id == next.id)) [
  | inl e ↦
      let ids : id ≡ run.id = ground (arith, nat_eq_iff id next.id, change.same_id) in
      rw e (rw ids (rw here change))
  | inr e ↦ rw e (NextRow-refl id (db.runs id))
]

-- A new run is added.
pub put_new-Evolves :
    (db : Database) (next : RunRow)
    → db.runs next.id ≡ none
    → SoundRun next
    → Evolves db (put_run next db)
put_new-Evolves db next free sound id = elim (Bool-cases (id == next.id)) [
  | inl e ↦
      let ids : id ≡ next.id = ground (arith, nat_eq_iff id next.id) in
      rw e (rw ids (rw free (refl, sound)))
  | inr e ↦ rw e (NextRow-refl id (db.runs id))
]
