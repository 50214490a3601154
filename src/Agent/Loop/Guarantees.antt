-- ===== src/Agent/Loop/Guarantees.antt =====
-- agent/loop.py: the guarantees of `AgentLoop.run`, whatever the models, the gateway and the clock
-- answer.
use secure_portfolio_copilot.Base.{
  All, List, List-eq, Option, Option-eq, String, String-eq, [], arith, filter, inl, inr, length,
  none, refl, some, ℕ-eq, ◌+◌, ◌∷◌, ◌≡◌, ◌≤◌,
}
use secure_portfolio_copilot.Agent.Models.{Action}
use secure_portfolio_copilot.Agent.Loop.Types.{ReconstructedStep, guided}
use secure_portfolio_copilot.Agent.Loop.Environment.{Environment}
use secure_portfolio_copilot.Agent.Loop.State.{Request, LoopState, Exit}
use secure_portfolio_copilot.Agent.Loop.Act.{must_pause}
use secure_portfolio_copilot.Agent.Loop.Run.{run}
use secure_portfolio_copilot.Agent.Loop.Sound.{Clear, Fine, needs_approval, fingerprints, ledger}
use secure_portfolio_copilot.Agent.Loop.Total.{run-Closed, timed}
use secure_portfolio_copilot.Agent.PlanState.Invariant.{Distinct}

-- Every run comes to an end, and where it ends it has made at most `max_steps` steps and at most
-- `max_steps` calls of the gateway, at most one search more than the rewrites allow, and at most
-- one replan more than the limit, the one that ends it.
pub run_bounded :
    (env : Environment) (request : Request) (approved : Option String)
    (reconstructed : List ReconstructedStep)
    → (r : Exit × LoopState) × (run env request approved reconstructed ≡ some r)
      × (r.1.step_count ≤ request.limits.max_steps)
      × (length r.1.calls ≤ request.limits.max_steps)
      × (r.1.retrieval_count ≤ 1 + request.limits.max_retrieval_rewrites)
      × (r.1.replan_count ≤ 1 + request.limits.max_replans)
run_bounded env request approved reconstructed =
    let (r, e, (sound, _)) = run-Closed env request approved reconstructed in
    (r, e, sound.steps, sound.called, sound.retrievals, sound.replans)

-- Every run ends, and every call that it has made of the gateway is a tool call of a permitted
-- tool, which either needs no approval in the control mode or has the approved hash.
pub run-Clear :
    (env : Environment) (request : Request) (approved : Option String)
    (reconstructed : List ReconstructedStep)
    → (r : Exit × LoopState) × (run env request approved reconstructed ≡ some r)
      × All (Clear env (timed env request) approved) r.1.calls
run-Clear env request approved reconstructed =
    let (r, e, (sound, _)) = run-Closed env request approved reconstructed in (r, e, sound.cleared)

-- Every run ends; of the calls that it has made at most one needed an approval, and no two have
-- the same fingerprint.
pub run_single_approval :
    (env : Environment) (request : Request) (approved : Option String)
    (reconstructed : List ReconstructedStep)
    → (r : Exit × LoopState) × (run env request approved reconstructed ≡ some r)
      × (length (filter (needs_approval env (timed env request)) r.1.calls) ≤ 1)
      × Distinct (fingerprints env (timed env request) r.1.calls)
run_single_approval env request approved reconstructed =
    let (r, e, (sound, _)) = run-Closed env request approved reconstructed in
    (r, e, omega (arith, sound.single), sound.distinct)

-- Every run ends, never by an error of the plan state. Where it returns an outcome, the outcome
-- has claims, citations or calculations only if its status is completed, each of its citations is
-- rebuilt from an item of evidence that a step of this run has observed, and it reports the counts
-- of steps and replans. Where it asks for an approval, none is held, the action calls a tool that
-- is classified as needing one or the mode is guided, the risk class and the hash that are asked
-- about are those of the tool and the action, and the remaining and the used steps add up to the
-- limit.
pub run-Fine :
    (env : Environment) (request : Request) (approved : Option String)
    (reconstructed : List ReconstructedStep)
    → (r : Exit × LoopState) × (run env request approved reconstructed ≡ some r)
      × Fine env (timed env request) (ledger r.1) r.0
run-Fine env request approved reconstructed =
    let (r, e, (_, fine)) = run-Closed env request approved reconstructed in (r, e, fine)

guided-needs :
    (env : Environment) (request : Request) (a : Action)
    → request.agent_control_mode ≡ guided
    → Clear env request none a
    → ⊥
unfolding must_pause
guided-needs env request a mode clear = elim clear.consented [
  | inl e ↦ let (name, named, _) = clear.permitted in ground (arith, named, mode)
  | inr e ↦ cc
]

no_calls :
    (env : Environment) (request : Request) (calls : List Action)
    → request.agent_control_mode ≡ guided
    → All (Clear env request none) calls
    → calls ≡ []
no_calls env request [] mode h = refl
no_calls env request (a ∷ calls) mode h = absurd (guided-needs env request a mode h.0)

-- In guided mode a run without an approved hash ends, and has called the gateway not once.
pub guided_pauses :
    (env : Environment) (request : Request) (reconstructed : List ReconstructedStep)
    → request.agent_control_mode ≡ guided
    → (r : Exit × LoopState) × (run env request none reconstructed ≡ some r) × (r.1.calls ≡ [])
guided_pauses env request reconstructed mode =
    let (r, e, (sound, _)) = run-Closed env request none reconstructed in
    (r, e, no_calls env (timed env request) r.1.calls mode sound.cleared)
