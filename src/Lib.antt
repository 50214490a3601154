-- ===== src/Lib.antt =====
-- secure-portfolio-copilot: a verified model of the core of the backend, backend/app.
--
-- The backend answers questions on portfolio documents. A request is authorised by the policy
-- engine, an agent loop then plans, calls tools through a gateway and observes their results, and
-- an answer leaves the backend only after its citations are validated against what was observed.
--
-- Files and the code they model:
--   Base, Base/Tests, Base/Lists: Boolean tests, lists and options, shared by all.
--   Text: Python's str as a list of code points, with split, join and strip.
--   Policy: policies/engine.py and policies/models.py. `authorize` with its helper filters, its
--     stages in Policy/Stages, an independent description in Policy/Scope and the reason codes in
--     Policy/Reasons.
--   Agent/Models: the actions, plans and decisions of agent/models.py with their validators.
--   Agent/PlanState: agent/plan_state.py. `initial`, `validate_next_action`, `complete_next` and
--     `apply_decision` are functions into a result, whose error is PlanContractError or its
--     subclass PlanExhaustedError. Invariant, History, Progress and Deciding have the theorems.
--   Agent/Loop: agent/loop.py. `AgentLoop.run` is a chain of phases on an explicit state, which
--     is the local variables of `run`: `begin`, then rounds of `choose`, `obtain`,
--     `record_observation`, `conclude` and `reperceive`. A phase hands its value on or exits, by an
--     outcome, a request for approval or an exception. Loop/Sound has the logic of phases that end
--     or go on, and the invariants; Ending, Concluding, Choosing, Acting, Recording and Rounds
--     go through the phases; Total and Guarantees put them together.
--   Grounding: `validate_grounded_answer` of chat/service.py, which the loop applies to the draft
--     of the language model.
--   Gateway: mcp_gateway/gateway.py. `execute`, its guards and its retries, the checks of the
--     constructor and the catalog; the adapters are parameters.
--   Lifecycle: the two state machines of agent/run_state.py and ingestion/state_machine.py and the
--     operations that move the rows, `transition_run` and `IngestionService._transition`.
--   Approval: the runs and approvals in the database. Rows has the tables; Recorder and Persist are
--     agent/history_repository.py; Service and Operations are agent/approval_service.py; Runner and
--     Commands are agent/approval_repository.py and what `AgentRunService.run` of agent/service.py
--     does to the database before and after the loop. An operation is a function from a database to
--     a reply and a database, and `perform_all` makes requests in any order, one at a time as the
--     row lock has it. Ledger and Changes have what a step keeps of a run; Resolving, Stages,
--     Resolved, Recording, Settled, Planned and Pausing go through the operations; Binding and
--     Replaying describe their conditions on the rows; Approving, Consuming, Entitled, Sequences,
--     SingleUse, Reading, Current, Refusing and Isolation put them together.
--   Routing: model_routing/policy.py. `route_model` chooses between the simple and the heavy model.
--   Memory: memory/policy.py. `derive_memory_acl` inherits the restrictions of a memory's sources.
--   Chunking: chunking/service.py and chunking/contracts.py, `chunk_document` with all it calls.
--     Splitting has `_bounded_text`; Units and Groups the rows of a sheet; Documents and Sheets
--     the two kinds of document; Contracts the records. Parts, Lossless, Coverage, Grouping,
--     Fitting, Ordering, Chunks and Guarantees have the proofs.
--
-- Parameters of the model: the model providers, the tools behind the gateway, the clock and the
-- digest (json.dumps with hashlib.sha256) are fields of the record Environment, and nothing is
-- assumed of them. Each awaited call is given the time that is left and answers, times out or
-- fails. The n-th reading of the clock is `clock n`, in whole milliseconds. Since no property
-- assumes anything of the digest, equal digests and not equal payloads are what the properties on
-- fingerprints and approvals speak of.
--
-- Fuel: `run` gives its rounds `max_steps + 1`, since a round that goes on has made a step and a
-- step is made only below `max_steps`.
-- `bounded_text` gives its loop the length of the stripped text, since a part takes at least one
-- character off it; that this is enough is proved.
-- The loop of the gateway is given `max_transient_retries + 1` rounds, since a round that goes on
-- has counted a retry; that this is enough is proved. Its invocations are kept in a log, which a
-- call returns with its observation.
--
-- What regular expressions find, the schemas that pydantic makes and the tools' adapters are
-- parameters too, and so are the digest of a scope, the reading of excerpts and the query for
-- authorized chunks.
-- Of the chunking, the parameters are the fields of the record Rendering: the normal form NFC, the
-- test of a heading, json.dumps and the digest of a content. The digest is total, so that a lone
-- surrogate, which has no encoding in UTF-8, is not spoken of.
--
-- Not modelled: pydantic's checks of patterns and lengths of single texts, and of the outcome's
-- bounds on its plan version, tool shortlist and token counts; ids and request ids, which nothing
-- reads; the prompt context bound to the providers; all tables but those of Approval and the
-- lifecycles; the API routes, the parsers, the embeddings, the memory service and the frontend.
pub mod Approval
pub mod Chunking
pub mod Base
pub mod Policy
pub mod Agent
pub mod Text
pub mod Grounding
pub mod Lifecycle
pub mod Gateway
pub mod Routing
pub mod Memory
