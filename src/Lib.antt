-- ===== src/Lib.antt =====
-- BSNexus: the core of backend/src that plans a founder's Request, runs an LLM's attempts at its
-- steps, verifies what they deliver, and ships it as a pull request or asks the founder.
--
-- How the parts interact. `plan_and_dispatch_request` gives a Request a WorkPlan of WorkSteps and
-- dispatches each. A chain of RunAttempts works on a step: an LLM calls tools in rounds, each
-- attempt moves through phases, logs its tool calls and declares a verification contract; what it
-- writes becomes a Deliverable on the verifier's queue. The verifier turns the contract into
-- aspects, runs them and rolls their statuses up to the deliverable's proof state.
-- `advance_request_after_proof` moves the step by that proof and finalizes the Request: shipped
-- behind the proof gate, with a pull request opened by a hook, or parked with founder Decisions. A
-- resolved Decision re-engages the Request, and its step is dispatched again. A sweep at startup
-- fails what a dead process left.
--
-- Files, with the code that each models:
--   Domain                  backend/src/core/domain.py, each class by its name, members as constructors
--   StateMachines           backend/src/core/state_machines.py; Phases and Paths are on the tables
--   Models, Store           backend/src/models/*.py: a record for each row, a list for each table;
--                           `get` is `session.get`, `update` the assignment to an object's attributes
--   Json, Effects           JSON columns; the core's exceptions, and methods that change a store and
--                           may raise, where what was written before the raise stays written
--   WorkSteps               backend/src/core/work_steps.py: `create_work_plan`, `transition_work_step`,
--                           `transition_request` and its proof gate, in Defs; Plans, Gate, Requests
--                           and Steps hold the theorems
--   RunAttempts             backend/src/core/run_attempts.py: the life of an attempt in Defs, its tool
--                           events and the filter on LLM output in Events, the invariant in Bounds,
--                           how an attempt ends in Endings and stays so in Ended, the repetition test in
--                           Repetition, the filter in Output, any history of calls in Histories
--   Contract                backend/src/core/verification_contract.py: the parser and `to_dict` in Defs
--   Verification            backend/src/core/verification.py: Specs, Runners, Builds and Run are the
--                           code; Rollup and Verdicts the theorems
--   Executor                backend/src/core/run_attempt_executor.py: Work is the tool loop, Retry the
--                           retries on verifier feedback, Handoff the record for the next attempt,
--                           World the state with backend/src/core/deliverables.py, Attempt
--                           `_execute_one_attempt` with its exits, Dispatch the chain of attempts. The
--                           modules below these hold the theorems, which end in Dispatch/Settles;
--                           Dispatch/Requests is about the table of Requests
--   Verification/Judge      backend/src/core/verification_judge.py; Replies finds the JSON in a reply
--   Verification/Judged     the verifier with that judge
--   RateLimiter             backend/src/core/rate_limiter.py: the rule of a path and the sliding window
--   Planning                backend/src/core/planning/decomposer.py; Drafts holds its theorem
--   GitOps                  backend/src/core/git_ops/branch.py and pull_request.py over a GitHub client
--   Orchestration           backend/src/core/orchestration.py: Details, Defs and Dispatching are the code;
--                           Finalize, Decisions, Keeps, Advance, Reengage, Sweep and, below Dispatching,
--                           Chains, Again and Once the theorems; Guards is about the
--                           finalization and an open Request
--   Prelude                 shared names, lists, texts, orders and integers
--   Tests                   small runs, and the theorems applied to them
--
-- Choices. A UUID and a time stamp are numbers. `select ... order_by` is an insertion sort that
-- keeps the rows of equal keys in their order. Numbers are unbounded, as Python's are. No
-- definition needs fuel: every loop of the modelled code is over a list or a `range`; the work loop
-- recurses on the rounds that are left of its 80, the retries on their 2, the continuations on
-- their 3. `str.lower`, `str` of a JSON value and of an exit code, `json.loads`, `shlex.join`,
-- SHA-256 of the arguments, the encryption, the GitHub client, the machine that runs commands, the
-- judge of the verifier, the LLM and the tools of an attempt are parameters; a theorem that relies
-- on their documented behaviour has it as a hypothesis. `json.loads` may also raise where the code
-- does not catch all that it raises. The rate limiter's script runs on Redis, whose `math.random`
-- gives the same number in each run of a script.
--
-- Not modelled. Logs, published events and telemetry that nothing reads. Of
-- backend/src/core/verification.py the stack detection behind `select_verification_aspects`, whose
-- specs are an argument, the hint of `_install_smoke_hint`, the module name search and the
-- dependency install before the aspects. Of backend/src/core/orchestration.py what it writes to a
-- workspace and the clone; the result of `decompose_request` is an argument there, and the context
-- and prompts of backend/src/core/planning are left out. Of
-- backend/src/core/run_attempt_executor.py the prompts and the feedback, which are arguments, the
-- sandbox and `telemetry["aspect_retries"]`. The LLM and HTTP clients, the tools, the sandbox, the
-- API with its middleware, the workers and the frontend. Concurrent transactions: each operation
-- runs alone on the store.

mod Prelude
pub mod Domain
pub mod StateMachines
pub mod Json
pub mod Effects
pub mod Planning
pub mod Replies
pub mod RateLimiter
pub mod Models
pub mod Store
pub mod Contract
pub mod Verification
pub mod GitOps
pub mod WorkSteps
pub mod RunAttempts
pub mod Orchestration
pub mod Executor
pub mod Tests
