-- ===== src/Lib.antt =====
-- A verification library of EquiSeek's research engine (src/aegisrun, Python).
--
-- The engine runs agents under control structures that must stay deterministic: an execution plan
-- says which task may run, and failures, retries, approvals and recoveries move its tasks through a
-- life cycle. These structures are modelled here; language-model calls, network access, the user
-- interface and floating-point analysis are not.
--
-- Files and what they model:
--   Prelude, Prelude/Tests, Prelude/Lists: names that all modules share, Boolean tests, `any`, `all`,
--     membership.
--   Dict: Python's `dict` with string keys, in insertion order, as an association list.
--   Data/Json: the values of JSON payloads. Data/Text: methods of `str`.
--   Orchestration/Status, Spec, Plan: the enums, `TaskSpec`, `TaskRecord` and `ExecutionPlan` of
--     src/aegisrun/orchestration/models.py, with the exceptions as data.
--   Orchestration/Dag: `_validate_dag`; its children prove that the search ends, that it is sound and
--     that it is complete.
--   Orchestration/Refresh: `_skip_blocked`, `_stop_after_unknown_outcome`, `_refresh_status` and
--     `ready_task_ids`; its children prove what they do.
--   Orchestration/Ops: the methods on one task, `cancel`, `abort` and `recover_interrupted`.
--   Orchestration/Revise: `create`, `revise` and `recover_from_failure`, with their loops.
--   Orchestration/Evolves, WellFormed: the kinds of change and the invariant of a plan.
--   Orchestration/Calls: all methods as one type of calls, and the theorems over every call.
--   Orchestration/Triage: `issue_triage_plan`, with the checks of its specs. Orchestration/Tests: runs at concrete inputs.
--
--   Harness/Events, Sets, Checked: `AgentEvent` of src/aegisrun/harness/events.py, Python's `set`, and
--     checks that raise `InvariantError`.
--   Harness/Lifecycle: `lifecycle_invariant` of src/aegisrun/harness/invariants.py. State has its
--     variables and Handlers its branches; Tally, Counting, Moves and Step relate them to what the events
--     say; Loop, Stream and Ownership are about whole streams.
--   Harness/Session, Surface: `session_invariant` and `surface_invariant`.
--   Harness/Registry, Registered: `InvariantRegistry` and `default_invariants`.
--   Harness/Store: `WorkspaceEventStore` of src/aegisrun/harness/events.py. Json has the interpreter as
--     operations and laws, Make the constructors' checks, Record the JSON of an event, Log the file,
--     Append the methods; Reread, Made, Synced, Appended and Outcomes are about them.
--   Harness/Tests: runs at concrete inputs.
--   Core/Domain, Transitions, Balance: the run status of src/aegisrun/core/domain.py and the runs it allows.
--   Core/Budget, Totals, Limits: `BudgetManager` of src/aegisrun/tools/budget.py.
--   Core/Tests: runs at concrete inputs.
--   Capabilities/Registry, Ceiling, Resolve, Found: `CapabilityRegistry` of
--     src/aegisrun/harness/capabilities.py, its ceilings and what it resolves.
--   Capabilities/Tests: runs at concrete inputs.
--   LoopControl/State, Plan, Guard: `AgentLoopHarness` of src/aegisrun/harness/loop_control.py around a
--     tool call: its guard and its plan items. LoopControl/Replace, Bounded: the plans that the model sends.
--     LoopControl/Tests: runs at concrete inputs.
--   MarketData/Coverage, Prices: the covered ranges and the price bars of src/aegisrun/marketdata/cache.py.
--   Portfolio: src/aegisrun/portfolio/strategy_dsl.py. Fields has the checks of single fields, Strategy the
--     reading of a strategy, Screen what it does, Symbols the stock codes; Lists, Safe, Admitted and Score
--     are about accepted strategies. Tests in each folder are runs at concrete inputs.
--   Tools: src/aegisrun/tools/pipeline.py with what it uses of spec.py and registry.py. Actions has the
--     surroundings (hooks, handlers, `asyncio.gather`, the event store) and the log, Pipeline one call, Batch
--     a batch; Hooks, Counts, Checks, Paired, Singles, Groups and Answered are about the
--     events of a batch, Cleared, Guarded and GuardedBatch about the tools that it runs.
--   Agents/Profiles, Descent: `AgentProfileSnapshot.narrow` of src/aegisrun/agents/profiles.py, and the
--     profiles that come from another by it.
--   Macro/Freshness, Current: the freshness gate of src/aegisrun/macro/freshness.py.
--
-- How state is modelled: a plan is a record; a method takes the plan and gives its result or its
-- exception together with the plan that it leaves, so what was written before a raise is visible. The
-- object `failed` of `recover_from_failure` stands in two dictionaries at once: its changes are made in
-- both. A date is the number of its day; the
-- last representable date is not modelled. Time is an argument: each reading of the clock in one method call is named by what it is for.
-- A set is a list of texts that is read by
-- membership. The identity of a registration is a number. What lies outside (the interpreter's json,
-- floating point, policy hooks, tool handlers, the store that the tool pipeline writes to) is a record of
-- operations on a state of its own, with laws where a theorem relies on them. Task ids are texts, limits are natural numbers (Python refuses the negative ones with 0).
--
-- Fuel: `visit` gets one more unit than there are keys, since each nested call puts a new key on the
-- path; `_skip_blocked` gets one more round than there are tasks, since each round but the last skips
-- one. Both bounds are proved to be enough.
--
-- Not modelled: the texts of exceptions (the check that raised and the task that it names are kept),
-- most conversions to and from `dict`, and the parts named above. The event store writes a record whole
-- or not at all, nothing else writes its file, and the write of a cancelled call is over before the next
-- call begins. The handlers of a group of safe tool calls run at the
-- same time; what they do to each other is inside the parameter `gather`.
pub mod Prelude
pub mod Dict
pub mod Data
pub mod Orchestration
pub mod Harness
pub mod Core
pub mod Capabilities
pub mod LoopControl
pub mod MarketData
pub mod Portfolio
pub mod Tools
pub mod Agents
pub mod Macro
