-- ===== src/Lib.antt =====
-- A model of the core of devagent-ts, the control plane of a coding agent, and the theorems on it.
--
-- The parts and how they interact. A run of the agent is a graph of tasks (core/tasks/task-graph).
-- The scheduler (core/tasks/scheduler) claims nodes of the graph that are ready, takes the resource
-- locks that they name (core/concurrency/resource-locks), hands them to the executor and applies
-- their outcomes. Each call of a tool is put before the policy engine (core/policy), a chain of
-- rules over the tool's metadata (core/tools/tool-contract), an execution profile and a request,
-- which refuses the call, asks the user or lets it run. The gateway (tools/gateway) is where this
-- happens: it finds the tool, checks its arguments, the run's capabilities, the policy, the run's
-- budget (runtime/budget) and whether the same call has run before (tools/idempotency).
-- Gates (core/concurrency) and signals (core/cancellation) bound and end what runs. The harness
-- changes itself along a lifecycle of states (evolution/state-machine). All paths are under src/.
--
-- Files and the code they model:
--   Base and below: tests, lists, dictionaries that stand for `Map`, and their lemmas. No code.
--   Evolution/StateMachine: src/evolution/state-machine.ts. States (the states and their order),
--     Names and Legacy (normalizeLegacyState, stateFromLegacyStatus); the table, the predicates and
--     `EvolutionStateMachine` are in the file itself. `Date.now()` is an argument.
--   Core/Policy: Tools is src/core/tools/tool-contract.ts, Profiles is execution-profiles.ts, Rules
--     the rules of policy-engine.ts, ArgRules is rules.ts, Engine the chain and postures.ts. A rule
--     is a function from a request to an optional decision; a reason's text is left out.
--   Core/Concurrency/Locks: src/core/concurrency/resource-locks.ts. A promise is a number; timers
--     and releases are events of their own, so that a series of calls is any interleaving. Exclusion,
--     Wakeup and Serving have the theorems.
--   Core/Tasks/Graph: src/core/tasks/task-graph.ts. The map of nodes is the list of its values; a
--     method that throws returns a result. Order is `topologicalOrder`; Ranks, Visits and Ordered
--     have its theorem.
--   Core/Tasks/Scheduler: src/core/tasks/scheduler.ts, on the graph and the registry of locks. A
--     call of the executor is a claim, an outcome or a release; a series of them is any
--     interleaving of workers. Running and Workers have the limit on the nodes that run, where each
--     worker applies the outcome of its node and then releases it.
--   Core/Concurrency/Gate: src/core/concurrency/gate.ts. The counter `active` is kept as the leases
--     granted and the decrements, since it may fall below zero. The abort of a signal and its
--     listeners are one step.
--   Runtime/TaskMachine: src/runtime/task-machine.ts, and the tasks of src/runtime/types.ts. The
--     session's own task list, which follows events and not the scheduler; Updates has the theorems.
--   Runtime/Budget: src/runtime/budget. Limits is the ceilings and errors, Managers one manager
--     (`BudgetTracker` and `BudgetManager`), Tree the managers of a run and of those it delegates to,
--     newest first, each with its parent; a call returns the state and what it throws. Growth,
--     Charging, Ceilings and Deadlines have the lemmas and theorems.
--   Tools/Idempotency: src/tools/idempotency.ts. `Map` is a dictionary, the clock an argument.
--     Lifecycle follows one key, Pruning is `prune`.
--   Tools/Gateway: Catalog is src/tools/gateway/tool-catalog.ts, src/core/tools/tool-aliases.ts and the
--     lookup of a tool; Invocation is `invoke` of src/tools/gateway/tool-gateway.ts, as `begin` (all
--     stages up to the call of `gate.run`, over the policy engine's decision, the budget's deadline
--     and the idempotency manager) and `finish` (from its end). Permissions, Launching and Handovers
--     say which calls come to their tool's gate, Replays, Failures and Repeats what becomes of
--     repeated and failed ones, Discovery what `discover` shows, Approvals what the postures ask of
--     a call.
--   Core/Policy/Broker: src/core/policy/approval-broker.ts. Classification sets its test of calls
--     against the rules, Promises follows the requests that wait.
--   Core/Cancellation: src/core/cancellation/cancellation.ts. The file itself is the signals and
--     scopes, Registry is `CancellationRegistry`. Propagation, Sound and Registered have the theorem
--     on what a cancelled run reaches.
--   Core/Concurrency/Registry: src/core/concurrency/gate-registry.ts, over the gates of Gate; Layers
--     has the theorem on its limits.
-- Names follow the source's, in the spelling of this library: `claimNext` is `claim_next`.
--
-- Fuel: the loop of `cascadeSkip` runs on one more than the number of nodes that may still be
-- skipped, which is enough, since each id that joins its queue is such a node; `dispatchNext` runs
-- on one more than the length of the queues, since each call of itself has taken an entry; the
-- abort of a signal runs on the number of signals, since a listener leads to a newer one; the
-- nested calls of `visit` in `topologicalOrder` run on one more than the nodes, since each marks
-- an id; the second loop of `prune` runs on the number of its entries, since each round drops one.
-- All other loops are over lists.
--
-- Parameters: the test of the shell patterns by regular expressions, the text of a skipped node's
-- reason, fresh ids and the clock; floating-point amounts of money (Floats); and for the gateway
-- (Setting, Texts) the repair and the validation of arguments, the text and the digest of a call,
-- and the platform's functions on text.
--
-- Not modelled: the worker loop `drain`, graph validation; the lookup of
-- a profile by a free string; the file that mirrors the idempotency map; the gateway's own gates and
-- the timeout of a handler, which stand between `begin` and `finish`: a gate may refuse a call, or
-- hold it until it is aborted, and then its handler never starts; tools, models, the user
-- interface, language servers and storage, which are input and output; the evolution pipeline's
-- statistics and the trading domain, which are in floating point.
pub mod Base
pub mod Core
pub mod Evolution
pub mod Runtime
pub mod Tools
