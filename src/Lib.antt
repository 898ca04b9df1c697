-- ===== src/Lib.antt =====
-- DEIMOS: an agent that plans desktop and browser actions, runs them as the nodes of a workflow
-- graph, verifies what they did, and keeps its tasks in a durable registry.
--
-- The parts and how they interact. A runner executes an action and gets a result and a
-- verification (agent_control/types.py). From these agent_control/recovery.py assigns a failure
-- class and decides, within a budget, whether to retry, to observe again, to plan again, to ask or
-- to abort. A workflow (agent_control/workflow/models.py) is a graph of steps;
-- agent_control/workflow/scheduler.py validates it and runs its steps in rounds, under exclusive
-- locks of resources. agent_control/runtime.py is the registry of tasks, with approvals and
-- resources, which writes through to the tables of agent_control/runtime_persistence.py.
-- agent_control/skills registers skills and lets only those that their audit approves reach the
-- planner and be dispatched. agent_control/policy.py is the gate in front of every action.
-- agent_control/workflow/graph.py drives a workflow through the nodes of
-- agent_control/workflow/nodes.py: observe, ask the policy, ask for approval, execute, verify,
-- recover. agent_control/procedure_store.py keeps the procedures that were learned from workflows,
-- and agent_control/procedure_validation.py decides which of them are active; a match of one is
-- executed by agent_control/procedure_execution.py, each action under the policy.
--
-- Files. Base has tests, lists, texts and dictionaries: an association list in insertion order
-- stands for a dict. Json has the values that the source types Any. Types models types.py.
-- Recovery/Budget, Recovery/Classify, Recovery/Naming and Recovery/Retry model recovery.py:
-- `spend`, `decide`, `classify`, `classify_failure_name`, `retry_safety` and `action_can_retry`
-- have the names of the source. Workflow/Status, Workflow/Model, Workflow/Transitions,
-- Workflow/Inference and Workflow/Planning model models.py. Workflow/Locks is ResourceLockManager,
-- Workflow/Graph is DependencyScheduler.validate, Workflow/Ready is ready_nodes and aggregate,
-- Workflow/Run and Workflow/Rounds are run, Workflow/Recover is recover_failed_node.
-- Runtime/State, Runtime/Task, Runtime/Manager, Runtime/Moves, Runtime/Approvals, Runtime/Cleanup
-- and Runtime/Restart are RuntimeManager, one function for each method; Runtime/Redaction and
-- Runtime/Store are safe_json, safe_goal and RuntimePersistence. Skills/Gate is gate.py and
-- Skills/Registry is SkillRegistry; the audit of a skill is a parameter. Policy/Paths,
-- Policy/Urls, Policy/Commands and Policy/Gate are the class Policy; what the file system and
-- urllib's test of brackets answer is a `Host`. Orchestration/Selecting, Orchestration/Acting,
-- Orchestration/Executing, Orchestration/Batch and Orchestration/Recovering have one function for
-- each node, Orchestration/Routes has the edges, and Orchestration/State the state, with the
-- reading of a workflow that was written as JSON. Runtime/Operations lists the operations as one
-- type. Procedures/Model and Procedures/Store are procedure_store.py, Procedures/Placeholders,
-- Procedures/Definition, Procedures/Evidence, Procedures/Promotion and Procedures/Health are
-- procedure_validation.py, Procedures/Binding and Procedures/Execution are procedure_execution.py
-- with the records of a match of procedure_retrieval.py, and Procedures/History lists the writes
-- of the store as one type; whether a text looks like a credential, which the source asks regular
-- expressions, is a `Secrets`. The other files hold proofs and are named for what they prove.
-- Examples has the concrete runs.
--
-- State. An object that is mutated is a record that is passed and returned; a method that raises
-- returns the record as well, since it may have changed it. Errors are constructors. The clock,
-- the generated identifiers and whether a transaction succeeds are a `Tick`; what an executor
-- answers, in which order futures complete and when a cancellation arrives is an `Environment`;
-- what the runtime answers to the nodes is an `Adapter`; what a skill does to an action of a
-- procedure is a `Skill`, and `str` of a value is a field of `Python`. Numbers of seconds are
-- natural numbers. Texts are compared by code points, and case is that of ASCII.
--
-- Fuel. The search for cycles in `validate` runs on fuel, the number of nodes, which is enough:
-- each step of it takes a node whose number of open dependencies has just become zero. The loop of
-- `run` runs on the source's own bound, max_rounds.
--
-- Not modelled: the JSON projections and the read-only views, SQLite and the order of its rows,
-- the threads of the pool and of the clean-up, the environment variables, and the parts of the
-- program that drive a browser, a desktop, a language model or a messenger.
pub mod Base
pub mod Json
pub mod Types
pub mod Recovery
pub mod Workflow
pub mod Runtime
pub mod Policy
pub mod Orchestration
pub mod Procedures
pub mod Skills
pub mod Examples
