-- ===== src/Lib.antt =====
-- A model of the backend's control plane: the scheduler of creation tasks, and the services that
-- decide whether a task may run, on which endpoint, and with which features.
--
-- A request submits a task (app/services/scheduler/scheduler_service.py). A dispatch takes the first
-- queued tasks of a user, as many as the user's concurrency limit leaves slots for and at most five,
-- binds each to a worker with a lease, and publishes it after the commit. The worker starts the task,
-- reports its progress and its end; heartbeats keep its lease, and a recovery tick queues the tasks
-- again whose lease is over. A run of a storyboard submits a task for each of its lanes. A dispatch
-- reads a feature flag (app/core/feature_flags.py) and the novel's budget
-- (app/services/cost/budget.py), and the concurrency limit comes from the user's quota
-- (app/services/quota.py). The promotion engine (app/services/cv/promotion_engine.py) writes feature
-- flags. The circuit breaker (app/core/llm_circuit_breaker.py) picks the endpoint of a model call.
-- A started generation task runs the workflow graph of app/services/generation/graph.py over one
-- segment of the book: each node reads and writes a shared state, and the routes choose the next
-- node. The authorization (app/core/authz) decides on each request before any of this.
--
-- Common, Json: lists, tables of rows, results with errors, integers, and the JSON columns; Json.Merge
--   is `_merge_mapping` of app/services/task_runtime/checkpoint_repo.py.
-- Checkpoints: the rest of checkpoint_repo.py, and app/services/task_runtime/cursor_service.py: which
--   unit a task goes on with after it was interrupted.
-- Tasks: the row of app/models/creation_task.py and `transition_task_status`.
-- Scheduler: Store is the database as the scheduler sees it; Rows, Progress and Recovery are the
--   operations on one row, Operations those on the table, Queue the order of the queue, Payload
--   `_prepare_worker_task_dispatch`, Reservation and Dispatch the reservation, the publication and the
--   requeue. Lifecycle has what holds of one task, Dispatch.Failures what a failed dispatch does, and
--   Invariant what holds of the table, up to the machine of all transactions in Invariant.Reach.
-- Flags, Promotion, Budget, Quota, Breaker: the services of the same names. Flags.Cache is the cache of
--   the flags in one process, in milliseconds: a list of events, one after the other, and the one
--   overlap of a read with a write (begin_read, end_read). Flags.Registry is the sync from the yaml files
--   (app/tasks/feature_flags.py), and Flags.Restored what it leaves of a promotion.
-- Quota.Usage: `record_generation_usage`, the ledger of what the tasks have used.
-- Versions: app/services/rewrite/service.py, the versions of a novel, and which one is the default.
-- Aliases: app/services/memory/alias_registry.py, the names of the characters. Aliases finds where they
--   stand in a text. Register adds them to the table, one by one or in bulk; the rows that another
--   process adds between the query and the write of a bulk registration are an argument. The rows of
--   Register are without the ids that a sequence of the database draws.
-- Storyboards: app/services/storyboard/runtime_v2.py, the runs of a storyboard project. Status is the
--   status of a run from its lanes, Lanes what a run is created from. Runs creates a run with a task
--   of the scheduler for each lane, Actions pauses, resumes and cancels it. Placed, Dispatchable and
--   Submitted are about those tasks, Waiting, Created and Retry about the project's status, Revival
--   and Cancellation about lanes that are over.
-- Authz, Gates: the packages app/core/authz and the module app/core/gates.py.
-- Facts, Foreshadows: app/services/memory/fact_arbitrator.py and foreshadow_lifecycle.py.
-- Context: app/services/memory/context_blocks.py, which blocks fit into a prompt; Context.Applied is
--   `_apply_context_block_selection` of app/services/memory/context.py, which empties the others.
-- Agents: app/services/agents/llm_agent.py, a model call in rounds, each under the name of an endpoint.
-- Generation: Policies is policies.py, Plan segment_plan.py, State the shared state, Start, Closure and
--   Nodes what the functions of nodes/*.py write to it, Routes the edges of graph.py, Pipeline the call
--   `run_generation_pipeline_langgraph`. Machine runs the graph: Measure counts the steps that are
--   left, Descent and Completion are its invariants, Ends the theorems on a whole run,
--   Growth how far the bridge chapters extend its segment. Length is length_control.py.
-- Tests: the runs on concrete inputs.
--
-- A transaction is a function on the database, and an error stands for its rollback; row locks are
-- the sequence of the transactions; a dispatch and the requeue of what
-- it could not publish, which commit one after the other, are one function. Times are natural numbers of microseconds (seconds in the
-- breaker), `progress` and amounts of money are whole numbers of millionths. The clock, the settings,
-- uuids, hashes, the parsing of numbers in texts, exception texts and the broker are arguments. Every
-- loop runs over a list, the workflow and the wait for a confirmation aside. A run of the workflow takes
-- a number of steps, and Generation.Machine.Ends.enough_steps, which is computed from the retries, the
-- revisions, the chapters, the tail rewrites and the bridge chapters that are left, is the bound on
-- it. LangGraph's recursion limit, which ends a run that takes more steps with an exception, is an
-- argument. What a model, the database or a heuristic answers at a step of the workflow is an argument,
-- a new one at each step: also whether the node raises an exception, which ends the run, and whether
-- the confirmation that `node_confirmation_gate` waits for ever comes. Scores, ratios and thresholds
-- there are whole numbers of ten thousandths.
--
-- Not modelled: prompts and the models' answers, the memory and the checkpoints of progress that the
-- nodes write beside the shared state, retrieval, the HTTP API, the Celery tasks around the services,
-- settings, mail, logging and metrics, which are I/O around this core, and the
-- caches of a process but that of the flags. A negative priority or retry limit, which no caller
-- passes, is taken as 0.
pub mod Common
pub mod Context
pub mod Json
pub mod Authz
pub mod Versions
pub mod Aliases
pub mod Tasks
pub mod Gates
pub mod Facts
pub mod Foreshadows
pub mod Generation
pub mod Flags
pub mod Breaker
pub mod Agents
pub mod Budget
pub mod Quota
pub mod Scheduler
pub mod Storyboards
pub mod Promotion
pub mod Checkpoints
pub mod Tests
