-- ===== src/Lib.antt =====
-- Jarvis is an agent platform: a kernel boots services, clients submit missions, a scheduler
-- runs their tasks, workers on several machines take part over a transport, one elected leader
-- coordinates them and routes waves of tasks to them, peers vote on proposals, agents lock
-- resources and a detector breaks their deadlocks, agents run the steps of tasks, subagents are
-- spawned and watched, workflows run as graphs of tasks, and calls of language models pass a
-- rate limiter. This library models the parts that keep state and decide, and proves what they
-- promise.
--
-- Parts, and the files that model them:
-- - Transport (core/mission/transports/local.py): LocalTransport with its dictionaries of leases
--   and channels; lease, renew_lease, release_lease, publish, subscribe, _unregister_subscriber
--   and close under their own names. Transport/Leases and Transport/Channels prove what leases
--   and channels promise along any calls by anyone.
-- - Leader (core/mission/leader_election.py): LeaderElection, a client of Transport:
--   try_acquire, renew, release and campaign. Leader/Roles, Leader/Terms and Leader/Campaigns
--   have the theorems.
-- - Mission (core/mission/mission_types.py, core/mission/mission_scheduler.py): the data,
--   budgets, deadlines and retries; Mission/Queue the priority queue; Mission/Resolver the waves
--   of tasks; Mission/Scheduler the registry and schedule, cancel, pause and resume;
--   Mission/Execution run_next, _execute_mission and _execute_task, cut where they wait for the
--   executor and for the back-off. A cut leaves a Frame, the local variables of a suspended
--   coroutine. The children of Mission/Resolver compare its graph with the list of arrows
--   between the tasks. Mission/Actions makes the steps of the scheduler one transition system,
--   and its children have the theorems.
-- - WorkerRegistry (core/mission/worker_registry.py): the tables of workers and of routed waves,
--   one transaction for each operation; its child Tasks has mark_task_started and
--   mark_task_completed. WorkerRegistry/Load is about the task counts, WorkerRegistry/Liveness
--   about heartbeats.
-- - Envelope (core/mission/transports/envelope.py): EnvelopeV1 with pack and unpack, and
--   Envelope/RoundTrip about the two.
-- - Router (core/mission/distributed_router.py): DistributedRouter, a client of WorkerRegistry,
--   Envelope and Transport. Router chooses a worker and writes the log, Router/Routes is `route`
--   with and without a transport, Router/Marks mark_routing_complete and get_routing_for_wave.
--   Choice, Log, Routed and Outcomes are about one answer of `route`, History and Again about any calls,
--   Delivery about what is sent.
-- - WorkerProcess (core/mission/worker_process.py): WorkerProcess, a client of WorkerRegistry:
--   start, stop, run_once and a turn of the heartbeat loop; WorkerProcess/Life is about them.
-- - Consensus (core/runtime/consensus.py): proposals and signed votes.
-- - RateLimiter (core/reasoning/rate_limiter.py): sliding windows for each provider.
--   RateLimiter/History compares it with a limiter that forgets nothing, over Windows and
--   Agreement.
-- - Lifecycle (core/lifecycle.py): boot and shutdown of the services.
-- - TaskScheduler (core/runtime/scheduler.py): the queue of the runtime and its five strategies;
--   TaskScheduler/Served is about what it serves.
-- - AgentRuntime (core/runtime/engine.py, core/runtime/state.py): run_task of AgentRuntime, cut
--   into the parts of a step, with its states, budgets (core/runtime/context.py) and
--   checkpoints. AgentRuntime/Ends is about a step, Runs about the steps of a run, Resume about
--   runs one after the other.
-- - Subagents (core/runtime/subagent.py, core/runtime/state.py): SubagentManager;
--   Subagents/Limits is about any calls, over Beats and Sound, Subagents/Timeouts about the
--   watchdog, over Spared and Ending.
-- - MemoryLock (core/runtime/lock.py): the locks that agents hold; MemoryLock/Exclusion is about
--   any calls of them.
-- - Deadlock (core/runtime/deadlock_detector.py): DeadlockDetector, a client of MemoryLock, with
--   its edges between waiting agents; Deadlock/Search the depth-first search for cycles,
--   Deadlock/Detection detect_cycles, detect_and_resolve and build_wait_for_graph_from_locks.
--   Waits says what it is to wait; Steps, Finished, Circles and Returns follow the search, and
--   Detects, Rings, Cleared and Resolution have the theorems.
-- - Workflow (core/workflow/workflow_graph.py): the graph and validate; Workflow/Scheduler the
--   waves (dag_scheduler.py), Workflow/Retry the attempts of a node (retry_policy.py),
--   Workflow/Executor the run of the waves (workflow_executor.py), Workflow/Engine run, resume
--   and cancel (workflow_engine.py and checkpoint_store.py). Order, Search and Validity are
--   about validate; the children of Scheduler, Retry, Executor and Engine about those.
-- - SwarmQueue (core/runtime/queue.py): SwarmTaskQueue with the task objects that its list and
--   its dictionary share. SwarmQueue/Calls is about any calls, SwarmQueue/Serves about dequeue.
--   SwarmQueue/Recovery (core/runtime/recovery_manager.py) is a client of it: what
--   SwarmResumeManager does to the rows of the tasks and to the queue; its child Resumed has the
--   theorem.
-- - EventBus (core/events/memory_bus.py): MemoryEventBus under its own names. EventBus/Calls has
--   the sequences of calls, EventBus/Delivery what a subscriber is sent.
-- - Prelude: shared names, dictionaries as association lists, sets as lists, stable sort.
-- - Samples: the theorems at concrete inputs.
--
-- Conventions. Clocks, random tokens and fresh queues are arguments of the operations that read
-- them; an instant is a whole number of the clock's smallest unit. Budgets are whole millionths.
-- str.lower, HMAC-SHA256 and the hooks of the services are parameters, and so are msgpack, zstd,
-- pydantic and the text of a UUID (a Codec). UUIDs are numbers. A call of `route` is one step:
-- its readings of clocks and its new ids come in a Draws. Exceptions are values of Result.
-- asyncio.Lock is not modelled: but for the subagents no section under a lock of these files
-- waits for anything, so a lock is never found taken, and what runs between two real waits is one
-- step. SubagentManager waits for its driver under the lock: the heartbeats that come in there,
-- which take no lock, and whether the coroutine is cancelled there are in a Waiting (in
-- spawn_subagent such heartbeats are those of calls before it, since it reads none, and to be
-- cancelled there is one way for the driver to raise). The lock is released between the scan and
-- the terminations of _check_timeouts, and between those of shutdown: what other coroutines run
-- there is in an Interlude, as a list of Sections. The event bus is taken to return from publish
-- without giving way to other coroutines. In a workflow a handler is a function of the node and
-- of the number of the attempt, and the order in which the nodes of a wave end, up to the first
-- that fails, is a parameter too. The texts of exceptions that no code compares are shortened or
-- left out. The executor of an agent's steps is a parameter that may change the context in any
-- way; what each step reads of the clock and of the token comes in a Readings.
--
-- Bounds. The loop of a campaign runs over the list of its waits, one for each turn that is not
-- the last. The wave loop of Mission/Resolver runs on fuel, one unit for each task: each turn
-- queues a task that no earlier turn has queued. The searches of Deadlock and Workflow run on
-- one unit more than there are nodes, since each call within a call marks a node that was not
-- marked; the waves of Workflow/Scheduler on one unit for each node, since each wave completes
-- one. run_task of an AgentRuntime runs over the number of steps that are left of its range.
--
-- Not modelled: the Redis transport and the SQL session (external servers), the subscriber's
-- iterator, BackgroundGoalRunner, logging, events of consensus and workflows, names and payloads
-- of missions, the templates of workflows and what the other nodes of a failed wave still do,
-- the supervisor and the clock of the deadlock detector, the reset of agents in a recovery, the
-- lease time of locks (the source ignores it), the API, memory, tools, skills, reasoning, the
-- command line, environment and signals of the worker processes, the variables of an agent's
-- context, and CapabilityNegotiator.
pub mod Prelude
pub mod Transport
pub mod Leader
pub mod Mission
pub mod WorkerRegistry
pub mod Consensus
pub mod RateLimiter
pub mod Lifecycle
pub mod SwarmQueue
pub mod EventBus
pub mod Envelope
pub mod Router
pub mod WorkerProcess
pub mod AgentRuntime
pub mod Subagents
pub mod TaskScheduler
pub mod Samples
pub mod MemoryLock
pub mod Deadlock
pub mod Workflow
