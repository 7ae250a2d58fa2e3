-- ===== src/Lib.antt =====
-- powabase-ai: a verification library for the service's own logic, the Python package
-- src/agentic_project_service.
--
-- The program is a Flask API and Celery workers of one project. What is modelled here is the logic
-- that the service itself carries; Postgres, Redis, the model providers and the libraries that it
-- calls are parameters, records of operations with the laws that the code relies on.
--
-- - Gate: services/extraction_gate.py. Gate/Slots.antt has the semaphore of leases, its Lua scripts
--   as functions of a Redis key (`acquire_script`, `renew_script`, `live_script`), the methods of
--   `LargeExtractionGate`, and the calls of all workers as a list in the order in which Redis
--   serves them. Each call is answered, not executed, or executed with its reply lost. Times are
--   microseconds of the Redis clock. Gate/Slots/Heartbeat.antt has the renewing thread, as a
--   function of the list of its wakings. Gate/Attempts.antt has `ExtractionAttempts`.
-- - Citation: services/citation_registry.py and `build_citation_map` of services/citations.py. A
--   registry is the list of its units; tool calls that run at once are the batches in the order in
--   which they take its lock.
-- - Auth: auth.py (tokens, `_authenticate` and the two route decorators; Auth/ToolCaller.antt also
--   has services/tool_caller.py). `jwt.decode` and Python's uuid functions are a record of
--   operations with laws.
-- - Session: `get_or_create_session` and what it calls in services/session.py, and its twin in
--   services/orchestration.py. What other transactions do between the lookup and the insert is a
--   parameter, an arbitrary function of the table.
-- - RateLimit: `RateLimiter` of services/rate_limit.py.
-- - Indexing: the claims, the fenced writes and `index_source` of tasks/indexing.py, and the tick
--   of tasks/watchdog.py (Indexing/Watchdog.antt), over a table of `indexed_sources` rows. What
--   others do while a body runs, or between the statements of a tick, is a function of the table;
--   Indexing/Budget.antt has the histories of claims, ends of runs and ticks.
-- - Extraction: `extract_source` and `recover_stranded_extractions` of tasks/extraction.py over the
--   table of sources and the gate's keys: Extraction.antt has the statements, Extraction/Task.antt
--   one delivery of the task (State.antt below it what it works on, with what it asks of others as
--   a list of calls, and Ends.antt its handlers and `finally`), Extraction/Recovery.antt the sweep;
--   Gate/Waiting.antt has `WaitingExtractions`. What others do after the row is read and while the
--   extraction runs are functions of the whole state; the broker hands a message back when its
--   worker was killed.
-- - Scheduler: `_maybe_execute_scheduled` and the loop around it in tasks/scheduler.py, for one row
--   of workflows through the ticks; croniter is a parameter.
-- - Retrieval: the bounds of row limits in services/context_handler.py.
-- - Sparse: `BM25IndexManager` of services/sparse_retrieval/bm25_index.py, in memory.
-- - Sql: services/agent_sql.py. Sql.antt has the gate, over syntax trees (Sql/Lists.antt has its
--   lists; Sql/Gate/Harmless.antt what it is meant to accept); Sql/Query.antt the transaction of a
--   query, as the list of the statements that it sends; Sql/Grants.antt the grants of a login,
--   whose sets are membership tests, through the attempts of a sync. pglast and the catalogs of
--   Postgres are parameters.
-- - VectorIndex: services/pg_vector_index.py, with the settings of services/settings_registry.py
--   that it reads: the decision to build or to drop an index (index_action), the statements and
--   comments (Catalog), a dimension of ensure_per_kb_vector_index (Reconcile), and its loop and
--   outcome (Ensure). How often others hold a lock and how a statement ends is given for each
--   dimension. Removal is the drop of a deleted knowledge base, Sweep the sweep at start, and Task
--   the task of tasks/indexing.py that reconciles, waits for the table and hands over to the
--   dispatches that it superseded; a delivery of it runs, or is lost with its worker and repeated.
-- - Settings: services/settings_registry.py and the writes of routes/settings.py.
-- - ListParams: services/list_params.py.
-- - Database: the interface of a table with a unique column, with a list that meets it.
-- - Redis: the interfaces of the Redis commands, with lists that meet them.
--
-- Loops over collections are recursions on lists and end by themselves; there is no fuel.
-- Not modelled: HTTP, SQL and file access, logging, metrics, environment variables (their values are
-- arguments), and rounding of floating-point times and scores.
pub mod Prelude
pub mod Redis
pub mod Extraction
pub mod Gate
pub mod Citation
pub mod Database
pub mod Session
pub mod Auth
pub mod RateLimit
pub mod ListParams
pub mod Indexing
pub mod Scheduler
pub mod Retrieval
pub mod Settings
pub mod Sparse
pub mod Sql
pub mod VectorIndex
