-- ===== src/Lib.antt =====
-- Thread-keeper: a verification of the cores that several processes share through one store.
--
-- Thread-keeper (threadkeeper/) is an MCP server that several agents run at once. They share one
-- SQLite store, so that its cores are small protocols over tables: who may act on what memory, what
-- replication keeps, which children may be launched, and when a shared resource may be used again.
-- Each model passes its tables explicitly; the time and what other programs answer are arguments.
--
-- Common: tests, lists, Python's `dict` and `str` (a text is its code points), and integers.
--
-- Authority (threadkeeper/authority.py): Store has the rows of `memory_authority`,
-- `memory_authority_roots` and `memory_derivations`; Stamp has `record_root`, `record_origin_root`
-- and `derive`; Source has the declared sources and `stamp`; Gate has `authorize_action` and
-- `is_visible`; Invalidate has `invalidate_descendants`, whose loop runs on fuel: one unit for each
-- pending artifact and each derivation, which is enough since a derivation is followed once.
--
-- Access (threadkeeper/memory_access.py, threadkeeper/project_scope.py): Policy has
-- `resolve_access`, with the digest of a token as a parameter; Scope has `resolve_write_scope`,
-- `recall_allowed` and the SQL filters, as tests of a row; Guard has `guard_tool`, `propose` and the
-- authorizer of `protect_connection`. Authority asks Access for the caller's capability.
--
-- Sync (threadkeeper/sync): Clock has `hlc_now`, `hlc_absorb` and the triggers' clock (identity.py,
-- capture.py), with the decimal text of Decimal; Table has the replicated tables; Capture has the
-- statements with their triggers and `applying_guard`; Protocol has `version_vector` and
-- `collect_changes`; Merge has `apply_changes` and `sync_pair` (protocol.py). All replicated tables
-- exist, a payload has the key columns of its table, and SQLite returns rows in the order of the
-- list. A clock text keeps its order while the time has 15 digits and the counter 6.
--
-- Spawn (threadkeeper/spawn_budget.py, and `_reserve` and `_release` of threadkeeper/tools/spawn.py):
-- Budget has the two budgets and the reservation of a child; Watchdog has the sweep and the
-- restarts, over what the operating system answers (`Probe`) and what a launch needs (`Launcher`);
-- Tree has the walk of a process tree over the pairs of `ps`, on fuel for one level more than there
-- are processes, which is enough where no process is deeper than that.
-- Costs are counted in 1/10000 of a dollar. A delay before a restart is not modelled.
--
-- Evidence (threadkeeper/evidence.py): Registry has `_issue`, `_allowed` and `read_evidence`, which
-- asks Authority whether a row is visible and Access whether it may be recalled. The texts of a
-- document are not cut.
--
-- Github (threadkeeper/github_budget.py): Observe has the reading of one response, whose headers are
-- read already; Ledger has the shared row of an account and `run_gh`.
--
-- Daemon (threadkeeper/daemon_state.py): `claim_pass`. The fraction 0.8 is written without floats.
--
-- Memory (threadkeeper/process_health.py, threadkeeper/memory_guard.py): Health has the
-- classification of servers, with SQL's `LIKE`, and `cleanup`, over the answers of the operating
-- system; Guard has the aggregate state of a scan, the choice of the coordinator and the plan of
-- servers to retire. How the guard signals, notifies and frees its own memory is not modelled.
--
-- Router (threadkeeper/model_routes.py, threadkeeper/model_router.py,
-- threadkeeper/tools/model_router.py): Routes has the tables of routes and passes and the options of
-- the catalog; Decisions has the validation and the insertion of decisions, an object being its five
-- fields; Tick has `decide`, the actions, `run_router_pass` and `model_route_write`, over what a tick
-- reads from outside (`Inputs`). Daemon claims a tick. The interval is in whole seconds, and a launch
-- fails with an exception only before a child exists.
--
-- Outcomes (threadkeeper/action_outcomes.py): Events has the tables, `record_evaluation_event` and
-- `derive_recovery_candidate`; Forget has `_forget_events` with its three callers. Authority stamps
-- the events and the candidates, and withdraws them. A retention is in millionths of a day, and a
-- text is lowered on its ASCII letters.
--
-- Forget (threadkeeper/forget.py): Claims has the claims and the evidence that go with a source,
-- whose loop runs on fuel: one unit for each row of evidence and one more, which is enough since a
-- round that goes on adds a claim that has evidence; Plan has the selectors and the plan; Apply has
-- the deletions, with Authority withdrawing the stamps and Outcomes its records. All tables exist, a
-- set is the list of its members, and the session of the caller is there before.
--
-- Tasks (threadkeeper/mcp_tasks.py): handles of tasks. The text of a result and the outcome of
-- `task_kill` are arguments.
--
-- Not modelled: prompts, transports, rendering, files of other programs, and what reads the
-- operating system.
pub mod Common
pub mod Access
pub mod Authority
pub mod Daemon
pub mod Evidence
pub mod Github
pub mod Memory
pub mod Forget
pub mod Outcomes
pub mod Router
pub mod Spawn
pub mod Sync
pub mod Tasks
