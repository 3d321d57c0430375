-- ===== src/Lib.antt =====
-- OKXQuant: the gateway that schedules the trading jobs and delivers the notifications, the accounts
-- of its administrators, and the policies of the trading scripts that guard orders and accounting.
--
-- The program and its parts
-- The gateway is one process with a SQLite file. GatewayStore (okxquant_gateway/store.py) keeps the
-- events and their deliveries, the runs of the jobs, the manual requests, the recoveries of failed
-- AI decisions, the model calls and a table of settings. GatewayScheduler
-- (okxquant_gateway/scheduler.py) wakes up once a second: it decides which job is due, submits it to
-- an executor, launches recoveries and manual requests, and records in the store what a job did.
-- okxquant_gateway/ai_recovery.py plans the recovery of a failed decision in the store, and
-- okxquant_gateway/worker.py takes deliveries from the queue and sends them. Which optional jobs
-- there are is read from scripts/runtime_features.py.
--
-- The web backend keeps its administrators and their sessions in another SQLite file
-- (okxquant_backend/admin_auth.py). The trading scripts keep the evidence of their decisions and entry
-- orders in a third (scripts/strategy_evidence.py): scripts/entry_gateway.py begins an intent for each
-- order that it sends, and scripts/maker_fallback.py lets one fallback follow a Maker order.
-- scripts/protection_policy.py says which exchange orders protect a position and where a stop may
-- move, scripts/fill_accounting.py splits the fee of a closed position from the archived fills, and
-- scripts/wait_counters.py counts the cycles in which the trader only waits.
--
-- Files
--   Prelude: Boolean tests, texts, lists over the native numbers, signed integers, and
--     Prelude/Table: SELECT, UPDATE, DELETE, INSERT, INSERT OR IGNORE and ORDER BY on a list of rows,
--     with their lemmas.
--   Gateway/Schema: SCHEMA of store.py, a record for each table.
--   Gateway/Store/Deliveries: publish, claim_due, complete, fail, replay_dead.
--   Gateway/Store/Jobs: request_job, claim_job_request, begin_job, finish_job.
--   Gateway/Store/Recoveries: enqueue_ai_recovery, cancel_ai_recovery, claim_ai_recovery,
--     finish_ai_recovery and the reads of that table.
--   Gateway/Store/Settings: set_state, get_state, get_states, record_model_call and the queries for
--     successful calls. Gateway/Store/Reports: the read-only counts and lists.
--   Gateway/Store/Operations: recover_processing, and `run`, any sequence of calls; a call as data
--     is in Gateway/Store/Call.
--   Gateway/Store/Valid, Frames, Retry, Claims and Reports/Totals: proofs on the store.
--   Gateway/Scheduler/Jobs: JOBS, backup_job_specs, current_jobs. Gateway/Scheduler/Due: due,
--     _scheduled_times and _self_improvement_window_open. Gateway/Scheduler/State: _last_at,
--     _finish_job, _flush_completions, _run_job and _execute. Gateway/Scheduler/Tick: tick and
--     _launch_due_recovery. Gateway/Scheduler/Special: _execute_manual and _execute_recovery.
--     Gateway/Scheduler/Timing, Runs, Launch, Reaped, Launches, Fresh and Special/Closing: proofs on
--     the scheduler.
--   Gateway/AiRecovery: slot_start, eligible_failure, schedule, authorized_environment; Window, Once
--     and Authority: their proofs. Gateway/Worker: the loop of run in worker.py; Round, Tries,
--     Attempts and Refines: its proofs.
--   Backend/Admin/Accounts: SCHEMA of admin_auth.py and the checks of names and passwords;
--     Backend/Admin/Login: verify_password and login; Backend/Admin/Sessions: validate_session, logout,
--     logout_user; Backend/Admin/Manage: create_user, initialize_from_legacy, unlock_user,
--     change_password, set_enabled; Backend/Admin/Actions: any sequence of these calls. Valid,
--     RulerRows, Rulers, Lockout, Absent, Revoked, Grant and Created: proofs on them.
--   Scripts/Entry/Evidence: strategy_evidence.py; Scripts/Entry/Fallback: maker_fallback.py;
--     Scripts/Entry/Calls: the gate of entry_gateway.py and any sequence of calls. Coherent and Once:
--     proofs on them.
--   Scripts/Fills/Records, Match and Reconcile: number, interval and reconcile of
--     fill_accounting.py. Inventory, Sums, Matched, Account and Verified: proofs on them.
--   Scripts/Protection/Coverage and Stop: oco_coverage, trigger_geometry and rounded_stop. Seen,
--     Scanned, Ended, Proven and Stop: proofs on them. Scripts/Waits/Counters: advance and advance_failure of
--     wait_counters.py; Streaks: proofs on them.
--   Scripts/RuntimeFeatures: _profile_from_environment, _read_config, status; FailSafe: its proofs.
--   Tests in each part: the theorems at concrete inputs.
--
-- How state and operations correspond
-- A table is the list of its rows in the order of insertion, and a method of GatewayStore is a
-- function from the database and the time to the database and the result. Each `with
-- self.connect()` block is one atomic transaction, so processes interleave by whole calls: `run`
-- takes any sequence of calls. claim_due reads before it locks; what others commit in between is an
-- argument. AUTOINCREMENT is a counter; an ignored insert takes no number. An exception rolls back: a
-- recovery of an unknown model call breaks a foreign key and leaves the database as it was, and
-- whether SQLite refuses the claim of a manual request is an argument of _execute_manual. In the other
-- calls of the store SQLite itself does not fail.
-- The scheduler's state is the database with self.running, self.retry_after and
-- self.pending_completions; what a submitted job does is a separate step, _execute with the outcome
-- of its process as an argument.
--
-- Conventions and bounds
-- The text times of the database are seconds since the epoch: '%Y-%m-%d %H:%M:%S' in a fixed zone
-- sorts as the time does, and '' and NULL are none. The scheduler's instants are microseconds, and
-- Beijing is eight hours ahead. A time of a schedule is its minute of the day. Numbers that Python
-- could have below zero (priorities, delays) are natural. A return code is zero or not; the code of a
-- signal is any other number. Every loop is structural recursion over the rows, jobs or channels
-- that it goes through, so no fuel is needed.
--
-- Names in the administrators' file are code points; NOCASE folds the ASCII letters. A hex digest or
-- salt stands for its bytes. A JSON object is a record of the keys that the code reads, with the rest
-- as a text. Decimals and floats are multiples of a common unit, so that what is modelled is exact
-- arithmetic: the rounding of a float, and of a Decimal beyond 28 digits, is not.
--
-- Parameters
-- What a channel answers, strptime, the hash of a failure, the random delay, isoformat and
-- fromisoformat, the schedule file, the clocks, the list of backup jobs, the should_run probes of two
-- scripts, the outcome of a subprocess, whether a job's check or submission raises and whether the
-- store takes a completion; the digests (pbkdf2_hmac, sha256 of canonical JSON) and the classes of
-- characters; the parsing of numbers and str.lower; fresh uuids and tokens; and the result of the
-- checks of the entry gate that read no evidence: all are arguments or fields of `Env`, `World`,
-- `Channel`, `Platform`, `Codec`, `Decimals` or `Reader`. SQLite and the threads of the executors are not
-- modelled below that level.
--
-- Not modelled
-- Processes, files and sockets; reads that only reshape rows for display (model_calls,
-- get_user, list_users, export_events, scheduler_snapshot and status); initialize_migration_baseline;
-- save_config; read_archive, which reads the fills from SQL and JSON; the lists of ids in the result of
-- reconcile; the supervisor and the transports of the gateway. initialize_from_legacy and
-- create_decision are one step each, where the code reads in one transaction and writes in the next;
-- _prepare runs under the lock of its account and is one step too. The rest of the repository is not
-- modelled: the indicators and prompts of the trading scripts, the other policies, the backend's
-- routes, the dashboard and the frontend.
pub mod Prelude
pub mod Gateway
pub mod Backend
pub mod Scripts
