-- ===== src/Lib.antt =====
-- Verification of qa-platform-learning: the business services of the backend over their shared
-- repositories, and its automation services.
--
-- The program is a FastAPI backend for test management, defects, pipelines and automation. The
-- business services (projects, test suites, test cases, test plans, executions, defects, snapshots)
-- read and write repositories that they share, each call under one business lock, and check across
-- repositories what a status change, a deletion or an archiving needs. The automation services keep
-- their state in memory behind one asyncio lock per object: a queue of tasks that workers lease, run
-- and settle, a scheduler that enqueues tasks at the times of a cron expression, and a manager of
-- test devices that are leased one at a time. The queue and the devices hand out secret tokens with a
-- lease, take a lease back when its time is over, and refuse a holder whose lease ended.
--
-- Files and code:
--   Common/Tests, Lists, Dict, Lookup, Texts, Result, Holds, Time: tests into Bool, lists, a Python dict as an
--     association list in insertion order, methods that raise and keep what was written before
--     (`Action`, with its do blocks), the rules by which a method's outcome is proved, and instants.
--   Automation/Errors: backend/app/automation/errors.py and the reading of an optional datetime.
--   Automation/Retry, Retry/Bounds: `RetryPolicy` of backend/app/automation/tasks.py.
--   Automation/Tasks/Model: the task models of backend/app/automation/models.py.
--   Automation/Tasks/State, Enqueue, Claim, Recovery, Settle: `InMemoryTaskQueue` of
--     backend/app/automation/tasks.py: its dictionaries, `enqueue`, `claim`,
--     `_recover_expired_locked`, and the calls on one task (`heartbeat`, `complete`, `fail`,
--     `request_cancel`, `acknowledge_cancel`).
--   Automation/Tasks/Invariant, Preserved, Cases, History, Evolution, Lasting, Claims, Leases,
--     Idempotency: proofs about them.
--   Automation/Devices/Model: the device models of backend/app/automation/models.py.
--   Automation/Devices/Manager, Operations: `InMemoryDeviceManager` of
--     backend/app/automation/devices.py: its dictionaries and internal steps, and its methods.
--   Automation/Devices/Invariant, Changes, Preserved, Leasing, History, Expiry, Access,
--     Maintenance, Unheard, Unheard/Calls, Foreign: proofs about them.
--   Services/Errors, Repository, Models, Store: backend/app/core/errors.py,
--     backend/app/repositories/memory.py, the records of backend/app/domain/models.py, and the
--     repositories that backend/app/container.py gives to the services, as one store.
--   Services/Projects, Suites, Cases, Plans, Executions, Snapshots (Operations): `ProjectService`,
--     `TestSuiteService`, `TestCaseService`, `TestPlanService`, `ExecutionService` and
--     `TestCaseSnapshotService` of backend/app/services/projects.py, test_suites.py, test_cases.py,
--     test_plans.py, executions.py and test_case_snapshots.py, one function for each method that
--     changes state.
--   Services/Listing: the list methods of these services.
--   Services/Defects/Model, Operations, Creation, Edits: `DefectService` of
--     backend/app/services/defects.py.
--   Services/Quality/Figures, Summary, Trends: the summary and the trends of `QualityService.report` of
--     backend/app/services/quality.py. Rates, Completion, Buckets, Totals: proofs about them.
--   Services/Reads, and Effects in each service: the calls that only read, and the rules that say
--     which writes a call makes under which guards.
--   Services/Work/Requests: every call of the services on projects, suites, cases, plans, executions
--     and defects as a value, and runs of them. Services/Work/Lockstep, InStep, Kept: plans and
--     executions. Support, Open, Supported: open work and projects. Forests: the suites.
--   Services/Repository/Refinement, Suites/Forest, Suites/Walk, Snapshots/Scope, Contents, Creation,
--     Defects/Lifecycle, Edits: proofs about one service.
--   Automation/Cron/Text, Field, Expression, Search: `_CronField`, `CronExpression` and `_zone` of
--     backend/app/automation/cron.py, with the text functions that they use.
--   Automation/Scheduler/Model: the schedule models of backend/app/automation/models.py, and
--     `TaskQueuePort` of backend/app/automation/ports.py, which any queue may keep to.
--   Automation/Scheduler/Policy, Operations: `InMemoryScheduler` of
--     backend/app/automation/scheduler.py over such a queue, which it calls while it holds its lock.
--   Automation/Scheduler/InMemory: the task queue of backend/app/automation/tasks.py as that port.
--   Automation/Scheduler/Due, Kept, Settled: proofs about the scheduler.
--   Automation/Cron/Firing, Feasibility, Bounds: proofs about cron expressions.
--
-- Choices: a method runs under its object's lock, so a call is one step, and the calls of any number
-- of clients are a sequence of steps. Ids are UUIDs, given as numbers. A datetime with a timezone is
-- an instant in microseconds; one without is told apart, and raises. Floating-point numbers of the
-- retry policy are exact fractions. What the services take from outside is a parameter: the clock's
-- reading, fresh ids and tokens, `json.dumps`, SHA-256, `str.casefold`, the entropy source. Copies
-- that a method returns are values. Loops run over lists, or on the fuel the code itself has.
--
-- The walks over parents run on fuel, one round more than there are suites, since no suite is visited
-- twice. A parsed id, a payload that its validators accepted and a comment that the audit trail
-- accepts are taken as given; the database repositories and the cache are not used.
--
-- Not modelled: the sorted copies that list tasks, devices, schedules, fires and audit events; the
-- percentages and the figures by suite of the quality report; comments, attachments, identities and
-- data transfer; the HTTP routes, the SQL repositories, the persistent runtime, the pipeline and the
-- laboratory, and the frontend.
pub mod Common
pub mod Automation
pub mod Services
