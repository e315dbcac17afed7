-- ===== src/Lib.antt =====
-- A verification library for the Python services of this repository. It models the job system,
-- three of the warehouse microservices, the observability platform and the backend of the cloud
-- system.
--
-- The job system (distributed-job-processing-system/src/job_system) keeps jobs in one PostgreSQL
-- table. Clients submit through the API; workers claim jobs under a lease, run them with a heartbeat
-- that renews the lease, and report success or failure; a recovery loop takes jobs back whose lease
-- is over.
--   Jobs.Model       models.py: the row `Job`, `JobStatus`; the retry rules at the head of queue.py
--   Jobs.Queue       queue.py, `PostgresJobQueue`: `claim_jobs`, `renew_lease`, `mark_succeeded`,
--                    `mark_failed`, `recover_stale_jobs`, each with its WHERE test, ORDER BY and
--                    assignments; below it, the claims, the ownership rules, the state machine
--   Jobs.Submission  schemas.py (limits), repository.py, services.py and the POST route of
--                    api/jobs.py: submissions with idempotency keys, pages of jobs
--   Jobs.Worker      worker.py: `_maintain_lease`, `_process_job`, one round of `_run_slot`
--   Jobs.System      all of these on one table: an `Op` is one transaction, `run` a sequence of
--                    them in any order, which is how concurrent clients and workers interleave
--
-- The inventory service (production-warehouse-microservices/services/inventory-service/app) keeps
-- the balance of each product in each warehouse with an audit trail of movements.
--   Inventory.Model        models/inventory_balance.py, models/stock_movement.py, schemas/stock.py
--   Inventory.Transaction  the `try ... except: rollback; raise` around each operation, as `atomic`
--   Inventory.Balances     the statements that the operations of services/stock.py share
--   Inventory.Stock        services/stock.py: `receive_stock`, `issue_stock`, `reserve_stock`,
--                          `release_stock`, `transfer_stock`; below it one module for the
--                          behaviour of each, `Ledger` for the invariant, `History` for sequences
--
-- The order service (production-warehouse-microservices/services/order-service/app) keeps orders in
-- its own database and reserves their stock in the inventory service; where a step fails it
-- compensates by calls that undo the earlier ones.
--   Orders.Model    models/order.py, schemas/order.py and the errors of services/order.py
--   Orders          services/order.py: `create_order`, `cancel_order`, `confirm_order`, `get_order`,
--                   with their loops and `except` branches
--   Orders.Client   what these use of `ServiceClient` (services/external.py), as an interface:
--                   calls that answer or raise on a state of the other services, and the contract
--                   for what a reference holds
--   Orders.Stock    the two stock calls of services/external.py over the inventory model and a
--                   network that may lose a request or its answer; it keeps the contract
--   Orders.Prices, Drafts, Lines, Creation, Cancellation, Lifecycle: their behaviour under it
--
-- The warehouse service (production-warehouse-microservices/services/warehouse-service/app) keeps the
-- warehouses under unique codes.
--   Warehouses       models/warehouse.py, schemas/warehouse.py, services/warehouse.py and
--                    api/routes/warehouses.py; a field of a PATCH body is left out, null or given
--   Warehouses.Codes, Kept, Nulls: unique codes, what operations do to the table, null fields
--
-- The observability platform (observability-incident-detection-platform/src/observability_platform)
-- takes telemetry and trace spans of registered services, raises anomalies and incidents, and
-- correlates incidents to a likely root cause.
--   Observability.RateLimit    rate_limit.py, `RateLimitMiddleware.dispatch`: the deque of times per
--                              client, as a function; below it the sliding window as a
--                              specification, the bound on accepted requests, Retry-After
--   Observability.Model, Store db/models.py and schemas/: the rows, and the database with the
--                              correlations
--   Observability.Detection    services/anomaly_detection.py: the metric, log and event rules
--   Observability.RootCause    services/root_cause_analysis.py: scores and the best candidate
--   Observability.Registry     services/service_registry.py, and `_resolve_services` of
--                              services/trace_ingestion_service.py with its cache
--   Observability.Telemetry    services/persistent_telemetry_service.py: one ingestion, from the
--                              items to the incidents, with its batch inserts
--   Observability.Traces       services/trace_ingestion_service.py, trace_query_service.py
--   Observability.Incidents    services/incident_service.py: acknowledge, resolve, query; below it
--                              the state machine, and a race of two requests
--   Observability.Correlation  services/correlation_service.py, correlation_repository.py
--   Observability.System       all of these on one database, in any order
--
-- The backend of the cloud system (cloud-deployed-full-stack-system/backend/app) keeps incidents and
-- accounts, with an audit event for every change.
--   Cloud.Model      models/: incidents, users, audit events
--   Cloud.Audit      services/audit_events.py: change sets, recorded events
--   Cloud.Incidents  services/incidents.py, repositories/incidents.py; below it the replay of the
--                    audit trail
--   Cloud.Users      services/auth.py, repositories/users.py, api/dependencies/auth.py and the token
--                    check of core/security.py
--   Cloud.Dashboard  services/dashboard.py, repositories/dashboard.py
--
-- Common holds what they share: lists, signed integers, sorting, `Table`, the SQL statements on
-- a list of rows with a key, and `Append`, its inserts of whole batches.
--
-- A table is a list of rows; SELECT, UPDATE and INSERT act on it as written in each statement's
-- comment. A transaction is one function from table to table, so that transactions follow one
-- another. In the job system, the inventory and the cancellation and confirmation of orders the
-- code locks the rows that it writes, or tests them again in the UPDATE; rows that are locked at
-- a `skip_locked` query are the argument `locked`. All other code reads without locks: there a
-- function of one table says nothing of requests that interleave. For the look-ups of emails and
-- of warehouse codes the table that was read is an argument of its own, `seen`, and the unique
-- constraint is a test at the write; `acknowledge_read` and `resolve_read` split an operation on
-- an incident in the same way. UUIDs are numbers, since the code only compares and orders them.
-- Times are natural numbers of microseconds; what `datetime.now`, `uuid4` and the slice
-- `[:4000]` return are arguments. JSON documents are their canonical text. Quantities and
-- priorities are Python's signed integers; the range of the column type Integer is a test at the
-- commit of a stock balance, and is left out for the other columns. No function needs fuel:
-- loops run over lists. In the order service a flush or commit may fail (`Faults`), and every
-- call of another service may raise; the contract says that a call that raises has changed
-- nothing or has had its whole effect, as where the answer is lost.
--
-- In the observability platform a monotonic clock gives natural numbers of ticks, `ticks` of which
-- are a second; a float is a natural or signed number of units of which `one` make 1.0, a confidence
-- a number of hundredths; fresh UUIDs of a batch are consecutive numbers; a text built by an
-- f-string is the record of what goes into it. How a commit ends is an argument there and in the
-- cloud backend. The next handler of the middleware (`App`), what the detection uses of Python's
-- numbers and texts (`Python`) and the hashing, tokens and text methods of the accounts (`Security`)
-- are parameters.
--
-- Not modelled: SQLAlchemy, FastAPI and pydantic themselves (string patterns and lengths of the
-- schemas included), httpx and the HTTP statuses between services, the wiring of processes, metrics
-- and logs, the task handlers, the gateway, the metric dashboard and the
-- filtered lists of the observability platform, the searches of the cloud backend, the user
-- interfaces, simulators and scripts, and the projects in other languages.
pub mod Common
pub mod Jobs
pub mod Inventory
pub mod Orders
pub mod Observability
pub mod Cloud
pub mod Warehouses
