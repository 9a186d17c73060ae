-- ===== src/Lib.antt =====
-- A model of the NodeHive GPU platform's control plane, with theorems on what its services keep.
--
-- The control plane (gpu-platform/internal) is a set of services over one PostgreSQL database. The
-- Workloads service launches, stops and sweeps workloads: it places them on idle GPUs, or queues them,
-- and writes commands into an outbox in the same transaction. The delivery engine of the agent gateway
-- takes the commands to the agents, which report states back. Billing meters the time that workloads
-- run, Identity keeps the members of organizations, and a request limiter guards the public endpoints.
--
-- The tables are lists of rows in a Store, and a query or an update is one of the functions of Sql, with
-- its WHERE as a Boolean test. A transaction that succeeds is a function from store to store, and one
-- that fails returns an error and no store, so nothing of it is kept. Realtime hints, nudges, audit
-- records and started goroutines are a trace of effects. An id is a number, a time a number of
-- nanoseconds.
--
-- Files and what they model:
--   Prelude, Sql, Text        shared names, tables, and strings as lists of code points
--   Domain, Store             internal/domain/domain.go and the columns of the tables
--   Commands                  internal/commands/commands.go; Commands/Lifecycle has its theorems
--   Workloads/ImageRef        imageRefPattern as a regular expression with derivatives
--   Workloads/Request         LaunchRequest and validateLaunch
--   Workloads/Place           placeAndAttach and attach; Claims and Attach have the lemmas
--   Workloads/Outbox          enqueueLaunch and enqueueStop
--   Workloads/Launch          Launch; Outcome has its theorem, Stored and Commits the lemmas
--   Workloads/Stop            Stop; Outcome has its theorem
--   Workloads/Status          UpdateStatus and RecordStageEvent; Keeps, Final, Duplicate, Resurrect
--   Workloads/Queue           internal/workloads/queue.go; Listing has ListQueue, Promote the theorem on
--                             rounds, Attempts and Launches its lemmas
--   Workloads/Sweep           SweepStuck; Keeps and Frees have the theorems
--   Workloads/Invariant       the invariant of workloads, GPUs and attachments
--   Workloads/Steps           the histories of the operations
--   Gateway/Dispatcher        internal/agentgw/dispatch.go; Channels has the theorems
--   Gateway/Delivery          internal/agentgw/delivery.go; Attempted and Loop have the theorems
--   Gateway/Reports           status reports in internal/agentgw/server.go, and the agent's messages;
--                             RoundTrip
--   Gateway/Streams           Enroll of internal/agentgw/server.go, and internal/agentgw/auth.go;
--                             Credentials
--   Nodes                     internal/nodes/repo.go; Enrollment and Verdicts have the theorems
--   Nodes/Remove              RemoveNode; Removal has the theorem, Remove/Keeps the invariant
--   Nodes/Tokens              enrollment tokens in internal/identity/impl.go
--   Inventory                 internal/inventory/impl.go; Reported has the theorems
--   Ops/Budgets               internal/ops/budgets.go; Exceeded
--   Ops/Reservations          internal/ops/reservations.go; Booking and Histories have the theorems,
--                             Races the one on two requests at once
--   Hub                       internal/events/hub.go; Acts has its histories, Queues and Listening the
--                             theorems
--   Agent/Tracker             cmdTracker of agent/client/client.go; Ops has its histories, Remembered,
--                             InFlight and Kept the lemmas, Once the theorem
--   Agent/Handler             handleCommand, sendResult and reconcileWorkloads; Answers
--   Agent/Reconnect           the decision to enroll and the reconnect delay of Run
--   Identity/Members          the role operations of internal/identity/memberships.go; Owners, and
--                             Spares with its lemmas
--                             Members/Steps has the histories of the operations
--   Identity/Sessions         internal/identity/sessions.go; Rotation has the theorems
--   Identity/Devices          DeviceInfo, normalized and parseUserAgent; Labels
--   Identity/ApiKeys          internal/identity/apikeys.go; Entitlement
--   Identity/JoinCodes        JoinViaCode and joinOrgTx; Uses
--   Billing/Ledger            the credit ledger of internal/billing/impl.go; Balance
--   Billing/Meter             MeterWorkload and MeterRunning; Slices
--   Billing/Admission         AuthorizeLaunch and scopeSpendINR; Admits, and Permits with its lemmas
--   RateLimit                 internal/httpapi/ratelimit.go; Admits and Windows
--   Tests                     the theorems applied to small organizations
--
-- The invariant (Workloads/Invariant) says that the ids of GPUs are keys, that a GPU has one active
-- attachment at most and an idle one none, that an active attachment belongs to an active workload, and
-- that a queued workload has never had a GPU.
--
-- Loops are recursion on the list that they range over, so no fuel is needed. The delivery loop alone is
-- on fuel: its theorem gives enough. Other transactions appear as what an unlocked scan sees and as the
-- rows that they have locked. A history is a sequence of operations, each on the store that the one
-- before left.
--
-- Parameters: PostgreSQL's ILIKE, the order of its texts and the text of an error, the digits of a UUID,
-- the biller's admission check, the outcome of sending a command, SHA-256 and the random tokens,
-- strings.ToLower, the container runtime of the agent, and which users are active. An id that is drawn
-- twice, and with it a violated primary key, is not a case of the model. Errors of the
-- database connection are not modelled: a transaction that they end is rolled back. Money is exact, in a
-- unit that divides every amount; the rounding of float64 and of numeric columns is not modelled. Not
-- modelled either are passwords and JWTs, invitations, alerts, the agent's host, streams
-- and the HTTP handlers.
pub mod Prelude
pub mod Sql
pub mod Text
pub mod Domain
pub mod Store
pub mod Commands
pub mod Billing
pub mod Workloads
pub mod RateLimit
pub mod Gateway
pub mod Identity
pub mod Nodes
pub mod Agent
pub mod Hub
pub mod Inventory
pub mod Ops
pub mod Tests
