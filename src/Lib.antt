-- ===== src/Lib.antt =====
-- Ordely: order confirmation by telephone. A shop's pending orders are called by a voice agent; what
-- the customer says decides the order. This library models the backend's core, backend/src, over the
-- tables of backend/prisma/schema.prisma.
--
-- The parts, and the files that model them:
--   Store           the rows and tables of backend/prisma/schema.prisma (boutiques, orders, calls),
--                   the queries that several services share, and the events sent to a shop's room
--   Voice.Rules     backend/src/voice/voice.rules.ts: decideOutcome, mergeTranscript, withinCallHours, taskIdFor,
--                   callIdFrom
--   Voice.CallCallback    backend/src/voice/callbacks/call-callback.service.ts: handleEvent, handleResult
--   Voice.VoiceCallbacks  backend/src/voice/voice-callbacks.service.ts: event, transcript, recording, result
--   Voice.VoiceDispatcher  backend/src/voice/voice-dispatcher.service.ts: tick, expireStale
--   Voice.RingioAdapter  backend/src/voice/adapters/ringio.adapter.ts: the agent's processes
--   Voice.Artifacts  backend/src/voice/artifacts/call-artifact.service.ts: transcript entries and
--                   recordings
--   Orders          backend/src/orders/orders.service.ts: create, update, remove, parseCsvLine, and backend/src/common/csv.ts;
--                   Orders.Import: importCsv and mapColumns; the lists are left out
--   Calls.Policy    backend/src/calls/orchestration/call-orchestration-policy.ts: nextAttemptAt,
--                   nextAttemptNumber, isWithinCallWindow
--   Calls.Service   backend/src/calls/calls.service.ts: queue, queueAllPending, retryAfterReview, update
--   Calls.Dispatcher      backend/src/calls/orchestration/call-dispatcher.service.ts: dispatchCall
--   Calls.Orchestrator    backend/src/calls/orchestration/call-orchestrator.service.ts: pollOnce,
--                   expireStaleCalls
--   Billing         backend/src/admin/plans.ts, backend/src/billing/billing.rules.ts, backend/src/billing/billing.service.ts,
--                   backend/src/billing/payment-provider.ts
--   Boutiques       backend/src/boutique/boutique.service.ts: the onboarding of a shop
--   Admin.Health    backend/src/admin/health.ts: healthScore, merchantStatus
--   Admin.Period    backend/src/admin/period.ts: resolvePeriod
--   Reclamations    backend/src/reclamations/reclamations.service.ts: create, updateStatus, findForBoutique
--   Voice.Guards    backend/src/voice/voice-callback.guard.ts,
--                   backend/src/voice/callbacks/call-callback.guard.ts, backend/src/admin/admin.guard.ts
--   Auth            backend/src/auth/auth.service.ts: the accounts. Auth.Sessions: register, login,
--                   changePassword; Auth.Links: verifyEmail, resendVerification, requestPasswordReset,
--                   resetPassword; Auth.Profile: me, updateProfile, updateAppearance, the pictures and
--                   backend/src/storage/image-type.ts; Auth.Guard: backend/src/auth/auth.guard.ts;
--                   Auth.Gateway: handleConnection of backend/src/realtime/realtime.gateway.ts;
--                   Auth.Valid: the unique columns; Auth.Steps: the requests as steps
--   Lifecycle       the life of an order as the services promise it, which System.Evolution compares
--                   with their steps
--   System          the writers of calls and orders as steps on one database
--   Common          tests, lists, tables, the actions that handlers are, texts and signed numbers
--   Tests           tests, and an example of each result that has conditions
--
-- A handler is an action: a function from the state to a result (a value or an HTTP error, whose
-- message is left out) and the state it leaves. A transaction that ends in an error leaves the state
-- it began with. A request that reads and then writes without a transaction (queue and queueAllPending of
-- calls.service.ts) is one step too, so what may run between its awaits is not modelled; nor is the
-- foreign key from a call to its order, which was read in the same step. A table is the list of its rows; a query by `where` and `data` is a test and a
-- function on rows. A callback reads its call before its transaction: that row is an argument, so it
-- may be older than the database that the transaction finds.
--
-- A request of Auth takes its instant and its random values as arguments, and so does the check of a
-- session: its token verifies at an instant, and no longer once it has expired. Resetting a password reads
-- the row of its link first and writes later: `redeem` is the second half, which takes the row as it
-- was read, so that other requests may run between the two.
--
-- Instants are milliseconds since 1970 and amounts of orders are millimes, both natural numbers. A
-- floating-point number is counted in units of 2^-1074. Texts that the code walks are lists of UTF-16
-- code units; other texts are opaque. Decimal digits are printed with the fuel `suc n` for the number
-- `n`: a round divides by ten, so that is enough. A CSV line is read with two rounds more than it has
-- characters, and a round that goes on takes a character. The number that `parseFloat` reads in an
-- import is a parameter; the quantities of `parseInt` are modelled.
--
-- Parameters of the model are the call servers that the voice agent asks (startTask and checkCapacity
-- are parameters of the dispatcher and the orchestrator; Voice.RingioAdapter models them), the time
-- zone's clock, randomUUID, hashing, the random tokens, the signature of sessions, the mail server,
-- the object storage, the reading of a date, and the payment gateway. Left out are the frontend, the controllers, modules and
-- DTO decorators, the contents of mails, Socket.IO, the back office's SQL, the agent's browser
-- runtime, logging and timers.
pub mod Admin
pub mod Auth
pub mod Billing
pub mod Boutiques
pub mod Calls
pub mod Common
pub mod Lifecycle
pub mod Orders
pub mod Reclamations
pub mod Store
pub mod System
pub mod Tests
pub mod Voice
