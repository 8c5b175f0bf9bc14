-- ===== src/Lib.antt =====
-- TransactGuard, a platform that scores card and transfer transactions for fraud.
--
-- The backend is an Express application (backend/src/app.js) over Postgres (backend/prisma), Redis and
-- a BullMQ queue. Accounts log in and get tokens (modules/auth, utils/tokens.js); transactions are
-- scored one by one through a service over HTTP (modules/predictions) or in batch jobs, which are
-- split into chunks that workers take off a queue (modules/jobs, workers, config/queue.js); flagged
-- transactions are reviewed as cases (modules/cases). Every service throws an ApiError, which
-- middleware/errorHandler.js turns into an answer.
--
-- The parts, and the files that model them:
--   Prelude      names of the libraries, Boolean tests, lists, sets of ids, the interface `Table`.
--   Errors       backend/src/utils/response.js: ApiError, and `Result`, what an operation comes to.
--                Errors/Raise has the static helpers, Errors/Handler middleware/errorHandler.js.
--   Schema       backend/prisma/schema.prisma: the rows (Schema/Rows) and `World`, the state that the
--                services read and write: five tables, the audit log and the messages on the queue.
--   Queue        backend/src/config/queue.js: `chunk`.
--   MlClient     backend/src/modules/predictions/mlClient.js: `predict_single` is predictSingle.
--   Predictions  predictions.service.js: `score_and_persist` is scoreAndPersist.
--   Jobs         backend/src/modules/jobs/jobs.service.js: createJob, retryJob; Jobs/Counters has the
--                worker's half, and Jobs/Counters/Run the runs of a job as sequences of its calls.
--   Worker       backend/src/workers/batchScoring.worker.js: processChunk and the failure handler.
--   Cases        backend/src/modules/cases/cases.service.js: updateCase; Cases/Backfill backfillCases,
--                Cases/Counts getCaseCounts.
--   Tokens       backend/src/utils/tokens.js.
--   Auth         backend/src/modules/auth/auth.service.js, config/redis.js (the denylist) and
--                middleware/auth.js, requireRole.js.
--   Simulator    backend/src/modules/simulator/simulator.service.js, cut at each await.
--                Simulator/Runs has the sequences of events, Simulator/Runs/Overlap two starts at once.
--   Imports      backend/src/modules/transactions/paysim.mapper.js; Imports/Upload is
--                importTransactionsFromCsv of transactions.service.js.
--   Transactions softDeleteTransaction, getTransactionById and, in Transactions/Create,
--                createTransaction of the same file.
--   RateLimit    backend/src/middleware/rateLimit.js and demoAccountLimit.js.
--   Listing      the listings of the services: Listing/Filters has their where clauses,
--                Listing/Endpoints the operations, Listing/Export streamPredictionsForExport.
--   Realtime     backend/src/realtime, and backend/src/config/socket.js: Realtime/Rooms has the
--                handlers of a socket, Realtime/Handshake authenticateSocket.
--   Analytics    backend/src/modules/analytics/analytics.service.js; Analytics/Buckets has getTrend,
--                Analytics/Network getNetwork, Analytics/Scatter getScatter, Analytics/Geo getGeoRisk.
--   Middleware   backend/src/middleware/validate.js and upload.js, modules/health.
--   Config       backend/src/config/env.js.
--   Frontend     Frontend/Session is frontend/src/lib/api.js and store/auth.js, Frontend/ColdStart the
--                hint of lib/api.js, Frontend/Permissions lib/permissions.js,
--                Frontend/RowPredictions hooks/useRowPredictions.js,
--                Frontend/Toasts store/toast.js.
--   Examples     each result at a concrete input, over a database of lists.
--
-- An operation is a function from the state to its result and the state after it; a function and its
-- counterpart have the same name, in snake_case here and in camelCase there. A key (a UUID) and an
-- instant are numbers; money is in hundredths. The time, the key that the database gives to a new row
-- and whether an audit row can be written come with the request (`Ctx`). A call of Prisma is spelled
-- out over `find`, `put` and `find_ids` of a table; raw SQL is read as what it selects from the rows.
-- Where two calls of one operation may be separated by those of another, Jobs/Counters/Run and
-- Simulator/Runs take the calls apart; the other operations are modelled as they run alone. The order
-- in which a query returns its rows is an argument of each call, since the columns it sorts by are not
-- unique. A SET of the denylist that times out stays queued in the Redis client and may be run later;
-- the model of the call ends with its refusal.
--
-- Not in the repository, and parameters with their documented behaviour: Postgres with Prisma
-- (`Database`, `OrderBy`, and `Store` for a bulk insert), jsonwebtoken (`Jwt`), bcrypt (`Bcrypt`),
-- Redis (`Redis`, `Counters`), Socket.IO (`SocketIo`), JavaScript's text functions and the hash
-- (`Texts`), the CSV parser and fetch (arguments).
--
-- Fuel: `chunk_from` takes as many rounds as there are items, since every round with a positive size
-- uses up one; the other loops are recursions on a list.
--
-- Not modelled: the wiring of Express, logging and the connections to Redis, so also which published
-- messages arrive (Redis may lose one); the cache of TanStack Query; the pages and components
-- of the frontend, which render; the scoring service itself, which the backend sees over HTTP only.
-- Messages of errors are text for a reader and are left out.
pub mod Analytics
pub mod Auth
pub mod Cases
pub mod Config
pub mod Errors
pub mod Examples
pub mod Frontend
pub mod Imports
pub mod Jobs
pub mod Listing
pub mod Middleware
pub mod MlClient
pub mod Predictions
pub mod Prelude
pub mod Queue
pub mod RateLimit
pub mod Realtime
pub mod Schema
pub mod Simulator
pub mod Tokens
pub mod Transactions
pub mod Worker
