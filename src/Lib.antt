-- ===== src/Lib.antt =====
-- The double-entry bank, a ledger behind an HTTP interface. A request goes through the CORS
-- middleware and the router of cmd/main.go and the token middleware of internal/api/middleware.go
-- to a handler of internal/api/handler.go; the handler checks who owns the account and calls the
-- service of internal/service/ledger.go; the service posts two opposing entries and updates two
-- balances in one transaction of internal/db/store.go, with the queries of postgres/sqlc over the
-- tables of postgres/migrations.
--
-- The files:
--   Base, Int, Text   shared names, signed integers over the native numbers, strings.TrimSpace
--   Runes, Headers    texts as lists of code points with what strings, strconv and net/http do to
--                     them, and the headers of requests and responses
--   Money             shopspring/decimal and the text of NUMERIC columns, as parameters
--   Errors            Go's errors as values: the sentinels, wrapping, errors.Is and errors.As
--   World             the tables, the environment and the monad of functions that use the database
--   Sqlc              postgres/sqlc and the SQL of postgres/queries: Models, Tables (the constraints
--                     of the schema), Migrations (postgres/migrations, up and down), Accounts,
--                     Entries, Users; the lemmas in Inversion, Balances, Lookup, Calm, Runs and
--                     Listing
--   Store             internal/db/store.go: ExecTx is exec_tx, execTxOnce is exec_tx_once, retryWait
--                     is retry_wait; the theorems in Backoff, Atomic, Retry, Protocol (the loop as a
--                     protocol of attempts and waits) and Waiting
--   Service           internal/service/ledger.go: Deposit, Withdraw, Transfer and ReconcileAccount;
--                     the invariant in Invariant, what a movement does in Posting, Movements and
--                     Effects, the theorems in Guarantees, Outcome, Reconcile, History, Migrated and
--                     Waiting; Running, Ready, Success and Total are about operations that no call
--                     fails; Bank is an abstract bank, with which Refines compares the tables
--   Api               internal/api: Json and Amount (the bodies of requests), Reply (dto.go,
--                     mapper.go, response.go), Auth (middleware.go), Handling, Users, Accounts,
--                     Movements and Listing (handler.go), Router (the handlers behind newRouter's
--                     routes), Wire (the JSON of the replies); the theorems in Reading and Preserved
--                     (what a handler keeps of the tables), Requests, Denied, Spending, Disclosed,
--                     Shown, Confidential and Callers (what a caller is shown), ReadBack, Admission,
--                     Tokens and Amount/Accepted, and what is assumed of tokens in TokenLaws; Kept,
--                     Answered and Ensured carry properties from one step of a handler to the next
--   Docs              docs/docs.go: the operations and definitions of the published document;
--                     Operations gives the one of each route, Conformance says when a reply is one
--                     of those that it lists; the theorems in Steps, Bodies, Listed, Replies and
--                     Served
--   Cors              internal/api/cors.go: the middleware as a function from the headers of a
--                     request to those of the response; the theorems in Wildcards and Matching
--                     (origins against patterns), Replies and Permission (which responses carry the
--                     permission), Echo, Listing and Repeated (the header list that a preflight
--                     repeats), and Allowing
--   Startup           cmd/main.go: parseAllowedOrigins, resolveDBURL and main, with whether
--                     ListenAndServe fails; the theorems in Origins, Admitted, Address and
--                     Permission
--   Http              cmd/main.go, newRouter: the table of routes, requestID, the middleware in its
--                     order, the answers to unmatched paths and methods, and health; Routes says
--                     what is assumed of gin; the theorems in Allow, Kept, Answers and Deployed
--   Tests             a small instance of every parameter, and the theorems at concrete inputs
--
-- How the code is modelled. A function that talks to the database takes the world to a result and a
-- world: the tables, the number of calls made, and the time slept. Each call has a number, by which
-- the environment says what it meets: an error of the server or the connection, a lost answer to
-- COMMIT, a context that is done. A handler is the same with a reply in place of an error. A money
-- column is an integer of ten-thousandths, with the range of NUMERIC(19,4) and the checks of the
-- schema. Times and UUIDs are numbers. The loops of the source are structural recursion: ExecTx
-- makes at most ten attempts, as the source does, so no fuel is needed; a loop over rows runs over
-- their list.
--
-- What is assumed. Transactions run one after another, which the SERIALIZABLE isolation of the
-- source promises; that one of them conflicts is an error that any call may meet. A rolled back
-- transaction leaves no trace, also where the connection is lost. The locks of SELECT FOR UPDATE
-- change no result. Of several rows that LIMIT 1 may take without an order, the first listed one is
-- taken. The decimal package, the texts of numbers, bcrypt, the tokens, the clock, uuid and strconv
-- are parameters; what is assumed of decimals is the record DecimalLaws, of tokens the record
-- JwtLaws (on tokens that carry a private claim and exp, and no other), of gin's matcher the record
-- GinLaws, which small instances in Tests satisfy, of COMMIT the predicate NoLostConflict, and of
-- new ids the predicate IsFresh. A text of Go is taken as its code points, as if it were valid
-- UTF-8; case is exact on ASCII, and that of other code points is a parameter.
--
-- What is not modelled. Logging but for the identifier and the path of a request, the text of JSON,
-- the headers of replies other than those of the router and of CORS, the loading of .env, the
-- timeouts of the HTTP server, recovery from a panic, the pages of http-swagger, the general
-- information and the security definition of the document, and the handles of postgres/sqlc/db.go
-- and querier.go, which have no logic of their own. An amount is never a float64, since the
-- decoders use json.Number. A body is taken as the JSON value that its text stands for, and a
-- malformed one as an error.
pub mod Base
pub mod Int
pub mod Text
pub mod Runes
pub mod Money
pub mod Errors
pub mod World
pub mod Sqlc
pub mod Store
pub mod Service
pub mod Headers
pub mod Cors
pub mod Api
pub mod Docs
pub mod Startup
pub mod Http
pub mod Tests
