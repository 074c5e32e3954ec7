-- ===== src/Lib.antt =====
-- Verification of atoha, a Go library that executes one physical action through a provider and
-- keeps what is known about it as facts in an append-only journal.
--
-- The program's parts and their models:
--   Core        package atoha at the root (action.go, event.go, observation.go, outcome.go,
--               provider.go, verification.go): values and their validating constructors. A file of
--               Core/ has the name of the source file; Core/Identity is the three helpers at the
--               end of action.go. Accessors are the fields of the records. Contracts is about the
--               values that constructors return.
--   Errors      the sentinels, execution/errors.go, and errors.Is and errors.Join of Go. Instant,
--               Context and Streams are what is used of time, context and io.
--   Eventlog    eventlog/memory/log.go. Eventlog/Fact has `equal` and `equalAction`;
--               Eventlog/Memory the state and the methods, each under the mutex and so one step;
--               the modules below it are about what a batch leaves (Holding, Append), a call as a
--               whole (Atomic), the invariant (Invariant), and sequences of calls (Runs, Claims,
--               Intents; Maps has lemmas on the two maps). Eventlog/Rows, Database and Sqlite are
--               eventlog/sqlite/log.go: the rows of the tables, the database as a parameter with
--               what its statements do, and the methods, by what they do (Opening, Appending,
--               Beginning, Reading). Below Sqlite, RoundTrip is about a row that is read back,
--               Represents says when the tables hold what a memory log does, Kept, Appends and
--               AppendAll, Claiming, Intents, Claimed and BeginAttempt, and Readers are about
--               single methods, BeginAtomic about the calls that do not claim, Reliable and
--               ReliableBegin about a database that does not fail by itself, and Runs about
--               sequences of calls.
--   Projection  projection/attempt.go: the view of an attempt and `Apply`. Projection/Claims says
--               what a set of facts claims, without an order; Replay, Order and Verdict relate the
--               two.
--   Execution   package execution: Authorization and Recovery (execution/recovery.go), Payload and
--               Events (payload.go, events.go), Ports (journal.go and the interfaces of
--               provider.go), Attempt and Execute (execute.go), Query (query.go), Evidence (the
--               last two builders of events.go), Assessing and Verify (verify.go). Setup has the
--               constructors of the use cases. MemoryJournal makes the memory log a journal.
--               Protocol, Kinds, Filed, Filing, Told, Agreeing and Agreement are about the calls
--               and the records of `execute`, Naming about the attempt that it returns, Spending
--               and Once about its calls of the provider over many requests; Inspect and Reading
--               about the queries; Recovering and Recovered about recovery; Telling, Assessed,
--               VerifyFiling, VerifyRecords, VerifyGuards, Silence and VerifyNeutral about Verify.
--   Http        adapter/httpapi/handler.go: what each handler answers to a request that is decoded.
--               Http/Duplicate and Http/Missing are about attempts claimed already, and unknown.
--               Http/Serving has the routes, ServeHTTP and decode; Bodies is about decode, and
--               Access about the requests that may change anything.
--   HomeAssistant  provider/homeassistant: Translator, Client, Provider and Verifier have the names
--               of the source files, and Setup is `New`. Bindings and Requests are about the
--               translator, Bounds about what is kept of a response, Telling and Dispatching about
--               the results of Dispatch, Selection, Verdict and Freshness about the verifier: the
--               observation that it takes, what it concludes from one, and both.
--   Server      cmd/atoha-server/main.go: the configuration; Server/Startup is about it.
--   Checks      runs on concrete data and instances of the theorems.
--
-- The use cases take a Journal and Ports: what an admitter, a resolver and a provider return, and
-- the clock, are any functions. A World holds the journal's state, how often the clock was read,
-- and the calls of the ports in their order. Each early return of `execute` is a function of its
-- own in Execute, in the order of the code.
--
-- What stands for what: a string is a String (valid UTF-8), []byte a list of numbers, where nil and
-- empty are one; a map is a function to Option; uint8 statuses are data types with a constructor
-- for the values past the constants; time.Time is an instant, counted from the earliest one so that
-- it is a natural number, and a location, without the monotonic reading; a context is what its Err
-- returns when it is asked. SHA-256, hex, encoding/json and RFC 3339 are the parameter Codec. The
-- text of an error is symbolic: its format and its arguments. No loop needs fuel: all are over
-- finite slices.
--
-- The SQLite log runs on an Engine, whatever database/sql and its driver do, of which IsDatabase
-- states the documented behaviour: which rows a statement reads and adds, that a rollback, or a
-- commit that fails, leaves the tables as they were. Its calls are one step each, since the log has
-- one connection; other processes on the same file are left out. TimeText is RFC3339Nano, of which
-- IsTimeText states that times of the years 0 to 9999 are read back. Checks/Engine has a database
-- and a text of times for which the hypotheses hold. The Home Assistant client runs on a Transport,
-- which is net/http; entities are the bytes of their names.
--
-- A request's path is the list of its parts between slashes. The whole body is there when a request
-- is served; what reading it ends with is the stream's failure. encoding/json is a parameter of the
-- handler. A Site is what the use cases share: the journal, the clock, and the calls of their
-- ports.
--
-- Not modelled: nil receivers, but for the SQLite log, and the check of httpapi.New for nil use
-- cases; `run` of the server command; the redirects, the headers and the bytes of HTTP responses;
-- how a URL is written; panics of ports and crashes between two calls.
pub mod Prelude
pub mod Errors
pub mod Instant
pub mod Context
pub mod Streams
pub mod Core
pub mod Eventlog
pub mod Projection
pub mod Execution
pub mod HomeAssistant
pub mod Http
pub mod Server
pub mod Checks
