-- ===== src/Lib.antt =====
-- A model of the core of paracetamol, the controller of local inference backends.
--
-- The program's parts and their files:
--   internal/gateway/scheduler.go   Scheduler: the goroutine that hands out leases on one backend at
--       a time. `Loop` holds the local variables of `run`; a round of its `for` loop is `round`,
--       which is `progress` (Scheduler.Progress, with `start`, `stop`, `grant` and `serve` for its
--       closures) and then `receive` of one event (Scheduler.Receive, a function for each case of
--       the `select`). The contexts of the waiters and who takes a grant are the environment of a
--       round, and differ from round to round. Scheduler.Client is the side of the callers: what
--       `Acquire` checks and what a `Lease` sends.
--   internal/gateway/observability.go, usage.go and request_reports.go   Ledger: `add` is
--       `requestLedger.Add` with `addUsage`, `recent` is `Recent`, `track` and `untrack` keep the
--       active requests, `lookup_report` is `Lookup` (Ledger.Lookup).
--       Ledger.Usage has the aggregates and what a record adds to them, Ledger.Store the ledger
--       itself. The server calls them when a request arrives, waits for a
--       lease of the scheduler, is sent upstream and ends. Maps are association lists.
--   internal/gateway/completion.go   Completion: the collector of finish reasons, fed with what is
--       decoded of each response; a record of the ledger carries its metadata.
--   internal/gateway/observability.go   Observer: the observer of a response. `observe` and `finish`
--       are `Observe` and `Finish`; Observer.Framing has the lines and events of a stream
--       (`observe_sse` is the loop of `observeSSE` over the parts between newlines), Observer.Json
--       what is read of a decoded response. It feeds the collector of Completion and yields the
--       tokens and timings of a record. encoding/json, strconv and bytes.TrimSpace are the operations
--       of a parameter (`Json`) on raw values.
--   internal/gateway/stream_keepalive.go   Keepalive: `read` is `Read` of the body that inserts
--       comments into a stream. What its `select` receives is a list of wakes: results of upstream
--       reads, ticks and the closed channel, in any order. Keepalive.Framing is `streamBoundary`.
--   internal/gateway/statistics.go, statistics_sqlite.go   Statistics: the queue of events and the
--       goroutine that writes them. Statistics.Queue has `Record` (`record_event`) and the parts of
--       a round of `writeLoop`, Statistics.Account the steps that callers and the goroutine take in
--       any order, with an account of what becomes of the events; the answers of the database are
--       part of a step. Statistics.Event is `statisticsEventFromRecord`, Statistics.Snapshot the
--       loop of `readSnapshot` over the rows that the database selects.
--   internal/gateway/observability.go   Controls: the conflict of reasoning controls, the session
--       identifiers by which the ledger groups records, and the bounded texts that it keeps.
--   internal/gateway/sampling.go   Sampling: `request_thinking` is `requestThinking`, which mode the
--       controls of a request select, and `apply_sampling_defaults` fills in the defaults of that
--       mode (Sampling.Rewrite); the decoding and encoding of JSON are parameters. The server
--       applies it to a request before it asks the scheduler for a lease.
--   internal/gateway/server.go and request_reports.go   Server: `chat` gives what the handler of a chat
--       request does, in order (Server.Chat), as calls of the ledger, the statistics and the scheduler,
--       from what its own calls come to (Server.Exchange). Server.Protocol is the order that it keeps,
--       Server.Together the ledger that it shares with other requests. Server.ReportId has the
--       identifiers of requests, Server.Report is `requestReport`.
--   internal/gateway/registry.go   Registry: `build_registry` and `discover_registry`; the catalog, the
--       receipts and the files are a parameter. The chat handler finds models in the registry.
--   internal/gateway/residency.go   Residency: `model_status` and the probe of the backend's router,
--       over the models of the registry and the allocation of the scheduler.
--   internal/gateway/lifecycle.go   Lifecycle: `start_backend`, `stop_backend` and `preflight`, which
--       the scheduler calls, as computations over calls to the outside; `to_err` is the error as the
--       scheduler sees it. The ticks of `waitReady` until its context is done are a number.
--   internal/podman/podman.go and internal/process/process.go   Podman: the methods of the client that
--       the lifecycle uses (Podman.Client), and the monad of calls to the outside (Podman.Machine),
--       whose answers are a parameter that sees all calls before.
--   internal/textmodel/model.go   TextModel: output limits and reasoning levels.
--   internal/config/parser.go and config.go   Config: the host configuration that the gateway
--       starts with. Config.Values has the strings and the comments, Config.Numbers the integers and
--       the arrays, Config.Parser the lines, sections and settings, Config.Defaults the file that
--       `DefaultContents` writes, Config.Validate the checks of the values. Config.Quoting is a
--       grammar of lines with quotes, apart from the code.
--   Base and Text have the shared helpers: tests on the native numbers, signed integers, results,
--       and texts as lists of code points with what strings, unicode and strconv do with them.
--
-- Numbers: counters of the scheduler are natural numbers; the ledger's sums are `uint64` with the
-- saturation of the source, and its sequence number wraps at 2^64, as do the counts of the
-- statistics. A 64-bit float is a parameter
-- (`Floats`) with the operations that the code uses. `strconv.Quote` takes the verdict of
-- `unicode.IsPrint` beyond ASCII as a parameter, and validation that of `NormalizeGatewayURL`, which
-- stands on net/url.
--
-- Fuel: the loops of the parser that move an index by more than one character run on the length of
-- what they read, since each round takes a character at least; see Config.Fuel. All else is
-- structural recursion.
--
-- Not modelled: in the server the other handlers, headers and logs; in the lifecycle the arguments of
-- the command that starts a container and the copying of logs; the contents of the catalog, downloads,
-- the SQL statements of the statistics and the command line, which are input and output for the most
-- part; in the registry the fingerprint; in the observer the
-- inspection of requests; in the keepalive the goroutine that reads and `Close`; in the statistics
-- the opening of the database and the merge of a batch; in the ledger the observed controls, the
-- completion metadata and `Snapshot`; in the configuration the reading of the file and the
-- precedence of flags and environment. Error texts are constructors, and the error of a value stands
-- for itself where the source wraps it.
mod Base
mod Text
pub mod Scheduler
pub mod Config
pub mod Ledger
pub mod Completion
pub mod Controls
pub mod TextModel
pub mod Observer
pub mod Keepalive
pub mod Statistics
pub mod Sampling
pub mod Podman
pub mod Lifecycle
pub mod Server
pub mod Registry
pub mod Residency
