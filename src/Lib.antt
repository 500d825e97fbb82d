-- ===== src/Lib.antt =====
-- A verification library for the CDR fraud detector, which finds three kinds of fraud in a stream
-- of call detail records: too many calls (velocity), calls from places too far apart
-- (impossible travel), and too much spent on premium numbers (IRSF).
--
-- The parts of the program, and the file of each:
-- - Cdr: internal/cdr/cdr.go, the records, the topics and the names of the rules.
-- - Rules: internal/rules (Velocity.Evaluate, ImpossibleTravel.Evaluate, IRSF.Evaluate are
--   Rules.Velocity.evaluate, Rules.ImpossibleTravel.evaluate, Rules.Irsf.evaluate).
-- - Geo and Tariff: internal/geo/geo.go and internal/tariff/tariff.go, the catalogs with their
--   lookups, and the distance of two points.
-- - Subscriber: services/subscriber/main.go, the handlers GetCell and GetTariff.
-- - Fraud: services/fraud. Fraud.Cache is cache.go, Fraud.Retry is dlq.go, Fraud.Windows is
--   window.go, spend.go and lastloc.go, Fraud.Processor is main.go: `handle` with its checks,
--   Settings for what main reads from the environment, Loop for one round of the consume loop,
--   Commits for two in a row. Fraud.Processor.Reference joins the caches with the handlers of
--   Subscriber and the two catalogs, and Detection, Spending and Travelling are the three rules over
--   the history of a subscriber. Fraud.Main is main, from EnsureTopics to the end of its loop.
--   Fraud.Windows.Mirror compares a window with the one of the playground, Fraud.Windows.Spend is
--   the window of costs.
--   Fraud.Services is what these call outside of the repository, Fraud.Action their chains of errors.
-- - Platform: internal/platform/platform.go, Getenv.
-- - Playground: cmd/playground/main.go, the whole decision engine with its state in maps. `Engine`
--   is the struct `engine`; a method takes the engine and returns the new one with its result.
--   `score` calls the rules and the two catalogs, and `call` is the three callbacks of the page.
-- - Stream: internal/stream/stream.go, Brokers, createTopics, EnsureTopics, and the client
--   settings of NewWriter and NewReader. Stream.Polls says how the retry loop ends; connectDB of the read API has the same loop.
-- - ReadApi: services/read-api/main.go, which takes the alerts of Fraud from Kafka into Postgres and
--   lists them over HTTP: connectDB, consumeAlerts (`consume_round` is a round of its loop),
--   storeAlert, recentAlerts and the handlers of routes. ReadApi.Startup is the start-up of main,
--   ReadApi.Table the table.
-- - Generator: services/generator/main.go, the source of synthetic records: makePool, the functions
--   that choose fraudulent cells and callees, and the cases of main's select (`on_normal` to
--   `on_irsf`). Generator.Settings is what main reads from the environment, Generator.Main is main,
--   with the tickers that fire before its context is done as an argument.
-- - Loadgen: cmd/loadgen/main.go, randomCDR, the settings and the loop of one worker. Loadgen.Helpers
--   has its own newID, getenv, atoi and seconds, and the writer. Loadgen.Turns has all workers: a
--   worker takes a turn between two operations on what they share, and `Turns` are any turns in any
--   order, with changes of the world outside in between.
-- Base holds the shared helpers: lists, ℤ, int64, strings and maps. Clock is package time.
--
-- How the program is modelled:
-- - float64, package math and the formatting of numbers are the interface `Go`, an argument of the
--   code that uses them. Go.Laws names what a theorem needs of them, Go.Sample is an instance.
-- - An instant is its number of nanoseconds since 1970, a duration is an int64 of nanoseconds, and
--   int64 arithmetic wraps around (Base.Int64). The milliseconds of an instant are wrapped too.
-- - A Go map is a list of pairs (Base.Dict). The order in which `range` visits it may be another one
--   whenever the loop is executed, so each execution of such a loop has its own argument for it (`Order`,
--   and in a call of `score` the `Moment` of the rule).
-- - A string is the list of its bytes.
-- - The loops over maps, catalogs and attempts are structural recursion, so no fuel is needed: the
--   retry loop recurses on the number of attempts that are left.
-- - What Kafka, gRPC, the clock and the handler do in Fraud.Retry are operations on a state of the
--   outside world, which the environment `Env` gives.
-- - Redis, Kafka, gRPC and encoding/json are operations of `Services` on such a state. Nothing is
--   assumed of them but, where a theorem names it, that Redis keeps a key that was set (KeepsKeys)
--   and its value (StoresLocations, with what encoding/json reads back), what it documents of sorted
--   sets and of EXPIRE (HasSortedSets and RangesAll, with the entries of a set as a list), what Kafka documents of
--   committed offsets (TracksOffsets), that a gRPC call that succeeds returns the reply of the handler
--   (AsksSubscriber), and that printed costs parse (PrintsCosts).
--   The constant fields of the struct `processor` are `Processor`, its caches and the outside world
--   are `Memory`.
-- - An error that a function returns ends its chain of calls and keeps the changes made before it.
-- - The consume loops have no end; `round` and `consume_round` are their bodies, with what the loop
--   does next. Fraud.Main cuts the loop off after a number of rounds, and its theorem holds for every
--   number. `Reached` are the states between two rounds. A worker of the load generator by itself is
--   cut off in the same way; the interleaved workers need no bound, and workers-return gives one for
--   the time after the context is done.
-- - The loop around storeAlert has no bound. Its model has fuel and answers `pending` when it is used
--   up; consume_round-commits says that any fuel above the number of failures is enough.
-- - Postgres is a parameter. What it documents of the table, ON CONFLICT and LIMIT is HasTable and
--   Limits, where a theorem names it; a failed statement may have taken effect.
-- - A computation of the generators returns an Option, of which `none` is a panic. The numbers that
--   math/rand/v2 returns are a parameter, with its documented ranges in IsRandom, and so is the greatest
--   length for which make does not panic.
--
-- Not modelled: logging, metrics, the HTTP and gRPC servers and signals (I/O); gen/cdr/v1 (generated
-- code); encoding/json, whose results are arguments; the mutex of the cache, which one goroutine
-- uses; the closing of clients when a main returns; the end of the process for want of memory; the end of a
-- time to live, which the theorems on the windows exclude by the states that they range over.
pub mod Base
pub mod Go
pub mod Clock
pub mod Cdr
pub mod Platform
pub mod Rules
pub mod Geo
pub mod Tariff
pub mod Subscriber
pub mod Fraud
pub mod Playground
pub mod Stream
pub mod Generator
pub mod Loadgen
pub mod ReadApi
mod Tests
