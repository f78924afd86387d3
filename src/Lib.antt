-- ===== src/Lib.antt =====
-- elchi-shield inspects HTTP traffic for Envoy as an external processor (ext_proc). For each
-- stream the server takes a transaction from a pool, pins the configuration, and answers Envoy's
-- messages: headers, body chunks and trailers of the request and of the response. A fixed prelude
-- finds the policy; the policy's own stages then run on the headers and, once it is buffered, on
-- the body. Every stage returns an action, and the executor turns the actions into one decision.
--
-- The files, with the code that each is about (paths from the repository's root):
--   Decision    internal/decision/decision.go: actions, severities, decisions, verdicts
--   Matcher     internal/matcher: Host, Method, ContentType, Path, Header, Normalize
--   Engine      internal/engine/engine.go: a set of engines and how their answers are joined;
--               Engine.Xfcc and Engine.RateLimit are internal/engine/xfcc and ratelimit
--   Policy      internal/policy/policy.go, with FromResolved in Policy.Resolved; Policy.Resolver is
--               resolver.go, and Policy.Compile compile.go
--   Config      internal/config: the types of a file (types.go), resolution (policy.go),
--               Config.Merge (merge.go) and Config.Validate (validate.go, a policy up to its DLP
--               and engines blocks); Config.Routes (hosts and matches of routes) and Config.Duplicates
--               (hosts across files) are of validate.go too
--   Runtime     internal/runtime: snapshots, the store, a reload and its status; Runtime.Retire is
--               about all streams at once, with the retirer of cmd/elchi-shield/main.go
--   Transaction internal/pipeline/transaction.go: the state of one HTTP transaction
--   Pipeline    internal/pipeline/pipeline.go, stage.go, action.go, result.go: the executor
--   Stages      internal/pipeline/stages: the stages, and the catalog that builds pipelines
--   ExtProc     internal/server/extproc: budget.go, and processor.go in Session (messages, effects),
--               Recording (finish, emitAudit and what they call), Bodies (buffering and
--               inspection of bodies) and Processor (the handlers and the stream)
--   Prelude, Strings   helpers: tests, lists, integers, and Go's strings as lists of bytes
--   Tests       concrete runs
-- Below a part's file, its other modules prove what it promises, or carry lemmas for that.
--
-- How the code is read. A function of the source is a function here, with its name in snake_case;
-- a method that changes its receiver returns the new value. A nil pointer is `none`; an error is
-- `none` or a value of `Error`; a panic of an engine or of a stage is `none`. A map is an
-- association list, a set a list. Counts of bytes are natural numbers, and Go's signed integers
-- are integers: those that count bytes in memory have no wrap-around, the sums of scores have that
-- of 64 bits. Strings are bytes; the functions on letter case are those of Go on ASCII texts, and
-- the theorems that depend on this have it as a condition.
-- `ctx.Err()` is a reading for each place that asks, so a context may be done at any of them. Log
-- lines, metrics and audit events are a list of effects in order. The shared budget is its value
-- as the transaction's calls see it; ExtProc.Budget.Interleaving is about all streams at once, at
-- the level of the atomic instructions.
--
-- Loops are recursion on the list that they run over, and each function is total. The one fuel is
-- that of the digits of a number in `route_id`: a number has at most as many digits as itself plus
-- one.
--
-- Parameters (`Env`, and arguments of the functions): regular expressions, the JSON validator, MIME
-- types, decompressors, IP addresses, the detector of sensitive data, float64 values and their
-- arithmetic, the hash of a configuration, what a configuration directory holds, and the builder of
-- the engines of a policy with their inspections. Not modelled: reading and parsing files, the
-- validation of the envelope of a file, of duplicate routes, DLP and engines, the construction of
-- engines, the engines but for these two, the audit queue and its exporters, servers, metrics,
-- logging.
pub mod Prelude
pub mod Strings
pub mod Matcher
pub mod Decision
pub mod Engine
pub mod Policy
pub mod Transaction
pub mod Pipeline
pub mod Stages
pub mod ExtProc
pub mod Config
pub mod Runtime
pub mod Tests
