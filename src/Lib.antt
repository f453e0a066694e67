-- ===== src/Lib.antt =====
-- A model of the MCP adapter: an engram that runs one action of an MCP server (list the tools, call
-- one, read a resource, …), tries it again where the answer is a passing error, parses the JSON in
-- the answer, follows its pages, and returns what came back.
--
-- The parts, by the path of the Go code from the repository's root:
--   Adapter/Process      pkg/adapter/handler.go: `Process`, its actions, metadata and clean-up
--   Adapter/Stream       pkg/adapter/handler.go: `Stream`, over a list of what arrives
--   Adapter/Secrets      pkg/adapter/handler.go: secret references, buckets, headers from secrets
--   Adapter/Init         pkg/adapter/handler.go: `Init`, its two transports, the clean-up it keeps
--   Adapter/Launch       pkg/adapter/handler.go: the runner pod of a start over stdio
--   Adapter/Naming       pkg/adapter/handler.go: names, labels and annotations of the runner pod
--   Adapter/Retry        pkg/adapter/handler.go: `callToolWithRetry`
--   Adapter/Transient    pkg/adapter/handler.go: `isMCPTransientError` and what it calls
--   Adapter/Normalize    pkg/adapter/normalize.go: `normalizeMCPResult`, `updateNormalizedWithParsed`
--   Adapter/Paginate     pkg/adapter/pagination.go: `normalizeAndPaginate` and the loop over pages
--   Adapter/Path         pkg/adapter/pagination.go: `parsePath`, `getPath`, `setPath`
--   Adapter/Selection    pkg/adapter/selection.go: `selectFromParsed`, which nothing calls yet
--   Adapter/Debug        pkg/adapter/debug.go: what is logged of a call, beside the rest
--   Adapter/Inputs       the inputs of one call
--   Mcp/Client           pkg/mcp/types.go: the interface to a server, over an unknown state
--   Mcp/Http             pkg/mcp/http_client.go, jsonrpc.go, client.go: the HTTP client, an instance
--   Mcp/Stdio            pkg/mcp/stdio_client.go: the client over a pod's streams, an instance
--   Mcp/Sse              pkg/mcp/http_client.go: the decoder of text/event-stream
--   Kube/Runner          pkg/kube/runner_pod.go: `EnsureRunnerPod` and what it creates
--   Kube/Lifecycle       pkg/kube/runner_pod.go: waiting for runner pods, deleting and reaping them
--   Kube/Deploy          pkg/kube/ensure.go, client.go: `Ensure`, deployments and services
--   Kube/Hash, Kube/Labels, Kube/Resources
--                        pkg/kube/hash.go, labels.go, and the conversions of runner_pod.go
--   Config               pkg/config/config.go
-- Beside them: Heap (Go's `any` values, with maps and slices as objects that values may share), Json
-- (encoding/json, a parameter), Text (the functions of `strings` and `strconv` that the code uses),
-- Base (numbers, lists, results, and Exec, code that changes a state and may fail). Tests holds runs
-- at concrete inputs.
--
-- `Process` runs an action through the client; a tool call goes through the retries, whose loop
-- asks the classifier; the answer is normalised, which writes into its maps; pagination reads the
-- parsed payload by its paths, calls the tool for the further pages and writes the items back,
-- through the same sharing. So the state of a run is a World: the heap, and the client's own state,
-- of which nothing is known.
--
-- `Stream` runs `Process` on each message that arrives, with the clean-up kept for its end; what
-- arrives, and whether the context is done before a response is taken, is given in order. The HTTP
-- client takes its headers from Secrets and fills the interface Client by posting requests through
-- a Transport; the stdio client writes to and reads from a Terminal, where the lines that come after
-- each write are given. `EnsureRunnerPod` speaks to a Cluster, the other operations on runner pods to
-- a Lifecycle, of whose states nothing is known. `Init` asks for these four through the interface
-- Runners, which the functions of Kube fill (`runners_of`), and opens its client through Opening,
-- which the stdio client fills (`stdio_opening`); the clean-up it keeps is what `Process` and
-- `Stream` run.
--
-- Fuel: the loop of `decodeSSEFrames` runs on the number of lines and one more; the loop of
-- `parsePath` over a segment runs on the size of the segment; the loop of the retries runs on the
-- configured number, the loop over pages on the number of pages left, which are the bounds of the
-- Go loops themselves; so do the three attempts of a request over stdio and of attaching again. The
-- wait for a pod runs for at most 602 rounds, since its five minutes hold 600 pauses of 500 ms; the
-- reader of responses consumes a line in each round.
--
-- Texts are strings of characters, searched by their code points; lower case is that of ASCII with
-- the two other characters whose lower case is ASCII. Integers of the configuration are ℤ. A
-- floating code outside the range of `int` becomes the least `int`, as on amd64. A client returns
-- data that shares nothing with what was there, as decoded JSON does.
--
-- Not modelled: the calls of the logger, which no result depends on, and the SDK's wrappers; main.go.
-- Mutexes are left out: one operation of a client runs at a time. A pod that never answers and never
-- closes its stream is not described: the read of its line does not return. The deadline in
-- `NextEvent` has no effect there and is left out.
pub mod Base
pub mod Text
pub mod Heap
pub mod Json
pub mod Config
pub mod Mcp
pub mod Kube
pub mod Adapter
pub mod Tests
