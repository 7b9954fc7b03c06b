-- ===== src/Lib.antt =====
-- The TEE relay client: it collects instructions from the logs of an indexer database, processes and
-- signs them, and sends them to trusted execution environments (tees).
--
-- The way of an instruction. The collector (internal/collector) polls the database and hands batches
-- of logs to the router (internal/router), which parses each log (internal/router/instructions),
-- filters it and starts a processor for it (internal/router/processors): the base processor signs
-- only, the FDC processor queues the instruction until a verifier has answered for it, and the backup
-- processor fetches a wallet backup and checks it. Each processor ends by signing the instruction
-- once for every tee (pkg/signer) and passing it to the sender (internal/sender), which posts to each
-- tee its own copy. The health status (internal/health) answers probes about the pipeline, and
-- internal/post is the POST with retries to the verifiers.
--
-- Which file models what:
--   Base: Go's values: numbers, byte strings, maps, errors and panics (Outcome), and code that
--     changes shared state (Effect).
--   Signer: pkg/signer/signer.go, local.go, remote.go.
--   Instruction: internal/router/instructions/instructions.go; Dedup and Signing prove about
--     removeDuplicates, hashesForSigning and Sign.
--   Processor: internal/router/processors/processor.go, and the statements at the end of every
--     processor (sign_and_emit).
--   Fdc: Fdc/Verifier is fdc_verifier.go, Fdc/Handler is fdc_handler.go with atsStrings in Fdc/Names,
--     Fdc/Queues is fdc.go, fdc_queue.go and NewFDCHandler, all of internal/router/processors; its
--     child Loops has which goroutines StartQueues and ProcessOut start, and Matched is about the configured verifiers.
--   Backup: internal/router/processors/backup.go; Consistency has its comparisons, Splits
--     plaintextForTEE, and Restore the two flows, whose downloads Restore/Guarded is about.
--   Sender: internal/sender/sender.go. Pipeline joins processor, signer and sender.
--   Router: internal/router/router.go and filterer.go.
--   Collector: internal/collector; Window is windowStart, Damper is damper.go, Listener the loop of
--     instructionsListener, and Run is New, Run, the first fetch and reportState.
--   Health: internal/health/status.go; of server.go, Health/Server is the answers and Health/Lifecycle
--     is Listen, Start and Close.
--   Post: internal/post/post.go.
--   Config: pkg/config/config.go; Config/Load is loadConfig of cmd/main/main.go, with the environment,
--     and Config/Credentials the check of a server's credentials.
--   Client: internal/client/client.go, with NewRouter and PrivateKeyFromEnv: the assembly of the relay
--     from its configuration.
--   Main: main of cmd/main/main.go up to its wait for a signal, with Run and New of
--     internal/client/client.go: what the main goroutine does, in order. Start is about each outcome,
--     Launch about what is started.
--   Relay: the running relay, that is the channels and goroutines of internal/client/client.go, the
--     loops of internal/router/router.go and internal/sender/sender.go, and the goroutines they start.
--     Defs has the steps, Delivery and Progress are about a relay that goes on, Shutdown about one
--     whose context is cancelled, and Signed about what is posted. Whole and System join it to the
--     collector's loop. Work is what becomes of a job in the three processors and the FDC queue, with
--     the ends of these in its children; Traced, Assembly and Provenance follow a post back to its
--     log.
--   Schedule: the timeouts and retries that fdc_verifier.go, pkg/signer/remote.go and sender.go ask
--     for.
--   Tests: sample data and the theorems at concrete inputs.
-- A definition has the name of its Go function in lower case with underscores (validateResponse is
-- validate_response). A Go map is an association list, and a byte string, hash or address a list of
-- byte values.
--
-- State. The handling of an instruction changes a World: the instruction, what was sent on the out
-- channel, the number of calls of other parties so far, and of those to a verifier. Other parties,
-- such as a remote signer or a verifier, are functions of that number, so that they may answer
-- differently each time; a select between the channel and a cancelled context asks at that number
-- too. What was written before an error or a panic stays written.
--
-- The running relay is a step relation: each goroutine takes its steps in its own order, and they
-- interleave in any way. A Relay holds the two channels (of at most 50 elements), the batch that the
-- router goes through, the processors and posts that run, and what was collected and posted. The
-- processing of an instruction is one step there, since a processor shares nothing with the others
-- but the channel to the sender. Its result is a parameter of the steps; Relay/Work computes it from
-- the code of the processors, which start at a time that depends on the job, and Relay/Provenance
-- puts that in the parameter's place. A System is the relay with the collector's loop, whose rounds
-- are steps among the others. A panic that no goroutine recovers ends the process: of the router's
-- handling of a log, after which no job follows, and of a round of the collector's loop, which is no
-- step of a System.
--
-- Bounds. There is no fuel: every loop of the model is over a list. The repeated attempts of a queue,
-- the rounds of the listener and the steps of the relay are of any number. Numbers that do not wrap
-- around in the code are unbounded; the conversions of a block number and a timestamp to int64 and to a
-- time, and the saturation of a time's difference, are as in Go.
--
-- Not modelled. Code of other modules is a parameter: tee-node (hashing, parsing, encryption, backup
-- checks), go-flare-common (database, retries, priority queue, safe URLs), go-ethereum and the
-- standard library's HTTP and JSON. Logging is left out, but for the lines of the damper and the
-- warnings of main. The priority queue is a parameter, of which is used that it makes attempts with
-- the handler (Queued), so which instruction is dequeued first is not modelled; neither are the
-- connections of the HTTP servers and clients, what main does from its wait for a signal on, what the
-- two goroutines of a queue do between its calls, and the clocks, which are
-- arguments. A log of the chain is parsed by parameters. The helpers of the Go tests are left out.
pub mod Base
pub mod Signer
pub mod Instruction
pub mod Processor
pub mod Fdc
pub mod Backup
pub mod Sender
pub mod Pipeline
pub mod Router
pub mod Collector
pub mod Health
pub mod Post
pub mod Config
pub mod Client
pub mod Main
pub mod Relay
pub mod Schedule
pub mod Tests
