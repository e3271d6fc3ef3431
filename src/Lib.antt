-- ===== src/Lib.antt =====
-- Verification of the k8spodlog receiver, an OpenTelemetry Collector receiver that follows the logs of
-- Kubernetes pods through the API server.
--
-- The parts, and how they interact. Pod events and resyncs reach the receiver's bookkeeping
-- (receiver.go), which starts one stream for each started container (stream.go). A stream connects
-- again and again; each connection forwards lines in batches to the pipeline (streamConnection in
-- receiver.go), drops what a reconnect replays (internal/cursor/filter.go) and reports positions,
-- which the bookkeeping fences by generation and keeps in the cursor store
-- (internal/cursor/store.go), from which a new stream or a new collector resumes.
--
-- Prelude: Boolean tests, lists, bytes, association lists for Go's maps, and int64 with wrap-around.
-- Instant: time.Time as nanoseconds since Go's zero time.
-- Logline (internal/logline): Line is line.go, Split is split.go, Scanner is scanner.go with the loop
--   of bufio.Scanner behind it, Batch is batch.go; Records describes the records of a text byte by
--   byte, and Tokens, Scanned, Passes, Yields, Lossless and ReadBack are about the scanner.
-- Cursor (internal/cursor): Cursor is cursor.go, Filter is filter.go, Store is store.go; Order,
--   Counting, Resume and Serving are about positions and filters, Json is UnmarshalJSON, and
--   Store/Advance, Expiry, History, Refines and Persistence are about the store.
-- Connection: streamConnection and consumeBatch of receiver.go. The `select` receives a list of
--   events, the pipeline is a function of the number of the batch and the batch. Reader has the
--   goroutine that reads ahead and the bounded channel as a step relation; Interleaved relates it to
--   the list of events, Arriving and Ending are about it. The streams are built on the list.
-- StreamKey, Pod: streamKey, podUIDFromStreamKey, and the tests on a pod's status, of receiver.go.
-- Receiver: the maps of logsReceiver and every method that changes them, one function each; `started`
--   and `cancelled` record the goroutines started and the cancel functions called. Generations has
--   the interleavings: one step for each critical section, so that pruneStaleCursors, which takes the
--   store's lock and then r.mu, is two; Apart is about what the steps of others leave of a running
--   stream's key; Accounts is about what becomes of the streams that were started; Reviving is
--   about a stream's end and the next resync; Observing has the metrics' values and newLogsReceiver.
-- Retry: internal/retry/retry.go, where the random draw is an argument.
-- Stream: stream.go. A round is one pass of the loop of `run`; the clock, the contexts, the restart
--   count, the terminal flag and the API server's answers are its input. Keeping has what the
--   connections keep and hence the run keeps; Delivery, Rising and Moments use it; Requests has
--   the requests and the answers that they call for, Growing the moments of a run, Completing how
--   it gets to the end of a log, GivingUp how connect errors end it, Ladder and Waits the waits before
--   the reconnects, which the stream records, WaitBounds their range, Lifetime connectionContext.
-- Config: config.go, factory.go, and the accessors of receiver.go (podResyncPeriod, batchSize,
--   flushInterval, maxLogSize, logSizeBehavior).
-- Discovery: of internal/poddiscovery/discovery.go what decides which handler is called with what;
--   Informers is Start with newInformer, and Starting is about it; Present is about which streams
--   run, by the pods that the informers have shown.
-- Container: newContainerStream and streamContainerLogs of receiver.go, a stream with the receiver
--   that starts it; Handover and Interleaving are about what it leaves in the cursor store, alone and
--   among all the other goroutines.
-- Lifecycle: Start, Shutdown, startPodDiscovery and runCursorPruning of receiver.go, with OpenStorage
--   and RunFlushLoop of store.go; Failures and Starting are about Start, Restart about what a
--   shutdown hands to the next start.
-- Collector: all of it put together for one container over several lives of the collector, which
--   shut down (Restarts) or are killed (Crashes).
-- System: the same with every other container, pod event and goroutine of the collector around it, and
--   with kills at any moment: a step relation on the receiver, the container's streams and the
--   storage. NoGap has its invariant, Catching how every line comes in.
-- Tests: runs on concrete inputs.
--
-- Loops are by recursion on their lists of events, rounds, pods and containers. The list of rounds or
-- of events is whatever the environment does, so that a theorem about all lists is about every
-- moment of an endless loop. Only the scanner's loop has fuel, 2 * n + 2 passes for n bytes: each pass
-- reads a byte, takes bytes off the buffer, or meets the end.
--
-- Parameters: time.Parse, encoding/json (what Flush writes is asked to read back as the same map), the
-- storage extension, what client-go answers to Start, the pipeline with its retries, the sizes of
-- reads, the random draws, and float64 in Spread.
--
-- Not modelled: client-go's informers and clients, the factory's calls of the collector, logging and
-- telemetry but for what Receiver/Observing has; internal/consumerretry and internal/k8sconfig, which are copies of contrib packages;
-- internal/metadata, which is generated. An instant before the year 1 does not occur: the
-- subtractions on instants stop at 0.
mod Prelude
pub mod Instant
pub mod Logline
pub mod Cursor
pub mod Connection
pub mod StreamKey
pub mod Pod
pub mod Receiver
pub mod Retry
pub mod Discovery
pub mod Stream
pub mod System
pub mod Config
pub mod Container
pub mod Lifecycle
pub mod Collector
mod Tests
