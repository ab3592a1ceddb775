-- ===== src/Lib.antt =====
-- framewire: the shared memory ring between the mpv producers and the aggregator, and what the
-- aggregator computes from the records.
--
-- The program. A producer (src/producer_main.cpp) polls one mpv over its IPC socket and pushes a
-- record per frame into a ring in shared memory. The aggregator (src/consumer_main.cpp) drains one ring
-- per stream, feeds histograms and sliding windows, and groups the frames of all streams by media
-- position, so that the streams are compared on the same frames only.
--
-- Telemetry models include/framewire/telemetry.h: `TelemetryRecord`, its byte image and checksum.
-- Ring models src/spsc_ring.cpp and include/framewire/spsc_ring.h. `try_push`, `try_pop` and `pop_batch`
-- are `TryPush`, `TryPop` and `PopBatch`; a segment is a `RingMapping`, passed from call to call, and each
-- handle keeps the index it has cached. Ring.Mapping has `Create` and `Open`, Ring.Publish the pass
-- directory and the environment. Ring.Threads splits the calls into single accesses to shared memory, and
-- a schedule interleaves the two sides. Ring.Inv states the representation invariant, Ring.Fifo the
-- refinement to a bounded queue.
-- Histogram models the class of src/histogram.cpp of that name: `observe` is `Record`, the other
-- functions have the names of the source. Window models `SampleWindow` and `SignedWindow` of the same
-- file, which differ in the type of a sample only, so what they share is written once.
-- Correlator models the class of src/stats.cpp: `push`, `emit_group`, `process` (with `decide` for a round
-- of its loop) and `reset`; Correlator.Snapshot has `Snapshot` and `WilsonInterval`. The vectors indexed by
-- stream are one list of records, one for each stream.
-- Aggregator models `StreamAggregator` of src/stats.cpp: `pump` is `Pump`, with `refresh_layout`, the loop
-- `pump_records` and what it does with a record, `ingest`; `reset_stats` and `snapshot` are `ResetStats` and
-- `Snapshot`.
-- Report models `ParseEnvironment` and `EnvironmentMismatches` of src/stats.cpp.
-- Json models `JsonDoc` and `JsonValue` of src/json.cpp and include/framewire/json.h. A parse passes a
-- `Reader` on, which holds the node table, the pool of decoded text and the rest of the input; Json.Text has
-- the strings and the command builders, Json.Parse the recursive descent, Json.Values the accessors. What
-- reads a value one level deeper is an argument of the loops over objects and arrays.
-- Ipc models `MpvIpcClient` of src/ipc_client.cpp. The answers of the operating system are lists.
-- Producer models src/producer_main.cpp: `ParseArgs`, `ReadPasses` (Producer.Passes), what the loop of `Run`
-- does with a line (Producer.Lines), and the queries and the loop itself (Producer.Loop), whose rounds hold
-- what the clock and the client give. It uses the documents of Json and pushes through `try_push` of Ring.
-- Prelude has the shared types, Boolean tests, lists over native numbers, bit masks and C strings.
--
-- Numbers. Unsigned integers are native numbers with the wrap-around written out, signed ones are `ℤ`;
-- a signed difference is exact, where the source's would overflow and have no meaning. `double` and its
-- operations are the parameter `Double`, of which nothing is assumed, so no rounding is fixed. The loop of
-- `Correlator::Process` runs on fuel, one round more than there are records queued, since each round but
-- the last takes a record from a queue. The loops that double a number have 64 rounds, enough for 64 bits.
-- `std::sort` is insertion sort. The JSON reader needs a few operations on `double`, among them
-- `std::from_chars`, as the parameter `Numbers`, of which nothing is assumed either. Its loops have as many
-- rounds as there are bytes left and one more, each taking a byte; loops along the node table have as many
-- as there are nodes. The depth is counted down from kMaxDepth + 1. Offsets into the text pool are 32 bits
-- wide; indices of nodes are natural numbers, exact below 2^31 nodes.
--
-- Not modelled: the number formats of src/stats.cpp (`FormatNanos` and its kin, which print by snprintf), the operating
-- system's side of shared memory (src/shm.cpp), the programs consumer, stress and mock_mpv, the dashboard and
-- the terminal code, which are input and output, and everything that is printed.
pub mod Prelude
pub mod Telemetry
pub mod Ring
pub mod Double
pub mod Histogram
pub mod Window
pub mod Correlator
pub mod Aggregator
pub mod Report
pub mod Json
pub mod Ipc
pub mod Producer
