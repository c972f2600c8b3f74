-- ===== src/Lib.antt =====
-- Refinery: a tail-sampling proxy for traces. A trace's spans are gathered by one node (sharder),
-- held in memory by one of its workers until the trace is complete or its time has come
-- (collect, collect/cache), and then kept or dropped as one (sample); the decision is remembered
-- for the spans that come late. This library models that core, and proves what it promises.
--
-- The parts, with the files that model them:
-- - generics (generics/*.go): sets and maps with expiry. `Generics.Set`, `Generics.SetTtl`,
--   `Generics.MapTtl`. A Go map is an association list (`GoMap`); the time is an argument `now`.
-- - types (types/event.go, types/payload.go): the dynamic values of an event's fields
--   (`Types.Value`), the lazily decoded payload (`Types.Payload`), spans (`Types.Span`) and traces
--   (`Types.Trace`). A method that memoizes in its receiver returns the changed receiver.
--   The serialized data of a payload is the list of its entries; `none` is a value that the
--   decoder rejects.
-- - collect/cache: the live traces (`Cache.InMem`), the record of decisions (`Cache.Sent`), which
--   is made of the store of reasons (`Cache.Reasons`) and the cuckoo filters (`Cache.Cuckoo`).
-- - The libraries they stand on are records of operations and documented laws in `Deps`: the keyed
--   priority queue, the cuckoo filter and the LRU map. `Tests.Lists` implements them by lists, so
--   that the laws are known to hold of something.
-- - The collector (collect/collector_worker.go, collect/collect.go): `Collect.Worker` adds spans to
--   the traces that a worker holds (`processSpan`), `Collect.Decide` decides on traces and sends
--   them (`makeDecision`, `sendExpiredTracesInCache`, `sendTracesEarly`, `send`, `sendTraces`), and
--   `Collect.Late` treats the spans that come after the decision (`dealWithSentTrace`,
--   `mergeTraceAndSpanSampleRates`). A worker's state holds its caches and what it has handed on.
--   A pointer that the cache and a caller share becomes a write back into the cache. The
--   samplers are an interface (`Samplers`), and `Collect.Config` holds the settings that are read,
--   with `IsLegacyAPIKey` and `DetermineSamplerKey` of config/config.go and config/file_config.go.
--   `Collect.Immediate` is the processing of a span under stress (`ProcessSpanImmediately`).
-- - The deterministic sampler (sample/deterministic.go): `Sample.Deterministic`.
-- - The sharder (sharder/deterministic.go) assigns a trace to a node: `Sharder`.
-- - Stress relief (collect/stressRelief.go) samples by hash under load: `Stress`. The levels are
--   whole numbers; the float arithmetic behind them is a parameter.
-- - Health (internal/health/health.go) gathers the subsystems' reports: `Health`.
-- - The rules (sample/rules.go, config/sampler_config.go): `Rules.Condition` is `Init` of a condition
--   and the function that it sets up, `Rules.Untyped` the comparison without a data type,
--   `Rules.Extract` the lookup of a field, `Rules.Match` the two scopes, `Rules.Sampler` the loop
--   of the start and the decision, and `Rules.Start` the whole of `Start`. The texts of operators, data
--   types and scopes are data types; `fmt`, `strconv`, the floats and regular expressions of Go are the
--   record `Std`; gjson is the parameter `nested`.
-- - The keys of traces (sample/trace_key.go) are `Sample.TraceKey`, the five samplers by key
--   (sample/dynamic.go, dynamic_ema.go, ema_throughput.go, windowed_throughput.go, totalthroughput.go)
--   are `Sample.Dynamic`, over what dynsampler-go answers, and the fields that samplers read
--   (`GetSamplingFields`, `GetKeyFields`) are `Config.Samplers` and `Config.KeyFields`.
-- - The router (route/route.go) hands each event on: `Route` models `processEvent` with the events in
--   a store, since the transmissions and the collector share them by reference.
-- - The factory of samplers (sample/sample.go) is `Sample.Factory`: the instances of dynsampler-go that
--   samplers by key share (`createSampler`, `getSharedDynsampler`), and their goals by the count of
--   peers (`updatePeerCounts`, `ClearDynsamplers`). An instance has an address; what is made of the
--   configuration of a sampler, and how its goal is set, are the record `Dynsamplers`.
-- - The transmission (transmit/direct_transmit.go): `Transmit.Batches` is `EnqueueEvent` and the tick of
--   `dispatchStaleBatches`, whose batches hold addresses of events that their callers may still write
--   to, and `Transmit` how `sendBatch` cuts a batch into messages. The fuel of `sendBatch` is the
--   number of events: each round takes at least the first one.
--
-- Numbers: times and sizes are natural numbers; the `uint32` counts wrap (`u32`). Fuel: the
-- loop of `TakeExpiredTraces` runs on the length of the queue, which each round shortens.
--
-- Not modelled: locks and the goroutines' scheduling (an operation is one step), metrics, logs and
-- traces, the wire formats, HTTP and gRPC, the configuration's files, and the publish-subscribe
-- transport.
pub mod Base
pub mod GoMap
pub mod Generics
pub mod Deps
pub mod Types
pub mod Cache
pub mod Collect
pub mod Config
pub mod Health
pub mod Route
pub mod Rules
pub mod Sample
pub mod Sharder
pub mod Stress
pub mod Transmit
pub mod Tests
