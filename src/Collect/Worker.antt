-- ===== src/Collect/Worker.antt =====
-- collect/collector_worker.go, collect/collect.go: a worker. Its state has what it has handed on:
-- the decided traces that wait in the channel `tracesToSend`, and the late spans that were
-- transmitted. The traces in the cache are shared by pointer in the source; here a trace that
-- changes is written back. Samplers are an interface, since most of them wrap a library. The counts
-- that a late span of a sent trace memoizes in that trace are not written back.
use refinery.Base.{
  ℕ, ◌+◌, Bool, false, ◌&&◌, ◌||◌, Option, none, some, String, String_discrete, List, [], ◌∷◌, ◌++◌,
  length, ltb, ◌==◌, if◌then◌else◌,
}
use refinery.GoMap
use refinery.Deps.Queue.{KeyedQueue}
use refinery.Deps.Filter.{CuckooFilter}
use refinery.Deps.Lru.{Lru}
use refinery.Types.Span.{Span}
use refinery.Types.Trace.{Trace, add_span, descendant_count}
use refinery.Cache.InMem
use refinery.Cache.InMem.{InMemCache}
use refinery.Cache.Sent.{SentCache, SentRecord, kept, new_entry, check_span}
use refinery.Collect.Config.{Config}
use refinery.Collect.Late.{deal_with_sent_trace}

-- `sample.Sampler` and `SamplerFactory.GetSamplerImplementationForKey`
pub record Samplers : Type 1 where
  pub Sampler : Type 0
  pub for_key : String → Sampler
  -- all fields, and those that are not read from the root
  pub key_fields : Sampler → List String × List String
  -- the sampler afterwards, and the rate, whether to keep, the reason and the key
  pub get_sample_rate : Sampler → Trace → Sampler × ℕ × Bool × String × String

-- `sendableTrace`
pub record Sendable : Type 0 where
  pub trace : Trace
  pub reason : String
  pub send_reason : String
  pub sample_key : String
  pub should_send : Bool
  pub rate : ℕ
  pub sampler_selector : String

-- a duration in nanoseconds, if it is not given
abbrev pub or_default : ℕ → ℕ → ℕ
or_default n d = if n == 0 then d else n

-- `AddSpan` of a live trace, with `RootSpan` set for a root span
unfoldable pub add_live : ℕ → Trace → Span → Trace
add_live now trace sp =
    let trace' = add_span now trace sp in
    if sp.is_root then record trace' { root_span = some (length trace.spans) } else trace'

-- whether the trace has more spans than the limit
unfoldable pub over_limit : Config → Trace → Bool
over_limit cfg trace = ltb 0 cfg.span_limit && ltb cfg.span_limit (descendant_count trace)

-- the rest of `processSpan`: the time by which to send the trace, if that is changed
unfoldable pub new_send_by : ℕ → Config → Trace → Span → Option ℕ
unfolding over_limit
new_send_by now cfg trace sp =
    let timeout = if over_limit cfg trace then 0 else or_default cfg.send_delay 2000000000 in
    if (sp.is_root || over_limit cfg trace) && ltb (now + timeout) trace.send_by
    then some (now + timeout)
    else none

-- the trace that `processSpan` makes for the first span
unfoldable pub new_trace : ℕ → Config → Span → Trace
new_trace now cfg sp = record {
  api_host = sp.api_host;
  api_key = sp.api_key;
  dataset = sp.dataset;
  trace_id = sp.trace_id;
  environment = sp.environment;
  sample_rate = sp.sample_rate;
  keep_sample = false;
  sent = false;
  kept_reason = 0;
  send_by = now + or_default cfg.trace_timeout 60000000000;
  arrival_time = now;
  root_span = none;
  data_size = 0;
  spans = [];
  total_impact = 0;
  span_count = 0;
  span_event_count = 0;
  span_link_count = 0;
}

module _ (kpq : KeyedQueue) (lru : Lru) (cf : CuckooFilter) (hash : String → ℕ)
    (smp : Samplers) where
  open kpq use {Queue}

  pub record Worker : Type 0 where
    pub cache : InMemCache Queue
    pub sample_cache : SentCache lru cf hash
    pub samplers : List (String × smp.Sampler)
    pub to_send : List Sendable
    pub transmitted : List Span

  -- a trace that changed under its pointer in the cache
  unfoldable pub write_back : InMemCache Queue → Trace → InMemCache Queue
  write_back d trace = record d { traces = GoMap.set String_discrete trace.trace_id trace d.traces }

  unfoldable pub transmit : Worker → Option Span → Worker
  transmit w none = w
  transmit w (some sp) = record w { transmitted = w.transmitted ++ sp ∷ [] }

  -- the span is live: it joins the trace
  unfoldable pub store_live : Worker → Trace → Option ℕ → Worker
  unfolding write_back
  store_live w trace none = record w { cache = write_back w.cache trace }
  store_live w trace (some send_by) = record w {
    cache = InMem.set kpq w.cache (some (record trace { send_by = send_by }));
  }

  unfoldable pub join_trace : ℕ → Config → Worker → Trace → Span → Worker
  unfolding store_live add_live
  join_trace now cfg w trace sp =
      let trace' = add_live now trace sp in store_live w trace' (new_send_by now cfg trace' sp)

  -- no trace is held: a late span, or the first of its trace
  unfoldable pub first_or_late : ℕ → Config → Worker → Span → Option (SentRecord × String) → Worker
  unfolding join_trace transmit
  first_or_late now cfg w sp (some (tr, reason)) =
      transmit w (deal_with_sent_trace cfg tr reason sp)
  first_or_late now cfg w sp none =
      let trace = new_trace now cfg sp in
      join_trace now cfg (record w { cache = InMem.set kpq w.cache (some trace) }) trace sp

  -- the trace that is held was sent: the record of the decision, or one made from the trace
  unfoldable pub sent_or_default : Trace → Option (SentRecord × String) → SentRecord × String
  sent_or_default trace (some r) = r
  sent_or_default trace none = (kept (new_entry trace), "")

  unfoldable pub to_trace : ℕ → Config → Worker → Span → Option Trace → Worker
  unfolding first_or_late join_trace transmit sent_or_default
  to_trace now cfg w sp none =
      let (c, r) = check_span lru cf hash now w.sample_cache sp in
      first_or_late now cfg (record w { sample_cache = c }) sp r
  to_trace now cfg w sp (some trace) =
      if trace.sent
      then (let (c, r) = check_span lru cf hash now w.sample_cache sp in
          let (tr, reason) = sent_or_default trace r in
          transmit (record w { sample_cache = c }) (deal_with_sent_trace cfg tr reason sp))
      else join_trace now cfg w trace sp

  -- `processSpan`
  unfoldable pub process_span : ℕ → Config → Worker → Span → Worker
  unfolding to_trace
  process_span now cfg w sp = to_trace now cfg w sp (InMem.get kpq w.cache sp.trace_id)
