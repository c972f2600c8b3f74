-- ===== src/Collect/Decide.antt =====
-- collect/collector_worker.go, collect/collect.go: decisions, and the traces and spans that follow
-- them. A time `now` is the clock's reading in a call; metrics, logs and otel spans are left out.
use refinery.Base.{
  ℕ, ◌+◌, Bool, true, ◌&&◌, not, Option, none, some, String, String_discrete, List, [], ◌∷◌, ◌++◌,
  length, ltb, ite, if◌then◌else◌, get_elem?, set, map,
}
use refinery.Base.Sort.{sort}
use refinery.GoMap
use refinery.GoMap.{get_or}
use refinery.Deps.Queue.{KeyedQueue}
use refinery.Deps.Filter.{CuckooFilter}
use refinery.Deps.Lru.{Lru}
use refinery.Types.Value.{str}
use refinery.Types.Payload.{memoize_fields}
use refinery.Types.Span.{Span, set_field}
use refinery.Types.Trace.{Trace, u32, descendant_count, counted, trace_impact}
use refinery.Cache.InMem
use refinery.Cache.InMem.{InMemCache}
use refinery.Cache.Sent
use refinery.Cache.Sent.{SentCache, record_decision}
use refinery.Collect.Config.{Config, determine_sampler_key}
use refinery.Collect.Late.{
  RootCounts, set_counts, merge_sample_rates, add_attributes, note_hostname, mark_dry_run,
}
use refinery.Collect.Worker.{Samplers, Sendable, Worker, or_default, write_back}

-- the key fields are memoized in each span of the trace
unfoldable pub memoize_spans : List String → List String → List Span → List Span
memoize_spans all non_root [] = []
memoize_spans all non_root (sp ∷ sps) =
    record sp { payload = memoize_fields sp.payload (if sp.is_root then all else non_root) }
    ∷ memoize_spans all non_root sps

abbrev pub counts_of_trace : Trace → RootCounts
counts_of_trace t = record {
  events = t.span_event_count;
  links = t.span_link_count;
  span_total = t.span_count;
  descendant_total = descendant_count t;
}

-- the counts are taken only if the configuration asks for them
unfoldable pub counted_if : Config → Trace → Trace
counted_if cfg t = if cfg.add_counts_to_root then counted t else t

count_root_at : Config → Trace → ℕ → Option Span → Trace
count_root_at cfg t at none = t
count_root_at cfg t at (some sp) = record t {
  spans = set t.spans at (set_counts cfg (counts_of_trace t) sp);
}

count_root_of : Config → Trace → Option ℕ → Trace
unfolding count_root_at
count_root_of cfg t none = t
count_root_of cfg t (some at) =
    let t' = counted_if cfg t in count_root_at cfg t' at (get_elem? t'.spans at)

-- what `send` does to the root span
unfoldable pub count_root : Config → Trace → Trace
unfolding count_root_of
count_root cfg t = count_root_of cfg t t.root_span

-- the reason of `sendExpiredTracesInCache`
unfoldable pub send_reason_of : Config → Trace → String
send_reason_of cfg t = elim t.root_span [
  | some at ↦ "trace_send_got_root"
  | none ↦
      if ltb 0 (u32 cfg.span_limit) && ltb (u32 cfg.span_limit) (descendant_count t)
      then "trace_send_span_limit"
      else "trace_send_expired"
]

unfoldable pub note_reason : Config → Sendable → Span → Span
note_reason cfg s sp =
    if cfg.add_rule_reason_to_trace
    then (let sp' =
          set_field (set_field sp "meta.refinery.reason" (str s.reason)) "meta.refinery.send_reason"
            (str s.send_reason) in
        ite (String_discrete s.sample_key "") sp'
          (set_field sp' "meta.refinery.sample_key" (str s.sample_key)))
    else sp

unfoldable pub note_counts : Config → Trace → Span → Span
note_counts cfg t sp = if sp.is_root then set_counts cfg (counts_of_trace t) sp else sp

-- what the loop of `sendTraces` hands on for a span of a trace
unfoldable pub send_span : Config → Sendable → Span → Span
send_span cfg s sp =
    let noted = note_hostname cfg (
      mark_dry_run cfg s.should_send
        (note_counts cfg (counted_if cfg s.trace) (note_reason cfg s sp))) in
    record (add_attributes cfg.additional_attributes
      (merge_sample_rates noted s.trace.sample_rate cfg.is_dry_run)) { api_key = s.trace.api_key }

-- `sendTraces`, for one trace
unfoldable pub send_trace : Config → Sendable → List Span
send_trace cfg s = map (send_span cfg s) s.trace.spans

module _ (kpq : KeyedQueue) (lru : Lru) (cf : CuckooFilter) (hash : String → ℕ)
    (smp : Samplers) where
  abbrev W : Type 0
  W = Worker kpq lru cf hash smp

  -- the state and the trace after the sampler has answered
  unfoldable pub decided :
      ℕ → W → String → String → Trace → smp.Sampler × ℕ × Bool × String × String → W × Sendable
  decided now w selector send_reason trace (sampler, rate, keep, reason, key) =
      let (c, trace') =
        record_decision lru cf hash now w.sample_cache
          (record trace { sample_rate = rate; keep_sample = keep }) keep reason in
      (
        record w {
          sample_cache = c;
          samplers = GoMap.set String_discrete selector sampler w.samplers;
        },
        record {
          trace = trace';
          reason = reason;
          send_reason = send_reason;
          sample_key = key;
          should_send = keep;
          rate = rate;
          sampler_selector = selector;
        },
      )

  -- `makeDecision`; `none` is its error
  unfoldable pub make_decision : ℕ → Config → W → Trace → String → Option (W × Sendable)
  unfolding decided
  make_decision now cfg w trace send_reason =
      let selector = determine_sampler_key cfg trace.api_key trace.environment trace.dataset in
      let sampler = get_or (GoMap.get String_discrete selector w.samplers) (smp.for_key selector) in
      let (all, non_root) = smp.key_fields sampler in
      let trace' = record trace { spans = memoize_spans all non_root trace.spans } in
      if trace.sent
      then none
      else some (decided now w selector send_reason trace' (smp.get_sample_rate sampler trace'))

  -- `send`
  unfoldable pub send : Config → W → Sendable → W
  send cfg w s =
      if s.trace.sent
      then w
      else if not s.trace.keep_sample && not cfg.is_dry_run
      then w
      else record w {
        to_send =
            w.to_send
            ++ record s { trace = count_root cfg (record (s.trace) { sent = true }) } ∷ [];
      }

  unfoldable pub send_decided : Config → W → Option (W × Sendable) → W
  unfolding send
  send_decided cfg w none = w
  send_decided cfg w (some (w', s)) = send cfg w' s

  -- the loop of `sendExpiredTracesInCache`
  unfoldable pub decide_all : ℕ → Config → W → List Trace → W
  unfolding send_decided
  decide_all now cfg w [] = w
  decide_all now cfg w (t ∷ ts) =
      decide_all now cfg (send_decided cfg w (make_decision now cfg w t (send_reason_of cfg t))) ts

  -- `sendExpiredTracesInCache`
  unfoldable pub send_expired_traces : ℕ → Config → W → W
  unfolding decide_all
  send_expired_traces now cfg w =
      let (d, traces) = InMem.take_expired_traces kpq w.cache now cfg.max_expired_traces none in
      decide_all now cfg (record w { cache = d }) traces

  -- the loop of `sendTracesEarly`: the ids of the traces sent, until the bytes are reached
  unfoldable pub early_loop : ℕ → Config → ℕ → ℕ → W → List String → List Trace → W × List String
  unfolding send
  early_loop now cfg bytes total w ids [] = (w, ids)
  early_loop now cfg bytes total w ids (t ∷ ts) =
      let skipped = early_loop now cfg bytes total w ids ts in
      elim (make_decision now cfg w t "trace_send_ejected_memsize") [
        | none ↦ skipped
        | some (w', s) ↦
            let sent = send cfg w' s in
            let ids' = ids ++ t.trace_id ∷ [] in
            let rest = early_loop now cfg bytes (total + t.data_size) sent ids' ts in
            if ltb bytes (total + t.data_size) then (sent, ids') else rest
      ]

  unfoldable pub write_all : InMemCache kpq.Queue → List Trace → InMemCache kpq.Queue
  write_all d [] = d
  write_all d (t ∷ ts) = write_all (write_back kpq lru cf hash smp d t) ts

  -- `sendTracesEarly`; sorting takes the impact of each trace, unless there is only one
  unfoldable pub send_traces_early : ℕ → Config → W → ℕ → W
  unfolding early_loop write_all
  send_traces_early now cfg w bytes =
      let timeout = or_default cfg.trace_timeout 60000000000 in
      let all = InMem.get_all kpq w.cache in
      let measured =
        if ltb 1 (length all) then map (λ t. (trace_impact now timeout t).0) all else all in
      let heaviest = sort (λ a b. ltb b.total_impact a.total_impact) measured in
      let (w', ids) =
        early_loop now cfg bytes 0 (record w { cache = write_all w.cache measured }) [] heaviest in
      record w' { cache = InMem.remove_traces kpq w'.cache ids }

  resized : SentCache lru cf hash → Option (SentCache lru cf hash) → SentCache lru cf hash
  resized c none = c
  resized c (some c') = c'

  -- a reload of the configuration, in `collect`
  unfoldable pub reload : W → ℕ → ℕ → W
  unfolding resized
  reload w kept_size dropped_size = record w {
    samplers = [];
    sample_cache =
        resized w.sample_cache (Sent.resize lru cf hash w.sample_cache kept_size dropped_size);
  }
