-- ===== src/Tests/Collect.antt =====
-- The collector, at concrete inputs.
use refinery.Base.{
  ℕ, ◌<◌, ◌≡◌, refl, true, false, ◌||◌, none, some, String, String_discrete, [], map, arith,
}
use refinery.GoMap
use refinery.GoMap.{is_some}
use refinery.Generics.Set.{elem}
use refinery.Generics.SetTtl
use refinery.Types.Span.{Span}
use refinery.Types.Trace.{Trace}
use refinery.Cache.InMem
use refinery.Cache.InMem.Valid.{find, new-IsValid, set-IsValid}
use refinery.Cache.Cuckoo
use refinery.Cache.Sent.{SentCache, SentRecord, kept, check_span, is_kept, rate, found_kept}
use refinery.Collect.Config.{Config, determine_sampler_key, is_legacy_api_key}
use refinery.Collect.Late.{deal_with_sent_trace}
use refinery.Collect.Worker.{Samplers, Sendable, Worker, process_span}
use refinery.Collect.Decide.{
  decided, make_decision, memoize_spans, send_trace, send_expired_traces, decide_all,
}
use refinery.Collect.Outcome.{final_rate, deal_with_sent_trace_lem}
use refinery.Collect.Gather.{IsLive, Gathered, process_span-held, process_span-IsLive}
use refinery.Collect.Sending.{send_trace_lem, send_expired_traces-cache, process_span-make_decision}
use refinery.Stress.{StressRelief, always, get_sample_rate}
use refinery.Collect.Immediate.{process_span_immediately, process_span_immediately-twice}
use refinery.Tests.Lists.{
  queue, filter, lru, set_in, priority_in, least, better, pop_least, remove_in, push_absent,
}
use refinery.Tests.Samples.{span, trace}

abbrev pub cfg : Config
cfg = record {
  trace_timeout = 60;
  send_delay = 2;
  span_limit = 0;
  max_expired_traces = 0;
  add_rule_reason_to_trace = true;
  add_counts_to_root = true;
  add_span_count_to_root = false;
  is_dry_run = false;
  additional_attributes = [];
  hostname = "h";
  dataset_prefix = "";
}

abbrev pub hash : String → ℕ
hash s = 5

-- a sampler that drops everything, with a rate of 4
abbrev dropping : Samplers
dropping = record {
  Sampler = Unit {0};
  for_key = λ k. tt;
  key_fields = λ s. ([], []);
  get_sample_rate = λ s t. (s, 4, false, "chance", "");
}

abbrev pub decisions : SentCache lru filter hash
decisions = record {
  store = [];
  kept_ids = (3, []);
  dropped_ids = record {
    current = some (3, []);
    future = none;
    capacity = 4;
    addch = [];
    refused = 0;
  };
  recent = record { items = []; ttl = 3000 };
  kept_reasons = record { reasons = []; keys = [] };
}

abbrev idle : Worker queue lru filter hash dropping
idle = record {
  cache = InMem.new queue;
  sample_cache = decisions;
  samplers = [];
  to_send = [];
  transmitted = [];
}

idle-IsLive : IsLive queue lru filter hash dropping idle
unfolding InMem.new GoMap.get
idle-IsLive = record { valid = new-IsValid queue; unsent = λ k t h. cc }

abbrev busy : Worker queue lru filter hash dropping
busy = record idle { cache = InMem.set queue (InMem.new queue) (some trace) }

busy-IsLive : IsLive queue lru filter hash dropping busy
busy-IsLive =
    let s = set-IsValid queue (InMem.new queue) trace (new-IsValid queue) in
    record { valid = s.0; unsent = λ k t h. ground (arith, s.1 k, idle-IsLive.unsent k t) }

find-busy : find queue busy.cache "t1" ≡ some trace
unfolding InMem.set InMem.new GoMap.get GoMap.set GoMap.delete String_discrete queue
find-busy = refl

find-idle : find queue idle.cache "t1" ≡ none
unfolding InMem.new GoMap.get
find-idle = refl

process_span-held_example :
    Gathered queue lru filter hash dropping 3 cfg busy trace
      (record span { is_root = true })
      (process_span queue lru filter hash dropping 3 cfg busy (record span { is_root = true }))
process_span-held_example =
    process_span-held queue lru filter hash dropping 3 cfg busy trace
      (record span { is_root = true }) busy-IsLive find-busy

unknown : (check_span lru filter hash 3 decisions span).1 ≡ none
unfolding check_span found_kept SetTtl.contains SetTtl.is_after GoMap.get Cuckoo.check
    Cuckoo.lookup_in elem String_discrete
unknown = refl

process_span-IsLive_example :
    IsLive queue lru filter hash dropping
      (process_span queue lru filter hash dropping 3 cfg busy span)
process_span-IsLive_example =
    process_span-IsLive queue lru filter hash dropping 3 cfg busy span busy-IsLive

abbrev small : Trace
small = record trace { spans = [] }

abbrev decision : Worker queue lru filter hash dropping × Sendable
decision =
    decided queue lru filter hash dropping 5 idle "" "trace_send_expired" small
      (tt, 4, false, "chance", "")

made :
    make_decision queue lru filter hash dropping 5 cfg idle small "trace_send_expired"
    ≡ some (decision.0, decision.1)
unfolding make_decision memoize_spans determine_sampler_key is_legacy_api_key decided
made = refl

not_sent : decision.1.should_send ≡ false
unfolding decided
not_sent = refl

process_span-make_decision_example :
    ((process_span queue lru filter hash dropping 2005 cfg decision.0 span).transmitted
      ≡ decision.0.transmitted)
    × ((process_span queue lru filter hash dropping 2005 cfg decision.0 span).cache ≡ idle.cache)
    × ((process_span queue lru filter hash dropping 2005 cfg decision.0 span).to_send ≡ [])
process_span-make_decision_example =
    process_span-make_decision queue lru filter hash dropping 5 2005 cfg idle decision.0 small
      "trace_send_expired" decision.1 span made not_sent refl refl (omega arith) find-idle

abbrev late_trace : Trace
late_trace = record trace { trace_id = "t2"; send_by = 9 }

abbrev waiting : Worker queue lru filter hash dropping
waiting = record idle { cache = InMem.set queue (InMem.new queue) (some late_trace) }

left :
    find queue (send_expired_traces queue lru filter hash dropping 7 cfg waiting).cache "t2"
    ≡ some late_trace
unfolding InMem.set InMem.new InMem.take_expired_traces InMem.take_loop InMem.take_step InMem.resume
    InMem.has_room InMem.take_popped InMem.take_cached InMem.take_trace InMem.push_back GoMap.get
    GoMap.set GoMap.delete String_discrete queue set_in priority_in least better pop_least remove_in
    push_absent send_expired_traces decide_all
left = refl

send_expired_traces-cache_example : (7 < 9) × (find queue waiting.cache "t2" ≡ some late_trace)
send_expired_traces-cache_example =
    send_expired_traces-cache queue lru filter hash dropping 7 cfg waiting "t2" late_trace
      (set-IsValid queue (InMem.new queue) late_trace (new-IsValid queue)).0 refl left

abbrev sendable : Sendable
sendable = record {
  trace = trace;
  reason = "chance";
  send_reason = "trace_send_expired";
  sample_key = "";
  should_send = true;
  rate = 4;
  sampler_selector = "";
}

send_trace_lem_example :
    map {B = String × ℕ} (λ sp. (sp.api_key, sp.sample_rate)) (send_trace cfg sendable)
    ≡ map {B = String × ℕ} (λ sp. ("", final_rate cfg 4 sp.sample_rate)) trace.spans
send_trace_lem_example = send_trace_lem cfg sendable

abbrev kept_record : SentRecord
kept_record = kept (record {
  rate = 4;
  reason = 1;
  event_count = 2;
  span_event_count = 1;
  span_link_count = 0;
  span_count = 1;
})

deal_with_sent_trace_lem_example :
    (is_some (deal_with_sent_trace cfg kept_record "rule" span) ≡ (is_kept kept_record || false))
    × (is_kept kept_record ≡ true
        → (sp' : Span) × (deal_with_sent_trace cfg kept_record "rule" span ≡ some sp')
          × (sp'.sample_rate ≡ final_rate cfg (rate kept_record) 1))
deal_with_sent_trace_lem_example = deal_with_sent_trace_lem cfg kept_record "rule" span

abbrev pub relief : StressRelief
relief = record {
  mode = always;
  host_id = "h";
  activate_level = 90;
  deactivate_level = 75;
  sample_rate = 100;
  upper_bound = 5;
  overall_stress_level = 95;
  reason = "memory";
  stressed = true;
  stay_on_until = 0;
  min_duration = 10;
  stress_levels = [];
}

abbrev pub hash64 : String → ℕ
hash64 s = 12

recent_after : (check_span lru filter hash 3 decisions span).0.recent.ttl ≡ 3000
unfolding check_span found_kept SetTtl.contains SetTtl.is_after GoMap.get Cuckoo.check
    Cuckoo.lookup_in elem String_discrete
recent_after = refl

stress_drops : (get_sample_rate hash64 relief "t1").1 ≡ false
unfolding get_sample_rate
stress_drops = refl

process_span_immediately-twice_example :
    (process_span_immediately lru filter hash hash64 2000 cfg relief
      (process_span_immediately lru filter hash hash64 3 cfg relief decisions span).0
      span).1
    ≡ none
process_span_immediately-twice_example =
    process_span_immediately-twice lru filter hash hash64 3 2000 cfg cfg relief relief decisions
      span span unknown stress_drops refl (omega (arith, recent_after))
