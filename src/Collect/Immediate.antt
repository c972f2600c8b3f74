-- ===== src/Collect/Immediate.antt =====
-- collect/collect.go: `ProcessSpanImmediately`, the decision on a span under stress. `hash64` is
-- the hash by which stress relief samples. `none` is a span that is dropped.
use refinery.Base.{
  ℕ, ◌+◌, ◌<◌, ◌≡◌, sym, ap, subst, Bool, true, false, Option, none, some, String, if◌then◌else◌,
  [],
}
use refinery.Deps.Filter.{CuckooFilter}
use refinery.Deps.Lru.{Lru}
use refinery.Types.Value.{bool, str}
use refinery.Types.Span.{Span, set_field}
use refinery.Types.Trace.{Trace}
use refinery.Cache.Sent.{SentCache, SentRecord, dropped, is_kept, rate, check_span, record_decision}
use refinery.Cache.Sent.Decisions.{check_span-record_dropped}
use refinery.Stress.{StressRelief, get_sample_rate}
use refinery.Collect.Config.{Config}
use refinery.Collect.Late.{merge_sample_rates, add_attributes, note_hostname}

-- the trace whose decision is recorded
unfoldable pub stressed_trace : ℕ → ℕ → Span → Trace
stressed_trace now r sp = record {
  api_host = sp.api_host;
  api_key = sp.api_key;
  dataset = sp.dataset;
  trace_id = sp.trace_id;
  environment = "";
  sample_rate = r;
  keep_sample = false;
  sent = false;
  kept_reason = 0;
  send_by = now;
  arrival_time = now;
  root_span = none;
  data_size = 0;
  spans = [];
  total_impact = 0;
  span_count = 0;
  span_event_count = 0;
  span_link_count = 0;
}

-- a span that is kept is decorated and sent at once
unfoldable pub send_now : Config → ℕ → Bool → String → Span → Option Span
send_now cfg r keep reason sp =
    let stressed = set_field sp "meta.stressed" (bool true) in
    let noted =
      if cfg.add_rule_reason_to_trace
      then set_field stressed "meta.refinery.reason" (str reason)
      else stressed in
    if keep
    then some (
        merge_sample_rates (add_attributes cfg.additional_attributes (note_hostname cfg noted)) r
          cfg.is_dry_run)
    else none

module _ (lru : Lru) (cf : CuckooFilter) (hash : String → ℕ) (hash64 : String → ℕ) where
  -- with no decision on record, stress relief decides, and that is recorded
  unfoldable pub decide_now :
      ℕ
      → Config
      → StressRelief
      → SentCache lru cf hash
      → Span
      → ℕ × Bool × String
      → SentCache lru cf hash × Option Span
  unfolding send_now stressed_trace
  decide_now now cfg s c sp (r, keep, reason) = (
    (record_decision lru cf hash now c (stressed_trace now r sp) keep reason).0,
    send_now cfg r keep reason sp,
  )

  unfoldable pub immediate_from :
      ℕ
      → Config
      → StressRelief
      → SentCache lru cf hash
      → Span
      → Option (SentRecord × String)
      → SentCache lru cf hash × Option Span
  unfolding decide_now
  immediate_from now cfg s c sp none =
      decide_now now cfg s c sp (get_sample_rate hash64 s sp.trace_id)
  immediate_from now cfg s c sp (some (rec, reason)) =
      (c, send_now cfg (rate rec) (is_kept rec) reason sp)

  -- `ProcessSpanImmediately`
  unfoldable pub process_span_immediately :
      ℕ → Config → StressRelief → SentCache lru cf hash → Span → SentCache lru cf hash × Option Span
  unfolding immediate_from
  process_span_immediately now cfg s c sp =
      let (c', r) = check_span lru cf hash now c sp in immediate_from now cfg s c' sp r

  recorded_drop :
      (now later : ℕ) (cfg : Config) (s s' : StressRelief) (c : SentCache lru cf hash)
      (sp sp' : Span) (a : ℕ × Bool × String)
      → a.1 ≡ false
      → sp'.trace_id ≡ sp.trace_id
      → later < now + c.recent.ttl
      → (check_span lru cf hash later (decide_now now cfg s c sp a).0 sp').1 ≡ some (dropped, "")
  unfolding decide_now stressed_trace
  recorded_drop now later cfg s s' c sp sp' (r, true, reason) e same soon = cc
  recorded_drop now later cfg s s' c sp sp' (r, false, reason) e same soon =
      check_span-record_dropped lru cf hash now later c (stressed_trace now r sp) reason sp' same
        soon

  -- A span that stress relief drops, of a trace with no decision on record, binds the trace: within
  -- the time that the decision is remembered as recent the next span of the trace is dropped too,
  -- whatever the configuration and the state of stress relief are by then.
  pub process_span_immediately-twice :
      (now later : ℕ) (cfg cfg' : Config) (s s' : StressRelief) (c : SentCache lru cf hash)
      (sp sp' : Span)
      → (check_span lru cf hash now c sp).1 ≡ none
      → (get_sample_rate hash64 s sp.trace_id).1 ≡ false
      → sp'.trace_id ≡ sp.trace_id
      → later < now + (check_span lru cf hash now c sp).0.recent.ttl
      → (process_span_immediately later cfg' s' (process_span_immediately now cfg s c sp).0 sp').1
        ≡ none
  unfolding process_span_immediately immediate_from send_now is_kept
  process_span_immediately-twice now later cfg cfg' s s' c sp sp' new drop same soon =
      subst
        (λ o.
          (process_span_immediately later cfg' s' (immediate_from now cfg s c1 sp o).0 sp').1
          ≡ none)
        (sym new)
        (ap (λ o. (immediate_from later cfg' s' (check_span lru cf hash later c2 sp').0 sp' o).1)
          (recorded_drop now later cfg s s' c1 sp sp' (get_sample_rate hash64 s sp.trace_id) drop
            same soon))
    where
      c1 : SentCache lru cf hash
      c1 = (check_span lru cf hash now c sp).0

      c2 : SentCache lru cf hash
      c2 = (decide_now now cfg s c1 sp (get_sample_rate hash64 s sp.trace_id)).0
