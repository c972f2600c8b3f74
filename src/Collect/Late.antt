-- ===== src/Collect/Late.antt =====
-- collect/collect.go: spans on their way out. `transmit` is what is handed to
-- `Transmission.EnqueueSpan`; `none` is a span that is dropped.
use refinery.Base.{
  ℕ, ◌-◌, ◌*◌, ◌%◌, ◌^◌, Bool, not, Option, none, some, String, String_discrete, List, [], ◌∷◌, ltb,
  ◌==◌, ite, if◌then◌else◌,
}
use Prim.Native.String.{◌++◌ as joined}
use refinery.Base.Int.{ℤ, pos, negsuc}
use refinery.Types.Value.{bool, int64, uint, str}
use refinery.Types.Span.{Span, set_field}
use refinery.Cache.Sent.{SentRecord, is_kept, rate, descendants, span_events, span_links, spans}
use refinery.Collect.Config.{Config}

-- the conversion `int64(n)` of a 64-bit number
unfoldable pub to_int64 : ℕ → ℤ
to_int64 n = if ltb n (2 ^ 63) then pos n else negsuc (2 ^ 64 - 1 - n)

abbrev pub u64 : ℕ → ℕ
u64 n = n % 2 ^ 64

unfoldable pub note_original : Span → Span
note_original sp =
    if not (sp.sample_rate == 0)
    then set_field sp "meta.refinery.original_sample_rate" (int64 (to_int64 sp.sample_rate))
    else sp

-- `mergeTraceAndSpanSampleRates`
unfoldable pub merge_sample_rates : Span → ℕ → Bool → Span
unfolding note_original
merge_sample_rates sp trace_rate dry_run =
    let temp = if ltb sp.sample_rate 1 then 1 else sp.sample_rate in
    let sp' = note_original sp in
    if dry_run
    then record (set_field sp' "meta.dryrun.sample_rate" (uint (u64 (temp * trace_rate)))) {
      sample_rate = temp;
    }
    else set_field (record sp' { sample_rate = u64 (temp * trace_rate) })
        "meta.refinery.final_sample_rate" (int64 (to_int64 (u64 (temp * trace_rate))))

-- `addAdditionalAttributes`
unfoldable pub add_attributes : List (String × String) → Span → Span
add_attributes [] sp = sp
add_attributes ((k, v) ∷ attrs) sp = add_attributes attrs (set_field sp k (str v))

unfoldable pub note_hostname : Config → Span → Span
note_hostname cfg sp =
    ite (String_discrete cfg.hostname "") sp
      (set_field sp "meta.refinery.local_hostname" (str cfg.hostname))

-- the counts of a trace that a root span is given
pub record RootCounts : Type 0 where
  pub events : ℕ
  pub links : ℕ
  pub span_total : ℕ
  pub descendant_total : ℕ

unfoldable pub set_counts : Config → RootCounts → Span → Span
set_counts cfg c sp =
    if cfg.add_counts_to_root
    then set_field
        (set_field
          (set_field (set_field sp "meta.span_event_count" (int64 (pos c.events)))
            "meta.span_link_count" (int64 (pos c.links)))
          "meta.span_count" (int64 (pos c.span_total)))
        "meta.event_count" (int64 (pos c.descendant_total))
    else if cfg.add_span_count_to_root
    then set_field sp "meta.span_count" (int64 (pos c.descendant_total))
    else sp

abbrev pub counts_of : SentRecord → RootCounts
counts_of r = record {
  events = span_events r;
  links = span_links r;
  span_total = spans r;
  descendant_total = descendants r;
}

unfoldable pub late_reason : Config → String → Span → Span
late_reason cfg kept_reason sp =
    if cfg.add_rule_reason_to_trace
    then set_field
        (set_field sp "meta.refinery.reason" (
          str (
            ite (String_discrete kept_reason "") "late arriving span"
              (joined kept_reason " - late arriving span"))))
        "meta.refinery.send_reason" (str "trace_send_late_span")
    else sp

unfoldable pub mark_dry_run : Config → Bool → Span → Span
mark_dry_run cfg keep sp =
    if cfg.is_dry_run then set_field sp "meta.refinery.dryrun.kept" (bool keep) else sp

-- `dealWithSentTrace`
unfoldable pub deal_with_sent_trace : Config → SentRecord → String → Span → Option Span
deal_with_sent_trace cfg tr kept_reason sp =
    let sp1 = note_hostname cfg (late_reason cfg kept_reason sp) in
    let sp2 = mark_dry_run cfg (is_kept tr) sp1 in
    let sp3 = merge_sample_rates sp2 (rate tr) cfg.is_dry_run in
    let sp4 = if sp3.is_root then set_counts cfg (counts_of tr) sp3 else sp3 in
    if is_kept tr
    then some (add_attributes cfg.additional_attributes sp4)
    else if cfg.is_dry_run
    then some (add_attributes cfg.additional_attributes sp2)
    else none
