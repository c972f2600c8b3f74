-- ===== src/Types/Trace.antt =====
-- types/event.go: traces. A trace holds its spans in order of arrival; `root_span` is the position
-- of the span that the source's pointer `RootSpan` shares with the list.
pub mod Counts
use refinery.Base.{
  ℕ, suc, ◌+◌, ◌%◌, ◌^◌, Bool, true, false, ◌&&◌, not, Option, none, some, String, List, [], ◌∷◌,
  ◌++◌, length, get_elem?, set, String_discrete, ite, if◌then◌else◌, ◌==◌,
}
use refinery.Types.Value.{Value}
use refinery.Types.Span.{
  Span, AnnotationType, span_event, link, data_size_of, annotation_type, cache_impact,
}

pub record Trace : Type 0 where
  pub api_host : String
  pub api_key : String
  pub dataset : String
  pub trace_id : String
  pub environment : String
  pub sample_rate : ℕ
  pub keep_sample : Bool
  pub sent : Bool
  pub kept_reason : ℕ
  pub send_by : ℕ
  pub arrival_time : ℕ
  pub root_span : Option ℕ
  pub data_size : ℕ
  pub spans : List Span
  pub total_impact : ℕ
  pub span_count : ℕ
  pub span_event_count : ℕ
  pub span_link_count : ℕ

abbrev pub u32 : ℕ → ℕ
u32 n = n % 2 ^ 32

-- `AddSpan`
unfoldable pub add_span : ℕ → Trace → Span → Trace
add_span now t sp =
    let (sp', n) = data_size_of (record sp { arrival_time = now }) in
    record t {
      data_size = t.data_size + n;
      spans = t.spans ++ sp' ∷ [];
      total_impact = 0;
      environment = ite (String_discrete t.environment "") sp.environment t.environment;
    }

-- the loop of `Trace.CacheImpact`, which may fill in the data sizes of the spans
unfoldable pub impact_of_spans : ℕ → ℕ → List Span → List Span × ℕ
impact_of_spans now trace_timeout [] = ([], 0)
impact_of_spans now trace_timeout (sp ∷ sps) =
    let (sp', n) = cache_impact now trace_timeout sp in
    let (sps', rest) = impact_of_spans now trace_timeout sps in (sp' ∷ sps', n + rest)

-- `Trace.CacheImpact`, memoized in `total_impact`
unfoldable pub trace_impact : ℕ → ℕ → Trace → Trace × ℕ
unfolding impact_of_spans
trace_impact now trace_timeout t =
    if t.total_impact == 0
    then (let (sps, n) = impact_of_spans now trace_timeout t.spans in
        (record t { spans = sps; total_impact = n }, n))
    else (t, t.total_impact)

-- `DescendantCount`, a `uint32`
unfoldable pub descendant_count : Trace → ℕ
descendant_count t = u32 (length t.spans)

pub record SpanCounts : Type 0 where
  pub spans : ℕ
  pub events : ℕ
  pub links : ℕ

unfoldable pub bump : AnnotationType → SpanCounts → SpanCounts
bump span_event c = record c { events = u32 (c.events + 1) }
bump link c = record c { links = u32 (c.links + 1) }
bump _ c = record c { spans = u32 (c.spans + 1) }

-- the loop of `calculateSpanCounts`
unfoldable pub count_spans : SpanCounts → List Span → SpanCounts
unfolding bump
count_spans c [] = c
count_spans c (sp ∷ sps) = count_spans (bump (annotation_type sp) c) sps

unfoldable pub calculate_span_counts : Trace → Trace
unfolding count_spans
calculate_span_counts t =
    let c = count_spans (record { spans = 0; events = 0; links = 0 }) t.spans in
    record t { span_count = c.spans; span_event_count = c.events; span_link_count = c.links }

-- what `SpanCount`, `SpanLinkCount` and `SpanEventCount` do first
unfoldable pub counted : Trace → Trace
counted t =
    if t.span_link_count == 0 && (t.span_count == 0 && t.span_event_count == 0)
    then calculate_span_counts t
    else t

unfoldable pub span_count_of : Trace → ℕ
span_count_of t = (counted t).span_count

unfoldable pub span_link_count_of : Trace → ℕ
span_link_count_of t = (counted t).span_link_count

unfoldable pub span_event_count_of : Trace → ℕ
span_event_count_of t = (counted t).span_event_count
