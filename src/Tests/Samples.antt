-- ===== src/Tests/Samples.antt =====
-- A span and a trace to try things on.
use refinery.Base.{false, none, [], ◌∷◌}
use refinery.Types.Payload.{empty_payload}
use refinery.Types.Span.{Span, unset, span_event}
use refinery.Types.Trace.{Trace}

abbrev pub span : Span
span = record {
  api_host = "";
  api_key = "";
  dataset = "";
  environment = "";
  sample_rate = 1;
  timestamp = 0;
  payload = empty_payload;
  data_size = 10;
  trace_id = "t1";
  arrival_time = 0;
  is_root = false;
  annotation = unset;
}

abbrev pub trace : Trace
trace = record {
  api_host = "";
  api_key = "";
  dataset = "";
  trace_id = "t1";
  environment = "";
  sample_rate = 4;
  keep_sample = false;
  sent = false;
  kept_reason = 0;
  send_by = 5;
  arrival_time = 0;
  root_span = none;
  data_size = 20;
  spans = span ∷ record span { annotation = span_event } ∷ [];
  total_impact = 0;
  span_count = 0;
  span_event_count = 0;
  span_link_count = 0;
}
