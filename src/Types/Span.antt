-- ===== src/Types/Span.antt =====
-- types/event.go: events and spans. A method that memoizes returns the updated span beside its
-- result. The request context and the enqueueing time are not modelled.
use refinery.Base.{ℕ, ◌+◌, ◌-◌, ◌*◌, ◌/◌, Bool, String, String_discrete, ite, if◌then◌else◌, ◌==◌}
use refinery.Types.Value.{Value, str}
use refinery.Types.Payload.{Payload, read, put, get_data_size}

pub data AnnotationType : Type 0 where
  unset unknown span_event link : AnnotationType

-- `Span`, with the fields of the event that it embeds.
pub record Span : Type 0 where
  pub api_host : String
  pub api_key : String
  pub dataset : String
  pub environment : String
  pub sample_rate : ℕ
  pub timestamp : ℕ
  pub payload : Payload
  pub data_size : ℕ  -- 0 until it is computed
  pub trace_id : String
  pub arrival_time : ℕ
  pub is_root : Bool
  pub annotation : AnnotationType

-- `Event.GetDataSize` and `Span.GetDataSize`
unfoldable pub data_size_of : Span → Span × ℕ
data_size_of sp =
    if sp.data_size == 0
    then (let n = get_data_size sp.payload in (record sp { data_size = n }, n))
    else (sp, sp.data_size)

annotation_of_value : Value → AnnotationType
annotation_of_value (str s) =
    ite (String_discrete s "span_event") span_event (ite (String_discrete s "link") link unknown)
annotation_of_value _ = unknown

annotation_from : AnnotationType → Value → AnnotationType
unfolding annotation_of_value
annotation_from unset v = annotation_of_value v
annotation_from t v = t

-- `Span.AnnotationType`, whose result is memoized in the span
unfoldable pub annotation_type : Span → AnnotationType
unfolding annotation_from
annotation_type sp = annotation_from sp.annotation (read sp.payload "meta.annotation_type")

-- `sp.Data.Set`
unfoldable pub set_field : Span → String → Value → Span
set_field sp key value = record sp { payload = put sp.payload key value }

abbrev pub cache_impact_factor : ℕ
cache_impact_factor = 4

-- `Span.CacheImpact`; the time since arrival is not negative, and the caller's timeout is not 0
unfoldable pub cache_impact : ℕ → ℕ → Span → Span × ℕ
unfolding data_size_of
cache_impact now trace_timeout sp =
    let multiplier = cache_impact_factor * (now - sp.arrival_time) / trace_timeout + 1 in
    let (sp', n) = data_size_of sp in (sp', multiplier * n)
