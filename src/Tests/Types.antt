-- ===== src/Tests/Types.antt =====
-- Spans, traces and payloads, at concrete inputs.
use refinery.Base.{
  length, ◌+◌, ◌≡◌, ◌≢◌, refl, sym, subst, str_less, true, false, none, some, String,
  String_discrete, [], ◌∷◌, arith,
}
use refinery.GoMap.{Unique, get}
use refinery.Types.Value.{bool, str}
use refinery.Types.Payload.{
  Payload, empty_payload, meta_type, mentions, entries_of, entries_or, memoize_fields,
  metadata_fields,
}
use refinery.Types.Payload.Seen.{IsValid, SameReads}
use refinery.Types.Payload.Transparent.{memoize_fields-SameReads}
use refinery.Types.Trace.{
  span_count_of, span_event_count_of, span_link_count_of, descendant_count, counted,
}
use refinery.Types.Trace.Counts.{add_spans, counts_stale}
use refinery.Tests.Samples.{span, trace}

a_plain : meta_type "a" ≡ none
unfolding meta_type metadata_fields get String_discrete
a_plain = refl

abbrev payload : Payload
payload = record empty_payload {
  entries = some (("a", some (str "x")) ∷ ("b", some (bool true)) ∷ []);
  data_len = 9;
}

payload-IsValid : IsValid payload
unfolding entries_of entries_or Unique get String_discrete mentions
payload-IsValid = record { distinct = (refl, (refl, tt)); decodes = tt; missing_absent = λ k h. cc }

b_ne_a : ◌≢◌ {A = String} "b" "a"
unfolding str_less
b_ne_a e = let h : false ≡ true = subst (λ s. str_less "a" s ≡ true) e refl in cc

only_a : (k : String) → mentions ("a" ∷ []) k ≡ true → meta_type k ≡ none
unfolding mentions get
only_a k h = elim (String_discrete "a" k) [
  | yes p ↦ rw (sym p) a_plain
  | no p ↦ absurd (ground arith)
]

memoize_fields-SameReads_example :
    IsValid (memoize_fields payload ("a" ∷ []))
    × SameReads (memoize_fields payload ("a" ∷ [])) payload
memoize_fields-SameReads_example =
    memoize_fields-SameReads payload ("a" ∷ []) payload-IsValid only_a

counts_stale_example :
    let t' = add_spans 3 (counted trace) (span ∷ span ∷ []) in
    (span_count_of t' ≡ span_count_of trace)
    × (span_event_count_of t' ≡ span_event_count_of trace)
    × (span_link_count_of t' ≡ span_link_count_of trace)
    × (span_count_of t' + span_event_count_of t' + span_link_count_of t' ≡ length trace.spans)
    × (descendant_count t' ≡ length trace.spans + 2)
counts_stale_example =
    counts_stale 3 trace (span ∷ span ∷ []) refl refl refl (omega arith) (omega arith)
