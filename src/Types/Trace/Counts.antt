-- ===== src/Types/Trace/Counts.antt =====
-- types/event.go: the counts of spans, span events and links in a trace.
use refinery.Base.{
  ℕ, ◌+◌, ◌^◌, ◌<◌, ◌≡◌, refl, ap, ◌∙◌, List, [], ◌∷◌, length, arith, length-append,
}
use refinery.Types.Span.{
  Span, AnnotationType, unset, unknown, span_event, link, annotation_type, data_size_of,
}
use refinery.Types.Trace.{
  Trace, SpanCounts, add_span, bump, count_spans, calculate_span_counts, counted, span_count_of,
  span_event_count_of, span_link_count_of, descendant_count,
}

total : SpanCounts → ℕ
total c = c.spans + c.events + c.links

total-bump :
    (t : AnnotationType) (c : SpanCounts) → total c + 1 < 2 ^ 32 → total (bump t c) ≡ total c + 1
unfolding total bump
total-bump unset c h = omega arith
total-bump unknown c h = omega arith
total-bump span_event c h = omega arith
total-bump link c h = omega arith

total-count_spans :
    (c : SpanCounts) (sps : List Span)
    → total c + length sps < 2 ^ 32
    → total (count_spans c sps) ≡ total c + length sps
unfolding count_spans
total-count_spans c [] h = omega arith
total-count_spans c (sp ∷ sps) h = omega (
  arith,
  total-bump (annotation_type sp) c (omega arith),
  total-count_spans (bump (annotation_type sp) c) sps
      (omega (arith, total-bump (annotation_type sp) c (omega arith))),
)

counted-fresh :
    (t : Trace)
    → t.span_count ≡ 0
    → t.span_event_count ≡ 0
    → t.span_link_count ≡ 0
    → counted t ≡ calculate_span_counts t
unfolding counted
counted-fresh t a b c = ground arith

-- Every span of a trace is counted once, as a span, a span event or a link: on a trace whose
-- counts were not taken before, and which has fewer than 2 ^ 32 spans, the three counts sum to
-- the count of descendants.
pub counts_total :
    (t : Trace)
    → t.span_count ≡ 0
    → t.span_event_count ≡ 0
    → t.span_link_count ≡ 0
    → length t.spans < 2 ^ 32
    → span_count_of t + span_event_count_of t + span_link_count_of t ≡ descendant_count t
unfolding span_count_of span_event_count_of span_link_count_of calculate_span_counts
    descendant_count total
counts_total t a b c h =
    rw (counted-fresh t a b c, span_count_of, span_event_count_of, span_link_count_of)
      (omega (
        arith,
        total-count_spans (record { spans = 0; events = 0; links = 0 }) t.spans (omega arith),
      ))

counted_kept :
    (t : Trace) → 0 < t.span_count + t.span_event_count + t.span_link_count → counted t ≡ t
unfolding counted
counted_kept t h = ground arith

abbrev pub add_spans : ℕ → Trace → List Span → Trace
add_spans now t [] = t
add_spans now t (sp ∷ sps) = add_spans now (add_span now t sp) sps

-- Adding spans leaves the memo of the counts as it is.
abbrev SameMemo : Trace → Trace → Type 0
SameMemo t' t =
    (t'.span_count ≡ t.span_count)
    × (t'.span_event_count ≡ t.span_event_count)
    × (t'.span_link_count ≡ t.span_link_count)

add_spans-SameMemo : (now : ℕ) (t : Trace) (sps : List Span) → SameMemo (add_spans now t sps) t
unfolding add_span
add_spans-SameMemo now t [] = (refl, refl, refl)
add_spans-SameMemo now t (sp ∷ sps) = add_spans-SameMemo now (add_span now t sp) sps

length-add_spans :
    (now : ℕ) (t : Trace) (sps : List Span)
    → length (add_spans now t sps).spans ≡ length t.spans + length sps
unfolding add_span
length-add_spans now t [] = omega arith
length-add_spans now t (sp ∷ sps) = omega (
  arith,
  length-add_spans now (add_span now t sp) sps,
  length-append {0} t.spans ((data_size_of (record sp { arrival_time = now })).0 ∷ []),
)

total_counted :
    (t : Trace)
    → t.span_count ≡ 0
    → t.span_event_count ≡ 0
    → t.span_link_count ≡ 0
    → length t.spans < 2 ^ 32
    → (counted t).span_count + (counted t).span_event_count + (counted t).span_link_count
      ≡ length t.spans
unfolding span_count_of span_event_count_of span_link_count_of descendant_count
total_counted t a b c h = counts_total t a b c h ∙ omega arith

spans-counted : (t : Trace) → (counted t).spans ≡ t.spans
unfolding counted calculate_span_counts
spans-counted t = ground arith

-- The counts of a trace that has spans, and whose counts were not taken before, are taken once: after
-- they were, and after more spans were added, each of the three is as it was, so that they sum to the
-- descendants that there were then, while the count of descendants has all the spans that were
-- added; as long as these are fewer than 2 ^ 32.
pub counts_stale :
    (now : ℕ) (t : Trace) (sps : List Span)
    → t.span_count ≡ 0
    → t.span_event_count ≡ 0
    → t.span_link_count ≡ 0
    → 0 < length t.spans
    → length t.spans + length sps < 2 ^ 32
    → let t' = add_spans now (counted t) sps in
      (span_count_of t' ≡ span_count_of t)
      × (span_event_count_of t' ≡ span_event_count_of t)
      × (span_link_count_of t' ≡ span_link_count_of t)
      × (span_count_of t' + span_event_count_of t' + span_link_count_of t' ≡ length t.spans)
      × (descendant_count t' ≡ length t.spans + length sps)
unfolding span_count_of span_event_count_of span_link_count_of descendant_count
counts_stale now t sps a b c n fits =
    let t' = add_spans now (counted t) sps in
    let (m, e, l) = add_spans-SameMemo now (counted t) sps in
    let sum = total_counted t a b c (omega arith) in
    let kept = counted_kept t' (omega (arith, m, e, l, sum)) in
    let s1 = ap (λ x. x.span_count) kept ∙ m in
    let s2 = ap (λ x. x.span_event_count) kept ∙ e in
    let s3 = ap (λ x. x.span_link_count) kept ∙ l in
    (
      s1,
      s2,
      s3,
      omega (arith, s1, s2, s3, sum),
      omega (arith, length-add_spans now (counted t) sps, ap length (spans-counted t)),
    )
