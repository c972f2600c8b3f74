-- ===== src/Cache/Sent/Entries.antt =====
-- collect/cache/cuckooSentCache.go: the entries of kept traces, and how spans are counted in them.
use refinery.Base.{
  ℕ, ◌+◌, ◌^◌, ◌<◌, ◌≡◌, refl, ap, sym, ◌∙◌, Bool, if◌then◌else◌, not, ◌&&◌, true, false, Option,
  none, some, inl, inr, Bool-cases, ◌==◌, String, length, arith,
}
use refinery.GoMap.{get_or}
use refinery.Deps.Filter.{CuckooFilter}
use refinery.Deps.Lru.{Lru}
use refinery.Types.Span.{Span, AnnotationType, unset, unknown, span_event, link, annotation_type}
use refinery.Types.Trace.{
  Trace, u32, counted, span_count_of, span_event_count_of, span_link_count_of, descendant_count,
  calculate_span_counts,
}
use refinery.Cache.Sent.{new_entry, count, reason_or_empty, KeptEntry, count_as}

-- the kinds that `Count` tells apart
abbrev pub is_span_event : AnnotationType → Bool
is_span_event span_event = true
is_span_event _ = false

abbrev pub is_link : AnnotationType → Bool
is_link link = true
is_link _ = false

abbrev pub is_plain : AnnotationType → Bool
is_plain k = not (is_span_event k) && not (is_link k)

-- a `uint32` with one more, or not
abbrev pub one_more : Bool → ℕ → ℕ
one_more true n = u32 (n + 1)
one_more false n = n

-- An entry counts what another counts, and a span of some kind.
unfoldable pub Counts : AnnotationType → KeptEntry → KeptEntry → Type 0
Counts k e' e =
    (e'.span_event_count ≡ one_more (is_span_event k) e.span_event_count)
    × (e'.span_link_count ≡ one_more (is_link k) e.span_link_count)
    × (e'.span_count ≡ one_more (is_plain k) e.span_count)
    × (e'.rate ≡ e.rate)
    × (e'.reason ≡ e.reason)
    × (e'.event_count ≡ e.event_count)

count_as-Counts : (k : AnnotationType) (e : KeptEntry) → Counts k (count_as k e) e
unfolding count_as Counts
count_as-Counts unset e = (refl, refl, refl, refl, refl, refl)
count_as-Counts unknown e = (refl, refl, refl, refl, refl, refl)
count_as-Counts span_event e = (refl, refl, refl, refl, refl, refl)
count_as-Counts link e = (refl, refl, refl, refl, refl, refl)

-- What the entry of a trace holds after its reason was noted.
unfoldable pub Describes : Trace → ℕ → KeptEntry → Type 0
Describes t n e =
    (e.rate ≡ u32 t.sample_rate)
    × (e.reason ≡ u32 n)
    × (e.event_count ≡ u32 (length t.spans))
    × (e.span_event_count ≡ span_event_count_of t)
    × (e.span_link_count ≡ span_link_count_of t)
    × (e.span_count ≡ span_count_of t)

if_same : {A : Type 0} (b : Bool) (x : A) → (if b then x else x) ≡ x
if_same true x = refl
if_same false x = refl

counted-calculate : (t : Trace) → counted (calculate_span_counts t) ≡ calculate_span_counts t
unfolding counted calculate_span_counts
counted-calculate t = if_same _ (calculate_span_counts t)

is_uncounted : Trace → Bool
is_uncounted t = t.span_link_count == 0 && (t.span_count == 0 && t.span_event_count == 0)

counted_if : (t : Trace) → counted t ≡ (if is_uncounted t then calculate_span_counts t else t)
unfolding counted is_uncounted
counted_if t = refl

pub new_entry-counted :
    (t : Trace) (n : ℕ) → Describes t n (new_entry (counted (record t { kept_reason = n })))
unfolding Describes new_entry descendant_count span_count_of span_event_count_of span_link_count_of
    calculate_span_counts is_uncounted
new_entry-counted t n =
    let t' : Trace = record t { kept_reason = n } in
    elim (Bool-cases (is_uncounted t)) [
      | inl h ↦
          let p = counted_if t' ∙ ap (λ b. if b then calculate_span_counts t' else t') h in
          let q = ap counted p ∙ counted-calculate t' in
          let r = sym (counted_if t ∙ ap (λ b. if b then calculate_span_counts t else t) h) in
          (
            ap (λ x. u32 x.sample_rate) p,
            ap (λ x. u32 x.kept_reason) p,
            ap (λ x. u32 (length x.spans)) p,
            ap (λ x. x.span_event_count) q ∙ ap (λ x. x.span_event_count) r,
            ap (λ x. x.span_link_count) q ∙ ap (λ x. x.span_link_count) r,
            ap (λ x. x.span_count) q ∙ ap (λ x. x.span_count) r,
          )
      | inr h ↦
          let p = counted_if t' ∙ ap (λ b. if b then calculate_span_counts t' else t') h in
          let q = ap counted p ∙ p in
          let r = sym (counted_if t ∙ ap (λ b. if b then calculate_span_counts t else t) h) in
          (
            ap (λ x. u32 x.sample_rate) p,
            ap (λ x. u32 x.kept_reason) p,
            ap (λ x. u32 (length x.spans)) p,
            ap (λ x. x.span_event_count) q ∙ ap (λ x. x.span_event_count) r,
            ap (λ x. x.span_link_count) q ∙ ap (λ x. x.span_link_count) r,
            ap (λ x. x.span_count) q ∙ ap (λ x. x.span_count) r,
          )
    ]

pub small : (n : ℕ) → n < 2 ^ 32 → u32 n ≡ n
small n h = omega arith

pub wrapped : (n : ℕ) → u32 (u32 n + 1) ≡ u32 (n + 1)
wrapped n = omega arith

-- What `Count` makes of an entry.
pub count-Counts :
    (e : KeptEntry) (sp : Span)
    → Counts (annotation_type sp) (count e sp) (record e { event_count = u32 (e.event_count + 1) })
unfolding count
count-Counts e sp =
    count_as-Counts (annotation_type sp) (record e { event_count = u32 (e.event_count + 1) })

pub stored_reason :
    (lru : Lru) (cf : CuckooFilter) (hash : String → ℕ) (o : Option String) (s : String)
    → o ≡ some s
    → reason_or_empty lru cf hash o ≡ s
unfolding reason_or_empty
stored_reason lru cf hash none s e = cc
stored_reason lru cf hash (some r) s e = ap (λ q. get_or q s) e
