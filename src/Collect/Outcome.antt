-- ===== src/Collect/Outcome.antt =====
-- collect/collect.go: what becomes of a late span.
use refinery.Base.{
  ℕ, ◌*◌, ◌≡◌, refl, ◌∙◌, ap, Bool, true, false, ◌||◌, Option, none, some, String, String_discrete,
  List, [], ◌∷◌, ltb, if◌then◌else◌, arith, max, Bool-cases, inl, inr, if_pos, if_neg,
}
use refinery.GoMap.{is_some}
use refinery.Types.Value.{Value}
use refinery.Types.Span.{Span, set_field}
use refinery.Cache.Sent.{SentRecord, is_kept, rate}
use refinery.Collect.Config.{Config}
use refinery.Types.Trace.{Trace}
use refinery.Collect.Worker.{Sendable}
use refinery.Collect.Decide.{send_span, note_reason, note_counts, counted_if, counts_of_trace}
use refinery.Collect.Late.{
  RootCounts, add_attributes, counts_of, deal_with_sent_trace, late_reason, mark_dry_run,
  merge_sample_rates, note_hostname, set_counts, u64,
}

-- The rate that a span is sent with, from the rate of the trace and its own.
unfoldable pub final_rate : Config → ℕ → ℕ → ℕ
final_rate cfg trace_rate own = if cfg.is_dry_run then max 1 own else u64 (max 1 own * trace_rate)

rate-set_field :
    (sp : Span) (k : String) (v : Value) → (set_field sp k v).sample_rate ≡ sp.sample_rate
unfolding set_field
rate-set_field sp k v = refl

rate-add_attributes :
    (attrs : List (String × String)) (sp : Span)
    → (add_attributes attrs sp).sample_rate ≡ sp.sample_rate
unfolding add_attributes set_field
rate-add_attributes [] sp = refl
rate-add_attributes ((k, v) ∷ attrs) sp = rate-add_attributes attrs (set_field sp k (Value.str v))

rate-note_hostname :
    (cfg : Config) (sp : Span) → (note_hostname cfg sp).sample_rate ≡ sp.sample_rate
unfolding note_hostname set_field
rate-note_hostname cfg sp = elim (String_discrete cfg.hostname "") [
  | yes p ↦ ap (λ (t : Span). t.sample_rate) (if_pos (String_discrete cfg.hostname "") p _ _)
  | no p ↦ ap (λ (t : Span). t.sample_rate) (if_neg (String_discrete cfg.hostname "") p _ _)
]

rate-late_reason :
    (cfg : Config) (r : String) (sp : Span) → (late_reason cfg r sp).sample_rate ≡ sp.sample_rate
unfolding late_reason set_field
rate-late_reason cfg r sp = elim (Bool-cases cfg.add_rule_reason_to_trace) [
  | inl e ↦ rw e refl
  | inr e ↦ rw e refl
]

rate-mark_dry_run :
    (cfg : Config) (b : Bool) (sp : Span) → (mark_dry_run cfg b sp).sample_rate ≡ sp.sample_rate
unfolding mark_dry_run set_field
rate-mark_dry_run cfg b sp = elim (Bool-cases cfg.is_dry_run) [
  | inl e ↦ rw e refl
  | inr e ↦ rw e refl
]

pub rate-set_counts :
    (cfg : Config) (c : RootCounts) (sp : Span) → (set_counts cfg c sp).sample_rate ≡ sp.sample_rate
unfolding set_counts set_field
rate-set_counts cfg c sp = elim (Bool-cases cfg.add_counts_to_root) [
  | inl e ↦ rw e refl
  | inr e ↦ elim (Bool-cases cfg.add_span_count_to_root) [
    | inl f ↦ rw (e, f) refl
    | inr f ↦ rw (e, f) refl
  ]
]

own_rate : (n : ℕ) → (if ltb n 1 then 1 else n) ≡ max 1 n
own_rate n = ground arith

-- The rate after merging.
pub rate-merge_sample_rates :
    (cfg : Config) (sp : Span) (r : ℕ)
    → (merge_sample_rates sp r cfg.is_dry_run).sample_rate ≡ final_rate cfg r sp.sample_rate
unfolding merge_sample_rates final_rate
rate-merge_sample_rates cfg sp r = elim (Bool-cases cfg.is_dry_run) [
  | inl e ↦ rw e (own_rate sp.sample_rate)
  | inr e ↦ rw e (rate-set_field _ _ _ ∙ ap (λ n. u64 (n * r)) (own_rate sp.sample_rate))
]

rate-counts_if_root :
    (b : Bool) (cfg : Config) (c : RootCounts) (sp : Span)
    → (if b then set_counts cfg c sp else sp).sample_rate ≡ sp.sample_rate
rate-counts_if_root true cfg c sp = rate-set_counts cfg c sp
rate-counts_if_root false cfg c sp = refl

-- A late span is sent on exactly if its trace was kept or dry run is on. One of a kept trace is
-- sent with the rate of the trace, multiplied with its own, which counts as 1 if it is 0, in 64
-- bits; in dry run it keeps its own.
pub deal_with_sent_trace_lem :
    (cfg : Config) (tr : SentRecord) (reason : String) (sp : Span)
    → (is_some (deal_with_sent_trace cfg tr reason sp) ≡ (is_kept tr || cfg.is_dry_run))
      × (is_kept tr ≡ true
          → (sp' : Span) × (deal_with_sent_trace cfg tr reason sp ≡ some sp')
            × (sp'.sample_rate ≡ final_rate cfg (rate tr) sp.sample_rate))
unfolding deal_with_sent_trace
deal_with_sent_trace_lem cfg tr reason sp = elim (Bool-cases (is_kept tr)) [
  | inl k ↦ (rw k refl, λ _. (out, ap (λ b. if b then some out else dropped) k, rates))
  | inr d ↦ (
    elim (Bool-cases cfg.is_dry_run) [ inl e ↦ rw (d, e) refl | inr e ↦ rw (d, e) refl ],
    λ k. absurd (ground arith),
  )
]
  where
    sp1 : Span
    sp1 = note_hostname cfg (late_reason cfg reason sp)

    sp2 : Span
    sp2 = mark_dry_run cfg (is_kept tr) sp1

    sp3 : Span
    sp3 = merge_sample_rates sp2 (rate tr) cfg.is_dry_run

    sp4 : Span
    sp4 = if sp3.is_root then set_counts cfg (counts_of tr) sp3 else sp3

    out : Span
    out = add_attributes cfg.additional_attributes sp4

    dropped : Option Span
    dropped = if cfg.is_dry_run then some (add_attributes cfg.additional_attributes sp2) else none

    rates :
        (add_attributes cfg.additional_attributes sp4).sample_rate
        ≡ final_rate cfg (rate tr) sp.sample_rate
    rates =
        rate-add_attributes cfg.additional_attributes sp4
        ∙ rate-counts_if_root sp3.is_root cfg (counts_of tr) sp3
        ∙ rate-merge_sample_rates cfg sp2 (rate tr)
        ∙ ap (final_rate cfg (rate tr)) (
            rate-mark_dry_run cfg (is_kept tr) sp1
            ∙ rate-note_hostname cfg (late_reason cfg reason sp)
            ∙ rate-late_reason cfg reason sp)

rate-note_reason :
    (cfg : Config) (s : Sendable) (sp : Span) → (note_reason cfg s sp).sample_rate ≡ sp.sample_rate
unfolding note_reason set_field
rate-note_reason cfg s sp = elim (Bool-cases cfg.add_rule_reason_to_trace) [
  | inl e ↦ rw e (elim (String_discrete s.sample_key "") [
    | yes p ↦ ap (λ (t : Span). t.sample_rate) (if_pos (String_discrete s.sample_key "") p _ _)
    | no p ↦ ap (λ (t : Span). t.sample_rate) (if_neg (String_discrete s.sample_key "") p _ _)
  ])
  | inr e ↦ rw e refl
]

-- The rate of a span that `sendTraces` hands on.
pub rate-send_noted :
    (cfg : Config) (s : Sendable) (sp : Span)
    → (send_span cfg s sp).sample_rate ≡ final_rate cfg s.trace.sample_rate sp.sample_rate
unfolding send_span note_counts
rate-send_noted cfg s sp =
    rate-add_attributes cfg.additional_attributes
      (merge_sample_rates noted s.trace.sample_rate cfg.is_dry_run)
    ∙ rate-merge_sample_rates cfg noted s.trace.sample_rate
    ∙ ap (final_rate cfg s.trace.sample_rate) (
        rate-note_hostname cfg marked
        ∙ rate-mark_dry_run cfg s.should_send counted
        ∙ rate-counts_if_root reasoned.is_root cfg (counts_of_trace t) reasoned
        ∙ rate-note_reason cfg s sp)
  where
    t : Trace
    t = counted_if cfg s.trace

    reasoned : Span
    reasoned = note_reason cfg s sp

    counted : Span
    counted = note_counts cfg t reasoned

    marked : Span
    marked = mark_dry_run cfg s.should_send counted

    noted : Span
    noted = note_hostname cfg marked
