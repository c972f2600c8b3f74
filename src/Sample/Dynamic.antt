-- ===== src/Sample/Dynamic.antt =====
-- sample/dynamic.go, dynamic_ema.go, ema_throughput.go, windowed_throughput.go, totalthroughput.go: the
-- five samplers by key, which differ in their reason and in the sampler of dynsampler-go that they
-- wrap. That one is a parameter: its state, and what it answers for a key and a count. Of the metrics
-- those that it keeps itself are left out. `none` is a panic.
use refinery.Base.{
  ℕ, ◌+◌, ◌-◌, ◌%◌, ◌^◌, ◌≤◌, ◌<◌, ◌≡◌, refl, ap, Bool, true, false, Option, none, some, String,
  str_less, List, ◌∷◌, ltb, ◌==◌, if◌then◌else◌, arith,
}
use refinery.Base.Int.{ℤ, pos, negsuc, pos_part, neg_part}
use refinery.Base.Sort.{sort}
use refinery.Types.Trace.{Trace, descendant_count}
use refinery.Rules.Sampler.{uint_of_int, Answer}
use refinery.Config.KeyFields.{get_key_fields}
use refinery.Sample.TraceKey.{Texts, TraceKey, new_trace_key, build}

pub data Kind : Type 0 where
  dynamic ema_dynamic ema_throughput windowed_throughput total_throughput : Kind

abbrev pub reason_of : Kind → String
reason_of dynamic = "dynamic"
reason_of ema_dynamic = "emadynamic"
reason_of ema_throughput = "emathroughput"
reason_of windowed_throughput = "windowedthroughput"
reason_of total_throughput = "totalthroughput"

-- what `RecordMetrics` keeps of the answers
pub record Recorded : Type 0 where
  pub num_kept : ℕ
  pub num_dropped : ℕ
  pub sample_rates : List ℕ
  pub cardinalities : List ℕ

pub record DynamicSampler (D : Type 0) : Type 0 where
  pub kind : Kind
  pub key : TraceKey
  pub key_fields : List String
  pub non_root_fields : List String
  pub dynsampler : D
  pub recorded : Recorded

-- the list that the key fields are read from: `newTraceKey` sorts it in place
unfoldable pub list_read : Kind → List String → List String
list_read ema_dynamic fs = fs
list_read _ fs = sort str_less fs

module _ (D : Type 0) (texts : Texts) where
  unfoldable pub started :
      Kind
      → TraceKey
      → D
      → Recorded
      → Option (List String × List String)
      → Option (DynamicSampler D)
  started kind key d r none = none
  started kind key d r (some (all, non_root)) = some (record {
    kind = kind;
    key = key;
    key_fields = all;
    non_root_fields = non_root;
    dynsampler = d;
    recorded = r;
  })

  -- `Start`
  unfoldable pub start : Kind → List String → Bool → D → Recorded → Option (DynamicSampler D)
  unfolding started list_read
  start kind field_list use_trace_length d r =
      started kind (new_trace_key field_list use_trace_length) d r
        (get_key_fields (list_read kind field_list))

  unfoldable pub record_metrics : Bool → ℕ → ℕ → Recorded → Recorded
  record_metrics true rate n r = record {
    num_kept = r.num_kept + 1;
    num_dropped = r.num_dropped;
    sample_rates = rate ∷ r.sample_rates;
    cardinalities = n ∷ r.cardinalities;
  }
  record_metrics false rate n r = record {
    num_kept = r.num_kept;
    num_dropped = r.num_dropped + 1;
    sample_rates = rate ∷ r.sample_rates;
    cardinalities = n ∷ r.cardinalities;
  }

  module _ (ask : D → String → ℕ → D × ℤ) (draw : ℕ → ℕ) where
    -- the decision by a rate; `rand.Intn` panics for what is negative as an `int`
    unfoldable pub decide :
        DynamicSampler D → TraceKey → String → ℕ → D → ℕ → Option (DynamicSampler D × Answer)
    unfolding record_metrics
    decide s k key n d rate =
        let kept = draw rate == 0 in
        if ltb rate (2 ^ 63)
        then some (
          record s { key = k; dynsampler = d; recorded = record_metrics kept rate n s.recorded },
          record { rate = rate; kept = kept; reason = reason_of s.kind; key = key },
        )
        else none

    -- what is not at least 1 counts as 1
    abbrev pub at_least_one : ℕ → ℕ
    at_least_one rate = if ltb rate 1 then 1 else rate

    unfoldable pub after_ask :
        DynamicSampler D → TraceKey → String → ℕ → D × ℤ → Option (DynamicSampler D × Answer)
    unfolding decide uint_of_int
    after_ask s k key n (d, r) = decide s k key n d (at_least_one (uint_of_int r))

    unfoldable pub after_build :
        DynamicSampler D → ℕ → TraceKey × (String × ℕ) → Option (DynamicSampler D × Answer)
    unfolding after_ask
    after_build s count (k, (key, n)) = after_ask s k key n (ask s.dynsampler key count)

    -- `GetSampleRate`
    unfoldable pub get_sample_rate : DynamicSampler D → Trace → Option (DynamicSampler D × Answer)
    unfolding after_build
    get_sample_rate s t = after_build s (descendant_count t) (build texts s.key t)

    -- What is answered for what the wrapped sampler says: a panic for a negative number, else that
    -- number or 1, by which the draw decides, and one more trace counted.
    abbrev pub Answered : DynamicSampler D → ℤ → Option (DynamicSampler D × Answer) → Type 0
    Answered s (negsuc r) o = o ≡ none
    Answered s (pos r) none = ⊥
    Answered s (pos r) (some (s', a)) =
        (a.rate ≡ at_least_one r)
        × (1 ≤ a.rate)
        × (a.kept ≡ (draw (at_least_one r) == 0))
        × (s'.recorded.num_kept + s'.recorded.num_dropped
            ≡ s.recorded.num_kept + s.recorded.num_dropped + 1)

    recorded_once :
        (kept : Bool) (rate n : ℕ) (r : Recorded)
        → (record_metrics kept rate n r).num_kept + (record_metrics kept rate n r).num_dropped
          ≡ r.num_kept + r.num_dropped + 1
    unfolding record_metrics
    recorded_once true rate n r = omega arith
    recorded_once false rate n r = omega arith

    at_least_one-low : (r : ℕ) → r < 2 ^ 63 → ltb (at_least_one (r % 2 ^ 64)) (2 ^ 63) ≡ true
    at_least_one-low r h = ground arith

    at_least_one-high :
        (r : ℕ) → r < 2 ^ 63 → ltb (at_least_one (2 ^ 64 - 1 - r % 2 ^ 64)) (2 ^ 63) ≡ false
    at_least_one-high r h = ground arith

    none_case :
        (b : Bool) (x : DynamicSampler D × Answer) → b ≡ false → (if b then some x else none) ≡ none
    none_case true x e = cc
    none_case false x e = refl

    some_case :
        (s : DynamicSampler D) (r : ℕ) (b : Bool) (x : DynamicSampler D × Answer)
        → b ≡ true
        → Answered s (pos r) (some x)
        → Answered s (pos r) (if b then some x else none)
    some_case s r true x e h = h
    some_case s r false x e h = cc

    as_it_is : (r : ℕ) → r < 2 ^ 63 → r % 2 ^ 64 ≡ r
    as_it_is r h = omega arith

    le-at_least_one : (r : ℕ) → 1 ≤ at_least_one r
    le-at_least_one r = ground arith

    after_ask-Answered :
        (s : DynamicSampler D) (k : TraceKey) (key : String) (n : ℕ) (d : D) (z : ℤ)
        → pos_part z < 2 ^ 63
        → neg_part z ≤ 2 ^ 63
        → Answered s z (after_ask s k key n (d, z))
    unfolding after_ask decide uint_of_int
    after_ask-Answered s k key n d (negsuc r) h l =
        none_case (ltb (at_least_one (2 ^ 64 - 1 - r % 2 ^ 64)) (2 ^ 63)) _
          (at_least_one-high r (omega arith))
    after_ask-Answered s k key n d (pos r) h l =
        some_case s r (ltb (at_least_one (r % 2 ^ 64)) (2 ^ 63)) _ (at_least_one-low r h) (
          ap at_least_one (as_it_is r h),
          le-at_least_one (r % 2 ^ 64),
          ap (λ m. draw (at_least_one m) == 0) (as_it_is r h),
          recorded_once (draw (at_least_one (r % 2 ^ 64)) == 0) (at_least_one (r % 2 ^ 64)) n
              s.recorded,
        )

    -- The answer that the wrapped sampler gives for the key of a trace and its descendants.
    abbrev pub asked : DynamicSampler D → Trace → ℤ
    asked s t = (ask s.dynsampler (build texts s.key t).1.0 (descendant_count t)).1

    -- If the wrapped sampler answers a 64-bit integer, then `GetSampleRate` panics exactly if that is
    -- negative. Else the rate is that number, or 1 for 0, the draw below that rate decides, and the
    -- trace is counted once, as kept or as dropped.
    pub get_sample_rate-Answered :
        (s : DynamicSampler D) (t : Trace)
        → pos_part (asked s t) < 2 ^ 63
        → neg_part (asked s t) ≤ 2 ^ 63
        → Answered s (asked s t) (get_sample_rate s t)
    unfolding get_sample_rate after_build
    get_sample_rate-Answered s t h l =
        let b = build texts s.key t in
        after_ask-Answered s b.0 b.1.0 b.1.1 (ask s.dynsampler b.1.0 (descendant_count t)).0
          (asked s t) h l
