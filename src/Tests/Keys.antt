-- ===== src/Tests/Keys.antt =====
-- The fields and the keys of samplers, at concrete inputs.
use refinery.Base.{
  ℕ, ◌+◌, ◌≤◌, ◌≡◌, refl, true, none, some, String, String_discrete, [], ◌∷◌, arith,
}
use refinery.Base.Int.{ℤ, pos}
use refinery.Generics.Set
use refinery.Rules.Operators.{has_prefix, drop_prefix}
use refinery.Config.KeyFields.{get_key_fields}
use refinery.Config.KeyNames.{IsKeyFields, get_key_fields-IsKeyFields}
use refinery.Config.Samplers.{Choice, choice_fields, sampler}
use refinery.Config.Covered.{AreSingle, chosen_reads, elem-choice_fields}
use refinery.Tests.Rules.{std}
use refinery.Tests.Start.{rule}
use refinery.Sample.TraceKey.{Texts, TraceKey, DistinctValue, build}
use refinery.Sample.Dynamic.{
  DynamicSampler, ema_dynamic, Answered, get_sample_rate, get_sample_rate-Answered,
}
use refinery.Sample.TraceKey.Bounds.{build_bounds}
use refinery.Tests.Samples

-- texts that all look alike
abbrev pub texts : Texts
texts = record { hash = λ s. 5; show_int = λ n. "1"; show_float = λ x. "1.5"; show = λ v. "?" }

abbrev key : TraceKey
key = record {
  fields = "name" ∷ [];
  root_only_fields = "host" ∷ [];
  use_trace_length = true;
  distinct_value = record { values = []; total_unique_count = 0; max_distinct_value = 0 };
}

abbrev used : DistinctValue
used = record { values = ((5, "left") ∷ []) ∷ []; total_unique_count = 1; max_distinct_value = 100 }

build_bounds_example :
    ((build texts key Samples.trace).1.1 ≤ 99 + 1 + 1)
    × (build texts (record key { distinct_value = used }) Samples.trace
        ≡ build texts key Samples.trace)
build_bounds_example = build_bounds texts key used Samples.trace

duplicates_stay :
    get_key_fields ("root.a" ∷ "b" ∷ "?.c" ∷ "a" ∷ []) ≡ some ("a" ∷ "b" ∷ "a" ∷ [], "b" ∷ "a" ∷ [])
unfolding get_key_fields has_prefix drop_prefix String_discrete
duplicates_stay = refl

get_key_fields-IsKeyFields_example :
    IsKeyFields ("root.a" ∷ "b" ∷ "?.c" ∷ []) (get_key_fields ("root.a" ∷ "b" ∷ "?.c" ∷ []))
get_key_fields-IsKeyFields_example = get_key_fields-IsKeyFields ("root.a" ∷ "b" ∷ "?.c" ∷ [])

abbrev choice : Choice
choice = record {
  deterministic_sampler = none;
  rules_based_sampler = some (record { rules = some rule ∷ none ∷ []; check_nested_fields = true });
  dynamic_sampler = none;
  ema_dynamic_sampler = none;
  ema_throughput_sampler = none;
  windowed_throughput_sampler = none;
  total_throughput_sampler = none;
}

only_one : AreSingle std (sampler choice)
unfolding sampler
only_one = (omega arith, (tt, tt))

elem-choice_fields_example :
    Set.elem String_discrete "status" (choice_fields std choice)
    ≡ chosen_reads std "status" (sampler choice)
elem-choice_fields_example = elem-choice_fields std choice "status" only_one

-- a sampler by key whose wrapped sampler answers 0
abbrev by_key : DynamicSampler (Unit {0})
by_key = record {
  kind = ema_dynamic;
  key = key;
  key_fields = "name" ∷ [];
  non_root_fields = "name" ∷ [];
  dynsampler = tt;
  recorded = record { num_kept = 0; num_dropped = 0; sample_rates = []; cardinalities = [] };
}

abbrev ask_zero : Unit {0} → String → ℕ → Unit {0} × ℤ
ask_zero d k n = (d, pos 0)

abbrev draw_zero : ℕ → ℕ
draw_zero n = 0

get_sample_rate-Answered_example :
    Answered
      (Unit {0})
      texts
      ask_zero
      draw_zero
      by_key
      (pos 0)
      (get_sample_rate (Unit {0}) texts ask_zero draw_zero by_key Samples.trace)
get_sample_rate-Answered_example =
    get_sample_rate-Answered (Unit {0}) texts ask_zero draw_zero by_key Samples.trace (omega arith)
      (omega arith)
