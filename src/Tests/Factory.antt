-- ===== src/Tests/Factory.antt =====
-- The factory of samplers, at concrete inputs.
use refinery.Base.{
  ℕ, ◌+◌, ◌≡◌, ◌≢◌, refl, subst, true, false, Option, none, some, String, List, [], ◌∷◌, str_less,
  String_discrete,
}
use Prim.Native.String.{◌++◌ as joined}
use refinery.Base.Int.{ℤ, pos}
use refinery.Base.Sort.{sort}
use refinery.Config.KeyFields.{get_key_fields, split, key_fields_of, all_fields, split_or}
use refinery.Sample.Dynamic.{dynamic, total_throughput, DynamicSampler, start, started, list_read}
use refinery.Sample.Factory.{
  KeyedConfig, SamplerFactory, Dynsamplers, new, create_sampler, has_throughput, left_behind,
  dynsampler_key, after_start,
}
use refinery.Sample.Factory.Scaled.{
  Event, create, peers_changed, Holds, IsScaled, after, after-new-IsScaled,
}
use refinery.Sample.Factory.Shared.{stamp_at}
use refinery.GoMap.{get}
use refinery.Sample.Factory.Reuse.{create_sampler-shares, create_sampler-left_behind}
use refinery.Tests.Keys.{texts}

-- samplers that are no more than their goal
abbrev goals : Dynsamplers ℤ
goals = record { create = λ c. c.fields.goal; can_set_goal = has_throughput; set_goal = λ d z. z }

abbrev show_list : List String → String
show_list [] = ""
show_list (x ∷ xs) = joined x (joined " " (show_list xs))

abbrev unsorted : KeyedConfig
unsorted = record {
  kind = total_throughput;
  fields = record { goal = pos 100; field_list = "b" ∷ "a" ∷ [] };
  use_cluster_size = true;
  use_trace_length = false;
}

abbrev sorted_config : KeyedConfig
sorted_config = record unsorted { fields = record { goal = pos 100; field_list = "a" ∷ "b" ∷ [] } }

abbrev nothing_made : SamplerFactory ℤ × DynamicSampler ℕ
nothing_made = (
  new ℤ goals,
  record {
    kind = dynamic;
    key = record {
      fields = [];
      root_only_fields = [];
      use_trace_length = false;
      distinct_value = record { values = []; total_unique_count = 0; max_distinct_value = 0 };
    };
    key_fields = [];
    non_root_fields = [];
    dynsampler = 7;
    recorded = record { num_kept = 0; num_dropped = 0; sample_rates = []; cardinalities = [] };
  },
)

abbrev given {ℓ} : {A : Type ℓ} → A → Option A → A
given d none = d
given d (some a) = a

abbrev made : KeyedConfig → SamplerFactory ℤ → SamplerFactory ℤ × DynamicSampler ℕ
made c s = given nothing_made (create_sampler ℤ goals texts show_list (some 3) c "env" s)

after-new-IsScaled_example : Holds (IsScaled ℤ goals texts show_list (λ d. d)) (
    after ℤ goals texts show_list
      (create "env" unsorted (some 3) ∷ peers_changed (some 7) ∷ peers_changed none ∷ [])
      (some (new ℤ goals)))
after-new-IsScaled_example =
    after-new-IsScaled ℤ goals texts show_list (λ d. d) (λ d z. refl)
      (create "env" unsorted (some 3) ∷ peers_changed (some 7) ∷ peers_changed none ∷ [])

abbrev first : SamplerFactory ℤ × DynamicSampler ℕ
first = made sorted_config (new ℤ goals)

first_made :
    create_sampler ℤ goals texts show_list (some 3) sorted_config "env" (new ℤ goals) ≡ some first
unfolding create_sampler new after_start start started list_read get_key_fields split key_fields_of
    all_fields split_or sort str_less String_discrete
first_made = refl

-- the count of peers changes, and another environment asks for a sampler
abbrev between : List Event
between = peers_changed (some 5) ∷ create "other" unsorted none ∷ []

abbrev disturbed : SamplerFactory ℤ
disturbed = given first.0 (after ℤ goals texts show_list between (some first.0))

disturbed_reached : after ℤ goals texts show_list between (some first.0) ≡ some disturbed
unfolding create_sampler new after_start start started list_read get_key_fields split key_fields_of
    all_fields split_or sort str_less String_discrete
disturbed_reached = refl

abbrev again : SamplerFactory ℤ × DynamicSampler ℕ
again = made sorted_config disturbed

again_made :
    create_sampler ℤ goals texts show_list (some 3) sorted_config "env" disturbed ≡ some again
unfolding create_sampler new after_start start started list_read get_key_fields split key_fields_of
    all_fields split_or sort str_less String_discrete
again_made = refl

create_sampler-shares_example : again.1.dynsampler ≡ first.1.dynsampler
create_sampler-shares_example =
    create_sampler-shares ℤ goals texts show_list (some 3) (some 3) sorted_config sorted_config
      "env" "env" (new ℤ goals) first.0 disturbed again.0 first.1 again.1 between first_made
      (tt, ((λ e. refl), tt)) disturbed_reached refl refl again_made

abbrev other : SamplerFactory ℤ × DynamicSampler ℕ
other = made unsorted (new ℤ goals)

other_made :
    create_sampler ℤ goals texts show_list (some 3) unsorted "env" (new ℤ goals) ≡ some other
unfolding create_sampler new after_start start started list_read get_key_fields split key_fields_of
    all_fields split_or sort str_less String_discrete
other_made = refl

abbrev second : SamplerFactory ℤ × DynamicSampler ℕ
second = made (left_behind unsorted) other.0

second_made :
    create_sampler ℤ goals texts show_list (some 3) (left_behind unsorted) "env" other.0
    ≡ some second
unfolding create_sampler new after_start start started list_read get_key_fields split key_fields_of
    all_fields split_or sort str_less String_discrete left_behind
second_made = refl

keys_differ :
    dynsampler_key texts show_list "env" (left_behind unsorted)
    ≢ dynsampler_key texts show_list "env" unsorted
unfolding dynsampler_key left_behind sort str_less
keys_differ e =
    let h : false ≡ true =
      subst (λ k. str_less k (dynsampler_key texts show_list "env" unsorted) ≡ true) e refl in
    cc

none_stored : (k : String) → stamp_at ℤ goals k (new ℤ goals) ≡ none
unfolding new get
none_stored k = refl

create_sampler-left_behind_example :
    (other.1.dynsampler ≡ (new ℤ goals).next_address)
    × (second.1.dynsampler ≡ (new ℤ goals).next_address + 1)
create_sampler-left_behind_example =
    create_sampler-left_behind ℤ goals texts show_list (some 3) (some 3) unsorted "env"
      (new ℤ goals) other.0 second.0 other.1 second.1 (none_stored _) (none_stored _) keys_differ
      other_made second_made
