-- ===== src/Config/Samplers.antt =====
-- config/sampler_config.go: which sampler a configuration chooses, and which fields its samplers read. Of
-- the configurations only what is read here is modelled. The set of the fields is visited in the
-- order of the list that it is made of.
use refinery.Base.{Bool, Option, none, some, String, String_discrete, List, [], ◌∷◌, if◌then◌else◌}
use Prim.Native.String.{◌++◌ as joined}
use refinery.Base.Int.{ℤ, pos, ltb_ℤ}
use refinery.Generics.Set
use refinery.Rules.Operators.{Std}
use refinery.Rules.Condition.{Condition, equal_str, init}
use refinery.Rules.Sampler.{Rule}

pub record DeterministicConfig : Type 0 where
  pub sample_rate : ℤ

-- `DynamicSamplerConfig` and `EMADynamicSamplerConfig`, with a sample rate for goal, and
-- `EMAThroughputSamplerConfig`, `WindowedThroughputSamplerConfig` and `TotalThroughputSamplerConfig`,
-- with a throughput
pub record FieldsConfig : Type 0 where
  pub goal : ℤ
  pub field_list : List String

-- `RulesBasedDownstreamSampler`
pub record Downstream : Type 0 where
  pub dynamic_sampler : Option FieldsConfig
  pub ema_dynamic_sampler : Option FieldsConfig
  pub ema_throughput_sampler : Option FieldsConfig
  pub windowed_throughput_sampler : Option FieldsConfig
  pub total_throughput_sampler : Option FieldsConfig
  pub deterministic_sampler : Option DeterministicConfig

-- `RulesBasedSamplerConfig`; a rule may be nil
pub record RulesConfig : Type 0 where
  pub rules : List (Option (Rule Condition Downstream))
  pub check_nested_fields : Bool

-- `V2SamplerChoice`
pub record Choice : Type 0 where
  pub deterministic_sampler : Option DeterministicConfig
  pub rules_based_sampler : Option RulesConfig
  pub dynamic_sampler : Option FieldsConfig
  pub ema_dynamic_sampler : Option FieldsConfig
  pub ema_throughput_sampler : Option FieldsConfig
  pub windowed_throughput_sampler : Option FieldsConfig
  pub total_throughput_sampler : Option FieldsConfig

-- the first that is not nil
abbrev pub first_given {ℓ κ} : {A : Type ℓ} {B : Type κ} → Option A → (A → B) → B → B
first_given none f rest = rest
first_given (some a) f rest = f a

-- `GetSamplingFields` of a downstream sampler
unfoldable pub downstream_fields : Downstream → List String
downstream_fields d =
    first_given d.deterministic_sampler (λ c. [])
      (first_given d.dynamic_sampler (λ c. c.field_list)
        (first_given d.ema_dynamic_sampler (λ c. c.field_list)
          (first_given d.ema_throughput_sampler (λ c. c.field_list)
            (first_given d.windowed_throughput_sampler (λ c. c.field_list)
              (first_given d.total_throughput_sampler (λ c. c.field_list) [])))))

-- `NameMeaningfulRate`
abbrev pub named_above : ℤ → String → ℤ → String
named_above limit name goal = if ltb_ℤ limit goal then name else ""

unfoldable pub name_meaningful_rate : Downstream → String
name_meaningful_rate d =
    first_given d.dynamic_sampler (λ c. named_above (pos 1) "DynamicSampler" c.goal)
      (first_given d.ema_dynamic_sampler (λ c. named_above (pos 1) "EMADynamicSampler" c.goal)
        (first_given d.ema_throughput_sampler
          (λ c. named_above (pos 1) "EMAThroughputSampler" c.goal)
          (first_given d.windowed_throughput_sampler
            (λ c. named_above (pos 0) "WindowedThroughputSampler" c.goal)
            (first_given d.total_throughput_sampler
              (λ c. named_above (pos 0) "TotalThroughputSampler" c.goal) ""))))

-- `NameMeaningfulSamplers`: the names that a rule adds
unfoldable pub add_rule_name :
    Rule Condition Downstream → Option Downstream → Set.Set String → Set.Set String
unfolding name_meaningful_rate
add_rule_name r none names = names
add_rule_name r (some d) names =
    if ltb_ℤ (pos 1) r.sample_rate
    then Set.add String_discrete names (joined "RulesBasedSampler(" (joined r.name ")") ∷ [])
    else if equal_str (name_meaningful_rate d) ""
    then names
    else Set.add String_discrete names (
        joined "RulesBasedSampler("
          (joined r.name (joined ", downstream Sampler " (joined (name_meaningful_rate d) ")")))
        ∷ [])

-- `none` is the panic of reading a rule that is nil
unfoldable pub rule_names :
    List (Option (Rule Condition Downstream)) → Set.Set String → Option (Set.Set String)
unfolding add_rule_name
rule_names [] names = some names
rule_names (none ∷ rs) names = none
rule_names (some r ∷ rs) names = rule_names rs (add_rule_name r r.sampler names)

abbrev pub one_name : String → Option (List String)
one_name s = some (s ∷ [])

abbrev pub members_of : Option (Set.Set String) → Option (List String)
members_of none = none
members_of (some s) = some (Set.members String_discrete s)

unfoldable pub name_meaningful_samplers : Choice → Option (List String)
unfolding rule_names
name_meaningful_samplers v =
    first_given v.deterministic_sampler (λ c. one_name "DeterministicSampler")
      (first_given v.rules_based_sampler (λ c. members_of (rule_names c.rules []))
        (first_given v.dynamic_sampler (λ c. one_name "DynamicSampler")
          (first_given v.ema_dynamic_sampler (λ c. one_name "EMADynamicSampler")
            (first_given v.ema_throughput_sampler (λ c. one_name "EMAThroughputSampler")
              (first_given v.windowed_throughput_sampler (λ c. one_name "WindowedThroughputSampler")
                (first_given v.total_throughput_sampler (λ c. one_name "TotalThroughputSampler")
                  (some [])))))))

module _ (std : Std) where
  -- the fields of a condition, which `Init` may have filled in from its one field
  unfoldable pub add_condition : List String → String → Set.Set String → Set.Set String
  add_condition [] field s =
      if equal_str field "" then s else Set.add String_discrete s (field ∷ [])
  add_condition (f ∷ fs) field s = Set.add String_discrete s (f ∷ fs)

  unfoldable pub add_conditions : List Condition → Set.Set String → Set.Set String
  unfolding add_condition
  add_conditions [] s = s
  add_conditions (c ∷ cs) s =
      add_conditions cs (add_condition (init std c).condition.fields c.field s)

  unfoldable pub conditions_of : Option (List Condition) → List Condition
  conditions_of none = []
  conditions_of (some cs) = cs

  unfoldable pub add_downstream : Option Downstream → Set.Set String → Set.Set String
  add_downstream none s = s
  add_downstream (some d) s = Set.add String_discrete s (downstream_fields d)

  unfoldable pub add_rules :
      List (Option (Rule Condition Downstream)) → Set.Set String → Set.Set String
  unfolding add_conditions conditions_of add_downstream
  add_rules [] s = s
  add_rules (none ∷ rs) s = add_rules rs s
  add_rules (some r ∷ rs) s =
      add_rules rs (add_downstream r.sampler (add_conditions (conditions_of r.conditions) s))

  -- `GetSamplingFields` of the rules
  unfoldable pub rules_fields : RulesConfig → List String
  unfolding add_rules
  rules_fields c = Set.members String_discrete (add_rules c.rules [])

  -- `GetSamplingFields` of a choice
  unfoldable pub choice_fields : Choice → List String
  unfolding rules_fields
  choice_fields v =
      first_given v.deterministic_sampler (λ c. [])
        (first_given v.rules_based_sampler rules_fields (
          first_given v.dynamic_sampler (λ c. c.field_list)
            (first_given v.ema_dynamic_sampler (λ c. c.field_list)
              (first_given v.ema_throughput_sampler (λ c. c.field_list)
                (first_given v.windowed_throughput_sampler (λ c. c.field_list)
                  (first_given v.total_throughput_sampler (λ c. c.field_list) []))))))

-- `Sampler`: the configuration that is chosen, and its name
pub data Chosen : Type 0 where
  deterministic : DeterministicConfig → Chosen
  rules_based : RulesConfig → Chosen
  by_fields : String → FieldsConfig → Chosen
  nothing : Chosen

unfoldable pub sampler : Choice → Chosen
sampler v = first_given v.deterministic_sampler deterministic (
    first_given v.rules_based_sampler rules_based (
      first_given v.dynamic_sampler (by_fields "DynamicSampler") (
        first_given v.ema_dynamic_sampler (by_fields "EMADynamicSampler") (
          first_given v.ema_throughput_sampler (by_fields "EMAThroughputSampler") (
            first_given v.windowed_throughput_sampler (by_fields "WindowedThroughputSampler") (
              first_given v.total_throughput_sampler (by_fields "TotalThroughputSampler")
                nothing))))))

-- the configuration that `GetDownstreamSampler` of sample/sample.go makes a sampler of, which it looks for
-- in another order than `GetSamplingFields`; for `nothing` the program exits
unfoldable pub chosen_downstream : Downstream → Chosen
chosen_downstream d = first_given d.dynamic_sampler (by_fields "DynamicSampler") (
    first_given d.ema_dynamic_sampler (by_fields "EMADynamicSampler") (
      first_given d.total_throughput_sampler (by_fields "TotalThroughputSampler") (
        first_given d.ema_throughput_sampler (by_fields "EMAThroughputSampler") (
          first_given d.windowed_throughput_sampler (by_fields "WindowedThroughputSampler")
            (first_given d.deterministic_sampler deterministic nothing)))))
