-- ===== src/Config/Covered.antt =====
-- config/sampler_config.go: the fields of a configuration are those that its sampler reads.
use refinery.Base.{
  All, ◌≡◌, refl, sym, ◌∙◌, ap, Bool, true, false, ◌||◌, Option, none, some, String,
  String_discrete, List, [], ◌∷◌, if◌then◌else◌, arith,
}
use refinery.GoMap.{get, keys}
use refinery.Config.Single.{IsSingleOr, list_of, downstream_fields-IsSingle}
use refinery.Generics.Set
use refinery.Rules.Operators.{Std}
use refinery.Rules.Condition.{Condition, equal_str, init}
use refinery.Rules.Reference.{any_of}
use refinery.Rules.Sampler.{Rule}
use refinery.Config.Samplers.{
  Downstream, FieldsConfig, first_given, RulesConfig, Choice, Chosen, deterministic, rules_based,
  by_fields, nothing, downstream_fields, add_condition, add_conditions, conditions_of,
  add_downstream, add_rules, rules_fields, choice_fields, sampler, chosen_downstream,
}

or_middle : (a b c : Bool) → ((a || b) || c) ≡ (a || (b || c))
or_middle true b c = refl
or_middle false b c = refl

or_false : (a : Bool) → (a || false) ≡ a
or_false true = refl
or_false false = refl

elem-keys :
    (s : Set.Set String) (name : String)
    → Set.elem String_discrete name (keys s) ≡ Set.contains String_discrete s name
unfolding Set.elem Set.contains get
elem-keys [] name = refl
elem-keys ((k, v) ∷ s) name = ground (arith, elem-keys s name)

module _ (std : Std) where
  -- The fields that a condition reads.
  abbrev fields_or : List String → String → List String
  fields_or [] field = if equal_str field "" then [] else field ∷ []
  fields_or (f ∷ fs) field = f ∷ fs

  abbrev pub condition_reads : String → Condition → Bool
  condition_reads name c =
      Set.elem String_discrete name (fields_or (init std c).condition.fields c.field)

  abbrev pub downstream_names : String → Option Downstream → Bool
  downstream_names name none = false
  downstream_names name (some d) = Set.elem String_discrete name (downstream_fields d)

  abbrev pub rule_names : String → Option (Rule Condition Downstream) → Bool
  rule_names name none = false
  rule_names name (some r) =
      any_of (condition_reads name) (conditions_of std r.conditions)
      || downstream_names name r.sampler

  add_if :
      (b : Bool) (field : String) (s : Set.Set String) (name : String)
      → Set.contains String_discrete (if b then s else Set.add String_discrete s (field ∷ [])) name
        ≡ (Set.contains String_discrete s name
            || Set.elem String_discrete name (if b then [] else field ∷ []))
  add_if true field s name = unfold Set.elem in sym (or_false _)
  add_if false field s name = Set.contains-add String_discrete (field ∷ []) s name

  contains-add_condition :
      (fs : List String) (field : String) (s : Set.Set String) (name : String)
      → Set.contains String_discrete (add_condition std fs field s) name ≡ (
          Set.contains String_discrete s name || Set.elem String_discrete name (fields_or fs field))
  unfolding add_condition
  contains-add_condition [] field s name = add_if (equal_str field "") field s name
  contains-add_condition (f ∷ fs) field s name = Set.contains-add String_discrete (f ∷ fs) s name

  contains-add_conditions :
      (cs : List Condition) (s : Set.Set String) (name : String)
      → Set.contains String_discrete (add_conditions std cs s) name
        ≡ (Set.contains String_discrete s name || any_of (condition_reads name) cs)
  unfolding add_conditions
  contains-add_conditions [] s name = sym (or_false _)
  contains-add_conditions (c ∷ cs) s name =
      contains-add_conditions cs (add_condition std (init std c).condition.fields c.field s) name
      ∙ ap (λ b. b || any_of (condition_reads name) cs)
          (contains-add_condition (init std c).condition.fields c.field s name)
      ∙ or_middle (Set.contains String_discrete s name) (condition_reads name c)
          (any_of (condition_reads name) cs)

  contains-add_downstream :
      (o : Option Downstream) (s : Set.Set String) (name : String)
      → Set.contains String_discrete (add_downstream std o s) name
        ≡ (Set.contains String_discrete s name || downstream_names name o)
  unfolding add_downstream
  contains-add_downstream none s name = sym (or_false _)
  contains-add_downstream (some d) s name =
      Set.contains-add String_discrete (downstream_fields d) s name

  contains-add_rules :
      (rs : List (Option (Rule Condition Downstream))) (s : Set.Set String) (name : String)
      → Set.contains String_discrete (add_rules std rs s) name
        ≡ (Set.contains String_discrete s name || any_of (rule_names name) rs)
  unfolding add_rules
  contains-add_rules [] s name = sym (or_false _)
  contains-add_rules (none ∷ rs) s name = contains-add_rules rs s name
  contains-add_rules (some r ∷ rs) s name =
      let s' = add_conditions std (conditions_of std r.conditions) s in
      contains-add_rules rs (add_downstream std r.sampler s') name
      ∙ ap (λ b. b || any_of (rule_names name) rs)
          (contains-add_downstream r.sampler s' name
            ∙ ap (λ b. b || downstream_names name r.sampler)
                (contains-add_conditions (conditions_of std r.conditions) s name)
            ∙ or_middle (Set.contains String_discrete s name)
                (any_of (condition_reads name) (conditions_of std r.conditions))
                (downstream_names name r.sampler))
      ∙ or_middle (Set.contains String_discrete s name) (rule_names name (some r))
          (any_of (rule_names name) rs)

  -- What the downstream sampler reads that is made for a rule.
  abbrev pub downstream_reads : String → Option Downstream → Bool
  downstream_reads name none = false
  downstream_reads name (some d) = Set.elem String_discrete name (list_of (chosen_downstream d))

  abbrev pub rule_reads : String → Option (Rule Condition Downstream) → Bool
  rule_reads name none = false
  rule_reads name (some r) =
      any_of (condition_reads name) (conditions_of std r.conditions)
      || downstream_reads name r.sampler

  -- The names that the chosen sampler reads.
  abbrev pub chosen_reads : String → Chosen → Bool
  chosen_reads name (deterministic c) = false
  chosen_reads name (rules_based c) = any_of (rule_reads name) c.rules
  chosen_reads name (by_fields kind c) = Set.elem String_discrete name c.field_list
  chosen_reads name nothing = false

  -- No rule has a configuration that sets more than one downstream sampler.
  abbrev pub HasSingle : Option (Rule Condition Downstream) → Type 0
  HasSingle none = Unit
  HasSingle (some r) = IsSingleOr r.sampler

  abbrev pub AreSingle : Chosen → Type 0
  AreSingle (rules_based c) = All HasSingle c.rules
  AreSingle _ = Unit

  downstream_names-IsSingle :
      (name : String) (o : Option Downstream)
      → IsSingleOr o
      → downstream_names name o ≡ downstream_reads name o
  downstream_names-IsSingle name none h = refl
  downstream_names-IsSingle name (some d) h =
      ap (Set.elem String_discrete name) (downstream_fields-IsSingle d h)

  rules_names-AreSingle :
      (name : String) (rs : List (Option (Rule Condition Downstream)))
      → All HasSingle rs
      → any_of (rule_names name) rs ≡ any_of (rule_reads name) rs
  rules_names-AreSingle name [] h = refl
  rules_names-AreSingle name (none ∷ rs) h = rules_names-AreSingle name rs h.1
  rules_names-AreSingle name (some r ∷ rs) h =
      ap
        (λ b.
          (any_of (condition_reads name) (conditions_of std r.conditions) || b)
          || any_of (rule_names name) rs)
        (downstream_names-IsSingle name r.sampler h.0)
      ∙ ap (λ b. rule_reads name (some r) || b) (rules_names-AreSingle name rs h.1)

  pub elem-rules_fields :
      (c : RulesConfig) (name : String)
      → Set.elem String_discrete name (rules_fields std c) ≡ any_of (rule_names name) c.rules
  unfolding rules_fields Set.contains get
  elem-rules_fields c name =
      elem-keys (add_rules std c.rules []) name ∙ contains-add_rules c.rules [] name

  first_given-reads :
      {A : Type 0} (name : String) (o : Option A) (f : A → List String) (g : A → Chosen)
      (rest : List String) (rest' : Chosen)
      → ((a : A) → AreSingle (g a) → Set.elem String_discrete name (f a) ≡ chosen_reads name (g a))
      → (AreSingle rest' → Set.elem String_discrete name rest ≡ chosen_reads name rest')
      → AreSingle (first_given o g rest')
      → Set.elem String_discrete name (first_given o f rest)
        ≡ chosen_reads name (first_given o g rest')
  first_given-reads name none f g rest rest' h k = k
  first_given-reads name (some a) f g rest rest' h k = h a

  by_list :
      (name kind : String) (o : Option FieldsConfig) (rest : List String) (rest' : Chosen)
      → (AreSingle rest' → Set.elem String_discrete name rest ≡ chosen_reads name rest')
      → AreSingle (first_given o (by_fields kind) rest')
      → Set.elem String_discrete name (first_given o (λ c. c.field_list) rest)
        ≡ chosen_reads name (first_given o (by_fields kind) rest')
  by_list name kind o rest rest' h =
      first_given-reads name o (λ c. c.field_list) (by_fields kind) rest rest' (λ c s. refl) h

  -- If no rule sets more than one downstream sampler, then a name is among the fields of a
  -- configuration exactly if the sampler that it chooses reads it: for rules, if a condition names it,
  -- once `Init` has filled in its fields, or if it is in the list of the downstream sampler that
  -- `GetDownstreamSampler` makes for a rule; else if it is in the list of the chosen sampler.
  pub elem-choice_fields :
      (v : Choice) (name : String)
      → AreSingle (sampler v)
      → Set.elem String_discrete name (choice_fields std v) ≡ chosen_reads name (sampler v)
  unfolding choice_fields sampler Set.elem
  elem-choice_fields v name =
      first_given-reads name v.deterministic_sampler (λ c. []) deterministic _ _ (λ c s. refl)
        (first_given-reads name v.rules_based_sampler (rules_fields std) rules_based _ _
          (λ c s. elem-rules_fields c name ∙ rules_names-AreSingle name c.rules s)
          (by_list name "DynamicSampler" v.dynamic_sampler _ _ (
            by_list name "EMADynamicSampler" v.ema_dynamic_sampler _ _ (
              by_list name "EMAThroughputSampler" v.ema_throughput_sampler _ _ (
                by_list name "WindowedThroughputSampler" v.windowed_throughput_sampler _ _ (
                  by_list name "TotalThroughputSampler" v.total_throughput_sampler _ _
                    (λ s. refl)))))))
