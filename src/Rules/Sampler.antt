-- ===== src/Rules/Sampler.antt =====
-- sample/rules.go: `RulesBasedSampler`, and `RulesBasedSamplerRule` of config/sampler_config.go. What
-- makes a downstream sampler and what it answers are parameters, since all but one kind of them wrap a
-- library. `printed` is the text of a rule, which is the key of its downstream sampler. A `Rule` has
-- conditions as configured, or after `Init`.
use refinery.Base.{
  ℕ, zero, suc, ◌+◌, ◌-◌, ◌%◌, ◌^◌, Bool, true, false, ◌&&◌, not, Option, none, some, String,
  String_discrete, List, [], ◌∷◌, ◌==◌, map, if◌then◌else◌,
}
use Prim.Native.String.{◌++◌ as joined}
use refinery.Base.Int.{ℤ, pos, negsuc}
use refinery.GoMap.{get, set}
use refinery.Types.Payload.{Payload}
use refinery.Types.Trace.{Trace}
use refinery.Rules.Operators.{Std, Scope, span, trace, invalid}
use refinery.Rules.Condition.{Condition, Prepared, init}
use refinery.Rules.Match.{rule_matches_trace, rule_matches_span}

pub record Rule (C D : Type 0) : Type 0 where
  pub name : String
  pub sample_rate : ℤ
  pub drop : Bool
  pub scope : Scope
  pub conditions : Option (List C)
  pub sampler : Option D

-- the counters and the histogram of the sampler
pub record Counts : Type 0 where
  pub num_kept : ℕ
  pub num_dropped : ℕ
  pub num_dropped_by_drop_rule : ℕ
  pub sample_rates : List ℕ

-- `D` is the configuration of a downstream sampler, `S` a downstream sampler.
pub record RulesBasedSampler (D S : Type 0) : Type 0 where
  pub rules : List (Rule Prepared D)
  pub check_nested : Bool
  pub samplers : List (String × S)
  pub counts : Counts

pub record Answer : Type 0 where
  pub rate : ℕ
  pub kept : Bool
  pub reason : String
  pub key : String

-- an answer with no key
abbrev pub plain_answer : ℕ → Bool → String → Answer
plain_answer rate kept reason = record { rate = rate; kept = kept; reason = reason; key = "" }

-- the conversion of an `int` to a `uint`
unfoldable pub uint_of_int : ℤ → ℕ
uint_of_int (pos n) = n % 2 ^ 64
uint_of_int (negsuc n) = 2 ^ 64 - 1 - n % 2 ^ 64

-- `draw n` is `rand.Intn(n)`, which is only called for a positive number.
unfoldable pub drawn : (ℕ → ℕ) → ℤ → Bool
drawn draw (pos zero) = false
drawn draw (pos (suc n)) = draw (suc n) == 0
drawn draw (negsuc n) = false

unfoldable pub count_answer : Bool → Bool → Counts → Counts
count_answer true drop c = record c { num_kept = c.num_kept + 1 }
count_answer false true c = record c {
  num_dropped = c.num_dropped + 1;
  num_dropped_by_drop_rule = c.num_dropped_by_drop_rule + 1;
}
count_answer false false c = record c { num_dropped = c.num_dropped + 1 }

-- the prefix of the reason
abbrev pub scope_reason : Scope → String
scope_reason span = "rules/span/"
scope_reason trace = "rules/trace/"
scope_reason invalid = "rules/invalid scope/"

-- the next step, unless there was an error
abbrev pub if_ok {ℓ} : {A : Type ℓ} → Option A → (A → Option A) → Option A
if_ok none f = none
if_ok (some a) f = f a

module _ (D S : Type 0) (std : Std) (nested : Payload → String → Option String)
    (printed : Rule Prepared D → String) where
  unfoldable pub init_all : Option (List Condition) → Option (List Prepared)
  init_all none = none
  init_all (some cs) = some (map (init std) cs)

  unfoldable pub init_rule : Rule Condition D → Rule Prepared D
  unfolding init_all
  init_rule r = record {
    name = r.name;
    sample_rate = r.sample_rate;
    drop = r.drop;
    scope = r.scope;
    conditions = init_all r.conditions;
    sampler = r.sampler;
  }

  -- what the loop does for a rule; `make` is `GetDownstreamSampler` of the factory, `none` is an error
  unfoldable pub start_made : String → Option S → List (String × S) → List (String × S)
  start_made key none samplers = samplers
  start_made key (some s) samplers = set String_discrete key s samplers

  unfoldable pub start_one :
      Option (D → Option S) → String → Option D → List (String × S) → Option (List (String × S))
  unfolding start_made
  start_one make key none samplers = some samplers
  start_one none key (some d) samplers = none
  start_one (some make) key (some d) samplers = some (start_made key (make d) samplers)

  unfoldable pub start_rules :
      Option (D → Option S)
      → List (Rule Prepared D)
      → List (String × S)
      → Option (List (String × S))
  unfolding start_one
  start_rules make [] samplers = some samplers
  start_rules make (r ∷ rs) samplers =
      if_ok (start_one make (printed r) r.sampler samplers) (start_rules make rs)

  unfoldable pub started :
      List (Rule Prepared D)
      → Bool
      → Counts
      → Option (List (String × S))
      → Option (RulesBasedSampler D S)
  started rules check_nested counts none = none
  started rules check_nested counts (some samplers) =
      some (record {
        rules = rules;
        check_nested = check_nested;
        samplers = samplers;
        counts = counts;
      })

  -- the loop of `Start`, over rules that are not nil
  unfoldable pub start_loop :
      Option (D → Option S)
      → List (Rule Condition D)
      → Bool
      → Counts
      → Option (RulesBasedSampler D S)
  unfolding start_rules started init_rule
  start_loop make rules check_nested counts =
      let ready = map init_rule rules in
      started ready check_nested counts (start_rules make ready [])

  module _ (ask : S → Trace → S × Answer) (draw : ℕ → ℕ) where
    unfoldable pub matches_in : Scope → Bool → Trace → Option (List Prepared) → Bool
    matches_in span nest t conditions = rule_matches_span std nested nest t conditions
    matches_in trace nest t conditions = rule_matches_trace std nested nest t conditions
    matches_in invalid nest t conditions = true

    -- the answer of a downstream sampler, with the reason of the rule before its own
    unfoldable pub after_ask :
        RulesBasedSampler D S → Rule Prepared D → S × Answer → RulesBasedSampler D S × Answer
    unfolding count_answer
    after_ask st r (s, a) = (
      record st {
        samplers = set String_discrete (printed r) s st.samplers;
        counts = count_answer a.kept r.drop st.counts;
      },
      record a { reason = joined (scope_reason r.scope) (joined r.name (joined ":" a.reason)) },
    )

    unfoldable pub ask_downstream :
        RulesBasedSampler D S → Trace → Rule Prepared D → Option S → RulesBasedSampler D S × Answer
    unfolding after_ask
    ask_downstream st t r none =
        (st, plain_answer 1 true (joined (scope_reason r.scope) (joined "bad_rule:" r.name)))
    ask_downstream st t r (some s) = after_ask st r (ask s t)

    -- the answer of a rule with a rate of its own
    unfoldable pub own_answer :
        RulesBasedSampler D S → Rule Prepared D → RulesBasedSampler D S × Answer
    unfolding count_answer uint_of_int drawn
    own_answer st r =
        let rate = uint_of_int r.sample_rate in
        let kept = not r.drop && drawn draw r.sample_rate in
        (
          record st {
            counts =
                count_answer kept r.drop
                  (record st.counts { sample_rates = rate ∷ st.counts.sample_rates });
          },
          plain_answer rate kept (joined (scope_reason r.scope) r.name),
        )

    unfoldable pub answer_of :
        RulesBasedSampler D S → Trace → Rule Prepared D → Option D → RulesBasedSampler D S × Answer
    unfolding ask_downstream own_answer
    answer_of st t r none = own_answer st r
    answer_of st t r (some d) = ask_downstream st t r (get String_discrete (printed r) st.samplers)

    -- the loop over the rules
    unfoldable pub answer_first :
        RulesBasedSampler D S → Trace → List (Rule Prepared D) → RulesBasedSampler D S × Answer
    unfolding matches_in answer_of
    answer_first st t [] = (st, plain_answer 1 true "no rule matched")
    answer_first st t (r ∷ rs) =
        let rest = answer_first st t rs in
        if matches_in r.scope st.check_nested t r.conditions
        then answer_of st t r r.sampler
        else rest

    -- `GetSampleRate`
    unfoldable pub get_sample_rate : RulesBasedSampler D S → Trace → RulesBasedSampler D S × Answer
    unfolding answer_first
    get_sample_rate st t = answer_first st t st.rules
