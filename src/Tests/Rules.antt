-- ===== src/Tests/Rules.antt =====
-- Rules and their sampler, at concrete inputs.
use refinery.Base.{
  ℕ, ◌≡◌, refl, Bool, true, false, not, Option, none, some, String, String_discrete, List, [], ◌∷◌,
  if◌then◌else◌, str_less,
}
use refinery.Base.Int.{pos}
use refinery.GoMap.{is_some}
use refinery.GoMap
use refinery.Types.Value.{Value, nil, bool, int64, int, str}
use refinery.Types.Payload.{Payload, empty_payload, meta_type, read, exists as has_field}
use refinery.Types.Trace.{Trace}
use refinery.Rules.Operators.{
  eq, neq, compares, contains, does_not_contain, exists, not_exists, in_list, not_in_list, untyped,
  as_string, as_int, Std, Scope, has_prefix, drop_prefix,
}
use refinery.Rules.Condition.{Condition, Prepared, init, set_matches, equal_str}
use refinery.Rules.Extract.{
  nothing, root_prefix, extract_value, search_fields, root_of, get_computed_field,
}
use refinery.Rules.Match.{is_has_root_span, rule_matches_trace, rule_matches_span}
use refinery.Rules.Untyped.{condition_matches_value, compare}
use refinery.Rules.Reference.{any_of, all_of}
use refinery.Rules.EarlyExit.{satisfied, holds_for_trace, matches-reference}
use refinery.Rules.Scopes.{span-matches-trace}
use refinery.Rules.Sampler.{
  Rule, Counts, RulesBasedSampler, Answer, plain_answer, init_rule, matches_in, get_sample_rate,
}
use refinery.Rules.Decision.{IsReady}
use refinery.Rules.Answers.{Decided, first_of, rule_matches, get_sample_rate-Decided}
use refinery.Rules.Datatypes.{decides, comparing, present, typed_agrees, missing_field}
use refinery.Rules.Negation.{Opposite, set_matches-Opposite, not_exists-rootless}
use refinery.Tests.Samples

abbrev pub shown : Value → String
shown (str s) = s
shown (bool true) = "true"
shown nil = "<nil>"
shown _ = "?"

abbrev pub parsed_bool : String → Option Bool
parsed_bool s = if equal_str s "true" then some true else none

abbrev pub std : Std
std = record {
  show = shown;
  atoi = λ s. none;
  parse_float = λ s. none;
  parse_bool = parsed_bool;
  float_less = λ x y. false;
  float_equal = λ x y. false;
  float_of_int = λ n. 0;
  int_of_float = λ x. pos 0;
  compile = λ s. none;
  nil_function = λ v e. false;
}

abbrev pub flat : Payload → String → Option String
flat p f = none

abbrev pub named : Condition
named = record {
  field = "name";
  fields = [];
  operator = compares eq;
  value = str "x";
  datatype = untyped;
}

abbrev trace : Trace
trace = record Samples.trace {
  spans =
      Samples.span
      ∷ record Samples.span { payload = record empty_payload { memoized = ("name", str "x") ∷ [] } }
      ∷ [];
}

abbrev prepared : List Prepared
prepared = init std named ∷ []

matches-reference_example :
    (rule_matches_trace std flat true trace (some prepared)
      ≡ all_of (holds_for_trace std flat true trace) prepared)
    × (rule_matches_span std flat true trace (some prepared)
        ≡ any_of (λ sp. all_of (λ p. satisfied std flat true trace p sp) prepared) trace.spans)
matches-reference_example = matches-reference std flat true trace prepared

all_plain : all_of (λ (p : Prepared). not (is_has_root_span p.condition.operator)) prepared ≡ true
unfolding init String_discrete
all_plain = refl

span_matches : rule_matches_span std flat true trace (some prepared) ≡ true
unfolding rule_matches_span init String_discrete extract_value search_fields has_prefix drop_prefix
    root_of get_computed_field has_field read GoMap.get condition_matches_value compare str_less
    meta_type
span_matches = refl

span-matches-trace_example : rule_matches_trace std flat true trace (some prepared) ≡ true
span-matches-trace_example = span-matches-trace std flat true trace prepared all_plain span_matches

-- The downstream samplers are configured by a rate, keep every trace and report that rate.
abbrev ask : ℕ → Trace → ℕ × Answer
ask n t = (n, plain_answer n true "always")

abbrev pub drawn_zero : ℕ → ℕ
drawn_zero n = 0

abbrev printed : Rule Prepared ℕ → String
printed r = r.name

abbrev rule : Rule Condition ℕ
rule = record {
  name = "r";
  sample_rate = pos 1;
  drop = false;
  scope = Scope.span;
  conditions = some (named ∷ []);
  sampler = some 7;
}

abbrev pub no_counts : Counts
no_counts = record {
  num_kept = 0;
  num_dropped = 0;
  num_dropped_by_drop_rule = 0;
  sample_rates = [];
}

abbrev started : RulesBasedSampler ℕ ℕ
started = record {
  rules = init_rule ℕ ℕ std flat printed rule ∷ [];
  check_nested = true;
  samplers = ("r", 7) ∷ [];
  counts = no_counts;
}

started-IsReady : IsReady ℕ ℕ std flat printed started
unfolding init_rule GoMap.get String_discrete
started-IsReady = refl

get_sample_rate-Decided_example :
    Decided ℕ ℕ std flat printed ask drawn_zero started trace
      (first_of (rule_matches ℕ ℕ std flat printed ask drawn_zero started trace) started.rules)
      (get_sample_rate ℕ ℕ std flat printed ask drawn_zero started trace)
get_sample_rate-Decided_example =
    get_sample_rate-Decided ℕ ℕ std flat printed ask drawn_zero started trace started-IsReady

decided_by_rule :
    first_of (rule_matches ℕ ℕ std flat printed ask drawn_zero started trace) started.rules
    ≡ some (init_rule ℕ ℕ std flat printed rule)
unfolding init_rule matches_in rule_matches_span init String_discrete extract_value search_fields
    has_prefix drop_prefix root_of get_computed_field has_field read GoMap.get
    condition_matches_value compare str_less meta_type
decided_by_rule = refl

typed_agrees_example :
    (decides std flat true trace
        (comparing std flat true trace named eq (int (pos 3)) as_int)
        (present std flat true trace (int64 (pos 3)))
      ≡ decides std flat true trace
          (comparing std flat true trace named eq (int (pos 3)) untyped)
          (present std flat true trace (int64 (pos 3))))
    × (decides std flat true trace
          (comparing std flat true trace named eq (str "x") as_string)
          (present std flat true trace (str "y"))
        ≡ decides std flat true trace
            (comparing std flat true trace named eq (str "x") untyped)
            (present std flat true trace (str "y")))
typed_agrees_example = typed_agrees std flat true trace named eq (pos 3) (pos 3) "y" "x" (λ v. refl)

missing_field_example :
    decides std flat true trace
      (comparing std flat true trace (record named { fields = [] }) neq (str "x") as_string)
      nothing
    ≡ not (equal_str "<nil>" "x")
missing_field_example = missing_field std flat true trace named neq (str "x") as_string

set_matches-Opposite_example :
    Opposite
      (set_matches std exists as_int (int (pos 3)))
      (set_matches std not_exists as_int (int (pos 3)))
    × Opposite
        (set_matches std contains as_int (int (pos 3)))
        (set_matches std does_not_contain as_int (int (pos 3)))
    × Opposite
        (set_matches std in_list as_int (int (pos 3)))
        (set_matches std not_in_list as_int (int (pos 3)))
    × Opposite
        (set_matches std (compares eq) as_string (int (pos 3)))
        (set_matches std (compares neq) as_string (int (pos 3)))
set_matches-Opposite_example = set_matches-Opposite std as_int (int (pos 3)) refl

asks_for_root : has_prefix "root.a" root_prefix ≡ true
unfolding has_prefix String_discrete
asks_for_root = refl

not_exists-rootless_example :
    satisfied std flat false trace
      (init std (record named { field = "root.a"; fields = []; operator = not_exists }))
      Samples.span
    ≡ true
not_exists-rootless_example =
    not_exists-rootless std flat trace named "root.a" Samples.span refl asks_for_root
