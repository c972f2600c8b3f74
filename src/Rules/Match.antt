-- ===== src/Rules/Match.antt =====
-- sample/rules.go: `ruleMatchesTrace` and `ruleMatchesSpanInTrace`. The conditions of a rule are `none`
-- if the list is nil, and were set up by `Init`.
use refinery.Base.{
  ℕ, suc, Bool, true, false, not, Option, none, some, String, List, [], ◌∷◌, length, ◌==◌,
  if◌then◌else◌,
}
use refinery.GoMap.{is_some}
use refinery.Types.Payload.{Payload}
use refinery.Types.Span.{Span}
use refinery.Types.Trace.{Trace}
use refinery.Rules.Operators.{Operator, has_root_span, Std, try_bool}
use refinery.Rules.Condition.{Condition, Prepared, Matcher}
use refinery.Rules.Untyped.{condition_matches_value}
use refinery.Rules.Extract.{Extracted, extract_value}

abbrev pub is_has_root_span : Operator → Bool
is_has_root_span has_root_span = true
is_has_root_span _ = false

-- What a span comes to in the span scope: it matches, it does not, or the whole rule does not.
pub data Verdict : Type 0 where
  matched passed hopeless : Verdict

module _ (std : Std) (nested : Payload → String → Option String) (check_nested : Bool)
    (t : Trace) where
  -- the condition on a value: its function, or else the basic comparison
  unfoldable pub decide_with : Condition → Option Matcher → Extracted → Bool
  decide_with c none e = condition_matches_value std c e.value e.exists
  decide_with c (some m) e = m e.value e.exists

  unfoldable pub matches_value : Prepared → Extracted → Bool
  unfolding decide_with
  matches_value p e = decide_with p.condition p.matches e

  unfoldable pub extract : Prepared → Span → Extracted
  extract p sp = extract_value nested check_nested t p.condition sp

  -- the loop over the spans, for one condition: whether one of them matched
  unfoldable pub any_span : Prepared → List Span → Bool
  unfolding matches_value extract
  any_span p [] = false
  any_span p (sp ∷ sps) =
      let e = extract p sp in
      let rest = any_span p sps in
      if matches_value p e then true else if e.only_root then false else rest

  -- whether the presence of a root span is what the condition asks for
  unfoldable pub root_agrees : Prepared → Bool
  root_agrees p =
      let wanted = try_bool std p.condition.value in
      if is_some t.root_span then wanted else not wanted

  -- the loop over the conditions: how many matched, or `none` for the early `return false`
  unfoldable pub count_matched : List Prepared → ℕ → Option ℕ
  unfolding any_span root_agrees
  count_matched [] n = some n
  count_matched (p ∷ ps) n =
      let one_more = count_matched ps (suc n) in
      let same = count_matched ps n in
      if is_has_root_span p.condition.operator
      then if root_agrees p then one_more else none
      else if any_span p t.spans
      then one_more
      else same

  unfoldable pub all_matched : List Prepared → Option ℕ → Bool
  all_matched ps none = false
  all_matched ps (some n) = n == length ps

  -- `ruleMatchesTrace`
  unfoldable pub rule_matches_trace : Option (List Prepared) → Bool
  unfolding count_matched all_matched
  rule_matches_trace none = true
  rule_matches_trace (some ps) = all_matched ps (count_matched ps 0)

  -- the loop over the conditions, for one span
  unfoldable pub judge_span : List Prepared → Span → Verdict
  unfolding matches_value extract
  judge_span [] sp = matched
  judge_span (p ∷ ps) sp =
      let e = extract p sp in
      let rest = judge_span ps sp in
      if matches_value p e then rest else if e.only_root then hopeless else passed

  unfoldable pub after_verdict : Verdict → Bool → Bool
  after_verdict matched rest = true
  after_verdict passed rest = rest
  after_verdict hopeless rest = false

  unfoldable pub some_span_matches : List Prepared → List Span → Bool
  unfolding judge_span after_verdict
  some_span_matches ps [] = false
  some_span_matches ps (sp ∷ sps) = after_verdict (judge_span ps sp) (some_span_matches ps sps)

  -- `ruleMatchesSpanInTrace`
  unfoldable pub rule_matches_span : Option (List Prepared) → Bool
  unfolding some_span_matches
  rule_matches_span none = true
  rule_matches_span (some ps) = some_span_matches ps t.spans
