-- ===== src/Rules/EarlyExit.antt =====
-- sample/rules.go: the loops of `ruleMatchesTrace` and `ruleMatchesSpanInTrace` beside their
-- descriptions without early exits or counters.
use refinery.Base.{
  ℕ, suc, ◌+◌, ◌<◌, ◌≡◌, refl, sym, ◌∙◌, ap, Bool, true, false, ◌&&◌, ◌||◌, Option, none, some,
  String, List, [], ◌∷◌, length, if◌then◌else◌, arith,
}
use refinery.Types.Payload.{Payload}
use refinery.Types.Span.{Span}
use refinery.Types.Trace.{Trace}
use refinery.Rules.Operators.{Std}
use refinery.Rules.Condition.{Prepared}
use refinery.Rules.Match.{
  Verdict, matched, passed, hopeless, is_has_root_span, matches_value, extract, any_span,
  root_agrees, count_matched, all_matched, rule_matches_trace, judge_span, after_verdict,
  some_span_matches, rule_matches_span,
}
use refinery.Rules.Reference.{any_of, all_of, any_of-false, both_hold, extract-only_root}

-- How the count compares to the most it can come to; `none` is the early `return false`.
abbrev Tally : Bool → ℕ → Option ℕ → Type 0
Tally true most (some k) = k ≡ most
Tally true most none = ⊥
Tally false most (some k) = k < most
Tally false most none = Unit

add_suc : (n m : ℕ) → suc n + m ≡ n + suc m
add_suc n m = omega arith

suc-add : (n m : ℕ) → suc (n + m) ≡ n + suc m
suc-add n m = omega arith

zero_add : (n : ℕ) → 0 + n ≡ n
zero_add n = omega arith

Tally-suc : (b : Bool) (most : ℕ) (o : Option ℕ) → Tally b most o → Tally false (suc most) o
Tally-suc true most (some k) h = omega arith
Tally-suc true most none h = tt
Tally-suc false most (some k) h = omega arith
Tally-suc false most none h = tt

Tally-step :
    (root agrees some_span rest : Bool) (most : ℕ) (x y : Option ℕ)
    → Tally rest most x
    → Tally false most y
    → Tally
        ((if root then agrees else some_span) && rest)
        most
        (if root then if agrees then x else none else if some_span then x else y)
Tally-step true true s rest most x y h k = h
Tally-step true false s rest most x y h k = tt
Tally-step false a true rest most x y h k = h
Tally-step false a false rest most x y h k = k

false_and : (a b : Bool) → a ≡ false → (a && b) ≡ false
false_and a b h = rw h

and_false : (a b : Bool) → b ≡ false → (a && b) ≡ false
and_false true b h = h
and_false false b h = refl

exit_lem :
    (found marked rest rest' : Bool)
    → rest ≡ rest'
    → (found ≡ false → marked ≡ true → rest' ≡ false)
    → (if found then true else if marked then false else rest) ≡ found || rest'
exit_lem true marked rest rest' e h = refl
exit_lem false true rest rest' e h = sym (h refl refl)
exit_lem false false rest rest' e h = e

module _ (std : Std) (nested : Payload → String → Option String) (check_nested : Bool)
    (t : Trace) where
  -- The condition holds of what is extracted for the span.
  abbrev pub satisfied : Prepared → Span → Bool
  satisfied p sp =
      matches_value std nested check_nested t p (extract std nested check_nested t p sp)

  -- The condition holds of the trace.
  abbrev pub holds_for_trace : Prepared → Bool
  holds_for_trace p =
      if is_has_root_span p.condition.operator
      then root_agrees std nested check_nested t p
      else any_of (satisfied p) t.spans

  satisfied-only_root :
      (p : Prepared) (sp sp' : Span)
      → (extract std nested check_nested t p sp).only_root ≡ true
      → satisfied p sp' ≡ satisfied p sp
  satisfied-only_root p sp sp' h =
      ap (matches_value std nested check_nested t p)
        (extract-only_root std nested check_nested t p sp sp' h)

  any_span-any_of :
      (p : Prepared) (sps : List Span)
      → any_span std nested check_nested t p sps ≡ any_of (satisfied p) sps
  unfolding any_span
  any_span-any_of p [] = refl
  any_span-any_of p (sp ∷ sps) =
      exit_lem (satisfied p sp) (extract std nested check_nested t p sp).only_root
        (any_span std nested check_nested t p sps) (any_of (satisfied p) sps)
        (any_span-any_of p sps)
        λ unmet marked.
          any_of-false (satisfied p) sps (λ sp'. satisfied-only_root p sp sp' marked ∙ unmet)

  count_matched-Tally :
      (ps : List Prepared) (n : ℕ)
      → Tally
          (all_of holds_for_trace ps)
          (n + length ps)
          (count_matched std nested check_nested t ps n)
  unfolding count_matched
  count_matched-Tally [] n = omega arith
  count_matched-Tally (p ∷ ps) n = rw (any_span-any_of p t.spans) (
      Tally-step (is_has_root_span p.condition.operator) (root_agrees std nested check_nested t p)
        (any_of (satisfied p) t.spans) (all_of holds_for_trace ps) (n + suc (length ps))
        (count_matched std nested check_nested t ps (suc n))
        (count_matched std nested check_nested t ps n)
        (rw (← add_suc n (length ps)) (count_matched-Tally ps (suc n)))
        (rw (← suc-add n (length ps)) (
          Tally-suc (all_of holds_for_trace ps) (n + length ps)
            (count_matched std nested check_nested t ps n) (count_matched-Tally ps n))))

  all_matched-Tally :
      (ps : List Prepared) (b : Bool) (o : Option ℕ)
      → Tally b (length ps) o
      → all_matched std nested check_nested t ps o ≡ b
  unfolding all_matched
  all_matched-Tally ps true (some k) h = ground arith
  all_matched-Tally ps true none h = absurd h
  all_matched-Tally ps false (some k) h = ground arith
  all_matched-Tally ps false none h = refl

  -- The counter and the early exits of the trace scope compute a conjunction: a rule with conditions
  -- matches the trace exactly if each of them holds, a condition on the root span by its presence,
  -- any other on what is extracted for some span.
  pub rule_matches_trace-all_of :
      (ps : List Prepared)
      → rule_matches_trace std nested check_nested t (some ps) ≡ all_of holds_for_trace ps
  unfolding rule_matches_trace
  rule_matches_trace-all_of ps =
      all_matched-Tally ps (all_of holds_for_trace ps)
        (count_matched std nested check_nested t ps 0)
        (rw (← zero_add (length ps)) (count_matched-Tally ps 0))

  -- What a verdict says of the span that it is on.
  abbrev Judged : List Prepared → Span → Verdict → Type 0
  Judged ps sp matched = all_of (λ p. satisfied p sp) ps ≡ true
  Judged ps sp passed = all_of (λ p. satisfied p sp) ps ≡ false
  Judged ps sp hopeless = (sp' : Span) → all_of (λ p. satisfied p sp') ps ≡ false

  Judged-step :
      (p : Prepared) (ps : List Prepared) (sp : Span) (found marked : Bool) (v : Verdict)
      → satisfied p sp ≡ found
      → (marked ≡ true → (sp' : Span) → satisfied p sp' ≡ satisfied p sp)
      → Judged ps sp v
      → Judged (p ∷ ps) sp (if found then v else if marked then hopeless else passed)
  Judged-step p ps sp true m matched e same h =
      both_hold (satisfied p sp) (all_of (λ q. satisfied q sp) ps) e h
  Judged-step p ps sp true m passed e same h =
      and_false (satisfied p sp) (all_of (λ q. satisfied q sp) ps) h
  Judged-step p ps sp true m hopeless e same h =
      λ sp'. and_false (satisfied p sp') (all_of (λ q. satisfied q sp') ps) (h sp')
  Judged-step p ps sp false true v e same h =
      λ sp'. false_and (satisfied p sp') (all_of (λ q. satisfied q sp') ps) (same refl sp' ∙ e)
  Judged-step p ps sp false false v e same h =
      false_and (satisfied p sp) (all_of (λ q. satisfied q sp) ps) e

  judge_span-Judged :
      (ps : List Prepared) (sp : Span) → Judged ps sp (judge_span std nested check_nested t ps sp)
  unfolding judge_span
  judge_span-Judged [] sp = refl
  judge_span-Judged (p ∷ ps) sp =
      Judged-step p ps sp (satisfied p sp) (extract std nested check_nested t p sp).only_root
        (judge_span std nested check_nested t ps sp) refl
        (λ marked sp'. satisfied-only_root p sp sp' marked) (judge_span-Judged ps sp)

  after_verdict-Judged :
      (ps : List Prepared) (sp : Span) (sps : List Span) (v : Verdict) (rest : Bool)
      → Judged ps sp v
      → rest ≡ any_of (λ s. all_of (λ p. satisfied p s) ps) sps
      → after_verdict std nested check_nested t v rest
        ≡ all_of (λ p. satisfied p sp) ps || any_of (λ s. all_of (λ p. satisfied p s) ps) sps
  unfolding after_verdict
  after_verdict-Judged ps sp sps matched rest h e = rw h
  after_verdict-Judged ps sp sps passed rest h e = rw h e
  after_verdict-Judged ps sp sps hopeless rest h e =
      rw (h sp) (sym (any_of-false (λ s. all_of (λ p. satisfied p s) ps) sps h))

  some_span_matches-any_of :
      (ps : List Prepared) (sps : List Span)
      → some_span_matches std nested check_nested t ps sps
        ≡ any_of (λ sp. all_of (λ p. satisfied p sp) ps) sps
  unfolding some_span_matches
  some_span_matches-any_of ps [] = refl
  some_span_matches-any_of ps (sp ∷ sps) =
      after_verdict-Judged ps sp sps (judge_span std nested check_nested t ps sp)
        (some_span_matches std nested check_nested t ps sps) (judge_span-Judged ps sp)
        (some_span_matches-any_of ps sps)

  -- The early exits of the span scope are sound: a rule with conditions matches exactly if some span
  -- satisfies all of them.
  pub rule_matches_span-any_of :
      (ps : List Prepared)
      → rule_matches_span std nested check_nested t (some ps)
        ≡ any_of (λ sp. all_of (λ p. satisfied p sp) ps) t.spans
  unfolding rule_matches_span
  rule_matches_span-any_of ps = some_span_matches-any_of ps t.spans

  -- The counter and the early exits of both scopes are sound, for a rule with the conditions `ps`. In
  -- the trace scope it matches exactly if each condition holds, one on the root span by its presence,
  -- any other on what is extracted for some span. In the span scope it matches exactly if some span
  -- satisfies every condition.
  pub matches-reference :
      (ps : List Prepared)
      → (rule_matches_trace std nested check_nested t (some ps) ≡ all_of holds_for_trace ps)
        × (rule_matches_span std nested check_nested t (some ps)
            ≡ any_of (λ sp. all_of (λ p. satisfied p sp) ps) t.spans)
  matches-reference ps = (rule_matches_trace-all_of ps, rule_matches_span-any_of ps)
