-- ===== src/Rules/Answers.antt =====
-- sample/rules.go: what `GetSampleRate` answers and counts, by the first rule that matches.
use refinery.Base.{
  ℕ, ◌+◌, ◌≡◌, refl, Bool, true, false, ◌&&◌, ◌||◌, not, Option, none, some, String,
  String_discrete, List, [], ◌∷◌, if◌then◌else◌, arith,
}
use refinery.GoMap.{get, is_some}
use refinery.Types.Payload.{Payload}
use refinery.Types.Trace.{Trace}
use refinery.Rules.Operators.{Std}
use refinery.Rules.Condition.{Prepared}
use refinery.Rules.Reference.{all_of, and_left, and_right}
use refinery.Rules.Sampler.{
  Rule, Counts, RulesBasedSampler, Answer, plain_answer, uint_of_int, drawn, count_answer,
  matches_in, ask_downstream, answer_of, answer_first, get_sample_rate,
}
use refinery.Rules.Decision.{IsReady, has_sampler}

-- The first element that passes a test.
abbrev pub first_of {ℓ} : {A : Type ℓ} → (A → Bool) → List A → Option A
first_of f [] = none
first_of f (x ∷ xs) = if f x then some x else first_of f xs

-- One more trace is counted, as kept or as dropped, and as dropped by a rule if the rule drops.
abbrev pub CountedOnce : Bool → Bool → Counts → Counts → Type 0
CountedOnce kept drop c c' =
    (c'.num_kept ≡ c.num_kept + (if kept then 1 else 0))
    × (c'.num_dropped ≡ c.num_dropped + (if kept then 0 else 1))
    × (c'.num_dropped_by_drop_rule
        ≡ c.num_dropped_by_drop_rule + (if not kept && drop then 1 else 0))

count_answer-CountedOnce :
    (kept drop : Bool) (c : Counts) → CountedOnce kept drop c (count_answer kept drop c)
unfolding count_answer
count_answer-CountedOnce true drop c = omega arith
count_answer-CountedOnce false true c = omega arith
count_answer-CountedOnce false false c = omega arith

needs-found : {S : Type 0} (o : Option S) → is_some o ≡ true → (s : S) × (o ≡ some s)
needs-found none h = cc
needs-found (some s) h = (s, refl)

module _ (D S : Type 0) (std : Std) (nested : Payload → String → Option String)
    (printed : Rule Prepared D → String) (ask : S → Trace → S × Answer) (draw : ℕ → ℕ) where
  -- A rule with a rate of its own: the rate, and `drop` or the draw. A rule with a downstream sampler:
  -- what that sampler answers.
  abbrev pub Answered : RulesBasedSampler D S → Trace → Rule Prepared D → Option D → Answer → Type 0
  Answered st t r none a =
      (a.rate ≡ uint_of_int r.sample_rate)
      × (a.kept ≡ (not r.drop && drawn draw r.sample_rate))
      × (a.key ≡ "")
  Answered st t r (some d) a =
      (s : S) × (get String_discrete (printed r) st.samplers ≡ some s)
      × (a.rate ≡ (ask s t).1.rate)
      × (a.kept ≡ (ask s t).1.kept)
      × (a.key ≡ (ask s t).1.key)

  abbrev pub rule_matches : RulesBasedSampler D S → Trace → Rule Prepared D → Bool
  rule_matches st t r =
      matches_in D S std nested printed ask draw r.scope st.check_nested t r.conditions

  -- The answer that a rule gives, or that is given if no rule matches.
  abbrev pub Decided :
      RulesBasedSampler D S
      → Trace
      → Option (Rule Prepared D)
      → RulesBasedSampler D S × Answer
      → Type 0
  Decided st t none (st', a) = (st' ≡ st) × (a ≡ plain_answer 1 true "no rule matched")
  Decided st t (some r) (st', a) =
      Answered st t r r.sampler a × CountedOnce a.kept r.drop st.counts st'.counts

  ask_downstream-Decided :
      (st : RulesBasedSampler D S) (t : Trace) (r : Rule Prepared D) (d : D) (o : Option S)
      → is_some o ≡ true
      → get String_discrete (printed r) st.samplers ≡ o
      → (let x = ask_downstream D S std nested printed ask draw st t r o in
          Answered st t r (some d) x.1 × CountedOnce x.1.kept r.drop st.counts x.0.counts)
  unfolding ask_downstream
  ask_downstream-Decided st t r d none h e = cc
  ask_downstream-Decided st t r d (some s) h e =
      ((s, e, refl, refl, refl), count_answer-CountedOnce (ask s t).1.kept r.drop st.counts)

  answer_of-Decided :
      (st : RulesBasedSampler D S) (t : Trace) (r : Rule Prepared D) (o : Option D)
      → (not (is_some o) || is_some (get String_discrete (printed r) st.samplers)) ≡ true
      → (let x = answer_of D S std nested printed ask draw st t r o in
          Answered st t r o x.1 × CountedOnce x.1.kept r.drop st.counts x.0.counts)
  unfolding answer_of
  answer_of-Decided st t r none h = (
    (refl, refl, refl),
    count_answer-CountedOnce (not r.drop && drawn draw r.sample_rate) r.drop
        (record st.counts { sample_rates = uint_of_int r.sample_rate ∷ st.counts.sample_rates }),
  )
  answer_of-Decided st t r (some d) h =
      ask_downstream-Decided st t r d (get String_discrete (printed r) st.samplers) h refl

  Decided-if :
      (st : RulesBasedSampler D S) (t : Trace) (b : Bool) (r : Rule Prepared D)
      (o : Option (Rule Prepared D)) (x y : RulesBasedSampler D S × Answer)
      → Decided st t (some r) x
      → Decided st t o y
      → Decided st t (if b then some r else o) (if b then x else y)
  Decided-if st t true r o x y h k = h
  Decided-if st t false r o x y h k = k

  answer_first-Decided :
      (st : RulesBasedSampler D S) (t : Trace) (rs : List (Rule Prepared D))
      → all_of (has_sampler D S std nested printed st.samplers) rs ≡ true
      → Decided st t
          (first_of (rule_matches st t) rs)
          (answer_first D S std nested printed ask draw st t rs)
  unfolding answer_first
  answer_first-Decided st t [] h = (refl, refl)
  answer_first-Decided st t (r ∷ rs) h =
      Decided-if st t (rule_matches st t r) r (first_of (rule_matches st t) rs) _ _
        (answer_of-Decided st t r r.sampler (and_left _ _ h))
        (answer_first-Decided st t rs (and_right _ _ h))

  -- For a sampler whose rules find their downstream samplers, the first rule that matches decides. If
  -- it has a rate of its own, this is the rate, and the trace is kept if the rule does not drop and the
  -- draw says so; else the rate, the decision and the key are those of its downstream sampler. The
  -- trace is counted once, as kept or dropped, and as dropped by a rule if the rule drops it. If no
  -- rule matches, the trace is kept at rate 1 and nothing changes.
  pub get_sample_rate-Decided :
      (st : RulesBasedSampler D S) (t : Trace)
      → IsReady D S std nested printed st
      → Decided st t
          (first_of (rule_matches st t) st.rules)
          (get_sample_rate D S std nested printed ask draw st t)
  unfolding get_sample_rate
  get_sample_rate-Decided st t h = answer_first-Decided st t st.rules h
