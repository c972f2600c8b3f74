-- ===== src/Rules/Ready.antt =====
-- sample/rules.go: the rules of a `RulesBasedSampler` find their downstream samplers, whatever it has
-- answered since it was started.
use refinery.Base.{
  ℕ, ◌≡◌, refl, Bool, true, false, ◌||◌, not, Option, none, some, String, String_discrete, List, [],
  ◌∷◌,
}
use refinery.GoMap.{get, set, is_some}
use refinery.Types.Payload.{Payload}
use refinery.Types.Trace.{Trace}
use refinery.Rules.Operators.{Std}
use refinery.Rules.Condition.{Prepared}
use refinery.Rules.Reference.{all_of, both_hold, and_left, and_right, if_both}
use refinery.Rules.Sampler.{
  Rule, RulesBasedSampler, Answer, matches_in, ask_downstream, answer_of, answer_first,
  get_sample_rate,
}
use refinery.Rules.Decision.{IsReady, has_sampler, present_set}

still_needs :
    (b : Bool) (x y : Bool) → (x ≡ true → y ≡ true) → (not b || x) ≡ true → (not b || y) ≡ true
still_needs true x y f h = f h
still_needs false x y f h = refl

module _ (D S : Type 0) (std : Std) (nested : Payload → String → Option String)
    (printed : Rule Prepared D → String) where
  all_of-has_sampler_set :
      (rs : List (Rule Prepared D)) (m : List (String × S)) (k : String) (s : S)
      → all_of (has_sampler D S std nested printed m) rs ≡ true
      → all_of (has_sampler D S std nested printed (set String_discrete k s m)) rs ≡ true
  all_of-has_sampler_set [] m k s h = refl
  all_of-has_sampler_set (r ∷ rs) m k s h =
      both_hold _ _
        (still_needs (is_some r.sampler) _ _ (present_set (printed r) k s m) (
          and_left (has_sampler D S std nested printed m r)
            (all_of (has_sampler D S std nested printed m) rs) h))
        (all_of-has_sampler_set rs m k s (
          and_right (has_sampler D S std nested printed m r)
            (all_of (has_sampler D S std nested printed m) rs) h))

  module _ (ask : S → Trace → S × Answer) (draw : ℕ → ℕ) where
    ask_downstream-IsReady :
        (st : RulesBasedSampler D S) (t : Trace) (r : Rule Prepared D) (o : Option S)
        → IsReady D S std nested printed st
        → IsReady D S std nested printed (ask_downstream D S std nested printed ask draw st t r o).0
    unfolding ask_downstream
    ask_downstream-IsReady st t r none h = h
    ask_downstream-IsReady st t r (some s) h =
        all_of-has_sampler_set st.rules st.samplers (printed r) (ask s t).0 h

    answer_of-IsReady :
        (st : RulesBasedSampler D S) (t : Trace) (r : Rule Prepared D) (o : Option D)
        → IsReady D S std nested printed st
        → IsReady D S std nested printed (answer_of D S std nested printed ask draw st t r o).0
    unfolding answer_of
    answer_of-IsReady st t r none h = h
    answer_of-IsReady st t r (some d) h =
        ask_downstream-IsReady st t r (get String_discrete (printed r) st.samplers) h

    answer_first-IsReady :
        (st : RulesBasedSampler D S) (t : Trace) (rs : List (Rule Prepared D))
        → IsReady D S std nested printed st
        → IsReady D S std nested printed (answer_first D S std nested printed ask draw st t rs).0
    unfolding answer_first
    answer_first-IsReady st t [] h = h
    answer_first-IsReady st t (r ∷ rs) h =
        if_both (λ (x : RulesBasedSampler D S × Answer). IsReady D S std nested printed x.0)
          (matches_in D S std nested printed ask draw r.scope st.check_nested t r.conditions) _ _
          (answer_of-IsReady st t r r.sampler h) (answer_first-IsReady st t rs h)

    get_sample_rate-IsReady :
        (st : RulesBasedSampler D S) (t : Trace)
        → IsReady D S std nested printed st
        → IsReady D S std nested printed (get_sample_rate D S std nested printed ask draw st t).0
    unfolding get_sample_rate
    get_sample_rate-IsReady st t h = answer_first-IsReady st t st.rules h

    -- The sampler after a number of traces.
    abbrev pub after : RulesBasedSampler D S → List Trace → RulesBasedSampler D S
    after st [] = st
    after st (t ∷ ts) = after (get_sample_rate D S std nested printed ask draw st t).0 ts

    pub after-IsReady :
        (st : RulesBasedSampler D S) (ts : List Trace)
        → IsReady D S std nested printed st
        → IsReady D S std nested printed (after st ts)
    after-IsReady st [] h = h
    after-IsReady st (t ∷ ts) h =
        after-IsReady (get_sample_rate D S std nested printed ask draw st t).0 ts
          (get_sample_rate-IsReady st t h)
