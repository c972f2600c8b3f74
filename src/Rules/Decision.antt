-- ===== src/Rules/Decision.antt =====
-- sample/rules.go: when the loop of `Start` of a `RulesBasedSampler` succeeds, and that its rules find their downstream
-- samplers from then on.
use refinery.Base.{
  ◌≡◌, refl, ◌∙◌, ap, Bool, true, ◌||◌, not, Option, none, some, String, String_discrete, List, [],
  ◌∷◌, map, ite,
}
use refinery.GoMap.{get, set, get-set, get-set_self, is_some}
use refinery.Types.Payload.{Payload}
use refinery.Rules.Operators.{Std}
use refinery.Rules.Condition.{Condition, Prepared}
use refinery.Rules.Reference.{any_of, all_of, both_hold}
use refinery.Rules.Sampler.{
  Rule, Counts, RulesBasedSampler, init_rule, start_made, start_one, start_rules, started,
  start_loop, if_ok,
}

-- Whether a rule has a downstream sampler.
abbrev pub is_downstream : {C D : Type 0} → Rule C D → Bool
is_downstream r = is_some r.sampler

stays_some :
    {P : Type 0} {A : Type 0} (d : Dec P) (a : A) (o : Option A)
    → is_some o ≡ true
    → is_some (ite d (some a) o) ≡ true
stays_some (yes p) a o h = refl
stays_some (no p) a o h = h

pub present_set :
    {S : Type 0} (j k : String) (s : S) (m : List (String × S))
    → is_some (get String_discrete j m) ≡ true
    → is_some (get String_discrete j (set String_discrete k s m)) ≡ true
present_set j k s m h =
    rw (get-set String_discrete j k s m)
      (stays_some (String_discrete j k) s (get String_discrete j m) h)

module _ (D S : Type 0) (std : Std) (nested : Payload → String → Option String)
    (printed : Rule Prepared D → String) where
  -- A rule with a downstream sampler finds it.
  abbrev pub has_sampler : List (String × S) → Rule Prepared D → Bool
  has_sampler samplers r =
      not (is_some r.sampler) || is_some (get String_discrete (printed r) samplers)

  -- Every rule of the sampler does.
  abbrev pub IsReady : RulesBasedSampler D S → Type 0
  IsReady st = all_of (has_sampler st.samplers) st.rules ≡ true

  start_rules_step :
      (r : Rule Prepared D) (o : Option D) (rs : List (Rule Prepared D))
      (samplers : List (String × S))
      → ((m : List (String × S))
          → is_some (start_rules D S std nested printed none rs m) ≡ not (any_of is_downstream rs))
      → is_some (
          if_ok
            (start_one D S std nested printed none (printed r) o samplers)
            (start_rules D S std nested printed none rs))
        ≡ not (is_some o || any_of is_downstream rs)
  unfolding start_one
  start_rules_step r none rs samplers ih = ih samplers
  start_rules_step r (some d) rs samplers ih = refl

  start_rules_error :
      (rs : List (Rule Prepared D)) (samplers : List (String × S))
      → is_some (start_rules D S std nested printed none rs samplers)
        ≡ not (any_of is_downstream rs)
  unfolding start_rules
  start_rules_error [] samplers = refl
  start_rules_error (r ∷ rs) samplers =
      start_rules_step r r.sampler rs samplers (start_rules_error rs)

  -- The samplers that `start_rules` makes, if there is a factory.
  made_one : (D → Option S) → Rule Prepared D → Option D → List (String × S) → List (String × S)
  made_one make r none m = m
  made_one make r (some d) m = start_made D S std nested printed (printed r) (make d) m

  made : (D → Option S) → List (Rule Prepared D) → List (String × S) → List (String × S)
  unfolding made_one
  made make [] m = m
  made make (r ∷ rs) m = made make rs (made_one make r r.sampler m)

  start_one_lem :
      (make : D → Option S) (r : Rule Prepared D) (o : Option D) (m : List (String × S))
      → start_one D S std nested printed (some make) (printed r) o m ≡ some (made_one make r o m)
  unfolding start_one made_one
  start_one_lem make r none m = refl
  start_one_lem make r (some d) m = refl

  start_rules_lem :
      (make : D → Option S) (rs : List (Rule Prepared D)) (m : List (String × S))
      → start_rules D S std nested printed (some make) rs m ≡ some (made make rs m)
  unfolding start_rules made
  start_rules_lem make [] m = refl
  start_rules_lem make (r ∷ rs) m =
      rw (start_one_lem make r r.sampler m) (start_rules_lem make rs (made_one make r r.sampler m))

  start_made-present :
      (j key : String) (o : Option S) (m : List (String × S))
      → is_some (get String_discrete j m) ≡ true
      → is_some (get String_discrete j (start_made D S std nested printed key o m)) ≡ true
  unfolding start_made
  start_made-present j key none m h = h
  start_made-present j key (some s) m h = present_set j key s m h

  made_one-present :
      (make : D → Option S) (j : String) (r : Rule Prepared D) (o : Option D)
      (m : List (String × S))
      → is_some (get String_discrete j m) ≡ true
      → is_some (get String_discrete j (made_one make r o m)) ≡ true
  unfolding made_one
  made_one-present make j r none m h = h
  made_one-present make j r (some d) m h = start_made-present j (printed r) (make d) m h

  made-present :
      (make : D → Option S) (j : String) (rs : List (Rule Prepared D)) (m : List (String × S))
      → is_some (get String_discrete j m) ≡ true
      → is_some (get String_discrete j (made make rs m)) ≡ true
  unfolding made
  made-present make j [] m h = h
  made-present make j (r ∷ rs) m h =
      made-present make j rs (made_one make r r.sampler m) (made_one-present make j r r.sampler m h)

  start_made-own :
      (key : String) (o : Option S) (m : List (String × S))
      → is_some o ≡ true
      → is_some (get String_discrete key (start_made D S std nested printed key o m)) ≡ true
  unfolding start_made
  start_made-own key none m h = cc
  start_made-own key (some s) m h = ap is_some (get-set_self String_discrete key s m)

  -- what a rule needs of a lookup
  abbrev needs : Option D → Option S → Bool
  needs o found = not (is_some o) || is_some found

  made_one-own :
      (make : D → Option S) (rs : List (Rule Prepared D)) (r : Rule Prepared D) (o : Option D)
      (m : List (String × S))
      → ((d : D) → is_some (make d) ≡ true)
      → needs o (get String_discrete (printed r) (made make rs (made_one make r o m))) ≡ true
  unfolding made_one
  made_one-own make rs r none m all = refl
  made_one-own make rs r (some d) m all =
      made-present make (printed r) rs (start_made D S std nested printed (printed r) (make d) m)
        (start_made-own (printed r) (make d) m (all d))

  made-IsReady :
      (make : D → Option S) (rs : List (Rule Prepared D)) (m : List (String × S))
      → ((d : D) → is_some (make d) ≡ true)
      → all_of (has_sampler (made make rs m)) rs ≡ true
  unfolding made
  made-IsReady make [] m all = refl
  made-IsReady make (r ∷ rs) m all =
      both_hold _ _ (made_one-own make rs r r.sampler m all)
        (made-IsReady make rs (made_one make r r.sampler m) all)

  is_some-started :
      (rules : List (Rule Prepared D)) (nest : Bool) (counts : Counts)
      (o : Option (List (String × S)))
      → is_some (started D S std nested printed rules nest counts o) ≡ is_some o
  unfolding started
  is_some-started rules nest counts none = refl
  is_some-started rules nest counts (some m) = refl

  any_of-init :
      (rules : List (Rule Condition D))
      → any_of is_downstream (map (init_rule D S std nested printed) rules)
        ≡ any_of is_downstream rules
  unfolding init_rule
  any_of-init [] = refl
  any_of-init (r ∷ rs) = ap (λ b. is_some r.sampler || b) (any_of-init rs)

  -- The loop of `Start` with no factory succeeds exactly if no rule has a downstream sampler; with a
  -- factory it always succeeds, whichever samplers the factory fails to make.
  pub start_loop_error :
      (rules : List (Rule Condition D)) (nest : Bool) (counts : Counts)
      → (is_some (start_loop D S std nested printed none rules nest counts)
          ≡ not (any_of is_downstream rules))
        × ((make : D → Option S)
            → is_some (start_loop D S std nested printed (some make) rules nest counts) ≡ true)
  unfolding start_loop
  start_loop_error rules nest counts = (
    is_some-started _ nest counts _
        ∙ start_rules_error (map (init_rule D S std nested printed) rules) []
        ∙ ap not (any_of-init rules),
    λ make.
        is_some-started _ nest counts _
        ∙ ap is_some (start_rules_lem make (map (init_rule D S std nested printed) rules) []),
  )

  -- With a factory that makes every sampler, every rule finds its downstream sampler after the loop.
  pub start_loop-IsReady :
      (make : D → Option S) (rules : List (Rule Condition D)) (nest : Bool) (counts : Counts)
      → ((d : D) → is_some (make d) ≡ true)
      → (st : RulesBasedSampler D S) × (start_loop D S std nested printed
            (some make)
            rules
            nest
            counts
          ≡ some st)
        × IsReady st
        × (st.rules ≡ map (init_rule D S std nested printed) rules)
  unfolding start_loop started
  start_loop-IsReady make rules nest counts all =
      let ready = map (init_rule D S std nested printed) rules in
      (
        record {
          rules = ready;
          check_nested = nest;
          samplers = made make ready [];
          counts = counts;
        },
        ap (started D S std nested printed ready nest counts) (start_rules_lem make ready []),
        made-IsReady make ready [] all,
        refl,
      )
