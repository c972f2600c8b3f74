-- ===== src/Rules/Scopes.antt =====
-- sample/rules.go: how the two scopes of a rule compare.
use refinery.Base.{
  ◌≡◌, refl, sym, ◌∙◌, Bool, true, false, not, Option, some, String, List, [], ◌∷◌, if◌then◌else◌,
  Bool-cases, inl, inr,
}
use refinery.Types.Payload.{Payload}
use refinery.Types.Trace.{Trace}
use refinery.Rules.Operators.{Std}
use refinery.Rules.Condition.{Prepared}
use refinery.Rules.Match.{is_has_root_span, root_agrees, rule_matches_trace, rule_matches_span}
use refinery.Rules.Reference.{any_of, all_of, or_right, and_left, and_right, both_hold}
use refinery.Rules.EarlyExit.{
  satisfied, holds_for_trace, rule_matches_trace-all_of, rule_matches_span-any_of,
}

not_chosen : (b x y : Bool) → not b ≡ true → y ≡ true → (if b then x else y) ≡ true
not_chosen true x y h k = cc
not_chosen false x y h k = k

any_of_mono {ℓ} :
    {A : Type ℓ} (f g : A → Bool) (xs : List A)
    → ((x : A) → f x ≡ true → g x ≡ true)
    → any_of f xs ≡ true
    → any_of g xs ≡ true
any_of_mono f g [] h e = e
any_of_mono f g (x ∷ xs) h e = elim (Bool-cases (f x)) [
  | inl yes_f ↦ rw (h x yes_f)
  | inr no_f ↦ or_right (g x) (any_of g xs) (any_of_mono f g xs h (rw no_f at e))
]

module _ (std : Std) (nested : Payload → String → Option String) (check_nested : Bool)
    (t : Trace) where
  holds_for_all :
      (ps : List Prepared)
      → all_of (λ (p : Prepared). not (is_has_root_span p.condition.operator)) ps ≡ true
      → any_of (λ sp. all_of (λ p. satisfied std nested check_nested t p sp) ps) t.spans ≡ true
      → all_of (holds_for_trace std nested check_nested t) ps ≡ true
  holds_for_all [] free h = refl
  holds_for_all (p ∷ ps) free h =
      let plain = not (is_has_root_span p.condition.operator) in
      let others = all_of (λ (q : Prepared). not (is_has_root_span q.condition.operator)) ps in
      both_hold _ _
        (not_chosen (is_has_root_span p.condition.operator)
          (root_agrees std nested check_nested t p)
          (any_of (satisfied std nested check_nested t p) t.spans) (and_left plain others free)
          (any_of_mono _ _ t.spans (λ sp. and_left _ _) h))
        (holds_for_all ps (and_right plain others free)
          (any_of_mono _ _ t.spans (λ sp. and_right _ _) h))

  -- A rule with conditions of which none is on the presence of a root span: if it matches in the span
  -- scope, then it matches in the trace scope.
  pub span-matches-trace :
      (ps : List Prepared)
      → all_of (λ (p : Prepared). not (is_has_root_span p.condition.operator)) ps ≡ true
      → rule_matches_span std nested check_nested t (some ps) ≡ true
      → rule_matches_trace std nested check_nested t (some ps) ≡ true
  span-matches-trace ps free h =
      rule_matches_trace-all_of std nested check_nested t ps
      ∙ holds_for_all ps free (sym (rule_matches_span-any_of std nested check_nested t ps) ∙ h)
