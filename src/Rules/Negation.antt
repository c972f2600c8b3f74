-- ===== src/Rules/Negation.antt =====
-- config/sampler_config.go, sample/rules.go: the operators that negate another.
use refinery.Base.{
  ◌≡◌, ◌≢◌, refl, ap, subst, ite, if_neg, String_discrete, str_less, Bool, true, false, ◌&&◌, not,
  Option, none, some, String, List, [], ◌∷◌, if◌then◌else◌,
}
use refinery.Types.Value.{Value}
use refinery.Types.Payload.{Payload}
use refinery.Types.Span.{Span}
use refinery.Types.Trace.{Trace}
use refinery.Rules.Operators.{
  eq, neq, compares, contains, does_not_contain, exists, not_exists, in_list, not_in_list, Datatype,
  untyped, as_string, as_int, as_float, as_bool, Std, has_prefix,
}
use refinery.Rules.Condition.{
  Condition, Setup, failed, matcher, set_matches, set_compare, set_in, set_in_from, in_matcher,
  negated, compare_str, init, prepare, prepare_with, equal_str, scalars,
}
use refinery.Rules.Extract.{
  Extracted, Search, computed_prefix, root_of, root_prefix, search_fields, missing, extract_value,
  after_search, nothing, get_computed_field, is_num_descendants,
}
use refinery.Rules.Match.{matches_value, extract}
use refinery.Rules.EarlyExit.{satisfied}
use refinery.Rules.Reference.{all_of, and_left, and_right}

and_true : (a : Bool) → a ≡ true → (a && true) ≡ true
and_true a h = rw h

-- Both set-ups fail, or one function is the negation of the other.
abbrev pub Opposite : Setup → Setup → Type 0
Opposite failed failed = Unit
Opposite (matcher m) (matcher n) = (v : Value) (e : Bool) → n v e ≡ not (m v e)
Opposite _ _ = ⊥

-- One of the four data types, or none.
abbrev pub is_known : Datatype → Bool
is_known Datatype.other = false
is_known _ = true

mark_ne_r : ◌≢◌ {A = String} "?" "r"
unfolding str_less
mark_ne_r e = let h : true ≡ false = subst (λ s. str_less "?" s ≡ false) e refl in cc

mark_excludes :
    (c : String) (x y : Bool)
    → ite (String_discrete c "r") x false ≡ true
    → ite (String_discrete c "?") y false ≡ false
mark_excludes c x y h = elim (String_discrete c "?") [
  | yes p ↦
      let other : ite (String_discrete "?" "r") x false ≡ true =
        subst (λ u. ite (String_discrete u "r") x false ≡ true) p h in
      let same : ite (String_discrete "?" "r") x false ≡ false =
        if_neg (String_discrete "?" "r") mark_ne_r x false in
      cc
  | no n ↦ if_neg (String_discrete c "?") n y false
]

-- A field of the root is not computed.
root-not_computed :
    (f : String) → has_prefix f root_prefix ≡ true → has_prefix f computed_prefix ≡ false
unfolding has_prefix
root-not_computed String.[] h = cc
root-not_computed (String.◌∷◌ c s) h =
    mark_excludes (String.◌∷◌ c String.[]) (has_prefix s "oot.") (has_prefix s ".") h

module _ (std : Std) where
  in_from-Opposite :
      (d : Datatype) (o : Option (List Value))
      → is_known d ≡ true
      → Opposite (set_in_from std d true o) (set_in_from std d false o)
  unfolding set_in_from in_matcher negated
  in_from-Opposite d none h = tt
  in_from-Opposite untyped (some vs) h = λ v e. refl
  in_from-Opposite as_string (some vs) h = λ v e. refl
  in_from-Opposite as_int (some vs) h = λ v e. refl
  in_from-Opposite as_float (some vs) h = λ v e. refl
  in_from-Opposite as_bool (some vs) h = tt
  in_from-Opposite Datatype.other (some vs) h = cc

  -- For each data type that the source names, or none, `not-exists`, `does-not-contain` and `not-in`
  -- are set up exactly if `exists`, `contains` and `in` are, and answer the opposite for every value,
  -- missing or not; so does `!=` beside `=` for the data type `string`.
  pub set_matches-Opposite :
      (d : Datatype) (value : Value)
      → is_known d ≡ true
      → Opposite (set_matches std exists d value) (set_matches std not_exists d value)
        × Opposite (set_matches std contains d value) (set_matches std does_not_contain d value)
        × Opposite (set_matches std in_list d value) (set_matches std not_in_list d value)
        × Opposite
            (set_matches std (compares eq) as_string value)
            (set_matches std (compares neq) as_string value)
  unfolding set_matches set_in set_compare compare_str
  set_matches-Opposite d value h =
      (λ v e. refl, λ v e. refl, in_from-Opposite d (scalars value) h, λ v e. refl)

  module _ (nested : Payload → String → Option String) (t : Trace) where
    -- With no root span, the fields that ask for it are skipped.
    rootless_step :
        (b : Bool) (x y : Search)
        → b ≡ true
        → (l : Span) × (x ≡ missing l)
        → (l : Span) × ((if b then x else y) ≡ missing l)
    rootless_step true x y h k = k
    rootless_step false x y h k = cc

    search_fields-rootless :
        (sp last : Span) (b : Bool) (fs : List String)
        → all_of (λ f. has_prefix f root_prefix) fs ≡ true
        → (l : Span) × (search_fields none sp fs b last ≡ missing l)
    unfolding search_fields
    search_fields-rootless sp last b [] h = (last, refl)
    search_fields-rootless sp last b (f ∷ fs) h =
        rootless_step (has_prefix f root_prefix) (search_fields none sp fs b sp) _ (and_left _ _ h)
          (search_fields-rootless sp sp b fs (and_right _ _ h))

    rootless_fields :
        (c : Condition) (sp : Span)
        → root_of t ≡ none
        → is_num_descendants (get_computed_field c) ≡ false
        → all_of (λ f. has_prefix f root_prefix) c.fields ≡ true
        → extract_value nested false t c sp ≡ nothing
    unfolding extract_value after_search
    rootless_fields c sp no_root plain fs =
        let (l, e) = search_fields-rootless sp sp true c.fields fs in rw (plain, no_root, e) refl

    computed_none :
        (c : Condition)
        → has_prefix c.field root_prefix ≡ true
        → is_num_descendants (get_computed_field c) ≡ false
    unfolding get_computed_field is_num_descendants
    computed_none c h = rw (root-not_computed c.field h) refl

    not_exists_fields :
        (c : Condition) (f : String) (sp : Span) (b : Bool)
        → root_of t ≡ none
        → has_prefix f root_prefix ≡ true
        → satisfied std nested false t
            (prepare_with std (record c { field = f; fields = []; operator = not_exists }) [] b)
            sp
          ≡ true
    unfolding prepare_with prepare set_matches matches_value extract
    not_exists_fields c f sp false no_root h =
        let c' = record c { field = f; fields = f ∷ []; operator = not_exists } in
        ap (λ (e : Extracted). not e.exists)
          (rootless_fields c' sp no_root (computed_none c' h)
            (and_true (has_prefix f root_prefix) h))
    not_exists_fields c f sp true no_root h =
        let c' = record c { field = f; fields = []; operator = not_exists } in
        ap (λ (e : Extracted). not e.exists)
          (rootless_fields c' sp no_root (computed_none c' h) refl)

    -- In a trace with no root span, a condition `not-exists` on a field of the root holds for every
    -- span, where nested fields are not checked.
    pub not_exists-rootless :
        (c : Condition) (f : String) (sp : Span)
        → t.root_span ≡ none
        → has_prefix f root_prefix ≡ true
        → satisfied std nested false t
            (init std (record c { field = f; fields = []; operator = not_exists }))
            sp
          ≡ true
    unfolding init root_of
    not_exists-rootless c f sp no_root h =
        not_exists_fields c f sp (equal_str f "") (rw no_root refl) h
