-- ===== src/Rules/Condition.antt =====
-- config/sampler_config.go: `RulesBasedSamplerCondition` and the function that `Init` sets up for it.
use refinery.Base.{
  ℕ, Bool, true, false, ◌&&◌, ◌||◌, not, Option, none, some, String, String_discrete, str_less,
  List, [], ◌∷◌, ite, if◌then◌else◌,
}
use refinery.Base.Int.{ℤ, ltb_ℤ}
use refinery.Generics.Set
use refinery.Types.Value.{Value, Items, int, float64, str, slice, item}
use refinery.Rules.Operators.{
  Comparison, neq, eq, Operator, compares, contains, does_not_contain, starts_with, exists,
  not_exists, has_root_span, matches_regexp, in_list, not_in_list, Datatype, untyped, as_string,
  as_int, as_float, as_bool, Std, equal_ℤ, holds, has_prefix, has_part, try_int, try_float,
  try_bool,
}

pub record Condition : Type 0 where
  pub field : String
  pub fields : List String
  pub operator : Operator
  pub value : Value
  pub datatype : Datatype

abbrev pub Matcher : Type 0
Matcher = Value → Bool → Bool

-- The error, no function, or the function that `setMatchesFunction` sets.
pub data Setup : Type 0 where
  failed : Setup
  basic : Setup
  matcher : Matcher → Setup

-- A condition after `Init`: its function, and whether there was no error.
pub record Prepared : Type 0 where
  pub condition : Condition
  pub matches : Option Matcher
  pub is_ok : Bool

abbrev pub equal_str : String → String → Bool
equal_str s t = ite (String_discrete s t) true false

-- membership by a test of equality, in the list that a set was built from
abbrev pub member {ℓ} : {A : Type ℓ} → (A → A → Bool) → A → List A → Bool
member equal a [] = false
member equal a (x ∷ xs) = equal a x || member equal a xs

abbrev pub list_of : Items → List Value
list_of Items.none = []
list_of (item v vs) = v ∷ list_of vs

-- the conversions that succeed
abbrev pub convert_all {ℓ} : {A : Type ℓ} → (Value → Option A) → List Value → List A
convert_all f [] = []
convert_all f (v ∷ vs) = elim (f v) [ none ↦ convert_all f vs | some a ↦ a ∷ convert_all f vs ]

abbrev pub show_all : (Value → String) → List Value → List String
show_all f [] = []
show_all f (v ∷ vs) = f v ∷ show_all f vs

-- a test of a converted value, which is false if there is none
abbrev pub on_converted {ℓ} : {A : Type ℓ} → Option A → (A → Bool) → Bool
on_converted none p = false
on_converted (some a) p = p a

-- `[]any`, or a scalar as a list of one
unfoldable pub scalars : Value → Option (List Value)
scalars (slice vs) = some (list_of vs)
scalars (str s) = some (str s ∷ [])
scalars (int n) = some (int n ∷ [])
scalars (float64 x) = some (float64 x ∷ [])
scalars _ = none

module _ (std : Std) where
  unfoldable pub compare_str : Comparison → String → Matcher
  compare_str c t v e =
      holds c (str_less (std.show v) t) (equal_str (std.show v) t) (str_less t (std.show v))

  unfoldable pub compare_int : Comparison → ℤ → Matcher
  compare_int c m v e =
      on_converted (try_int std v) (λ n. e && holds c (ltb_ℤ n m) (equal_ℤ n m) (ltb_ℤ m n))

  unfoldable pub compare_float : Comparison → ℕ → Matcher
  compare_float c y v e =
      on_converted (try_float std v)
        (λ x. e && holds c (std.float_less x y) (std.float_equal x y) (std.float_less y x))

  -- only `!=` and `=` are set for booleans
  unfoldable pub compare_bool : Comparison → Bool → Setup
  compare_bool neq b =
      matcher (λ v e. e && not (if b then try_bool std v else not (try_bool std v)))
  compare_bool eq b = matcher (λ v e. e && (if b then try_bool std v else not (try_bool std v)))
  compare_bool _ b = basic

  unfoldable pub with_value {ℓ} : {A : Type ℓ} → Option A → (A → Matcher) → Setup
  with_value none f = failed
  with_value (some a) f = matcher (f a)

  -- `setCompareOperators`
  unfoldable pub set_compare : Datatype → Comparison → Value → Setup
  unfolding compare_bool with_value compare_str compare_int compare_float
  set_compare as_string c value = matcher (compare_str c (std.show value))
  set_compare as_int c value = with_value (try_int std value) (compare_int c)
  set_compare as_float c value = with_value (try_float std value) (compare_float c)
  set_compare as_bool c value = compare_bool c (try_bool std value)
  set_compare untyped c value = basic
  set_compare Datatype.other c value = failed

  -- the function for `in`; as `matches` stays nil for a data type that is none of the four
  unfoldable pub in_matcher : Datatype → List Value → Setup
  in_matcher as_int vs =
      matcher
        (λ v e. on_converted (try_int std v) (λ n. member equal_ℤ n (convert_all (try_int std) vs)))
  in_matcher as_float vs = matcher (λ v e.
      on_converted (try_float std v)
        (λ x. member std.float_equal x (convert_all (try_float std) vs)))
  in_matcher as_bool vs = failed
  in_matcher as_string vs = matcher (λ v e.
      Set.contains String_discrete (Set.new String_discrete (show_all std.show vs)) (std.show v))
  in_matcher untyped vs = matcher (λ v e.
      Set.contains String_discrete (Set.new String_discrete (show_all std.show vs)) (std.show v))
  in_matcher Datatype.other vs = basic

  -- `not-in` calls the function for `in`
  unfoldable pub negated : Setup → Setup
  negated failed = failed
  negated basic = matcher (λ v e. not (std.nil_function v e))
  negated (matcher m) = matcher (λ v e. not (m v e))

  -- `setInBasedOperators`; `polarity` is `true` for `in`
  unfoldable pub set_in_from : Datatype → Bool → Option (List Value) → Setup
  unfolding in_matcher negated
  set_in_from d polarity none = failed
  set_in_from d polarity (some vs) = if polarity then in_matcher d vs else negated (in_matcher d vs)

  unfoldable pub set_in : Datatype → Bool → Value → Setup
  unfolding set_in_from scalars
  set_in d polarity value = set_in_from d polarity (scalars value)

  -- `setRegexStringMatchOperator`
  unfoldable pub set_regex : Option (String → Bool) → Setup
  set_regex none = failed
  set_regex (some p) = matcher (λ v e. p (std.show v))

  -- `setMatchesFunction`
  unfoldable pub set_matches : Operator → Datatype → Value → Setup
  unfolding set_compare set_in set_regex
  set_matches exists d value = matcher (λ v e. e)
  set_matches not_exists d value = matcher (λ v e. not e)
  set_matches (compares c) d value = set_compare d c value
  set_matches starts_with d value = matcher (λ v e. has_prefix (std.show v) (std.show value))
  set_matches contains d value = matcher (λ v e. has_part (std.show v) (std.show value))
  set_matches does_not_contain d value =
      matcher (λ v e. not (has_part (std.show v) (std.show value)))
  set_matches in_list d value = set_in d true value
  set_matches not_in_list d value = set_in d false value
  set_matches matches_regexp d value = set_regex (std.compile (std.show value))
  set_matches has_root_span d value = basic
  set_matches Operator.other d value = failed

  unfoldable pub prepare : Condition → Setup → Prepared
  prepare c failed = record { condition = c; matches = none; is_ok = false }
  prepare c basic = record { condition = c; matches = none; is_ok = true }
  prepare c (matcher m) = record { condition = c; matches = some m; is_ok = true }

  unfoldable pub prepare_with : Condition → List String → Bool → Prepared
  unfolding prepare set_matches
  prepare_with c [] false =
      prepare (record c { fields = c.field ∷ [] }) (set_matches c.operator c.datatype c.value)
  prepare_with c (f ∷ fs) false = prepare c failed
  prepare_with c fs true = prepare c (set_matches c.operator c.datatype c.value)

  -- `Init` of a condition that has not been set up yet
  unfoldable pub init : Condition → Prepared
  unfolding prepare_with
  init c = prepare_with c c.fields (equal_str c.field "")
