-- ===== src/Rules/Operators.antt =====
-- config/sampler_config.go: the operators, data types and scopes that a rule is written with, and the
-- conversions of values. A text that is none of the constants is `other`. What the conditions
-- use of Go's standard library is a record of operations: `show` is "%v" of `fmt`, floats are bit
-- patterns with the comparisons of IEEE 754.
use refinery.Base.{
  ℕ, Bool, true, false, ◌&&◌, ◌||◌, not, Option, none, some, String, String_discrete, ite,
}
use refinery.Base.Int.{ℤ, ltb_ℤ}
use refinery.Types.Value.{Value, int64, int, float64, str}

pub data Comparison : Type 0 where
  neq eq gt lt gte lte : Comparison

pub data Operator : Type 0 where
  compares : Comparison → Operator
  contains does_not_contain starts_with : Operator
  exists not_exists : Operator
  has_root_span : Operator
  matches_regexp : Operator
  in_list not_in_list : Operator
  other : Operator

pub data Datatype : Type 0 where
  untyped as_string as_int as_float as_bool other : Datatype

pub data Scope : Type 0 where
  span trace invalid : Scope

-- `none` is a text that the source refuses.
pub record Std : Type 0 where
  pub show : Value → String
  pub atoi : String → Option ℤ
  pub parse_float : String → Option ℕ
  pub parse_bool : String → Option Bool
  pub float_less : ℕ → ℕ → Bool
  pub float_equal : ℕ → ℕ → Bool
  pub float_of_int : ℤ → ℕ
  pub int_of_float : ℕ → ℤ
  pub compile : String → Option (String → Bool)
  -- what a call of a nil function comes to: a panic, of whose result nothing is assumed
  pub nil_function : Value → Bool → Bool

-- Equality of integers, as the order decides it.
abbrev pub equal_ℤ : ℤ → ℤ → Bool
equal_ℤ a b = not (ltb_ℤ a b) && not (ltb_ℤ b a)

-- What a comparison holds of, by whether the left side is less, equal or more.
abbrev pub holds : Comparison → Bool → Bool → Bool → Bool
holds neq less equal more = not equal
holds eq less equal more = equal
holds gt less equal more = more
holds lt less equal more = less
holds gte less equal more = more || equal
holds lte less equal more = less || equal

-- `strings.HasPrefix` and `strings.Contains`
unfoldable pub has_prefix : String → String → Bool
has_prefix s String.[] = true
has_prefix String.[] (String.◌∷◌ d p) = false
has_prefix (String.◌∷◌ c s) (String.◌∷◌ d p) =
    let rest = has_prefix s p in
    ite (String_discrete (String.◌∷◌ c String.[]) (String.◌∷◌ d String.[])) rest false

unfoldable pub has_part : String → String → Bool
unfolding has_prefix
has_part String.[] p = has_prefix String.[] p
has_part (String.◌∷◌ c s) p = has_prefix (String.◌∷◌ c s) p || has_part s p

-- the rest of a text after the characters of another: `field[len(prefix):]`
unfoldable pub drop_prefix : String → String → String
drop_prefix s String.[] = s
drop_prefix String.[] (String.◌∷◌ d p) = String.[]
drop_prefix (String.◌∷◌ c s) (String.◌∷◌ d p) = drop_prefix s p

module _ (std : Std) where
  -- `tryConvertToInt`
  unfoldable pub try_int : Value → Option ℤ
  try_int (int n) = some n
  try_int (int64 n) = some n
  try_int (float64 x) = some (std.int_of_float x)
  try_int (str s) = std.atoi s
  try_int _ = none

  -- `tryConvertToFloat`
  unfoldable pub try_float : Value → Option ℕ
  try_float (float64 x) = some x
  try_float (int n) = some (std.float_of_int n)
  try_float (int64 n) = some (std.float_of_int n)
  try_float (str s) = std.parse_float s
  try_float _ = none

  -- `TryConvertToBool`
  unfoldable pub try_bool : Value → Bool
  try_bool v = elim (std.parse_bool (std.show v)) [ some true ↦ true | _ ↦ false ]
