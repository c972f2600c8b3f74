-- ===== src/Rules/Untyped.antt =====
-- sample/rules.go: `compare` and `conditionMatchesValue`, for a condition with no function of its own.
use refinery.Base.{Bool, true, false, ◌&&◌, not, Option, none, some, str_less}
use refinery.Base.Int.{ltb_ℤ}
use refinery.Types.Value.{Value, nil, bool, int64, int, float64, str}
use refinery.Rules.Operators.{Comparison, Operator, compares, exists, not_exists, Std, holds}
use refinery.Rules.Condition.{Condition}

pub data Order : Type 0 where
  less equal more : Order

-- the `switch` on `<` and `>`; what is neither counts as equal, for floats a NaN too
abbrev pub three_way : Bool → Bool → Order
three_way true b = less
three_way false true = more
three_way false false = equal

module _ (std : Std) where
  -- `compare` of two values that are not nil; `none` is `false`
  unfoldable pub compare_values : Value → Value → Option Order
  compare_values (int64 n) (int m) = some (three_way (ltb_ℤ n m) (ltb_ℤ m n))
  compare_values (int64 n) (int64 m) = some (three_way (ltb_ℤ n m) (ltb_ℤ m n))
  compare_values (int64 n) (float64 y) =
      let x = std.float_of_int n in some (three_way (std.float_less x y) (std.float_less y x))
  compare_values (float64 x) (int m) =
      let y = std.float_of_int m in some (three_way (std.float_less x y) (std.float_less y x))
  compare_values (float64 x) (int64 m) =
      let y = std.float_of_int m in some (three_way (std.float_less x y) (std.float_less y x))
  compare_values (float64 x) (float64 y) =
      some (three_way (std.float_less x y) (std.float_less y x))
  compare_values (bool a) (bool b) = some (three_way (not a && b) (a && not b))
  compare_values (str s) (str t) = some (three_way (str_less s t) (str_less t s))
  compare_values _ _ = none

  -- `compare`
  unfoldable pub compare : Value → Value → Option Order
  unfolding compare_values
  compare nil nil = some equal
  compare nil _ = some less
  compare _ nil = some more
  compare a b = compare_values a b

  unfoldable pub order_holds : Comparison → Option Order → Bool
  order_holds c none = false
  order_holds c (some less) = holds c true false false
  order_holds c (some equal) = holds c false true false
  order_holds c (some more) = holds c false false true

  unfoldable pub present_matches : Operator → Value → Value → Bool
  unfolding order_holds compare
  present_matches exists value v = true
  present_matches (compares c) value v = order_holds c (compare v value)
  present_matches _ value v = false

  unfoldable pub absent_matches : Operator → Bool
  absent_matches not_exists = true
  absent_matches _ = false

  -- `conditionMatchesValue`
  unfoldable pub condition_matches_value : Condition → Value → Bool → Bool
  unfolding present_matches absent_matches
  condition_matches_value c v true = present_matches c.operator c.value v
  condition_matches_value c v false = absent_matches c.operator
