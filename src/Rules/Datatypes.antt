-- ===== src/Rules/Datatypes.antt =====
-- config/sampler_config.go, sample/rules.go: how the function that `Init` sets for a data type compares
-- to the comparison that is used without one.
use refinery.Base.{
  ◌≡◌, refl, sym, ◌∙◌, subst, Bool, true, false, ◌&&◌, not, Option, none, some, String,
  String_discrete, str_less, str_less-StrictTotal, List, [], ◌∷◌, if_pos, if_neg, if◌then◌else◌,
  arith, Bool-cases, inl, inr,
}
use refinery.Base.Int.{ℤ, ltb_ℤ}
use refinery.Types.Value.{Value, nil, int64, int, str}
use refinery.Types.Payload.{Payload}
use refinery.Types.Trace.{Trace}
use refinery.Rules.Operators.{
  Comparison, neq, eq, gt, lt, gte, lte, compares, Datatype, untyped, as_string, as_int, as_float,
  as_bool, Std, equal_ℤ, holds, try_int, try_float, try_bool,
}
use refinery.Rules.Condition.{
  Condition, Setup, equal_str, init, prepare, prepare_with, set_matches, set_compare, with_value,
  compare_bool, compare_int, compare_float, compare_str, Matcher,
}
use refinery.Rules.Untyped.{three_way, order_holds, compare, condition_matches_value}
use refinery.Rules.Match.{matches_value}
use refinery.Rules.Extract.{Extracted, nothing}

and_false : (a : Bool) → (a && false) ≡ false
and_false true = refl
and_false false = refl

str_less_irrefl : (s : String) → str_less s s ≡ false
str_less_irrefl s = elim (Bool-cases (str_less s s)) [
  | inl h ↦ str_less-StrictTotal.weak.asym s s h
  | inr h ↦ h
]

one_holds : (a b : Bool) → (a ≡ false → b ≡ false → ⊥) → false ≡ (not a && not b)
one_holds true b h = refl
one_holds false true h = refl
one_holds false false h = absurd (h refl refl)

-- Texts are equal exactly if neither is less.
equal_str_lem : (s t : String) → equal_str s t ≡ (not (str_less s t) && not (str_less t s))
equal_str_lem s t = elim (String_discrete s t) [
  | yes p ↦
      if_pos (String_discrete s t) p _ _
      ∙ subst (λ u. true ≡ (not (str_less s u) && not (str_less u s))) p
          (rw (str_less_irrefl s) refl)
  | no p ↦
      if_neg (String_discrete s t) p _ _
      ∙ one_holds _ _ (λ h k. p (str_less-StrictTotal.connected s t h k))
]

module _ (std : Std) where
  holds-order_holds :
      (c : Comparison) (a b e : Bool)
      → e ≡ (not a && not b)
      → (a && b) ≡ false
      → order_holds std c (some (three_way a b)) ≡ holds c a e b
  unfolding order_holds
  holds-order_holds c true true e h k = cc
  holds-order_holds neq true false e h k = ground arith
  holds-order_holds eq true false e h k = ground arith
  holds-order_holds gt true false e h k = ground arith
  holds-order_holds lt true false e h k = ground arith
  holds-order_holds gte true false e h k = ground arith
  holds-order_holds lte true false e h k = ground arith
  holds-order_holds neq false true e h k = ground arith
  holds-order_holds eq false true e h k = ground arith
  holds-order_holds gt false true e h k = ground arith
  holds-order_holds lt false true e h k = ground arith
  holds-order_holds gte false true e h k = ground arith
  holds-order_holds lte false true e h k = ground arith
  holds-order_holds neq false false e h k = ground arith
  holds-order_holds eq false false e h k = ground arith
  holds-order_holds gt false false e h k = ground arith
  holds-order_holds lt false false e h k = ground arith
  holds-order_holds gte false false e h k = ground arith
  holds-order_holds lte false false e h k = ground arith

  ltb_ℤ-asym : (n m : ℤ) → (ltb_ℤ n m && ltb_ℤ m n) ≡ false
  ltb_ℤ-asym n m = ground arith

  agree_int :
      (c : Comparison) (n m : ℤ)
      → order_holds std c (compare std (int64 n) (int m)) ≡ compare_int std c m (int64 n) true
  unfolding compare compare_int try_int
  agree_int c n m = holds-order_holds c (ltb_ℤ n m) (ltb_ℤ m n) (equal_ℤ n m) refl (ltb_ℤ-asym n m)

  str_less_both : (s t : String) → (str_less s t && str_less t s) ≡ false
  str_less_both s t = elim (Bool-cases (str_less s t)) [
    | inl h ↦ rw (str_less-StrictTotal.weak.asym s t h) (and_false (str_less s t))
    | inr h ↦ rw h
  ]

  agree_str :
      (c : Comparison) (s t : String)
      → order_holds std c (compare std (str s) (str t))
        ≡ holds c (str_less s t) (equal_str s t) (str_less t s)
  unfolding compare
  agree_str c s t =
      holds-order_holds c (str_less s t) (str_less t s) (equal_str s t) (equal_str_lem s t)
        (str_less_both s t)

  module _ (nested : Payload → String → Option String) (check_nested : Bool) (t : Trace) where
    -- whether a condition that `Init` set up holds of what was extracted
    abbrev pub decides : Condition → Extracted → Bool
    decides c e = matches_value std nested check_nested t (init std c) e

    -- A value that was found.
    abbrev pub present : Value → Extracted
    present v = record { value = v; exists = true; only_root = false }

    abbrev pub comparing : Condition → Comparison → Value → Datatype → Condition
    comparing c op v d = record c { operator = compares op; value = v; datatype = d }

    same_int :
        (c : Condition) (op : Comparison) (n m : ℤ) (fs : List String) (b : Bool)
        → matches_value std nested check_nested t
            (prepare_with std (comparing c op (int m) as_int) fs b)
            (present (int64 n))
          ≡ matches_value std nested check_nested t
              (prepare_with std (comparing c op (int m) untyped) fs b)
              (present (int64 n))
    unfolding matches_value prepare_with prepare set_matches set_compare with_value try_int
        condition_matches_value
    same_int c op n m [] false = sym (agree_int op n m)
    same_int c op n m (f ∷ fs) false = refl
    same_int c op n m fs true = sym (agree_int op n m)

    same_str :
        (c : Condition) (op : Comparison) (s u : String) (fs : List String) (b : Bool)
        → ((v : String) → std.show (str v) ≡ v)
        → matches_value std nested check_nested t
            (prepare_with std (comparing c op (str u) as_string) fs b)
            (present (str s))
          ≡ matches_value std nested check_nested t
              (prepare_with std (comparing c op (str u) untyped) fs b)
              (present (str s))
    unfolding matches_value prepare_with prepare set_matches set_compare with_value
        condition_matches_value compare_str
    same_str c op s u [] false shows = rw (shows s, shows u) (sym (agree_str op s u))
    same_str c op s u (f ∷ fs) false shows = refl
    same_str c op s u fs true shows = rw (shows s, shows u) (sym (agree_str op s u))

    -- A condition that compares decides alike with the data type `int` and with none for an integer
    -- field and value, and alike with `string` and with none for a text field and value, if `%v` of
    -- a text is that text.
    pub typed_agrees :
        (c : Condition) (op : Comparison) (n m : ℤ) (s u : String)
        → ((v : String) → std.show (str v) ≡ v)
        → (decides (comparing c op (int m) as_int) (present (int64 n))
            ≡ decides (comparing c op (int m) untyped) (present (int64 n)))
          × (decides (comparing c op (str u) as_string) (present (str s))
              ≡ decides (comparing c op (str u) untyped) (present (str s)))
    unfolding init
    typed_agrees c op n m s u shows = (
      same_int c op n m c.fields (equal_str c.field ""),
      same_str c op s u c.fields (equal_str c.field "") shows,
    )

    abbrev pub is_as_string : Datatype → Bool
    is_as_string as_string = true
    is_as_string _ = false

    -- what a comparison of a missing field comes to, after its function was set
    abbrev when_missing : Condition → Comparison → Value → Datatype → Setup → Bool
    when_missing c op v d s =
        matches_value std nested check_nested t (prepare std (comparing c op v d) s) nothing

    missing_converted :
        {A : Type 0} (c : Condition) (op : Comparison) (v : Value) (d : Datatype) (o : Option A)
        (f : A → Matcher)
        → ((a : A) → f a nil false ≡ false)
        → when_missing c op v d (with_value std o f) ≡ false
    unfolding matches_value prepare with_value condition_matches_value
    missing_converted c op v d none f h = refl
    missing_converted c op v d (some a) f h = h a

    missing_bool :
        (c : Condition) (op : Comparison) (v : Value) (d : Datatype) (b : Bool)
        → when_missing c op v d (compare_bool std op b) ≡ false
    unfolding matches_value prepare compare_bool condition_matches_value
    missing_bool c neq v d b = refl
    missing_bool c eq v d b = refl
    missing_bool c gt v d b = refl
    missing_bool c lt v d b = refl
    missing_bool c gte v d b = refl
    missing_bool c lte v d b = refl

    missing_compare :
        (c : Condition) (op : Comparison) (v : Value) (d : Datatype)
        → when_missing c op v d (set_compare std d op v) ≡ (
            if is_as_string d
            then holds op
                (str_less (std.show nil) (std.show v))
                (equal_str (std.show nil) (std.show v))
                (str_less (std.show v) (std.show nil))
            else false)
    unfolding set_compare try_int try_float
    missing_compare c op v as_string = unfold matches_value prepare compare_str in refl
    missing_compare c op v as_int =
        missing_converted c op v as_int (try_int std v) (compare_int std op)
          (λ m. unfold compare_int in refl)
    missing_compare c op v as_float =
        missing_converted c op v as_float (try_float std v) (compare_float std op)
          (λ m. unfold compare_float in refl)
    missing_compare c op v as_bool = missing_bool c op v as_bool (try_bool std v)
    missing_compare c op v untyped = unfold matches_value prepare condition_matches_value in refl
    missing_compare c op v Datatype.other =
        unfold matches_value prepare condition_matches_value in refl

    missing_with :
        (c : Condition) (op : Comparison) (v : Value) (d : Datatype) (b : Bool)
        → matches_value std nested check_nested t
            (prepare_with std (comparing c op v d) [] b)
            nothing
          ≡ (if is_as_string d
              then holds op
                  (str_less (std.show nil) (std.show v))
                  (equal_str (std.show nil) (std.show v))
                  (str_less (std.show v) (std.show nil))
              else false)
    unfolding prepare_with set_matches
    missing_with c op v d false = missing_compare (record c { fields = c.field ∷ [] }) op v d
    missing_with c op v d true = missing_compare c op v d

    -- A condition with the one field that it names, and that compares, is false if nothing was found,
    -- unless its data type is `string`: then the text of nil is compared as if it were found.
    pub missing_field :
        (c : Condition) (op : Comparison) (v : Value) (d : Datatype)
        → decides (comparing (record c { fields = [] }) op v d) nothing ≡ (
            if is_as_string d
            then holds op
                (str_less (std.show nil) (std.show v))
                (equal_str (std.show nil) (std.show v))
                (str_less (std.show v) (std.show nil))
            else false)
    unfolding init
    missing_field c op v d = missing_with (record c { fields = [] }) op v d (equal_str c.field "")
