-- ===== src/Rules/Extract.antt =====
-- sample/rules.go: `extractValueFromSpan`. The search of the nested fields, which marshals the span's
-- data and queries it with gjson, is the parameter `nested`; `none` covers a failure to marshal.
use refinery.Base.{
  Bool, true, false, Option, none, some, String, List, [], ◌∷◌, get_elem?, if◌then◌else◌,
}
use refinery.Base.Int.{pos}
use refinery.Types.Value.{Value, nil, int64, str}
use refinery.Types.Payload.{Payload, read, exists}
use refinery.Types.Span.{Span}
use refinery.Types.Trace.{Trace, descendant_count}
use refinery.Rules.Operators.{has_prefix, drop_prefix}
use refinery.Rules.Condition.{Condition, equal_str}

pub record Extracted : Type 0 where
  pub value : Value
  pub exists : Bool
  pub only_root : Bool

-- What the loop over the fields comes to: a value, or the span that it looked at last.
pub data Search : Type 0 where
  found : Extracted → Search
  missing : Span → Search

-- the span that `RootSpan` points to
unfoldable pub root_of : Trace → Option Span
root_of t = elim t.root_span [ none ↦ none | some at ↦ get_elem? t.spans at ]

abbrev pub computed_prefix : String
computed_prefix = "?."

abbrev pub num_descendants : String
num_descendants = "?.NUM_DESCENDANTS"

abbrev pub root_prefix : String
root_prefix = "root."

-- `GetComputedField`
unfoldable pub get_computed_field : Condition → Option String
get_computed_field c = if has_prefix c.field computed_prefix then some c.field else none

unfoldable pub look_in : Span → String → Bool → Search → Search
look_in sp field only_root rest =
    if exists sp.payload field
    then found (record { value = read sp.payload field; exists = true; only_root = only_root })
    else rest

-- the loop over the fields: `original` is the span, `last` the one it looked at last
unfoldable pub search_fields : Option Span → Span → List String → Bool → Span → Search
unfolding look_in
search_fields root original [] only_root last = missing last
search_fields root original (field ∷ fs) only_root last =
    let skipped = search_fields root original fs only_root original in
    let elsewhere = look_in original field false (search_fields root original fs false original) in
    if has_prefix field root_prefix
    then elim root [
      | none ↦ skipped
      | some r ↦
          look_in r (drop_prefix field root_prefix) only_root
            (search_fields root original fs only_root r)
    ]
    else elsewhere

abbrev pub nothing : Extracted
nothing = record { value = nil; exists = false; only_root = false }

abbrev pub nested_or : Option String → Extracted → Extracted
nested_or none rest = rest
nested_or (some s) rest = record { value = str s; exists = true; only_root = false }

-- the first of the fields that is nested in the data
unfoldable pub nested_from : (Payload → String → Option String) → Span → List String → Extracted
nested_from nested sp [] = nothing
nested_from nested sp (f ∷ fs) = nested_or (nested sp.payload f) (nested_from nested sp fs)

unfoldable pub after_search :
    (Payload → String → Option String) → Bool → List String → Search → Extracted
unfolding nested_from
after_search nested check_nested fs (found e) = e
after_search nested check_nested fs (missing sp) =
    if check_nested then nested_from nested sp fs else nothing

unfoldable pub is_num_descendants : Option String → Bool
is_num_descendants none = false
is_num_descendants (some f) = equal_str f num_descendants

-- `extractValueFromSpan`
unfoldable pub extract_value :
    (Payload → String → Option String) → Bool → Trace → Condition → Span → Extracted
unfolding is_num_descendants after_search
extract_value nested check_nested t c sp =
    if is_num_descendants (get_computed_field c)
    then record { value = int64 (pos (descendant_count t)); exists = true; only_root = true }
    else after_search nested check_nested c.fields (search_fields (root_of t) sp c.fields true sp)
