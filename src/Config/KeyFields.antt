-- ===== src/Config/KeyFields.antt =====
-- config/config.go: `GetKeyFields`. A slice that is nil and one that is empty are the same; `none` is the
-- panic of indexing an empty text.
use refinery.Base.{
  Bool, true, false, Option, none, some, String, List, [], ◌∷◌, ◌++◌, if◌then◌else◌,
}
use refinery.Rules.Operators.{has_prefix, drop_prefix}
use refinery.Rules.Condition.{equal_str}
use refinery.Rules.Extract.{root_prefix, computed_prefix}

-- The kinds of field that the `switch` tells apart.
pub data Kind : Type 0 where
  root computed plain : Kind

unfoldable pub kind_of : String → Kind
kind_of f =
    if has_prefix f root_prefix
    then root
    else if has_prefix f computed_prefix
    then computed
    else plain

pub record KeyFields : Type 0 where
  pub root_fields : List String
  pub non_root_fields : List String

unfoldable pub add_kind : String → Kind → KeyFields → KeyFields
add_kind f root k = record k { root_fields = drop_prefix f root_prefix ∷ k.root_fields }
add_kind f computed k = k
add_kind f plain k = record k { non_root_fields = f ∷ k.non_root_fields }

-- the loop over the fields
unfoldable pub split_or : Bool → String → Option KeyFields → Option KeyFields
unfolding add_kind kind_of
split_or true f rest = none
split_or false f none = none
split_or false f (some k) = some (add_kind f (kind_of f) k)

unfoldable pub split : List String → Option KeyFields
unfolding split_or
split [] = some (record { root_fields = []; non_root_fields = [] })
split (f ∷ fs) = split_or (equal_str f "") f (split fs)

-- `slices.Compact`: of neighbours that are equal, the first stays
unfoldable pub compact_after : String → List String → List String
compact_after prev [] = []
compact_after prev (s ∷ ss) =
    let rest = compact_after s ss in if equal_str s prev then rest else s ∷ rest

unfoldable pub compact : List String → List String
unfolding compact_after
compact [] = []
compact (s ∷ ss) = s ∷ compact_after s ss

unfoldable pub all_fields : List String → List String → List String
unfolding compact
all_fields [] non_roots = non_roots
all_fields (r ∷ rs) non_roots = compact ((r ∷ rs) ++ non_roots)

unfoldable pub key_fields_of : Option KeyFields → Option (List String × List String)
unfolding all_fields
key_fields_of none = none
key_fields_of (some k) = some (all_fields k.root_fields k.non_root_fields, k.non_root_fields)

-- `GetKeyFields`: all fields, and those that are not of the root
unfoldable pub get_key_fields : List String → Option (List String × List String)
unfolding split key_fields_of
get_key_fields fields = key_fields_of (split fields)
