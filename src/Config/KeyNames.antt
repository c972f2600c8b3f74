-- ===== src/Config/KeyNames.antt =====
-- config/config.go: which names `GetKeyFields` gives.
use refinery.Base.{
  ◌≡◌, refl, sym, ◌∙◌, ap, Bool, true, false, ◌&&◌, ◌||◌, not, Option, none, some, String,
  String_discrete, List, [], ◌∷◌, ◌++◌, if_neg, if◌then◌else◌, Bool-cases, inl, inr,
}
use refinery.Rules.Operators.{has_prefix, drop_prefix}
use refinery.Rules.Condition.{equal_str, member}
use refinery.Rules.Extract.{root_prefix, computed_prefix}
use refinery.Rules.Reference.{any_of}
use refinery.Config.KeyFields.{
  root, computed, plain, kind_of, KeyFields, add_kind, split_or, split, compact_after, compact,
  all_fields, key_fields_of, get_key_fields,
}

-- A name is asked for as a field of the root, or as a field of each span.
abbrev pub asks_root : String → String → Bool
asks_root name f = has_prefix f root_prefix && equal_str name (drop_prefix f root_prefix)

abbrev pub asks_plain : String → String → Bool
asks_plain name f =
    not (has_prefix f root_prefix) && not (has_prefix f computed_prefix) && equal_str name f

equal_str→eq : (s t : String) → equal_str s t ≡ true → s ≡ t
equal_str→eq s t h = elim (String_discrete s t) [
  | yes p ↦ p
  | no p ↦ let other : equal_str s t ≡ false = if_neg (String_discrete s t) p true false in cc
]

or_again : (a b : Bool) → (a || b) ≡ (a || (a || b))
or_again true b = refl
or_again false b = refl

or_assoc : (a b c : Bool) → (a || (b || c)) ≡ ((a || b) || c)
or_assoc true b c = refl
or_assoc false b c = refl

both_or : {a b c d : Bool} → a ≡ c → b ≡ d → (a || b) ≡ (c || d)
both_or h k = rw (h, k) refl

member-compact_after :
    (name prev : String) (ss : List String)
    → (equal_str name prev || member equal_str name (compact_after prev ss))
      ≡ (equal_str name prev || member equal_str name ss)
unfolding compact_after
member-compact_after name prev [] = refl
member-compact_after name prev (s ∷ ss) = elim (Bool-cases (equal_str s prev)) [
  | inl e ↦
      ap
        (λ b.
          equal_str name prev
          || member equal_str name (if b then compact_after s ss else s ∷ compact_after s ss))
        e
      ∙ ap (λ p. equal_str name p || member equal_str name (compact_after s ss))
          (sym (equal_str→eq s prev e))
      ∙ member-compact_after name s ss
      ∙ or_again (equal_str name s) (member equal_str name ss)
      ∙ ap (λ p. equal_str name p || (equal_str name s || member equal_str name ss))
          (equal_str→eq s prev e)
  | inr e ↦
      ap
        (λ b.
          equal_str name prev
          || member equal_str name (if b then compact_after s ss else s ∷ compact_after s ss))
        e
      ∙ ap (λ b. equal_str name prev || b) (member-compact_after name s ss)
]

member-compact :
    (name : String) (ss : List String)
    → member equal_str name (compact ss) ≡ member equal_str name ss
unfolding compact
member-compact name [] = refl
member-compact name (s ∷ ss) = member-compact_after name s ss

member-append :
    (name : String) (xs ys : List String)
    → member equal_str name (xs ++ ys) ≡ (member equal_str name xs || member equal_str name ys)
member-append name [] ys = refl
member-append name (x ∷ xs) ys =
    ap (λ b. equal_str name x || b) (member-append name xs ys)
    ∙ or_assoc (equal_str name x) (member equal_str name xs) (member equal_str name ys)

-- What the loop has split, against the names that are asked for.
abbrev IsSplit : List String → Option KeyFields → Type 0
IsSplit fs none = any_of (λ f. equal_str f "") fs ≡ true
IsSplit fs (some k) =
    (any_of (λ f. equal_str f "") fs ≡ false)
    × ((name : String) → member equal_str name k.root_fields ≡ any_of (asks_root name) fs)
    × ((name : String) → member equal_str name k.non_root_fields ≡ any_of (asks_plain name) fs)

add_kind_root :
    (f name : String) (k : KeyFields) (a b : Bool) (rest : Bool)
    → member equal_str name k.root_fields ≡ rest
    → member equal_str name
        (add_kind f (if a then root else if b then computed else plain) k).root_fields
      ≡ ((a && equal_str name (drop_prefix f root_prefix)) || rest)
unfolding add_kind
add_kind_root f name k true b rest h = ap (λ r. equal_str name (drop_prefix f root_prefix) || r) h
add_kind_root f name k false true rest h = h
add_kind_root f name k false false rest h = h

add_kind_plain :
    (f name : String) (k : KeyFields) (a b : Bool) (rest : Bool)
    → member equal_str name k.non_root_fields ≡ rest
    → member equal_str name
        (add_kind f (if a then root else if b then computed else plain) k).non_root_fields
      ≡ ((not a && not b && equal_str name f) || rest)
unfolding add_kind
add_kind_plain f name k true b rest h = h
add_kind_plain f name k false true rest h = h
add_kind_plain f name k false false rest h = ap (λ r. equal_str name f || r) h

split_or-IsSplit :
    (b : Bool) (f : String) (fs : List String) (o : Option KeyFields)
    → equal_str f "" ≡ b
    → IsSplit fs o
    → IsSplit (f ∷ fs) (split_or b f o)
unfolding split_or
split_or-IsSplit true f fs o e h = ap (λ b. b || any_of (λ f. equal_str f "") fs) e
split_or-IsSplit false f fs none e h = ap (λ b. b || any_of (λ f. equal_str f "") fs) e ∙ h
split_or-IsSplit false f fs (some k) e h =
    unfold kind_of in
    (
      ap (λ b. b || any_of (λ f. equal_str f "") fs) e ∙ h.0,
      λ name.
          add_kind_root f name k (has_prefix f root_prefix) (has_prefix f computed_prefix) _
            (h.1 name),
      λ name.
          add_kind_plain f name k (has_prefix f root_prefix) (has_prefix f computed_prefix) _
            (h.2 name),
    )

split-IsSplit : (fs : List String) → IsSplit fs (split fs)
unfolding split
split-IsSplit [] = (refl, λ name. refl, λ name. refl)
split-IsSplit (f ∷ fs) = split_or-IsSplit (equal_str f "") f fs (split fs) refl (split-IsSplit fs)

-- The answer, against the names that are asked for.
abbrev pub IsKeyFields : List String → Option (List String × List String) → Type 0
IsKeyFields fs none = any_of (λ f. equal_str f "") fs ≡ true
IsKeyFields fs (some (all, non_root)) =
    (any_of (λ f. equal_str f "") fs ≡ false)
    × ((name : String)
        → member equal_str name all ≡ (any_of (asks_root name) fs || any_of (asks_plain name) fs))
    × ((name : String) → member equal_str name non_root ≡ any_of (asks_plain name) fs)

member-all_fields :
    (name : String) (rs ns : List String)
    → member equal_str name (all_fields rs ns)
      ≡ (member equal_str name rs || member equal_str name ns)
unfolding all_fields
member-all_fields name [] ns = refl
member-all_fields name (r ∷ rs) ns =
    member-compact name ((r ∷ rs) ++ ns) ∙ member-append name (r ∷ rs) ns

key_fields_of-IsKeyFields :
    (fs : List String) (o : Option KeyFields) → IsSplit fs o → IsKeyFields fs (key_fields_of o)
unfolding key_fields_of
key_fields_of-IsKeyFields fs none h = h
key_fields_of-IsKeyFields fs (some k) h = (
  h.0,
  λ name. member-all_fields name k.root_fields k.non_root_fields ∙ both_or (h.1 name) (h.2 name),
  h.2,
)

-- `GetKeyFields` panics exactly if one of the fields is the empty text. Otherwise a name is among all
-- fields exactly if it is asked for after the prefix `root.` or, being neither of the root nor
-- computed, as it stands, and among the second result exactly if it is asked for as it stands.
pub get_key_fields-IsKeyFields : (fs : List String) → IsKeyFields fs (get_key_fields fs)
unfolding get_key_fields
get_key_fields-IsKeyFields fs = key_fields_of-IsKeyFields fs (split fs) (split-IsSplit fs)
