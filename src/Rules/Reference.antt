-- ===== src/Rules/Reference.antt =====
-- sample/rules.go: what the loops over conditions and spans compute, with their early exits.
use refinery.Base.{
  ◌≡◌, refl, sym, ap, Bool, true, false, ◌&&◌, ◌||◌, Option, none, some, String, List, [], ◌∷◌,
  if◌then◌else◌, inl, inr, ◌⊎◌,
}
use refinery.Types.Payload.{Payload, exists}
use refinery.Types.Span.{Span}
use refinery.Types.Trace.{Trace}
use refinery.Rules.Operators.{Std, has_prefix, drop_prefix}
use refinery.Rules.Condition.{Prepared}
use refinery.Rules.Extract.{
  Extracted, Search, found, missing, root_prefix, root_of, search_fields, look_in, extract_value,
  after_search, nested_from, nested_or, is_num_descendants, get_computed_field,
}
use refinery.Rules.Match.{extract}

abbrev pub any_of {ℓ} : {A : Type ℓ} → (A → Bool) → List A → Bool
any_of f [] = false
any_of f (x ∷ xs) = f x || any_of f xs

abbrev pub all_of {ℓ} : {A : Type ℓ} → (A → Bool) → List A → Bool
all_of f [] = true
all_of f (x ∷ xs) = f x && all_of f xs

pub any_of-false {ℓ} :
    {A : Type ℓ} (f : A → Bool) (xs : List A) → ((x : A) → f x ≡ false) → any_of f xs ≡ false
any_of-false f [] h = refl
any_of-false f (x ∷ xs) h = rw (h x) (any_of-false f xs h)

pub or_right : (a b : Bool) → b ≡ true → (a || b) ≡ true
or_right true b h = refl
or_right false b h = h

pub and_left : (a b : Bool) → (a && b) ≡ true → a ≡ true
and_left true b h = refl
and_left false b h = h

pub and_right : (a b : Bool) → (a && b) ≡ true → b ≡ true
and_right true b h = h
and_right false b h = cc

pub both_hold : (a b : Bool) → a ≡ true → b ≡ true → (a && b) ≡ true
both_hold a b h k = rw (h, k)

pub if_both {ℓ κ} :
    {A : Type ℓ} (P : A → Type κ) (b : Bool) (x y : A) → P x → P y → P (if b then x else y)
if_both P true x y h k = h
if_both P false x y h k = k

-- What was found is not marked as found in the root alone.
abbrev Unmarked : Search → Type 0
Unmarked (found e) = e.only_root ≡ false
Unmarked (missing sp) = Unit

look_in-Unmarked :
    (sp : Span) (f : String) (s : Search) → Unmarked s → Unmarked (look_in sp f false s)
unfolding look_in
look_in-Unmarked sp f s u = if_both Unmarked (exists sp.payload f) _ s refl u

-- Once a field was looked up in the span itself, no result is marked.
search_fields-Unmarked :
    (root : Option Span) (o last : Span) (fs : List String)
    → Unmarked (search_fields root o fs false last)
unfolding search_fields
search_fields-Unmarked root o last [] = tt
search_fields-Unmarked none o last (f ∷ fs) =
    if_both Unmarked (has_prefix f root_prefix) _ _ (search_fields-Unmarked none o o fs)
      (look_in-Unmarked o f (search_fields none o fs false o) (search_fields-Unmarked none o o fs))
search_fields-Unmarked (some r) o last (f ∷ fs) =
    if_both Unmarked (has_prefix f root_prefix) _ _
      (look_in-Unmarked r (drop_prefix f root_prefix) (search_fields (some r) o fs false r)
        (search_fields-Unmarked (some r) o r fs))
      (look_in-Unmarked o f (search_fields (some r) o fs false o)
        (search_fields-Unmarked (some r) o o fs))

-- Two searches find the same, or neither result is marked.
abbrev Agree : Search → Search → Type 0
Agree s s' = (s ≡ s') ⊎ (Unmarked s × Unmarked s')

if_Agree :
    (b : Bool) (x y x' y' : Search)
    → Agree x x'
    → Agree y y'
    → Agree (if b then x else y) (if b then x' else y')
if_Agree true x y x' y' h k = h
if_Agree false x y x' y' h k = k

look_in-Agree :
    (r : Span) (f : String) (b : Bool) (s s' : Search)
    → Agree s s'
    → Agree (look_in r f b s) (look_in r f b s')
unfolding look_in
look_in-Agree r f b s s' h = if_Agree (exists r.payload f) _ s _ s' (inl refl) h

search_fields-Agree :
    (root : Option Span) (o o' last last' : Span) (fs : List String)
    → Agree (search_fields root o fs true last) (search_fields root o' fs true last')
unfolding search_fields
search_fields-Agree root o o' last last' [] = inr (tt, tt)
search_fields-Agree none o o' last last' (f ∷ fs) =
    if_Agree (has_prefix f root_prefix) _ _ _ _ (search_fields-Agree none o o' o o' fs) (
      inr (
        look_in-Unmarked o f (search_fields none o fs false o) (search_fields-Unmarked none o o fs),
        look_in-Unmarked o' f (search_fields none o' fs false o')
            (search_fields-Unmarked none o' o' fs),
      ))
search_fields-Agree (some r) o o' last last' (f ∷ fs) =
    if_Agree (has_prefix f root_prefix) _ _ _ _
      (look_in-Agree r (drop_prefix f root_prefix) true (search_fields (some r) o fs true r)
        (search_fields (some r) o' fs true r) (search_fields-Agree (some r) o o' r r fs))
      (inr (
        look_in-Unmarked o f (search_fields (some r) o fs false o)
            (search_fields-Unmarked (some r) o o fs),
        look_in-Unmarked o' f (search_fields (some r) o' fs false o')
            (search_fields-Unmarked (some r) o' o' fs),
      ))

nested_or-Unmarked :
    (o : Option String) (e : Extracted) → e.only_root ≡ false → (nested_or o e).only_root ≡ false
nested_or-Unmarked none e h = h
nested_or-Unmarked (some s) e h = refl

nested_from-Unmarked :
    (nested : Payload → String → Option String) (sp : Span) (fs : List String)
    → (nested_from nested sp fs).only_root ≡ false
unfolding nested_from
nested_from-Unmarked nested sp [] = refl
nested_from-Unmarked nested sp (f ∷ fs) =
    nested_or-Unmarked (nested sp.payload f) (nested_from nested sp fs)
      (nested_from-Unmarked nested sp fs)

after_search-Unmarked :
    (nested : Payload → String → Option String) (b : Bool) (fs : List String) (s : Search)
    → Unmarked s
    → (after_search nested b fs s).only_root ≡ false
unfolding after_search
after_search-Unmarked nested b fs (found e) u = u
after_search-Unmarked nested b fs (missing sp) u =
    if_both (λ (x : Extracted). x.only_root ≡ false) b _ _ (nested_from-Unmarked nested sp fs) refl

after_search-Agree :
    (nested : Payload → String → Option String) (b : Bool) (fs : List String) (s s' : Search)
    → Agree s s'
    → (after_search nested b fs s).only_root ≡ true
    → after_search nested b fs s' ≡ after_search nested b fs s
after_search-Agree nested b fs s s' (inl e) h = ap (after_search nested b fs) (sym e)
after_search-Agree nested b fs s s' (inr (u, u')) h = cc (after_search-Unmarked nested b fs s u)

if_marked :
    (b : Bool) (e x x' : Extracted)
    → (x.only_root ≡ true → x' ≡ x)
    → (if b then e else x).only_root ≡ true
    → (if b then e else x') ≡ (if b then e else x)
if_marked true e x x' same h = refl
if_marked false e x x' same h = same h

module _ (std : Std) (nested : Payload → String → Option String) (check_nested : Bool)
    (t : Trace) where
  -- A value marked as that of the root alone is the same for every span.
  pub extract-only_root :
      (p : Prepared) (sp sp' : Span)
      → (extract std nested check_nested t p sp).only_root ≡ true
      → extract std nested check_nested t p sp' ≡ extract std nested check_nested t p sp
  unfolding extract extract_value
  extract-only_root p sp sp' h =
      if_marked (is_num_descendants (get_computed_field p.condition)) _ _ _
        (after_search-Agree nested check_nested p.condition.fields
          (search_fields (root_of t) sp p.condition.fields true sp)
          (search_fields (root_of t) sp' p.condition.fields true sp')
          (search_fields-Agree (root_of t) sp sp' sp sp' p.condition.fields))
        h
