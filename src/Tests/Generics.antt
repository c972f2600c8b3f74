-- ===== src/Tests/Generics.antt =====
-- Sets and maps of `generics`, at concrete inputs.
use refinery.Base.{ℕ, ◌≡◌, refl, false, some, String, String_discrete, [], ◌∷◌}
use refinery.GoMap.{get, Unique}
use refinery.Generics.Set
use refinery.Generics.Set.{elem}
use refinery.Generics.SetTtl
use refinery.Generics.SetTtl.{SetWithTtl}
use refinery.Generics.MapTtl
use refinery.Generics.MapTtl.{MapWithTtl, Item}

abbrev pub seen : SetWithTtl String
seen = record { items = ("b", 7) ∷ ("a", 9) ∷ []; ttl = 3 }

seen-IsValid : SetTtl.IsValid String_discrete seen
unfolding Unique get String_discrete
seen-IsValid = (refl, (refl, tt))

abbrev ages : MapWithTtl String ℕ
ages = record {
  items =
      ("b", record { value = 1; expiration = 7 })
      ∷ ("a", record { value = 2; expiration = 9 })
      ∷ [];
  ttl = 3;
}

ages-IsValid : MapTtl.IsValid String_discrete ages
unfolding Unique get String_discrete
ages-IsValid = (refl, (refl, tt))

abbrev ab : Set.Set String
ab = ("a", tt) ∷ ("b", tt) ∷ []

abbrev bc : Set.Set String
bc = ("b", tt) ∷ ("c", tt) ∷ []

expiry_instant_example :
    (SetTtl.contains String_discrete 9 seen "a" ≡ false)
    × (get String_discrete "a" (SetTtl.cleanup String_discrete 9 seen).0.items ≡ some 9)
unfolding get String_discrete
expiry_instant_example = SetTtl.expiry_instant String_discrete 9 seen "a" seen-IsValid refl
