-- ===== src/Base/Text.antt =====
-- Texts as keys and in order: Go's `==` and `<` on strings.
use Prim.Native.String.{String}
use Prim.Native.Char.{code}
use mathlib.Core.Path.{◌≡◌, refl}
use native.Mathlib.Omega.{arith}
use refinery.Base.Tests.{ltb, if◌then◌else◌}
use refinery.Base.Sort.{StrictTotal}
use mathlib.Core.Logic.{◌↔◌}
use mathlib.Core.Bool.{Bool, true, false, false≢true}
use text.Mathlib.Text.{◌==◌ as str_eq}
use text.Mathlib.TextEquality.{eq_iff, Char-path}
use mathlib.Core.HLevel.{hedberg}

dec_of {ℓ} : {P : Type ℓ} (b : Bool) → ((b ≡ true) ↔ P) → Dec P
dec_of true e = yes (e.0 (λ i. true))
dec_of false e = no (λ p. false≢true (e.1 p))

-- Go's `==` on strings.
unfoldable pub String_discrete : Discrete String
unfolding dec_of
String_discrete s t = dec_of (str_eq s t) (eq_iff s t)

pub String-set : IsSet String
String-set = hedberg String_discrete

-- Go compares byte by byte; in UTF-8 that is the order of the code points.
unfoldable pub str_less : String → String → Bool
str_less String.[] String.[] = false
str_less String.[] (String.◌∷◌ d t) = true
str_less (String.◌∷◌ c s) String.[] = false
str_less (String.◌∷◌ c s) (String.◌∷◌ d t) =
    let rest = str_less s t in
    if ltb (code c) (code d) then true else if ltb (code d) (code c) then false else rest

str_less_asym : (s t : String) → str_less s t ≡ true → str_less t s ≡ false
unfolding str_less
str_less_asym String.[] String.[] h = refl
str_less_asym String.[] (String.◌∷◌ d t) h = refl
str_less_asym (String.◌∷◌ c s) String.[] h = cc
str_less_asym (String.◌∷◌ c s) (String.◌∷◌ d t) h = ground (arith, str_less_asym s t)

str_less_negtrans :
    (s t u : String) → str_less t s ≡ false → str_less u t ≡ false → str_less u s ≡ false
unfolding str_less
str_less_negtrans String.[] String.[] u h k = k
str_less_negtrans String.[] (String.◌∷◌ d t) String.[] h k = cc
str_less_negtrans String.[] (String.◌∷◌ d t) (String.◌∷◌ e u) h k = refl
str_less_negtrans (String.◌∷◌ c s) String.[] u h k = cc
str_less_negtrans (String.◌∷◌ c s) (String.◌∷◌ d t) String.[] h k = cc
str_less_negtrans (String.◌∷◌ c s) (String.◌∷◌ d t) (String.◌∷◌ e u) h k =
    ground (arith, str_less_negtrans s t u)

str_less_connected : (s t : String) → str_less s t ≡ false → str_less t s ≡ false → s ≡ t
unfolding str_less
str_less_connected String.[] String.[] h k = refl
str_less_connected String.[] (String.◌∷◌ d t) h k = cc
str_less_connected (String.◌∷◌ c s) String.[] h k = cc
str_less_connected (String.◌∷◌ c s) (String.◌∷◌ d t) h k =
    ground (arith, str_less_connected s t, Char-path c d)

pub str_less-StrictTotal : StrictTotal str_less
str_less-StrictTotal = record {
  weak = record { asym = str_less_asym; negtrans = str_less_negtrans };
  connected = str_less_connected;
}
