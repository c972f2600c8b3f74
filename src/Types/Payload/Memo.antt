-- ===== src/Types/Payload/Memo.antt =====
-- types/payload.go: the scan of `MemoizeFields`. It stops when it has seen as many keys as it looks
-- for, and by then it has seen every one that is there.
use refinery.Base.{
  ℕ, zero, suc, ◌+◌, ◌≤◌, ◌≡◌, refl, sym, ◌∙◌, ap, ◌≢◌, Bool, true, false, Option, none, some,
  String, List, [], ◌∷◌, length, arith, String_discrete, if_pos, if_neg, Bool-cases, inl, inr,
  if◌then◌else◌,
}
use refinery.GoMap.{get, set, delete, Unique, is_some, get-set_self, get-set_ne, get-delete}
use refinery.Types.Value.{Value}
use refinery.Types.Payload.{Payload, meta_type, memoize_scan}
use refinery.Types.Payload.Fields.{put-plain, with_field}

abbrev pub Keys : Type 0
Keys = List (String × Unit {0})

abbrev pub Entries : Type 0
Entries = List (String × Option Value)

abbrev pub has : String → Keys → Bool
has k find = is_some (get String_discrete k find)

-- How many entries have one of the keys.
pub hits : Keys → Entries → ℕ
hits find [] = 0
hits find ((k, v) ∷ es) = (if has k find then 1 else 0) + hits find es

length-delete-lt :
    (k : String) (find : Keys)
    → has k find ≡ true
    → length (delete String_discrete k find) + 1 ≤ length find
unfolding delete get
length-delete-lt k [] h = cc
length-delete-lt k ((j, u) ∷ find) h = elim (Bool-cases (has k find)) [
  | inl e ↦ ground (arith, length-delete-lt k find e)
  | inr e ↦ ground (arith, length-delete-le k find)
]
  where
    length-delete-le :
        (k : String) (find : Keys) → length (delete String_discrete k find) ≤ length find
    length-delete-le k [] = omega arith
    length-delete-le k ((j, u) ∷ find) = ground (arith, length-delete-le k find)

hits-delete :
    (k : String) (find : Keys) (es : Entries)
    → get String_discrete k es ≡ none
    → hits (delete String_discrete k find) es ≡ hits find es
unfolding hits get
hits-delete k find [] h = refl
hits-delete k find ((j, v) ∷ es) h = elim (String_discrete j k) [
  | yes p ↦
      absurd (ground (arith, if_pos (String_discrete j k) p (some v) (get String_discrete k es)))
  | no p ↦
      rw
        (
          get-delete String_discrete j k find,
          if_neg (String_discrete j k) p none (get String_discrete j find),
        )
        (ap (◌+◌ (if has j find then 1 else 0)) (
          hits-delete k find es
            (sym (if_neg (String_discrete j k) p (some v) (get String_discrete k es)) ∙ h)))
]

-- A key is hit once at most, since the entries have distinct keys.
pub hits-le-length :
    (find : Keys) (es : Entries) → Unique String_discrete es → hits find es ≤ length find
unfolding hits Unique
hits-le-length find [] u = omega arith
hits-le-length find ((k, v) ∷ es) u = elim (Bool-cases (has k find)) [
  | inl e ↦ rw e (
      omega (
        arith,
        length-delete-lt k find e,
        hits-delete k find es u.0,
        hits-le-length (delete String_discrete k find) es u.1,
      ))
  | inr e ↦ rw e (omega (arith, hits-le-length find es u.1))
]

hits-zero :
    (find : Keys) (es : Entries) (j : String)
    → hits find es ≤ 0
    → has j find ≡ true
    → get String_discrete j es ≡ none
unfolding hits get
hits-zero find [] j h e = refl
hits-zero find ((k, v) ∷ es) j h e = elim (String_discrete k j) [
  | yes p ↦ let h' : 1 + hits find es ≤ 0 = rw (p, e) at h in absurd (omega arith)
  | no p ↦ rw (if_neg (String_discrete k j) p) (hits-zero find es j (omega arith) e)
]

-- Every key that is looked for is an ordinary field.
abbrev pub Plain : Keys → Type 0
Plain find = (k : String) → has k find ≡ true → meta_type k ≡ none

-- No value fails to decode.
abbrev pub Decodes : Entries → Type 0
Decodes [] = Unit
Decodes ((k, none) ∷ es) = ⊥
Decodes ((k, some x) ∷ es) = Decodes es

-- The memoized fields after the scan.
pub fill : Keys → Entries → List (String × Value) → List (String × Value)
fill find [] m = m
fill find ((k, none) ∷ es) m = m
fill find ((k, some x) ∷ es) m = fill find es (if has k find then set String_discrete k x m else m)

fill-none :
    (find : Keys) (es : Entries) (m : List (String × Value))
    → Decodes es
    → hits find es ≤ 0
    → fill find es m ≡ m
unfolding fill hits
fill-none find [] m d h = refl
fill-none find ((k, none) ∷ es) m d h = refl
fill-none find ((k, some x) ∷ es) m d h = elim (Bool-cases (has k find)) [
  | inl e ↦ let h' : 1 + hits find es ≤ 0 = rw e at h in absurd (omega arith)
  | inr e ↦ rw e (fill-none find es m d (omega arith))
]

-- With room for every hit the scan stops only at the end of the data, or when all is found.
pub scan-fill :
    (find : Keys) (n : ℕ) (es : Entries) (p : Payload)
    → Plain find
    → Decodes es
    → hits find es ≤ n
    → memoize_scan find n es p ≡ record p { memoized = fill find es p.memoized }
unfolding memoize_scan fill hits
scan-fill find n [] p plain d h = refl
scan-fill find zero ((k, v) ∷ es) p plain d h =
    rw (fill-none find ((k, v) ∷ es) p.memoized d h) refl
scan-fill find (suc n) ((k, none) ∷ es) p plain d h = absurd d
scan-fill find (suc n) ((k, some x) ∷ es) p plain d h = elim (Bool-cases (has k find)) [
  | inl e ↦
      let h' : 1 + hits find es ≤ suc n = rw e at h in
      rw (e, put-plain p k x (plain k e))
        (scan-fill find n es (with_field p k x) plain d (omega arith))
  | inr e ↦ rw e (scan-fill find (suc n) es p plain d (omega arith))
]

unfoldable pub pick : Bool → Option (Option Value) → Option Value → Option Value
pick true (some o) old = o
pick true none old = old
pick false o old = old

pub get-fill :
    (find : Keys) (es : Entries) (m : List (String × Value)) (j : String)
    → Unique String_discrete es
    → Decodes es
    → get String_discrete j (fill find es m)
      ≡ pick (has j find) (get String_discrete j es) (get String_discrete j m)
unfolding fill get Unique pick
get-fill find [] m j u d = ground arith
get-fill find ((k, none) ∷ es) m j u d = absurd d
get-fill find ((k, some x) ∷ es) m j u d = elim (String_discrete k j) [
  | yes p ↦
      rw (if_pos (String_discrete k j) p)
        (rw (get-fill find es m' j u.1 d) (rw (← p) (rw u.0 same)))
  | no p ↦
      rw (if_neg (String_discrete k j) p)
        (rw (get-fill find es m' j u.1 d) (other (λ q. p (sym q))))
]
  where
    m' : List (String × Value)
    m' = if has k find then set String_discrete k x m else m

    same :
        pick (has k find) none (get String_discrete k m')
        ≡ pick (has k find) (some (some x)) (get String_discrete k m)
    same = elim (Bool-cases (has k find)) [
      | inl e ↦ rw (e, get-set_self String_discrete k x m) refl
      | inr e ↦ rw e refl
    ]

    other :
        j ≢ k
        → pick (has j find) (get String_discrete j es) (get String_discrete j m')
          ≡ pick (has j find) (get String_discrete j es) (get String_discrete j m)
    other q = elim (Bool-cases (has k find)) [
      | inl e ↦ rw (e, get-set_ne String_discrete j k x m q) refl
      | inr e ↦ rw e refl
    ]
