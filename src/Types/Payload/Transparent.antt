-- ===== src/Types/Payload/Transparent.antt =====
-- types/payload.go: `MemoizeFields` is a cache: neither `Get` nor `Exists` can tell that it ran.
use refinery.Base.{
  ◌≡◌, refl, sym, ◌∙◌, ap, subst, Bool, true, false, Option, none, some, String, List, [], ◌∷◌,
  ◌++◌, length, arith, String_discrete, Option-cases, Bool-cases, inl, inr, ◌⊎◌, ◌||◌,
}
use refinery.GoMap.{get, keys, Unique, is_some, get-set_ne}
use refinery.Types.Payload.{
  Payload, meta_type, note_missing, mentions, entries_of, entries_or, keys_to_find, memoize_fields,
  memoize_found,
}
use refinery.Types.Payload.Memo.{
  Keys, Entries, has, Plain, Decodes, fill, pick, hits-le-length, scan-fill, get-fill,
}
use refinery.Types.Payload.Seen.{
  IsValid, SameReads, seen, seen-pick, absent_of_pick, SameReads-intro,
}

mentions-append :
    (ks : List String) (k j : String)
    → mentions (ks ++ k ∷ []) j ≡ true
    → (mentions ks j ≡ true) ⊎ (k ≡ j)
unfolding mentions get
mentions-append [] k j h = ground arith
mentions-append (i ∷ ks) k j h = ground (arith, mentions-append ks k j)

mentions-here : (k : String) (ks : List String) → mentions (k ∷ ks) k ≡ true
unfolding mentions get
mentions-here k ks = ground arith

mentions-later :
    (k j : String) (ks : List String) → mentions ks j ≡ true → mentions (k ∷ ks) j ≡ true
unfolding mentions get
mentions-later k j ks h = ground arith

-- A payload with one more key noted as missing.
abbrev with_missing : Payload → String → Payload
with_missing p k = record p { missing = p.missing ++ k ∷ [] }

with_missing-IsValid :
    (p : Payload) (k : String)
    → IsValid p
    → get String_discrete k (entries_of p) ≡ none
    → IsValid (with_missing p k)
unfolding entries_of
with_missing-IsValid p k v h = record {
  distinct = v.distinct;
  decodes = v.decodes;
  missing_absent = λ j m. elim (mentions-append p.missing k j m) [
    | inl old ↦ v.missing_absent j old
    | inr e ↦ subst (λ i. get String_discrete i (entries_of p) ≡ none) e h
  ];
}

note_missing-SameReads :
    (ks : List String) (p : Payload)
    → IsValid p
    → ((k : String)
        → mentions ks k ≡ true
        → get String_discrete k p.memoized ≡ none
        → get String_discrete k (entries_of p) ≡ none)
    → IsValid (note_missing ks p) × SameReads (note_missing ks p) p
unfolding note_missing entries_of
note_missing-SameReads [] p v h = (v, λ j. (refl, refl))
note_missing-SameReads (k ∷ ks) p v h = elim (Option-cases (get String_discrete k p.memoized)) [
  | inr (x, e) ↦ rw e (note_missing-SameReads ks p v (λ i m. h i (mentions-later k i ks m)))
  | inl e ↦
      let v1 = with_missing-IsValid p k v (h k (mentions-here k ks) e) in
      let (v2, same) =
        note_missing-SameReads ks (with_missing p k) v1 (λ i m. h i (mentions-later k i ks m)) in
      let step = SameReads-intro (with_missing p k) p v1 v refl (λ j. refl) in
      rw e (v2, λ j. ((same j).0 ∙ (step j).0, (same j).1 ∙ (step j).1))
]

neither {ℓ} :
    {A : Type ℓ} (b : Bool) (o : Option A) → (b || is_some o) ≡ false → (b ≡ false) × (o ≡ none)
neither b o h = ground arith

-- A key that is looked for is neither memoized nor noted as missing, and was asked for.
keys_to_find-has :
    (p : Payload) (ks : List String) (k : String)
    → has k (keys_to_find p ks) ≡ true
    → (get String_discrete k p.memoized ≡ none) × (mentions ks k ≡ true)
unfolding keys_to_find get
keys_to_find-has p [] k h = cc
keys_to_find-has p (i ∷ ks) k h =
    elim (Bool-cases (mentions p.missing i || is_some (get String_discrete i p.memoized))) [
      | inl e ↦ let (b, c) = keys_to_find-has p ks k (rw e at h) in (b, mentions-later i k ks c)
      | inr e ↦ elim (String_discrete k i) [
        | yes q ↦
            let (a, b) = neither (mentions p.missing i) (get String_discrete i p.memoized) e in
            (rw q b, subst (λ j. mentions (i ∷ ks) j ≡ true) (sym q) (mentions-here i ks))
        | no q ↦
            let (b, c) = keys_to_find-has p ks k (
              ap is_some (sym (get-set_ne String_discrete k i tt (keys_to_find p ks) q))
              ∙ (rw e at h)) in
            (b, mentions-later i k ks c)
      ]
    ]

mentions-keys : (find : Keys) (k : String) → mentions (keys find) k ≡ true → has k find ≡ true
unfolding mentions get
mentions-keys [] k h = cc
mentions-keys ((i, u) ∷ find) k h = ground (arith, mentions-keys find k)

filled-SameReads :
    (p : Payload) (find : Keys)
    → IsValid p
    → ((k : String) → has k find ≡ true → get String_discrete k p.memoized ≡ none)
    → SameReads (record p { memoized = fill find (entries_of p) p.memoized }) p
unfolding entries_of
filled-SameReads p find v new =
    SameReads-intro (record p { memoized = fill find (entries_of p) p.memoized }) p
      (record { distinct = v.distinct; decodes = v.decodes; missing_absent = v.missing_absent }) v
      refl
      (λ j.
        ap (seen (entries_of p) j) (get-fill find (entries_of p) p.memoized j v.distinct v.decodes)
        ∙ seen-pick (entries_of p) j (has j find) (get String_discrete j p.memoized) v.decodes
            (new j))

found-SameReads :
    (o : Option Entries) (find : Keys) (p : Payload)
    → p.entries ≡ o
    → IsValid p
    → Plain find
    → ((k : String) → has k find ≡ true → get String_discrete k p.memoized ≡ none)
    → IsValid (memoize_found o find p) × SameReads (memoize_found o find p) p
unfolding memoize_fields entries_of
found-SameReads o [] p e v plain new = (v, λ j. (refl, refl))
found-SameReads none (f ∷ find) p e v plain new = (v, λ j. (refl, refl))
found-SameReads (some es) (f ∷ find) p e v plain new =
    rw (scan-fill (f ∷ find) (length (f ∷ find)) es p plain d (hits-le-length (f ∷ find) es u))
      (noted.0, λ j. ((noted.1 j).0 ∙ (same j).0, (noted.1 j).1 ∙ (same j).1))
  where
    here : entries_of p ≡ es
    here = ap entries_or e

    d : Decodes es
    d = subst Decodes here v.decodes

    u : Unique String_discrete es
    u = subst (Unique String_discrete) here v.distinct

    filled : Payload
    filled = record p { memoized = fill (f ∷ find) es p.memoized }

    same : SameReads filled p
    same =
        subst (λ l. SameReads (record p { memoized = fill (f ∷ find) l p.memoized }) p) here
          (filled-SameReads p (f ∷ find) v new)

    noted :
        IsValid (note_missing (keys (f ∷ find)) filled)
        × SameReads (note_missing (keys (f ∷ find)) filled) filled
    noted =
        note_missing-SameReads (keys (f ∷ find)) filled
          (record { distinct = v.distinct; decodes = v.decodes; missing_absent = v.missing_absent })
          (λ k m gone.
            ap (get String_discrete k) here
            ∙ absent_of_pick es k (get String_discrete k p.memoized) d (
                subst
                  (λ b. pick b (get String_discrete k es) (get String_discrete k p.memoized) ≡ none)
                  (mentions-keys (f ∷ find) k m)
                  (sym (get-fill (f ∷ find) es p.memoized k u d) ∙ gone)))

-- On valid data, memoizing ordinary fields changes what no reader sees: every field reads and
-- exists as before, and the payload stays valid, so that the cache can be filled again.
pub memoize_fields-SameReads :
    (p : Payload) (ks : List String)
    → IsValid p
    → ((k : String) → mentions ks k ≡ true → meta_type k ≡ none)
    → IsValid (memoize_fields p ks) × SameReads (memoize_fields p ks) p
unfolding memoize_fields
memoize_fields-SameReads p ks v plain =
    found-SameReads p.entries (keys_to_find p ks) p refl v
      (λ k h. plain k (keys_to_find-has p ks k h).1) (λ k h. (keys_to_find-has p ks k h).0)
