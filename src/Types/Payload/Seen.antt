-- ===== src/Types/Payload/Seen.antt =====
-- types/payload.go: what a reader of a payload sees, and when two payloads read the same.
use refinery.Base.{
  ◌≡◌, refl, sym, ◌∙◌, ap, ◌≢◌, Bool, true, false, Option, none, some, String, [], ◌∷◌,
  String_discrete, if_pos, if_neg, Bool-cases, inl, inr,
}
use refinery.GoMap.{get, Unique, is_some}
use refinery.Types.Value.{Value}
use refinery.Types.Payload.{
  Payload, FieldType, read, exists, meta_type, mentions, entries_of, find_entry, value_or_nil,
  read_typed, exists_typed, read_rest, exists_rest, meta_value, nonzero,
}
use refinery.Types.Payload.Memo.{Entries, Decodes, pick}

-- The serialized data has each key once and no value that fails to decode, and the keys noted as
-- missing are not in it.
pub record IsValid (p : Payload) : Type 0 where
  pub distinct : Unique String_discrete (entries_of p)
  pub decodes : Decodes (entries_of p)
  pub missing_absent :
      (k : String) → mentions p.missing k ≡ true → get String_discrete k (entries_of p) ≡ none

-- Two payloads that no reader can tell apart.
abbrev pub SameReads : Payload → Payload → Type 0
SameReads q p = (j : String) → (read q j ≡ read p j) × (exists q j ≡ exists p j)

not-some_none : (es : Entries) (k : String) → Decodes es → get String_discrete k es ≢ some none
unfolding get
not-some_none [] k d e = cc
not-some_none ((j, none) ∷ es) k d e = d
not-some_none ((j, some x) ∷ es) k d e = elim (String_discrete j k) [
  | yes p ↦ let e' : some (some x) ≡ some none = rw (if_pos (String_discrete j k) p) at e in cc
  | no p ↦ not-some_none es k d (rw (if_neg (String_discrete j k) p) at e)
]

-- What a reader sees of an ordinary field: the memoized value, or else the entry in the data.
unfoldable pub seen : Entries → String → Option Value → Value × Bool
unfolding find_entry value_or_nil
seen es j none = (value_or_nil (find_entry j es), is_some (find_entry j es))
seen es j (some v) = (v, true)

read_rest-seen :
    (p : Payload) (j : String) (o : Option Value)
    → IsValid p
    → (read_rest p j o ≡ (seen (entries_of p) j o).0)
      × (exists_rest p j o ≡ (seen (entries_of p) j o).1)
unfolding read exists entries_of seen
read_rest-seen p j (some v) valid = (refl, refl)
read_rest-seen p j none valid = elim (Bool-cases (mentions p.missing j)) [
  | inl m ↦ rw (m, valid.missing_absent j m) (refl, refl)
  | inr m ↦ rw m (refl, refl)
]

pub seen-pick :
    (es : Entries) (j : String) (b : Bool) (old : Option Value)
    → Decodes es
    → (b ≡ true → old ≡ none)
    → seen es j (pick b (get String_discrete j es) old) ≡ seen es j old
unfolding seen pick
seen-pick es j false old d h = refl
seen-pick es j true old d h = rw (h refl) (go (get String_discrete j es) refl)
  where
    go :
        (o : Option (Option Value))
        → get String_discrete j es ≡ o
        → seen es j (pick true o none) ≡ seen es j none
    go none e = refl
    go (some none) e = absurd (not-some_none es j d e)
    go (some (some x)) e = rw e refl

-- A key that the scan looks for and leaves unmemoized is not in the data.
pub absent_of_pick :
    (es : Entries) (j : String) (old : Option Value)
    → Decodes es
    → pick true (get String_discrete j es) old ≡ none
    → get String_discrete j es ≡ none
unfolding pick
absent_of_pick es j old d h = go (get String_discrete j es) refl h
  where
    go :
        (o : Option (Option Value))
        → get String_discrete j es ≡ o
        → pick true o old ≡ none
        → o ≡ none
    go none e h = refl
    go (some none) e h = absurd (not-some_none es j d e)
    go (some (some x)) e h = cc

-- Valid payloads with the same metadata, in which every field is seen alike, read the same.
pub SameReads-intro :
    (q p : Payload)
    → IsValid q
    → IsValid p
    → q.metadata ≡ p.metadata
    → ((j : String)
        → seen (entries_of q) j (get String_discrete j q.memoized)
          ≡ seen (entries_of p) j (get String_discrete j p.memoized))
    → SameReads q p
unfolding read exists
SameReads-intro q p vq vp meta same j = typed (meta_type j)
  where
    a :
        (read_rest q j (get String_discrete j q.memoized)
          ≡ (seen (entries_of q) j (get String_discrete j q.memoized)).0)
        × (exists_rest q j (get String_discrete j q.memoized)
            ≡ (seen (entries_of q) j (get String_discrete j q.memoized)).1)
    a = read_rest-seen q j (get String_discrete j q.memoized) vq

    b :
        (read_rest p j (get String_discrete j p.memoized)
          ≡ (seen (entries_of p) j (get String_discrete j p.memoized)).0)
        × (exists_rest p j (get String_discrete j p.memoized)
            ≡ (seen (entries_of p) j (get String_discrete j p.memoized)).1)
    b = read_rest-seen p j (get String_discrete j p.memoized) vp

    typed :
        (t : Option FieldType)
        → (read_typed q j t ≡ read_typed p j t) × (exists_typed q j t ≡ exists_typed p j t)
    typed (some t) =
        let m = ap (λ l. nonzero (get String_discrete j l)) meta in (ap meta_value m, ap is_some m)
    typed none = (a.0 ∙ ap (λ s. s.0) (same j) ∙ sym b.0, a.1 ∙ ap (λ s. s.1) (same j) ∙ sym b.1)
