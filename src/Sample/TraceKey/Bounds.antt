-- ===== src/Sample/TraceKey/Bounds.antt =====
-- sample/trace_key.go: how long a key can be, and that nothing of an earlier trace is in it.
use refinery.Base.{
  ℕ, zero, suc, ◌+◌, ◌≤◌, ◌≡◌, refl, ap, Bool, true, false, Option, none, some, String,
  String_discrete, str_less, ℕ_discrete, List, [], ◌∷◌, leb, length, get_elem?, ite, if_pos, if_neg,
  arith,
}
use Prim.Native.String.{◌++◌ as joined}
use refinery.Base.Sort.{sort, length-sort}
use refinery.GoMap
use refinery.GoMap.{get, set, delete, is_some}
use refinery.Types.Payload.{read, exists}
use refinery.Types.Span.{Span}
use refinery.Types.Trace.{Trace}
use refinery.Rules.Reference.{if_both}
use refinery.Rules.Extract.{root_of}
use refinery.Sample.TraceKey.{
  max_key_length, Texts, DistinctValue, TraceKey, take, extend, clear_all, reset, sorted_at,
  values_of, text_of, store_at, add_text, add_as_string, scan_spans, go_on, scan_fields,
  write_values, write_field, write_fields, write_root, write_length, build,
}

abbrev empty_maps : ℕ → List (List (ℕ × String))
empty_maps zero = []
empty_maps (suc n) = [] ∷ empty_maps n

clear_lem :
    (n : ℕ) (ms : List (List (ℕ × String))) → clear_all (take n (extend n ms)) ≡ empty_maps n
unfolding clear_all extend
clear_lem zero ms = refl
clear_lem (suc n) [] = ap (λ r. [] ∷ r) (clear_lem n [])
clear_lem (suc n) (m ∷ ms) = ap (λ r. [] ∷ r) (clear_lem n ms)

reset-same : (fs : List String) (max : ℕ) (d d' : DistinctValue) → reset fs max d ≡ reset fs max d'
unfolding reset
reset-same fs max d d' = rw (clear_lem (length fs) d.values, clear_lem (length fs) d'.values) refl

-- How many values are stored, in all maps, and from a map on.
abbrev stored : List (List (ℕ × String)) → ℕ
stored [] = 0
stored (m ∷ ms) = length m + stored ms

abbrev stored_from : List (List (ℕ × String)) → ℕ → ℕ
stored_from [] i = 0
stored_from (m ∷ ms) zero = length m + stored ms
stored_from (m ∷ ms) (suc i) = stored_from ms i

stored-empty : (n : ℕ) → stored (empty_maps n) ≡ 0
stored-empty zero = refl
stored-empty (suc n) = omega (arith, stored-empty n)

length-delete : (k : ℕ) (m : List (ℕ × String)) → length (delete ℕ_discrete k m) ≤ length m
unfolding delete
length-delete k [] = omega arith
length-delete k ((j, s) ∷ m) = elim (ℕ_discrete j k) [
  | yes p ↦ rw (if_pos _ p) (omega (arith, length-delete k m))
  | no p ↦ rw (if_neg _ p) (omega (arith, length-delete k m))
]

stored-store_at :
    (texts : Texts) (ms : List (List (ℕ × String))) (i h : ℕ) (s : String)
    → stored (store_at texts ms i h s) ≤ stored ms + 1
unfolding store_at set
stored-store_at texts [] i h s = omega arith
stored-store_at texts (m ∷ ms) zero h s = omega (arith, length-delete h m)
stored-store_at texts (m ∷ ms) (suc i) h s = omega (arith, stored-store_at texts ms i h s)

-- What the scan of the spans keeps up.
record IsBounded (d : DistinctValue) : Type 0 where
  within : stored d.values ≤ d.total_unique_count
  below : stored d.values + 1 ≤ max_key_length
  limit : d.max_distinct_value ≡ max_key_length

pick-le :
    {P : Type 0} (d : Dec P) (x y : String × ℕ) (n : ℕ) → x.1 ≤ n → y.1 ≤ n → (ite d x y).1 ≤ n
pick-le (yes p) x y n h k = h
pick-le (no p) x y n h k = k

module _ (texts : Texts) where
  add_text-IsBounded :
      (d : DistinctValue) (i : ℕ) (s : String) → IsBounded d → IsBounded (add_text texts d i s).0
  unfolding add_text
  add_text-IsBounded d i s b =
      let h : stored (store_at texts d.values i (texts.hash s) s) ≤ stored d.values + 1 =
        stored-store_at texts d.values i (texts.hash s) s in
      ground (arith, h)

  scan_spans-IsBounded :
      (f : String) (i : ℕ) (sps : List Span) (d : DistinctValue)
      → IsBounded d
      → IsBounded (scan_spans texts f i sps d).0
  unfolding scan_spans add_as_string
  scan_spans-IsBounded f i [] d b = b
  scan_spans-IsBounded f i (sp ∷ sps) d b =
      if_both (λ (x : DistinctValue × Bool). IsBounded x.0) (exists sp.payload f) _ _
        (if_both (λ (x : DistinctValue × Bool). IsBounded x.0)
          (leb max_key_length d.total_unique_count) (d, true) _ b
          (scan_spans-IsBounded f i sps (add_as_string texts d (read sp.payload f) i).0
            (add_text-IsBounded d i (text_of texts (read sp.payload f)) b)))
        (scan_spans-IsBounded f i sps d b)

  go_on-IsBounded :
      (x : DistinctValue × Bool) (f : DistinctValue → DistinctValue)
      → IsBounded x.0
      → ((d : DistinctValue) → IsBounded d → IsBounded (f d))
      → IsBounded (go_on texts x f)
  unfolding go_on
  go_on-IsBounded (d, true) f b step = b
  go_on-IsBounded (d, false) f b step = step d b

  scan_fields-IsBounded :
      (fs : List String) (i : ℕ) (sps : List Span) (d : DistinctValue)
      → IsBounded d
      → IsBounded (scan_fields texts fs i sps d)
  unfolding scan_fields
  scan_fields-IsBounded [] i sps d b = b
  scan_fields-IsBounded (f ∷ fs) i sps d b =
      go_on-IsBounded (scan_spans texts f i sps d) (scan_fields texts fs (suc i) sps)
        (scan_spans-IsBounded f i sps d b) (scan_fields-IsBounded fs (suc i) sps)

  write_values-le : (prev : String) (ss : List String) → (write_values texts prev ss).1 ≤ length ss
  unfolding write_values
  write_values-le prev [] = omega arith
  write_values-le prev (s ∷ ss) =
      pick-le (String_discrete s prev) _ _ (suc (length ss)) (omega (arith, write_values-le s ss))
        (omega (arith, write_values-le s ss))

  write_field-le : (ss : List String) → (write_field texts ss).1 ≤ length ss
  unfolding write_field
  write_field-le [] = omega arith
  write_field-le (s ∷ ss) = write_values-le "" (s ∷ ss)

  length-values : (m : List (ℕ × String)) → length (GoMap.values m) ≡ length m
  length-values [] = refl
  length-values ((k, v) ∷ m) = ap suc (length-values m)

  sorted_at-le : (m : List (ℕ × String)) → (write_field texts (sorted_at (some m))).1 ≤ length m
  unfolding sorted_at
  sorted_at-le m = omega (
    arith,
    write_field-le (sort str_less (GoMap.values m)),
    length-sort str_less (GoMap.values m),
    length-values m,
  )

  -- The values that are written for the fields from a position on.
  write_at-le :
      (ms : List (List (ℕ × String))) (i : ℕ)
      → (write_field texts (sorted_at (get_elem? ms i))).1 + stored_from ms (suc i)
        ≤ stored_from ms i
  write_at-le [] i = unfold sorted_at write_field in omega arith
  write_at-le (m ∷ []) zero = omega (arith, sorted_at-le m)
  write_at-le (m ∷ m' ∷ ms) zero = omega (arith, sorted_at-le m)
  write_at-le (m ∷ ms) (suc i) = write_at-le ms i

  write_fields-le :
      (d : DistinctValue) (i : ℕ) (fs : List String)
      → (write_fields texts d i fs).1 ≤ stored_from d.values i
  unfolding write_fields values_of
  write_fields-le d i [] = omega arith
  write_fields-le d i (f ∷ fs) = omega (arith, write_at-le d.values i, write_fields-le d (suc i) fs)

  stored_from-zero : (ms : List (List (ℕ × String))) → stored_from ms 0 ≡ stored ms
  stored_from-zero [] = refl
  stored_from-zero (m ∷ ms) = refl

  write_root-le : (r : Option Span) (fs : List String) → (write_root texts r fs).1 ≤ length fs
  unfolding write_root
  write_root-le none fs = omega arith
  write_root-le (some r) [] = omega arith
  write_root-le (some r) (f ∷ fs) =
      if_both (λ (x : String × ℕ). x.1 ≤ suc (length fs)) (exists r.payload f) _ _
        (omega (arith, write_root-le (some r) fs)) (omega (arith, write_root-le (some r) fs))

  write_length-le : (b : Bool) (n : ℕ) → (write_length texts b n).1 ≤ 1
  unfolding write_length
  write_length-le true n = omega arith
  write_length-le false n = omega arith

  reset-IsBounded : (fs : List String) (d : DistinctValue) → IsBounded (reset fs max_key_length d)
  unfolding reset
  reset-IsBounded fs d = rw (clear_lem (length fs) d.values) (record {
    within = omega (arith, stored-empty (length fs));
    below = omega (arith, stored-empty (length fs));
    limit = refl;
  })

  build_from : TraceKey → Trace → DistinctValue → TraceKey × (String × ℕ)
  build_from k t e =
      let x = scan_fields texts k.fields 0 t.spans e in
      let (a, n) = write_fields texts x 0 k.fields in
      let (b, m) = write_root texts (root_of t) k.root_only_fields in
      let (c, l) = write_length texts k.use_trace_length (length t.spans) in
      (record k { distinct_value = x }, (joined a (joined b c), n + m + l))

  -- The key of a trace holds at most 99 values of spans, one for each field of the root, and one for the
  -- length of the trace, and what `build` answers does not depend on what an earlier call left in the
  -- buffers.
  pub build_bounds :
      (k : TraceKey) (d : DistinctValue) (t : Trace)
      → ((build texts k t).1.1 ≤ 99 + length k.root_only_fields + 1)
        × (build texts (record k { distinct_value = d }) t ≡ build texts k t)
  unfolding build build_from
  build_bounds k d t =
      let start = reset k.fields max_key_length k.distinct_value in
      let done = scan_fields texts k.fields 0 t.spans start in
      let b =
        scan_fields-IsBounded k.fields 0 t.spans start
          (reset-IsBounded k.fields k.distinct_value) in
      (
        omega (
          arith,
          write_fields-le done 0 k.fields,
          stored_from-zero done.values,
          b.below,
          write_root-le (root_of t) k.root_only_fields,
          write_length-le k.use_trace_length (length t.spans),
        ),
        ap (λ e. build_from k t e) (reset-same k.fields max_key_length d k.distinct_value),
      )
