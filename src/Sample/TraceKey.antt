-- ===== src/Sample/TraceKey.antt =====
-- sample/trace_key.go: the key of a trace, which is made of the distinct values of some fields. The hash
-- of a text and the texts of numbers and of other values are parameters. The buffers of bytes and of
-- values hold nothing from one call to the next and are left out. Where the source would index out of
-- range, `add_at` changes nothing; the fields are as many as the maps.
pub mod Bounds
use refinery.Base.{
  ℕ, zero, suc, ◌+◌, ◌≤◌, ◌≡◌, Bool, true, false, ◌&&◌, not, Option, none, some, String,
  String_discrete, str_less, ℕ_discrete, List, [], ◌∷◌, ◌++◌, leb, length, get_elem?, ite,
  if◌then◌else◌,
}
use Prim.Native.String.{◌++◌ as joined}
use refinery.Base.Int.{ℤ, pos}
use refinery.Base.Sort.{sort}
use refinery.GoMap
use refinery.GoMap.{get, set, is_some}
use refinery.Types.Value.{Value, nil, bool, int64, int, float64, str}
use refinery.Types.Payload.{read, exists}
use refinery.Types.Span.{Span}
use refinery.Types.Trace.{Trace}
use refinery.Rules.Operators.{has_prefix, drop_prefix}
use refinery.Rules.Extract.{root_prefix, root_of}

abbrev pub max_key_length : ℕ
max_key_length = 100

-- The functions that the texts of a key are made with.
pub record Texts : Type 0 where
  pub hash : String → ℕ
  pub show_int : ℤ → String
  pub show_float : ℕ → String
  pub show : Value → String

pub record DistinctValue : Type 0 where
  pub values : List (List (ℕ × String))
  pub total_unique_count : ℕ
  pub max_distinct_value : ℕ

pub record TraceKey : Type 0 where
  pub fields : List String
  pub root_only_fields : List String
  pub use_trace_length : Bool
  pub distinct_value : DistinctValue

-- `newTraceKey` splits the sorted fields.
unfoldable pub root_fields : List String → List String
root_fields [] = []
root_fields (f ∷ fs) =
    let rest = root_fields fs in
    if has_prefix f root_prefix then drop_prefix f root_prefix ∷ rest else rest

unfoldable pub non_root_fields : List String → List String
non_root_fields [] = []
non_root_fields (f ∷ fs) =
    let rest = non_root_fields fs in if has_prefix f root_prefix then rest else f ∷ rest

unfoldable pub new_trace_key : List String → Bool → TraceKey
unfolding root_fields non_root_fields
new_trace_key fields use_trace_length =
    let sorted = sort str_less fields in
    record {
      fields = non_root_fields sorted;
      root_only_fields = root_fields sorted;
      use_trace_length = use_trace_length;
      distinct_value = record { values = []; total_unique_count = 0; max_distinct_value = 0 };
    }

abbrev pub take {ℓ} : {A : Type ℓ} → ℕ → List A → List A
take zero xs = []
take (suc n) [] = []
take (suc n) (x ∷ xs) = x ∷ take n xs

-- `Reset`: as many maps as there are fields, all of them empty
unfoldable pub extend : ℕ → List (List (ℕ × String)) → List (List (ℕ × String))
extend zero ms = ms
extend (suc n) [] = [] ∷ extend n []
extend (suc n) (m ∷ ms) = m ∷ extend n ms

unfoldable pub clear_all : List (List (ℕ × String)) → List (List (ℕ × String))
clear_all [] = []
clear_all (m ∷ ms) = [] ∷ clear_all ms

unfoldable pub reset : List String → ℕ → DistinctValue → DistinctValue
unfolding extend clear_all
reset fields max d = record {
  values = clear_all (take (length fields) (extend (length fields) d.values));
  total_unique_count = 0;
  max_distinct_value = max;
}

-- `Values`
unfoldable pub sorted_at : Option (List (ℕ × String)) → List String
sorted_at none = []
sorted_at (some m) = sort str_less (GoMap.values m)

unfoldable pub values_of : DistinctValue → ℕ → List String
unfolding sorted_at
values_of d i = sorted_at (get_elem? d.values i)

module _ (texts : Texts) where
  -- the text of a value, by its type
  unfoldable pub text_of : Value → String
  text_of (str s) = s
  text_of (int n) = texts.show_int n
  text_of (int64 n) = texts.show_int n
  text_of (float64 x) = texts.show_float x
  text_of (bool true) = "true"
  text_of (bool false) = "false"
  text_of nil = "<nil>"
  text_of v = texts.show v

  -- `AddAsString`: nothing is stored once the count has come to the limit.
  abbrev pub has_at : Option (List (ℕ × String)) → ℕ → Bool
  has_at none h = true
  has_at (some m) h = is_some (get ℕ_discrete h m)

  unfoldable pub store_at : List (List (ℕ × String)) → ℕ → ℕ → String → List (List (ℕ × String))
  store_at [] i h s = []
  store_at (m ∷ ms) zero h s = set ℕ_discrete h s m ∷ ms
  store_at (m ∷ ms) (suc i) h s = m ∷ store_at ms i h s

  unfoldable pub add_text : DistinctValue → ℕ → String → DistinctValue × Bool
  unfolding store_at
  add_text d i s =
      let h = texts.hash s in
      let total = d.total_unique_count + 1 in
      if has_at (get_elem? d.values i) h
      then (d, false)
      else if leb d.max_distinct_value total
      then (record d { total_unique_count = total }, false)
      else (record d { total_unique_count = total; values = store_at d.values i h s }, true)

  unfoldable pub add_as_string : DistinctValue → Value → ℕ → DistinctValue × Bool
  unfolding text_of add_text
  add_as_string d v i = add_text d i (text_of v)

  -- the loop over the spans, for one field; `true` is the `break outer`
  unfoldable pub scan_spans : String → ℕ → List Span → DistinctValue → DistinctValue × Bool
  scan_spans f i [] d = (d, false)
  scan_spans f i (sp ∷ sps) d =
      let added = scan_spans f i sps (add_as_string d (read sp.payload f) i).0 in
      let skipped = scan_spans f i sps d in
      if exists sp.payload f
      then if leb max_key_length d.total_unique_count then (d, true) else added
      else skipped

  unfoldable pub go_on : DistinctValue × Bool → (DistinctValue → DistinctValue) → DistinctValue
  go_on (d, true) f = d
  go_on (d, false) f = f d

  -- the loop over the fields
  unfoldable pub scan_fields : List String → ℕ → List Span → DistinctValue → DistinctValue
  unfolding scan_spans go_on
  scan_fields [] i sps d = d
  scan_fields (f ∷ fs) i sps d = go_on (scan_spans f i sps d) (scan_fields fs (suc i) sps)

  -- the values of one field, without repetitions, and how many
  unfoldable pub write_values : String → List String → String × ℕ
  write_values prev [] = ("", 0)
  write_values prev (s ∷ ss) =
      let (text, n) = write_values s ss in
      ite (String_discrete s prev) (text, n) (joined s (joined "•" text), n + 1)

  unfoldable pub write_field : List String → String × ℕ
  unfolding write_values
  write_field [] = ("", 0)
  write_field (s ∷ ss) = let (text, n) = write_values "" (s ∷ ss) in (joined text ",", n)

  unfoldable pub write_fields : DistinctValue → ℕ → List String → String × ℕ
  unfolding write_field
  write_fields d i [] = ("", 0)
  write_fields d i (f ∷ fs) =
      let (a, n) = write_field (values_of d i) in
      let (b, m) = write_fields d (suc i) fs in (joined a b, n + m)

  unfoldable pub write_root : Option Span → List String → String × ℕ
  write_root none fs = ("", 0)
  write_root (some r) [] = ("", 0)
  write_root (some r) (f ∷ fs) =
      let (b, m) = write_root (some r) fs in
      if exists r.payload f
      then (joined (texts.show (read r.payload f)) (joined "," b), m + 1)
      else (b, m)

  unfoldable pub write_length : Bool → ℕ → String × ℕ
  write_length true n = (texts.show_int (pos n), 1)
  write_length false n = ("", 0)

  -- `build`: the key, and the number of values in it
  unfoldable pub build : TraceKey → Trace → TraceKey × (String × ℕ)
  unfolding reset scan_fields write_fields write_root write_length
  build k t =
      let d = scan_fields k.fields 0 t.spans (reset k.fields max_key_length k.distinct_value) in
      let (a, n) = write_fields d 0 k.fields in
      let (b, m) = write_root (root_of t) k.root_only_fields in
      let (c, l) = write_length k.use_trace_length (length t.spans) in
      (record k { distinct_value = d }, (joined a (joined b c), n + m + l))
