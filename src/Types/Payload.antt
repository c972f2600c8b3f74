-- ===== src/Types/Payload.antt =====
-- types/payload.go: a payload is a conceptual map from field names to values. It holds metadata
-- fields on the side, serialized MessagePack data, and the fields deserialized or set so far.
-- The decoder is outside the model: `entries` is what iterating over the data yields, key by key,
-- with `none` for a value that fails to decode, and `none` for data whose header does not parse.
pub mod Fields
pub mod Memo
pub mod Seen
pub mod Transparent
use Prim.Native.String.{len}
use refinery.Base.{
  ℕ, zero, suc, ◌+◌, Bool, true, false, Option, none, some, String, List, [], ◌∷◌, ◌++◌, ltb,
  if◌then◌else◌, String_discrete, ite, not, length, ◌||◌,
}
use refinery.Base.Int.{ℤ, pos, negsuc}
use refinery.GoMap.{get, set, keys, is_some}
use refinery.Types.Value.{
  Value, nil, bool, int64, int, float64, str, bytes, slice, fields, get_byte_size,
}

pub data FieldType : Type 0 where
  string_type bool_type int64_type : FieldType

-- The keys of `metadataFields`, with the type each expects.
unfoldable pub metadata_fields : List (String × FieldType)
metadata_fields =
    ("meta.signal_type", string_type)
    ∷ ("meta.trace_id", string_type)
    ∷ ("meta.annotation_type", string_type)
    ∷ ("meta.refinery.probe", bool_type)
    ∷ ("meta.refinery.root", bool_type)
    ∷ ("meta.refinery.incoming_user_agent", string_type)
    ∷ ("meta.refinery.local_hostname", string_type)
    ∷ ("meta.stressed", bool_type)
    ∷ ("meta.refinery.reason", string_type)
    ∷ ("meta.refinery.send_reason", string_type)
    ∷ ("meta.span_event_count", int64_type)
    ∷ ("meta.span_link_count", int64_type)
    ∷ ("meta.span_count", int64_type)
    ∷ ("meta.event_count", int64_type)
    ∷ ("meta.refinery.original_sample_rate", int64_type)
    ∷ ("meta.refinery.final_sample_rate", int64_type)
    ∷ ("meta.refinery.sample_key", string_type)
    ∷ []

unfoldable pub meta_type : String → Option FieldType
unfolding metadata_fields
meta_type key = get String_discrete key metadata_fields

-- The dedicated fields by name; one that is not in the list has its zero value.
pub record Payload : Type 0 where
  pub entries : Option (List (String × Option Value))
  pub data_len : ℕ  -- the length of the serialized data
  pub memoized : List (String × Value)
  pub missing : List String
  pub metadata : List (String × Value)

abbrev pub empty_payload : Payload
empty_payload = record {
  entries = some [];
  data_len = 0;
  memoized = [];
  missing = [];
  metadata = [];
}

-- `set` of `stringField`, `boolField` and `int64Field`: a value of another type is ignored.
unfoldable pub meta_accepts : FieldType → Value → Bool
meta_accepts string_type (str s) = true
meta_accepts bool_type (bool b) = true
meta_accepts int64_type (int64 n) = true
meta_accepts _ _ = false

-- `get` and `exist` of those: an empty text or a zero number counts as absent, a boolean is
-- nullable.
is_present : Value → Bool
is_present (str String.[]) = false
is_present (int64 (pos zero)) = false
is_present _ = true

nonzero : Option Value → Option Value
nonzero none = none
nonzero (some v) = if is_present v then some v else none

unfoldable pub meta_get : Payload → String → Option Value
unfolding nonzero is_present
meta_get p key = nonzero (get String_discrete key p.metadata)

set_typed : Payload → String → Value → Option FieldType → Payload
unfolding meta_accepts
set_typed p key value (some t) =
    if meta_accepts t value
    then record p { metadata = set String_discrete key value p.metadata }
    else p
set_typed p key value none = record p { memoized = set String_discrete key value p.memoized }

-- `Payload.Set`
unfoldable pub put : Payload → String → Value → Payload
unfolding set_typed
put p key value = set_typed p key value (meta_type key)

unfoldable pub mentions : List String → String → Bool
mentions [] key = false
mentions (k ∷ ks) key = is_some (get String_discrete key ((k, true) ∷ [])) || mentions ks key

-- the loop over the serialized data in `Get`: the first entry with the key decides
unfoldable pub find_entry : String → List (String × Option Value) → Option (Option Value)
find_entry key es = get String_discrete key es

unfoldable pub entries_or : Option (List (String × Option Value)) → List (String × Option Value)
entries_or none = []
entries_or (some es) = es

unfoldable pub entries_of : Payload → List (String × Option Value)
unfolding entries_or
entries_of p = entries_or p.entries

value_or_nil : Option (Option Value) → Value
value_or_nil none = nil
value_or_nil (some none) = nil
value_or_nil (some (some v)) = v

meta_value : Option Value → Value
meta_value none = nil
meta_value (some v) = v

read_rest : Payload → String → Option Value → Value
unfolding find_entry entries_of value_or_nil mentions
read_rest p key (some v) = v
read_rest p key none =
    if mentions p.missing key then nil else value_or_nil (find_entry key (entries_of p))

read_typed : Payload → String → Option FieldType → Value
unfolding read_rest meta_get meta_value
read_typed p key (some t) = meta_value (meta_get p key)
read_typed p key none = read_rest p key (get String_discrete key p.memoized)

-- `Payload.Get`
unfoldable pub read : Payload → String → Value
unfolding read_typed
read p key = read_typed p key (meta_type key)

exists_rest : Payload → String → Option Value → Bool
unfolding find_entry entries_of mentions
exists_rest p key (some v) = true
exists_rest p key none =
    if mentions p.missing key then false else is_some (find_entry key (entries_of p))

exists_typed : Payload → String → Option FieldType → Bool
unfolding exists_rest meta_get
exists_typed p key (some t) = is_some (meta_get p key)
exists_typed p key none = exists_rest p key (get String_discrete key p.memoized)

-- `Payload.Exists`
unfoldable pub exists : Payload → String → Bool
unfolding exists_typed
exists p key = exists_typed p key (meta_type key)

-- the keys to look for in `MemoizeFields`
unfoldable pub keys_to_find : Payload → List String → List (String × Unit {0})
unfolding mentions
keys_to_find p [] = []
keys_to_find p (k ∷ ks) =
    let rest = keys_to_find p ks in
    if mentions p.missing k || is_some (get String_discrete k p.memoized)
    then rest
    else set String_discrete k tt rest

-- the loop over the serialized data in `MemoizeFields`, with the count of keys still to be found
unfoldable pub memoize_scan :
    List (String × Unit {0}) → ℕ → List (String × Option Value) → Payload → Payload
memoize_scan find n [] p = p
memoize_scan find zero (e ∷ es) p = p
memoize_scan find (suc n) ((k, v) ∷ es) p =
    let skip = memoize_scan find (suc n) es p in
    if is_some (get String_discrete k find)
    then elim v [ none ↦ p | some x ↦ memoize_scan find n es (put p k x) ]
    else skip

-- the last loop of `MemoizeFields`
unfoldable pub note_missing : List String → Payload → Payload
note_missing [] p = p
note_missing (k ∷ ks) p = note_missing ks (
    if is_some (get String_discrete k p.memoized)
    then p
    else record p { missing = p.missing ++ k ∷ [] })

unfoldable pub memoize_found :
    Option (List (String × Option Value)) → List (String × Unit {0}) → Payload → Payload
unfolding memoize_scan note_missing
memoize_found es [] p = p
memoize_found none (f ∷ find) p = p
memoize_found (some es) (f ∷ find) p =
    note_missing (keys (f ∷ find)) (memoize_scan (f ∷ find) (length (f ∷ find)) es p)

-- `Payload.MemoizeFields`
unfoldable pub memoize_fields : Payload → List String → Payload
unfolding memoize_found keys_to_find
memoize_fields p ks = memoize_found p.entries (keys_to_find p ks) p

size_memoized : List (String × Value) → ℕ
unfolding get_byte_size
size_memoized [] = 0
size_memoized ((k, v) ∷ m) = len k + get_byte_size v + size_memoized m

-- `Payload.GetDataSize`
unfoldable pub get_data_size : Payload → ℕ
unfolding size_memoized
get_data_size p = p.data_len + size_memoized p.memoized
