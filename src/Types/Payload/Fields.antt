-- ===== src/Types/Payload/Fields.antt =====
-- types/payload.go: reading a field after setting one.
use refinery.Base.{◌≡◌, refl, ◌≢◌, true, Option, none, some, String, String_discrete}
use refinery.GoMap.{set, get-set_self, get-set_ne}
use refinery.Types.Value.{Value}
use refinery.Types.Payload.{
  Payload, FieldType, put, read, exists, read_typed, exists_typed, meta_type,
}

-- The payload after an ordinary field was set.
abbrev pub with_field : Payload → String → Value → Payload
with_field p k v = record p { memoized = set String_discrete k v p.memoized }

pub put-plain :
    (p : Payload) (k : String) (v : Value) → meta_type k ≡ none → put p k v ≡ with_field p k v
unfolding put
put-plain p k v plain = rw plain refl

read_typed_ne :
    (p : Payload) (k j : String) (v : Value) (t : Option FieldType)
    → j ≢ k
    → (read_typed (with_field p k v) j t ≡ read_typed p j t)
      × (exists_typed (with_field p k v) j t ≡ exists_typed p j t)
unfolding read exists
read_typed_ne p k j v none h = (
  rw (get-set_ne String_discrete j k v p.memoized h) refl,
  rw (get-set_ne String_discrete j k v p.memoized h) refl,
)
read_typed_ne p k j v (some t) h = (refl, refl)

-- A field that is not metadata reads as it was last set, whatever its value, and then exists;
-- every other field, metadata included, reads and exists as before.
pub read-put :
    (p : Payload) (k j : String) (v : Value)
    → meta_type k ≡ none
    → j ≢ k
    → (read (put p k v) k ≡ v)
      × (exists (put p k v) k ≡ true)
      × (read (put p k v) j ≡ read p j)
      × (exists (put p k v) j ≡ exists p j)
unfolding read exists
read-put p k j v plain h = rw (put-plain p k v plain) (
  rw (plain, get-set_self String_discrete k v p.memoized) refl,
  rw (plain, get-set_self String_discrete k v p.memoized) refl,
  (read_typed_ne p k j v (meta_type j) h).0,
  (read_typed_ne p k j v (meta_type j) h).1,
)
