-- ===== src/Types/Value.antt =====
-- types/payload.go: the dynamic values (`any`) that an event's fields hold, and the estimate of
-- their size. A float is its IEEE 754 bit pattern; its order is a parameter where it is used.
use Prim.Native.String.{len}
use refinery.Base.{ℕ, ◌+◌, Bool, String}
use refinery.Base.Int.{ℤ}

mutual
  pub data Value : Type 0 where
    nil : Value
    bool : Bool → Value
    int64 : ℤ → Value
    int : ℤ → Value
    uint : ℕ → Value
    float64 : ℕ → Value
    str : String → Value
    bytes : ℕ → Value  -- a byte slice, by its length
    slice : Items → Value
    fields : Fields → Value

  pub data Items : Type 0 where
    none : Items
    item : Value → Items → Items

  pub data Fields : Type 0 where
    empty : Fields
    field : String → Value → Fields → Fields

-- `getByteSize`
unfoldable mutual
  pub get_byte_size : Value → ℕ
  get_byte_size nil = 8
  get_byte_size (bool b) = 1
  get_byte_size (int64 n) = 8
  get_byte_size (int n) = 8
  get_byte_size (uint n) = 8
  get_byte_size (float64 n) = 8
  get_byte_size (str s) = len s
  get_byte_size (bytes n) = n
  get_byte_size (slice vs) = size_items vs
  get_byte_size (fields fs) = size_fields fs

  pub size_items : Items → ℕ
  size_items none = 0
  size_items (item v vs) = get_byte_size v + size_items vs

  pub size_fields : Fields → ℕ
  size_fields empty = 0
  size_fields (field k v fs) = len k + get_byte_size v + size_fields fs
