-- ===== src/Paper/Cbor.antt =====
-- packages/paper/src/cbor.ts: the values that are encoded and decoded, the limits and the errors.
pub mod Encode
pub mod Decode
pub mod Heads
pub mod Order
pub mod Strings
pub mod Canonical
pub mod Readback
pub mod Encoded
pub mod RoundTrip
pub mod Sorting
pub mod Determinism
pub mod PrefixFree
use credaryn.Base.{
  ℕ, zero, suc, ◌+◌, ◌-◌, ◌*◌, ◌/◌, ◌%◌, ◌^◌, ◌≤◌, ◌<◌, String, ◌≡◌, refl, sym, ap, ◌∙◌, subst, ◌≢◌,
  ◌↔◌, ◌⊎◌, inl, inr, Bool, true, false, not, ◌&&◌, ◌||◌, Option, none, some, List, [], ◌∷◌, ◌++◌,
  map, append_assoc, append-nil, arith, ltb, leb, ◌==◌, if◌then◌else◌, ltb→lt, lt→ltb, ltb_false→le,
  le→ltb_false, ==_iff, Bool-cases, Option-cases, length, take, drop, replicate, length-append,
  take-append, drop-append, take-append-drop, length-take, length-drop, length-replicate, all, All,
  All-append, All-take, All-drop, Result, ok, err, ◌>>=◌, ◌>>◌, refuse_if, Result-cases, >>=-eq-ok,
  ℤ, pos, negsuc, max_safe_integer, is_safe_integer, sub_ℕ, is_negative, is_zero, is_positive,
}
use credaryn.Base.Text.{
  Text, Bytes, IsByte, codes, list_eq, list_eq→eq, list_eq_refl, list_eq_iff, starts_with, is_space,
  trim, is_blank,
}
use credaryn.Base.Utf8.{utf8_encode, utf8_decode}

-- The JavaScript values that the encoder tells apart. `fraction` is a number that is no integer,
-- `mapping` a `Map`, `object` a plain object, `unsupported` anything else.
mutual
  pub data Value : Type 0 where
    bool : Bool → Value
    num : ℤ → Value
    fraction : Value
    text : Text → Value
    bytes : Bytes → Value
    array : Items → Value
    mapping : Entries → Value
    object : Fields → Value
    unsupported : Value

  pub data Items : Type 0 where
    nil : Items
    cons : Value → Items → Items

  pub data Entries : Type 0 where
    end : Entries
    entry : Value → Value → Entries → Entries

  pub data Fields : Type 0 where
    done : Fields
    field : Text → Value → Fields → Fields

abbrev pub count_items : Items → ℕ
count_items nil = 0
count_items (cons v vs) = suc (count_items vs)

abbrev pub count_entries : Entries → ℕ
count_entries end = 0
count_entries (entry k v es) = suc (count_entries es)

abbrev pub count_fields : Fields → ℕ
count_fields done = 0
count_fields (field k v fs) = suc (count_fields fs)

abbrev pub max_cbor_bytes : ℕ
max_cbor_bytes = 4096

abbrev pub max_cbor_depth : ℕ
max_cbor_depth = 16

abbrev pub max_cbor_items : ℕ
max_cbor_items = 256

-- The messages of `CborEncodeError`.
pub data EncodeError : Type 0 where
  depth_exceeded array_too_long map_too_long unsupported_value : EncodeError
  unsafe_integer length_out_of_range duplicate_keys : EncodeError

-- The messages of `CborDecodeError`; `key_refused` is the encoder's error, which passes through.
pub data DecodeError : Type 0 where
  input_too_long trailing_bytes depth_exceeded indefinite_length invalid_text : DecodeError
  duplicate_keys tags_unsupported simple_unsupported unsupported_major : DecodeError
  invalid_length truncated_length non_canonical_length unsafe_length : DecodeError
  collection_too_long too_many_items truncated_value truncated_input : DecodeError
  key_refused : EncodeError → DecodeError
