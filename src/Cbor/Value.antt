-- ===== src/Cbor/Value.antt =====
-- `ValueTemplate` of modules/data/SPDataValue.h: its type tag and the payload of each type.
use libstappler_common.Common.{ℕ, Bool, List, suc}
use libstappler_common.Common.Int.{ℤ}

mutual
  -- `Type`, with the payload that the union holds; a double is its 64-bit pattern.
  pub data Value : Type 0 where
    empty : Value
    integer : ℤ → Value
    double : ℕ → Value
    boolean : Bool → Value
    charstring : List ℕ → Value
    bytestring : List ℕ → Value
    array : Items → Value
    dictionary : Fields → Value

  -- `ArrayType`
  pub data Items : Type 0 where
    nil : Items
    cons : Value → Items → Items

  -- `DictionaryType`, in the container's order.
  pub data Fields : Type 0 where
    end : Fields
    field : List ℕ → Value → Fields → Fields

abbrev pub count : Items → ℕ
count nil = 0
count (cons v vs) = suc (count vs)

abbrev pub size : Fields → ℕ
size end = 0
size (field k v fs) = suc (size fs)
