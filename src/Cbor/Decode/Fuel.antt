-- ===== src/Cbor/Decode/Fuel.antt =====
-- Fuel for the decoder, by the value that is read.
use libstappler_common.Common.{ℕ, suc, ◌+◌, ◌<◌, arith}
use libstappler_common.Cbor.Value.{Value, Items, Fields}

-- Fuel that is enough for a value, for the elements and for the fields.
unfoldable mutual
  pub need : Value → ℕ
  need (Value.array vs) = suc (need_items vs)
  need (Value.dictionary fs) = suc (need_fields fs)
  need v = 1

  pub need_items : Items → ℕ
  need_items Items.nil = 1
  need_items (Items.cons v vs) = suc (need v + need_items vs)

  pub need_fields : Fields → ℕ
  need_fields Fields.end = 1
  need_fields (Fields.field k v fs) = 2 + (need v + need_fields fs)

pub need-positive : (v : Value) → 0 < need v
unfolding need
need-positive Value.empty = omega arith
need-positive (Value.integer i) = omega arith
need-positive (Value.double d) = omega arith
need-positive (Value.boolean b) = omega arith
need-positive (Value.charstring s) = omega arith
need-positive (Value.bytestring s) = omega arith
need-positive (Value.array vs) = omega arith
need-positive (Value.dictionary fs) = omega arith

pub need_items-positive : (vs : Items) → 0 < need_items vs
unfolding need_items
need_items-positive Items.nil = omega arith
need_items-positive (Items.cons v vs) = omega arith

pub need_fields-positive : (fs : Fields) → 0 < need_fields fs
unfolding need_fields
need_fields-positive Fields.end = omega arith
need_fields-positive (Fields.field k v fs) = omega arith
