-- ===== src/Common/Int.antt =====
-- Signed integers over the native numbers, their order, and the one that a 64-bit pattern stands for.
use Prim.Native.Nat.{ℕ, ◌-◌, ◌^◌}
use mathlib.Core.Path.{◌≡◌}
use mathlib.Core.Bool.{Bool, true, false, not}
use native.Mathlib.Omega.{arith}
use libstappler_common.Common.Tests.{ltb, if◌then◌else◌}

-- `negsuc n` is -(n + 1).
pub data ℤ : Type 0 where
  pos : ℕ → ℤ
  negsuc : ℕ → ℤ

-- `(int64_t)` of a `uint64_t`.
abbrev pub signed64 : ℕ → ℤ
signed64 w = if ltb w (2 ^ 63) then pos w else negsuc (2 ^ 64 - w - 1)

abbrev pub ltb_ℤ : ℤ → ℤ → Bool
ltb_ℤ (pos a) (pos b) = ltb a b
ltb_ℤ (pos a) (negsuc b) = false
ltb_ℤ (negsuc a) (pos b) = true
ltb_ℤ (negsuc a) (negsuc b) = ltb b a

abbrev pub leb_ℤ : ℤ → ℤ → Bool
leb_ℤ a b = not (ltb_ℤ b a)

pub leb_ℤ_trans : (a b c : ℤ) → leb_ℤ a b ≡ true → leb_ℤ b c ≡ true → leb_ℤ a c ≡ true
leb_ℤ_trans (pos a) (pos b) (pos c) h k = ground arith
leb_ℤ_trans (pos a) (pos b) (negsuc c) h k = ground arith
leb_ℤ_trans (pos a) (negsuc b) c h k = ground arith
leb_ℤ_trans (negsuc a) (pos b) (pos c) h k = ground arith
leb_ℤ_trans (negsuc a) (pos b) (negsuc c) h k = ground arith
leb_ℤ_trans (negsuc a) (negsuc b) (pos c) h k = ground arith
leb_ℤ_trans (negsuc a) (negsuc b) (negsuc c) h k = ground arith

pub leb_ℤ_of_ltb : (a b : ℤ) → ltb_ℤ a b ≡ true → leb_ℤ a b ≡ true
leb_ℤ_of_ltb (pos a) (pos b) h = ground arith
leb_ℤ_of_ltb (pos a) (negsuc b) h = ground arith
leb_ℤ_of_ltb (negsuc a) (pos b) h = ground arith
leb_ℤ_of_ltb (negsuc a) (negsuc b) h = ground arith

pub ltb_ℤ-leb_trans : (a b c : ℤ) → leb_ℤ a b ≡ true → ltb_ℤ b c ≡ true → ltb_ℤ a c ≡ true
ltb_ℤ-leb_trans (pos a) (pos b) (pos c) h k = ground arith
ltb_ℤ-leb_trans (pos a) (pos b) (negsuc c) h k = ground arith
ltb_ℤ-leb_trans (pos a) (negsuc b) c h k = ground arith
ltb_ℤ-leb_trans (negsuc a) (pos b) (pos c) h k = ground arith
ltb_ℤ-leb_trans (negsuc a) (pos b) (negsuc c) h k = ground arith
ltb_ℤ-leb_trans (negsuc a) (negsuc b) (pos c) h k = ground arith
ltb_ℤ-leb_trans (negsuc a) (negsuc b) (negsuc c) h k = ground arith
