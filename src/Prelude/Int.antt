-- ===== src/Prelude/Int.antt =====
-- Signed integers over the native numbers, and the two readings of a 32-bit word.
use Prim.Native.Nat.{ℕ, ◌-◌, ◌%◌, ◌^◌, ◌<◌, compare, Ordering}
use mathlib.Core.Path.{◌≡◌}
use mathlib.Core.Bool.{Bool, true, false}
use native.Mathlib.Omega.{arith}

-- `negsuc n` is -(n + 1).
pub data ℤ : Type 0 where
  pos : ℕ → ℤ
  negsuc : ℕ → ℤ

abbrev pub ltb : ℕ → ℕ → Bool
ltb a b = elim (compare a b) [ Ordering.lt ↦ true | _ ↦ false ]

abbrev pub leb : ℕ → ℕ → Bool
leb a b = elim (compare a b) [ Ordering.gt ↦ false | _ ↦ true ]

abbrev pub u32_mod : ℕ
u32_mod = 2 ^ 32

-- The range of int32_t.
abbrev pub IsInt32 : ℤ → Type 0
IsInt32 (pos n) = n < 2 ^ 31
IsInt32 (negsuc n) = n < 2 ^ 31

abbrev pub IsUint32 : ℕ → Type 0
IsUint32 n = n < 2 ^ 32

-- static_cast<int32_t>, of a value below 2 ^ 32.
abbrev pub to_int32 : ℕ → ℤ
to_int32 n = elim (ltb n (2 ^ 31)) [ true ↦ pos n | false ↦ negsuc (2 ^ 32 - 1 - n) ]

-- static_cast<uint32_t>, of a value in the range of int32_t.
abbrev pub to_uint32 : ℤ → ℕ
to_uint32 (pos n) = n % u32_mod
to_uint32 (negsuc n) = u32_mod - 1 - n % u32_mod

pub to_uint32-to_int32 : (n : ℕ) → IsUint32 n → to_uint32 (to_int32 n) ≡ n
to_uint32-to_int32 n h = ground arith

pub to_int32-to_uint32 : (z : ℤ) → IsInt32 z → to_int32 (to_uint32 z) ≡ z
to_int32-to_uint32 (pos n) h = ground arith
to_int32-to_uint32 (negsuc n) h = ground arith

pub to_int32-IsInt32 : (n : ℕ) → IsUint32 n → IsInt32 (to_int32 n)
to_int32-IsInt32 n h = ground arith

pub to_uint32-IsUint32 : (z : ℤ) → IsUint32 (to_uint32 z)
to_uint32-IsUint32 (pos n) = omega arith
to_uint32-IsUint32 (negsuc n) = omega arith

abbrev pub nat_eq : ℕ → ℕ → Bool
nat_eq a b = elim (compare a b) [ Ordering.eq ↦ true | _ ↦ false ]
