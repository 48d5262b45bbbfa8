-- ===== src/Prelude/Int.antt =====
-- Go's `int`: an integer, and its conversions to unsigned words.
use Prim.Native.Nat.{ℕ, suc, ◌-◌, ◌+◌, ◌%◌, ◌≤◌, compare, Ordering}
use mathlib.Core.Bool.{Bool, true, false}

-- `negsuc n` is -(n + 1).
pub data ℤ : Type 0 where
  pos : ℕ → ℤ
  negsuc : ℕ → ℤ

-- `uint16(x)` and `uint32(x)` keep the low bits of the two's complement.
abbrev pub to_u16 : ℤ → ℕ
to_u16 (pos n) = n % 65536
to_u16 (negsuc n) = 65535 - n % 65536

abbrev pub to_u32 : ℤ → ℕ
to_u32 (pos n) = n % 4294967296
to_u32 (negsuc n) = 4294967295 - n % 4294967296

-- `x < 0` and `x == 0`.
abbrev pub is_neg : ℤ → Bool
is_neg (pos n) = false
is_neg (negsuc n) = true

abbrev pub is_zero : ℤ → Bool
is_zero (pos n) = elim (compare 0 n) [ Ordering.eq ↦ true | _ ↦ false ]
is_zero (negsuc n) = false

-- `x > y`, and `x` as a number of rounds: a loop `i < x` makes none for a negative `x`.
abbrev pub pos_part : ℤ → ℕ
pos_part (pos n) = n
pos_part (negsuc n) = 0

abbrev pub neg_part : ℤ → ℕ
neg_part (pos n) = 0
neg_part (negsuc n) = suc n

abbrev pub gtb : ℤ → ℤ → Bool
gtb x y = elim (compare (pos_part y + neg_part x) (pos_part x + neg_part y)) [
  | Ordering.lt ↦ true
  | _ ↦ false
]

infix 50 ◌≤ℤ◌
abbrev pub ◌≤ℤ◌ : ℤ → ℤ → Type 0
x ≤ℤ y = pos_part x + neg_part y ≤ pos_part y + neg_part x
