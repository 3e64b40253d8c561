-- ===== src/Prelude/Int.antt =====
-- Go's `int` on a 64-bit machine: integers, with the wrap-around of its arithmetic written out.
use Prim.Native.Nat.{ℕ, suc, ◌+◌, ◌-◌, ◌*◌, ◌%◌, ◌^◌, ◌≤◌, ◌<◌}
use mathlib.Core.Bool.{Bool}
use native.Mathlib.Omega.{arith}
use go_svc_extn.Prelude.Tests.{ltb, leb, if◌then◌else◌}

-- `negsuc n` is -(n + 1).
pub data ℤ : Type 0 where
  pos : ℕ → ℤ
  negsuc : ℕ → ℤ

abbrev pub pos_part : ℤ → ℕ
pos_part (pos n) = n
pos_part (negsuc n) = 0

abbrev pub neg_part : ℤ → ℕ
neg_part (pos n) = 0
neg_part (negsuc n) = suc n

-- The representatives of int64.
abbrev pub IsInt64 : ℤ → Type 0
IsInt64 z = (pos_part z < 2 ^ 63) × (neg_part z ≤ 2 ^ 63)

-- The word of 64 bits that is `a - b`, read as a signed integer.
abbrev pub signed : ℕ → ℤ
signed w = if ltb w (2 ^ 63) then pos w else negsuc (2 ^ 64 - 1 - w)

abbrev pub wrap_sub : ℕ → ℕ → ℤ
wrap_sub a b = signed ((a + (2 ^ 64 - b % 2 ^ 64)) % 2 ^ 64)

infixl 65 ◌+ℤ◌ ◌-ℤ◌
infixl 70 ◌*ℤ◌
-- `a + b`, `a - b` and `a * b` on `int`.
unfoldable pub ◌+ℤ◌ : ℤ → ℤ → ℤ
a +ℤ b = wrap_sub (pos_part a + pos_part b) (neg_part a + neg_part b)

unfoldable pub ◌-ℤ◌ : ℤ → ℤ → ℤ
a -ℤ b = wrap_sub (pos_part a + neg_part b) (neg_part a + pos_part b)

unfoldable pub ◌*ℤ◌ : ℤ → ℤ → ℤ
a *ℤ b =
    wrap_sub (pos_part a * pos_part b + neg_part a * neg_part b)
      (pos_part a * neg_part b + neg_part a * pos_part b)

-- `a < b`
abbrev pub ltb_ℤ : ℤ → ℤ → Bool
ltb_ℤ a b = ltb (pos_part a + neg_part b) (pos_part b + neg_part a)

-- `a <= b`
abbrev pub leb_ℤ : ℤ → ℤ → Bool
leb_ℤ a b = leb (pos_part a + neg_part b) (pos_part b + neg_part a)

pub signed-IsInt64 : (w : ℕ) → w < 2 ^ 64 → IsInt64 (signed w)
signed-IsInt64 w h = ground arith

-- Sums stay in the range of the type.
pub +ℤ-IsInt64 : (a b : ℤ) → IsInt64 (a +ℤ b)
unfolding ◌+ℤ◌
+ℤ-IsInt64 a b =
    signed-IsInt64
      ((pos_part a + pos_part b + (2 ^ 64 - (neg_part a + neg_part b) % 2 ^ 64)) % 2 ^ 64)
      (omega arith)
