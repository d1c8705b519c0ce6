-- ===== src/Prelude/Int.antt =====
-- Go's signed integers, over the native numbers. Wrap-around at 64 bits is written
-- out in Retry.Config, where the code multiplies what the environment gives.
use Prim.Native.Nat.{ℕ, zero, suc, ◌+◌, ◌*◌}
use mathlib.Core.Bool.{Bool, ◌&&◌}
use qcc_plus.Prelude.Tests.{leb, ltb}

-- `negsuc n` is -(n + 1).
pub data ℤ : Type 0 where
  pos : ℕ → ℤ
  negsuc : ℕ → ℤ

abbrev pub pos_part : ℤ → ℕ
pos_part (pos n) = n
pos_part (negsuc n) = 0

abbrev pub neg_part : ℤ → ℕ
neg_part (pos n) = 0
neg_part (negsuc n) = suc n

abbrev pub leb_ℤ : ℤ → ℤ → Bool
leb_ℤ a b = leb (pos_part a + neg_part b) (pos_part b + neg_part a)

abbrev pub ltb_ℤ : ℤ → ℤ → Bool
ltb_ℤ a b = ltb (pos_part a + neg_part b) (pos_part b + neg_part a)

abbrev pub eq_ℤ : ℤ → ℤ → Bool
eq_ℤ a b = leb_ℤ a b && leb_ℤ b a

-- `pos m` minus `pos n`.
abbrev sub_ℕ : ℕ → ℕ → ℤ
sub_ℕ m zero = pos m
sub_ℕ zero (suc n) = negsuc n
sub_ℕ (suc m) (suc n) = sub_ℕ m n

infix 60 ◌+ℤ◌
abbrev pub ◌+ℤ◌ : ℤ → ℤ → ℤ
pos m +ℤ pos n = pos (m + n)
pos m +ℤ negsuc n = sub_ℕ m (suc n)
negsuc m +ℤ pos n = sub_ℕ n (suc m)
negsuc m +ℤ negsuc n = negsuc (suc (m + n))

-- Instants and durations are counted in nanoseconds.
abbrev pub second : ℕ
second = 1_000_000_000

-- `now.Sub(t) >= time.Duration(d) * time.Second`
abbrev pub has_elapsed : ℕ → ℤ → ℕ → Bool
has_elapsed t d now = leb (t + pos_part d * second) (now + neg_part d * second)

-- `!t.Before(now.Add(-time.Duration(w) * time.Second))`
abbrev pub is_within : ℤ → ℕ → ℕ → Bool
is_within w now t = leb (now + neg_part w * second) (t + pos_part w * second)
