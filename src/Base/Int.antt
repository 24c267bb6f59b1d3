-- ===== src/Base/Int.antt =====
-- Signed integers over the native numbers, for amounts that a client sends and for net results.
use Prim.Native.Nat.{ℕ, suc, ◌+◌, ◌-◌, ◌*◌, ◌/◌, ◌%◌, ◌≤◌}
use mathlib.Core.Path.{◌≡◌, refl}
use mathlib.Core.Bool.{Bool, false}
use native.Mathlib.Omega.{arith}
use showdown.Base.Tests.{ltb, leb, ◌==◌, if◌then◌else◌}

-- `negsuc n` is -(n + 1).
pub data ℤ : Type 0 where
  pos : ℕ → ℤ
  negsuc : ℕ → ℤ

abbrev pub pos_part : ℤ → ℕ
pos_part (pos n) = n
pos_part (negsuc n) = 0

abbrev pub neg_part : ℤ → ℕ
neg_part (pos n) = 0
neg_part (negsuc n) = suc n

-- a - b, as an integer.
abbrev pub sub_ℕ : ℕ → ℕ → ℤ
sub_ℕ a b = if leb b a then pos (a - b) else negsuc (b - a - 1)

abbrev pub ltb_ℤ : ℤ → ℤ → Bool
ltb_ℤ a b = ltb (pos_part a + neg_part b) (pos_part b + neg_part a)

abbrev pub leb_ℤ : ℤ → ℤ → Bool
leb_ℤ a b = leb (pos_part a + neg_part b) (pos_part b + neg_part a)

abbrev pub is_zero_ℤ : ℤ → Bool
is_zero_ℤ (pos n) = n == 0
is_zero_ℤ (negsuc n) = false

-- An integer between two natural numbers.
abbrev pub Within : ℕ → ℤ → ℕ → Type 0
Within lo x hi = (n : ℕ) × (x ≡ pos n) × (lo ≤ n) × (n ≤ hi)

pub Within-range :
    (lo hi : ℕ) (x : ℤ) → ltb_ℤ x (pos lo) ≡ false → ltb_ℤ (pos hi) x ≡ false → Within lo x hi
Within-range lo hi (pos n) h k = (n, refl, ground (arith, h), ground (arith, k))
Within-range lo hi (negsuc n) h k = absurd (ground (arith, h))

abbrev pub add_ℤ : ℤ → ℤ → ℤ
add_ℤ a b = sub_ℕ (pos_part a + pos_part b) (neg_part a + neg_part b)

abbrev pub mul_ℤ : ℤ → ℤ → ℤ
mul_ℤ a b =
    sub_ℕ (pos_part a * pos_part b + neg_part a * neg_part b)
      (pos_part a * neg_part b + neg_part a * pos_part b)

-- Division by a positive number, which rounds towards zero.
abbrev pub quot_ℤ : ℤ → ℕ → ℤ
quot_ℤ (pos n) d = pos (n / d)
quot_ℤ (negsuc n) d = sub_ℕ 0 (suc n / d)

-- An integer as the int64 with the same bits: two's complement.
abbrev pub wrap_int64 : ℤ → ℤ
wrap_int64 (pos n) =
    let r = n % 18_446_744_073_709_551_616 in
    if ltb r 9_223_372_036_854_775_808 then pos r else negsuc (18_446_744_073_709_551_615 - r)
wrap_int64 (negsuc n) =
    let r = n % 18_446_744_073_709_551_616 in
    if ltb r 9_223_372_036_854_775_808 then negsuc r else pos (18_446_744_073_709_551_615 - r)
