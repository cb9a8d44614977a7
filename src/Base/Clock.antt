-- ===== src/Base/Clock.antt =====
-- Go's `time`: instants and durations.
-- A `Time` counts nanoseconds from the earliest instant that the 64-bit seconds of a `time.Time`
-- can hold, so that its order is that of the numbers and the zero time, January 1 of year 1, stands
-- in the middle. A `Duration` is a signed 64-bit number of nanoseconds.
use Prim.Native.Nat.{ℕ, suc, ◌+◌, ◌-◌, ◌*◌, ◌/◌, ◌%◌, ◌^◌}
use mathlib.Core.Path.{◌≡◌, refl}
use mathlib.Core.Bool.{Bool}
use nk.Base.Tests.{leb, ltb, if◌then◌else◌}

pub data ℤ : Type 0 where
  pos : ℕ → ℤ
  negsuc : ℕ → ℤ

abbrev pub pos_part : ℤ → ℕ
pos_part (pos n) = n
pos_part (negsuc n) = 0

abbrev pub neg_part : ℤ → ℕ
neg_part (pos n) = 0
neg_part (negsuc n) = suc n

-- a - b, as an integer.
abbrev pub sub_ℕ : ℕ → ℕ → ℤ
sub_ℕ a b = if leb b a then pos (a - b) else negsuc (b - a - 1)

abbrev pub leb_ℤ : ℤ → ℤ → Bool
leb_ℤ a b = leb (pos_part a + neg_part b) (pos_part b + neg_part a)

abbrev pub ltb_ℤ : ℤ → ℤ → Bool
ltb_ℤ a b = ltb (pos_part a + neg_part b) (pos_part b + neg_part a)

abbrev pub Duration : Type 0
Duration = ℤ

abbrev pub Time : Type 0
Time = ℕ

abbrev pub second : ℕ
second = 1_000_000_000

abbrev pub minute : ℕ
minute = 60 * second

-- 1 << 63
abbrev pub sign_bit : ℕ
sign_bit = 2 ^ 63

abbrev pub zero_time : Time
zero_time = sign_bit * second

-- Seconds from year 1 to 1970, the constant of Go's `time` package.
abbrev pub unix_to_internal : ℕ
unix_to_internal = 62_135_596_800

-- `time.Unix(sec, 0)` for `0 <= sec`. The addition is one of int64, so it wraps around.
unfoldable pub unix : ℕ → Time
unix sec = (sec + unix_to_internal + sign_bit) % 2 ^ 64 * second

-- `Duration` saturates: the difference of instants is held to the range of int64.
unfoldable pub saturate : ℤ → Duration
saturate (pos n) = if ltb n sign_bit then pos n else pos (sign_bit - 1)
saturate (negsuc n) = if ltb n sign_bit then negsuc n else negsuc (sign_bit - 1)

-- t.Sub(u); `time.Until(t)` is `sub t now`, and `time.Since(t)` is `sub now t`.
unfoldable pub sub : Time → Time → Duration
unfolding saturate
sub t u = saturate (sub_ℕ t u)

-- A non-negative number held in 64 bits and read with its sign.
unfoldable pub int64 : ℕ → ℤ
int64 n = if ltb (n % 2 ^ 64) sign_bit then pos (n % 2 ^ 64) else negsuc (2 ^ 64 - n % 2 ^ 64 - 1)

-- t.Add(d), for an instant of a clock, which is far from both ends of the range.
unfoldable pub add : Time → Duration → Time
add t (pos n) = t + n
add t (negsuc n) = t - suc n

-- d / 2, which rounds towards zero.
unfoldable pub half : Duration → Duration
half (pos n) = pos (n / 2)
half (negsuc n) = sub_ℕ 0 (suc n / 2)

unix_epoch : unix 0 ≡ zero_time + unix_to_internal * second
unfolding unix
unix_epoch = refl
