-- ===== src/Base/Int.antt =====
-- `int32_t` and `int64_t` as integers, over the native numbers; `negsuc n` is -(n + 1).
use Prim.Native.Nat.{ℕ, ◌-◌}
use mathlib.Core.Bool.{Bool, false}
use simple_webrtc.Base.Tests.{ltb, leb, if◌then◌else◌}

pub data ℤ : Type 0 where
  pos : ℕ → ℤ
  negsuc : ℕ → ℤ

-- a - b.
abbrev pub sub_ℕ : ℕ → ℕ → ℤ
sub_ℕ a b = if leb b a then pos (a - b) else negsuc (b - a - 1)

-- `a < -n` and `n < a`.
abbrev pub lt_neg : ℤ → ℕ → Bool
lt_neg (pos a) n = false
lt_neg (negsuc a) n = leb n a

abbrev pub gt_pos : ℤ → ℕ → Bool
gt_pos (pos a) n = ltb n a
gt_pos (negsuc a) n = false

-- `static_cast<uint32_t>` of an `int32_t`, and `static_cast<int32_t>` of a `uint32_t`.
abbrev pub u32_of_i32 : ℤ → ℕ
u32_of_i32 (pos a) = a
u32_of_i32 (negsuc a) = 4294967295 - a

abbrev pub i32_of_u32 : ℕ → ℤ
i32_of_u32 w = if ltb w 2147483648 then pos w else negsuc (4294967295 - w)
