-- ===== src/Base/Bytes.antt =====
-- Byte buffers: `std::span<const uint8_t>` is the list of its bytes. The helpers `read_u16` and
-- `read_u32` are declared alike in every file of rtp/ that parses; so are the `write_*` helpers.
use Prim.Native.Nat.{ℕ, zero, suc, ◌+◌, ◌*◌, ◌/◌, ◌%◌, ◌≤◌, ◌<◌}
use mathlib.Core.Path.{◌≡◌, refl, ap, ◌∙◌}
use mathlib.Core.List.{List, [], ◌∷◌, ◌++◌}
use native.Mathlib.Omega.{arith}
use simple_webrtc.Base.Tests.{ltb, if◌then◌else◌}
use simple_webrtc.Base.Lists.{
  length, All, take, drop, length-append, length-take, length-drop, All-take, All-drop,
}
use simple_webrtc.Base.Results.{Result, ok, fault, ◌>>=◌}

abbrev pub IsByte : ℕ → Type 0
IsByte b = b < 256

abbrev pub AreBytes : List ℕ → Type 0
AreBytes = All IsByte

-- The byte at an offset; 0 past the end, which `byte` never asks for.
unfoldable pub at : List ℕ → ℕ → ℕ
at [] i = 0
at (x ∷ xs) zero = x
at (x ∷ xs) (suc i) = at xs i

-- `bytes[i]`: a read past the end is a fault.
unfoldable pub byte : List ℕ → ℕ → Result ℕ
byte bytes i = if ltb i (length bytes) then ok (at bytes i) else fault

-- `(hi << 8) | lo` for bytes.
abbrev pub be16 : ℕ → ℕ → ℕ
be16 hi lo = hi * 256 + lo

abbrev pub be32 : ℕ → ℕ → ℕ → ℕ → ℕ
be32 a b c d = a * 16777216 + b * 65536 + c * 256 + d

unfoldable pub read_u16 : List ℕ → ℕ → Result ℕ
read_u16 bytes offset = do hi ← byte bytes offset; lo ← byte bytes (offset + 1); ok (be16 hi lo)

unfoldable pub read_u32 : List ℕ → ℕ → Result ℕ
read_u32 bytes offset = do
  a ← byte bytes offset
  b ← byte bytes (offset + 1)
  c ← byte bytes (offset + 2)
  d ← byte bytes (offset + 3)
  ok (be32 a b c d)

-- `bytes.subspan(offset, size)`.
abbrev pub subspan : List ℕ → ℕ → ℕ → List ℕ
subspan bytes offset size = take size (drop offset bytes)

abbrev pub u16_at : List ℕ → ℕ → ℕ
u16_at bytes i = be16 (at bytes i) (at bytes (i + 1))

abbrev pub u32_at : List ℕ → ℕ → ℕ
u32_at bytes i = be32 (at bytes i) (at bytes (i + 1)) (at bytes (i + 2)) (at bytes (i + 3))

pub byte-at : (bytes : List ℕ) (i : ℕ) → i < length bytes → byte bytes i ≡ ok (at bytes i)
unfolding byte
byte-at bytes i h = ground arith

pub read_u16-at :
    (bytes : List ℕ) (i : ℕ) → i + 1 < length bytes → read_u16 bytes i ≡ ok (u16_at bytes i)
unfolding read_u16 byte
read_u16-at bytes i h = ground arith

pub read_u32-at :
    (bytes : List ℕ) (i : ℕ) → i + 3 < length bytes → read_u32 bytes i ≡ ok (u32_at bytes i)
unfolding read_u32 byte
read_u32-at bytes i h = ground arith

pub at-lt : (bytes : List ℕ) (i : ℕ) → AreBytes bytes → at bytes i < 256
unfolding at
at-lt [] i h = omega arith
at-lt (x ∷ xs) zero h = h.0
at-lt (x ∷ xs) (suc i) h = at-lt xs i h.1

pub at-append_left : (xs ys : List ℕ) (i : ℕ) → i < length xs → at (xs ++ ys) i ≡ at xs i
unfolding at
at-append_left [] ys i h = elim h [ ]
at-append_left (x ∷ xs) ys zero h = refl
at-append_left (x ∷ xs) ys (suc i) h = at-append_left xs ys i (omega arith)

pub at-append_right : (xs ys : List ℕ) (i j : ℕ) → j ≡ length xs + i → at (xs ++ ys) j ≡ at ys i
unfolding at
at-append_right [] ys i j h = ap (at ys) (omega (arith, h))
at-append_right (x ∷ xs) ys i zero h = absurd (omega arith)
at-append_right (x ∷ xs) ys i (suc j) h = at-append_right xs ys i j (omega arith)

pub at-drop : (n : ℕ) (xs : List ℕ) (i j : ℕ) → j ≡ n + i → at (drop n xs) i ≡ at xs j
unfolding at
at-drop zero xs i j h = ap (at xs) (omega (arith, h))
at-drop (suc n) [] i j h = refl
at-drop (suc n) (x ∷ xs) i zero h = absurd (omega arith)
at-drop (suc n) (x ∷ xs) i (suc j) h = at-drop n xs i j (omega arith)

pub at-take : (n : ℕ) (xs : List ℕ) (i : ℕ) → i < n → at (take n xs) i ≡ at xs i
unfolding at
at-take zero xs i h = elim h [ ]
at-take (suc n) [] i h = refl
at-take (suc n) (x ∷ xs) zero h = refl
at-take (suc n) (x ∷ xs) (suc i) h = at-take n xs i (omega arith)

pub at-subspan :
    (xs : List ℕ) (offset size i : ℕ)
    → i < size
    → at (subspan xs offset size) i ≡ at xs (offset + i)
at-subspan xs offset size i h =
    at-take size (drop offset xs) i h ∙ at-drop offset xs i (offset + i) refl

pub length-subspan :
    (xs : List ℕ) (offset size : ℕ)
    → offset + size ≤ length xs
    → length (subspan xs offset size) ≡ size
length-subspan xs offset size h =
    omega (arith, length-take size (drop offset xs), length-drop offset xs)

-- Reading behind a front part.
pub byte-append : (xs ys : List ℕ) (i j : ℕ) → j ≡ length xs + i → byte (xs ++ ys) j ≡ byte ys i
unfolding byte
byte-append xs ys i j h = ground (arith, at-append_right xs ys i j, length-append xs ys)

pub read_u16-append :
    (xs ys : List ℕ) (i j : ℕ) → j ≡ length xs + i → read_u16 (xs ++ ys) j ≡ read_u16 ys i
unfolding read_u16
read_u16-append xs ys i j h =
    rw (byte-append xs ys i j h, byte-append xs ys (i + 1) (j + 1) (omega arith))

pub read_u32-append :
    (xs ys : List ℕ) (i j : ℕ) → j ≡ length xs + i → read_u32 (xs ++ ys) j ≡ read_u32 ys i
unfolding read_u32
read_u32-append xs ys i j h = rw (
  byte-append xs ys i j h,
  byte-append xs ys (i + 1) (j + 1) (omega arith),
  byte-append xs ys (i + 2) (j + 2) (omega arith),
  byte-append xs ys (i + 3) (j + 3) (omega arith),
)

-- What `write_u16`, `write_u24` and `write_u32` put at their offset, in network order.
abbrev pub u16_bytes : ℕ → List ℕ
u16_bytes v = (v / 256 % 256) ∷ (v % 256) ∷ []

abbrev pub u24_bytes : ℕ → List ℕ
u24_bytes v = (v / 65536 % 256) ∷ (v / 256 % 256) ∷ (v % 256) ∷ []

abbrev pub u32_bytes : ℕ → List ℕ
u32_bytes v = (v / 16777216 % 256) ∷ (v / 65536 % 256) ∷ (v / 256 % 256) ∷ (v % 256) ∷ []

pub AreBytes-subspan :
    (xs : List ℕ) (offset size : ℕ) → AreBytes xs → AreBytes (subspan xs offset size)
AreBytes-subspan xs offset size h = All-take IsByte size _ (All-drop IsByte offset xs h)
