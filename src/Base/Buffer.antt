-- ===== src/Base/Buffer.antt =====
-- Writing into a `std::vector<uint8_t>` of a fixed size. A write past its end is a fault.
use Prim.Native.Nat.{ℕ, zero, suc, ◌+◌}
use mathlib.Core.Path.{◌≡◌, refl, ap, ◌∙◌}
use mathlib.Core.List.{List, [], ◌∷◌, ◌++◌, append_assoc}
use native.Mathlib.Omega.{arith}
use simple_webrtc.Base.Tests.{leb, if◌then◌else◌}
use simple_webrtc.Base.Lists.{length, take, drop, replicate, length-append, length-replicate}
use simple_webrtc.Base.Results.{Result, ok, fault, ◌>>=◌}
use simple_webrtc.Base.Bytes.{subspan, u16_bytes, u24_bytes, u32_bytes}

-- The bytes `values` from an offset on.
unfoldable pub overwrite : List ℕ → ℕ → List ℕ → Result (List ℕ)
overwrite buffer offset values =
    if leb (offset + length values) (length buffer)
    then ok (take offset buffer ++ (values ++ drop (offset + length values) buffer))
    else fault

abbrev pub write_byte : List ℕ → ℕ → ℕ → Result (List ℕ)
write_byte buffer offset value = overwrite buffer offset (value ∷ [])

abbrev pub write_u16 : List ℕ → ℕ → ℕ → Result (List ℕ)
write_u16 buffer offset value = overwrite buffer offset (u16_bytes value)

abbrev pub write_u24 : List ℕ → ℕ → ℕ → Result (List ℕ)
write_u24 buffer offset value = overwrite buffer offset (u24_bytes value)

abbrev pub write_u32 : List ℕ → ℕ → ℕ → Result (List ℕ)
write_u32 buffer offset value = overwrite buffer offset (u32_bytes value)

-- `std::vector<uint8_t>(size)`.
abbrev pub zeros : ℕ → List ℕ
zeros size = replicate size 0

pub take-front : (xs ys : List ℕ) → take (length xs) (xs ++ ys) ≡ xs
take-front [] ys = refl
take-front (x ∷ xs) ys = ap (◌∷◌ x) (take-front xs ys)

pub drop-front : (xs ys : List ℕ) (n : ℕ) → drop (length xs + n) (xs ++ ys) ≡ drop n ys
drop-front [] ys n = ap (λ k. drop k ys) (omega arith)
drop-front (x ∷ xs) ys n = ap (λ k. drop k (x ∷ xs ++ ys)) step ∙ drop-front xs ys n
  where
    step : suc (length xs) + n ≡ suc (length xs + n)
    step = omega arith

drop-zeros : (n m : ℕ) → drop n (zeros (n + m)) ≡ zeros m
drop-zeros zero m = ap zeros (omega arith)
drop-zeros (suc n) m = ap (λ k. drop (suc n) (zeros k)) step ∙ drop-zeros n m
  where
    step : suc n + m ≡ suc (n + m)
    step = omega arith

-- Writing at the frontier of a buffer that is zero from there on.
pub overwrite-zeros :
    (front values : List ℕ) (offset size rest : ℕ)
    → offset ≡ length front
    → size ≡ length values + rest
    → overwrite (front ++ zeros size) offset values ≡ ok ((front ++ values) ++ zeros rest)
unfolding overwrite
overwrite-zeros front values offset size rest e f =
    rw (e, f)
      (ground (
        arith,
        length-append front (zeros (length values + rest)),
        length-replicate {A = ℕ} (length values + rest) 0,
        take-front front (zeros (length values + rest)),
        drop-front front (zeros (length values + rest)) (length values),
        drop-zeros (length values) rest,
        append_assoc front values (zeros rest),
      ))

-- The same in front of the rest of a `do` block.
pub overwrite-then {ℓ} :
    {B : Type ℓ} (front values : List ℕ) (offset size rest : ℕ) (k : List ℕ → Result B)
    {r : Result B}
    → offset ≡ length front
    → size ≡ length values + rest
    → k ((front ++ values) ++ zeros rest) ≡ r
    → (overwrite (front ++ zeros size) offset values >>= k) ≡ r
overwrite-then front values offset size rest k e f next =
    rw (overwrite-zeros front values offset size rest e f) next

-- A part of the bytes behind a front part and in front of a rest.
pub subspan-append :
    (front part rest : List ℕ) (offset size : ℕ)
    → offset ≡ length front
    → size ≡ length part
    → subspan (front ++ (part ++ rest)) offset size ≡ part
subspan-append front part rest offset size h k =
    ap (λ n. subspan (front ++ (part ++ rest)) n size) place
    ∙ (ap (take size) (drop-front front (part ++ rest) 0)
        ∙ (ap (λ n. take n (part ++ rest)) k ∙ take-front part rest))
  where
    place : offset ≡ length front + 0
    place = omega arith
