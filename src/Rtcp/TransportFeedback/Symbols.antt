-- ===== src/Rtcp/TransportFeedback/Symbols.antt =====
-- Status chunks: what `encode_status_chunks` packs, `decode_chunk` unpacks.
use native.Mathlib.Nat.{mul-add-div_right, div-eq_of_lt, pow-suc, pow-zero}
use simple_webrtc.Base.{
  ℕ, zero, suc, ◌+◌, ◌*◌, ◌/◌, ◌%◌, ◌^◌, ◌≤◌, ◌<◌, min, ◌≡◌, refl, ◌∙◌, true, List, [], ◌∷◌, take,
  replicate, length, length-take, take-min, All, All-take, ok, Bool-cases, leb→le, ◌⊎◌, inl, inr,
  leb, arith,
}
use simple_webrtc.Rtcp.TransportFeedback.{
  run_behind, one_bit_compatible, pack_symbols, next_chunk, one_bit_symbols, two_bit_symbols,
  decode_chunk,
}

-- A digit `x` above `r` and below `h`, at a place of weight `p`.
digit : (b h x r p : ℕ) → x < b → r < p → (h * (p * b) + (x * p + r)) / p % b ≡ x
digit b h x r p lx lr = rw (regroup, quotient) (grind (arith, last))
  where
    regroup : h * (p * b) + (x * p + r) ≡ (h * b + x) * p + r
    regroup = grind arith

    quotient : ((h * b + x) * p + r) / p ≡ h * b + x
    quotient = mul-add-div_right (omega arith) (h * b + x) r ∙ omega (arith, div-eq_of_lt lr)

    last : (h * b + x) % b ≡ x
    last = grind arith

pow_pos : (b k : ℕ) → 0 < b → 0 < b ^ k
pow_pos b zero h = rw (pow-zero b) (omega arith)
pow_pos b (suc k) h = rw (pow-suc b k) (grind (arith, pow_pos b k h))

pack-lt : (b k : ℕ) (xs : List ℕ) → 0 < b → All (λ x. x < b) xs → pack_symbols b k xs < b ^ k
unfolding pack_symbols
pack-lt b zero xs h a = rw (pow-zero b) (omega arith)
pack-lt b (suc k) [] h a = pow_pos b (suc k) h
pack-lt b (suc k) (x ∷ xs) h a = rw (pow-suc b k) (grind (arith, pack-lt b k xs h a.1, a.0))

-- The same number with the digit counted to what is above.
carry : (b h x r k : ℕ) → h * b ^ suc k + (x * b ^ k + r) ≡ (h * b + x) * b ^ k + r
carry b h x r k = rw (pow-suc b k) (grind arith)

digit_at :
    (b h x k : ℕ) (xs : List ℕ)
    → 0 < b
    → x < b
    → All (λ y. y < b) xs
    → (h * b ^ suc k + pack_symbols b (suc k) (x ∷ xs)) / b ^ k % b ≡ x
unfolding pack_symbols
digit_at b h x k xs p l a =
    rw (pow-suc b k) (digit b h x (pack_symbols b k xs) (b ^ k) l (pack-lt b k xs p a))

one_bit-pack :
    (h k : ℕ) (xs : List ℕ)
    → length xs ≤ k
    → All (λ x. x < 2) xs
    → one_bit_symbols k (length xs) (h * 2 ^ k + pack_symbols 2 k xs) ≡ xs
unfolding one_bit_symbols pack_symbols
one_bit-pack h k [] l a = refl
one_bit-pack h zero (x ∷ xs) l a = absurd (omega arith)
one_bit-pack h (suc k) (x ∷ xs) l a = cc (
  digit_at 2 h x k xs (omega arith) a.0 a.1,
  carry 2 h x (pack_symbols 2 k xs) k,
  one_bit-pack (h * 2 + x) k xs (omega arith) a.1,
)

two_bit-pack :
    (h k : ℕ) (xs : List ℕ)
    → length xs ≤ k
    → All (λ x. x < 3) xs
    → two_bit_symbols k (length xs) (h * 4 ^ k + pack_symbols 4 k xs) ≡ ok xs
unfolding two_bit_symbols pack_symbols
two_bit-pack h k [] l a = refl
two_bit-pack h zero (x ∷ xs) l a = absurd (omega arith)
two_bit-pack h (suc k) (x ∷ xs) l a = ground (
  arith,
  digit_at 4 h x k xs (omega arith) (omega arith) (below xs a.1),
  carry 4 h x (pack_symbols 4 k xs) k,
  two_bit-pack (h * 4 + x) k xs (omega arith) a.1,
)
  where
    below : (ys : List ℕ) → All (λ y. y < 3) ys → All (λ y. y < 4) ys
    below [] h = tt
    below (y ∷ ys) h = (omega arith, below ys h.1)

-- The symbols of a packet: none, a small delta or a large one.
abbrev pub AreSymbols : List ℕ → Type 0
AreSymbols = All (λ x. x < 3)

run-take :
    (s left : ℕ) (xs : List ℕ)
    → (replicate (run_behind s left xs) s ≡ take (run_behind s left xs) xs)
      × (run_behind s left xs ≤ left)
      × (run_behind s left xs ≤ length xs)
unfolding run_behind
run-take s zero xs = (refl, omega arith, omega arith)
run-take s (suc left) [] = (refl, omega arith, omega arith)
run-take s (suc left) (x ∷ xs) = ground (arith, run-take s left xs)

compatible-lt : (xs : List ℕ) → one_bit_compatible xs ≡ true → All (λ x. x < 2) xs
unfolding one_bit_compatible
compatible-lt [] h = tt
compatible-lt (x ∷ xs) h = ground (arith, h, compatible-lt xs)

-- A chunk that stands for `n` symbols of those that are left, and a word of 16 bits.
pub record IsChunkOf (symbols : List ℕ) (c : ℕ × ℕ) : Type 0 where
  pub decoded : decode_chunk c.0 (length symbols) ≡ ok (take c.1 symbols)
  pub some_taken : 0 < c.1
  pub within : c.1 ≤ length symbols
  pub word : c.0 < 65536
  pub compact : (7 ≤ c.1) ⊎ (c.1 ≡ length symbols)

run-IsChunkOf :
    (s : ℕ) (rest : List ℕ)
    → s < 3
    → 7 ≤ suc (run_behind s 8190 rest)
    → IsChunkOf (s ∷ rest) (s * 8192 + suc (run_behind s 8190 rest), suc (run_behind s 8190 rest))
unfolding decode_chunk
run-IsChunkOf s rest h long = record {
  decoded = ground (arith, run-take s 8190 rest, symbol, length_of);
  some_taken = omega arith;
  within = omega (arith, (run-take s 8190 rest).2);
  word = omega (arith, (run-take s 8190 rest).1);
  compact = inl long;
}
  where
    n : ℕ
    n = suc (run_behind s 8190 rest)

    symbol :
        ((s * 8192 + suc (run_behind s 8190 rest)) / 8192 % 4 ≡ s)
        × ((s * 8192 + suc (run_behind s 8190 rest)) % 8192 ≡ suc (run_behind s 8190 rest))
        × ((s * 8192 + suc (run_behind s 8190 rest)) / 32768 % 2 ≡ 0)
    symbol = omega (arith, (run-take s 8190 rest).1)

    length_of :
        min (suc (run_behind s 8190 rest)) (suc (length rest)) ≡ suc (run_behind s 8190 rest)
    length_of = omega (arith, (run-take s 8190 rest).2)

one_bit-IsChunkOf :
    (symbols : List ℕ)
    → 0 < length symbols
    → All (λ x. x < 2) (take 14 symbols)
    → IsChunkOf symbols (32768 + pack_symbols 2 14 (take 14 symbols), min 14 (length symbols))
unfolding decode_chunk
one_bit-IsChunkOf symbols some_left h = record {
  decoded = ground (arith, bits, count, unpacked, take-min 14 symbols);
  some_taken = omega arith;
  within = omega arith;
  word = omega (arith, small);
  compact = ground arith;
}
  where
    p : ℕ
    p = pack_symbols 2 14 (take 14 symbols)

    small : pack_symbols 2 14 (take 14 symbols) < 16384
    small = pack-lt 2 14 (take 14 symbols) (omega arith) h

    bits :
        ((32768 + pack_symbols 2 14 (take 14 symbols)) / 32768 % 2 ≡ 1)
        × ((32768 + pack_symbols 2 14 (take 14 symbols)) / 16384 % 2 ≡ 0)
    bits = omega (arith, small)

    count : min 14 (length symbols) ≡ length (take 14 symbols)
    count = omega (arith, length-take 14 symbols)

    unpacked :
        one_bit_symbols 14 (length (take 14 symbols)) (32768 + pack_symbols 2 14 (take 14 symbols))
        ≡ take 14 symbols
    unpacked = one_bit-pack 2 14 (take 14 symbols) (omega (arith, length-take 14 symbols)) h

two_bit-IsChunkOf :
    (symbols : List ℕ)
    → 0 < length symbols
    → AreSymbols symbols
    → IsChunkOf symbols (49152 + pack_symbols 4 7 (take 7 symbols), min 7 (length symbols))
unfolding decode_chunk
two_bit-IsChunkOf symbols some_left h = record {
  decoded = ground (arith, bits, count, unpacked, take-min 7 symbols);
  some_taken = omega arith;
  within = omega arith;
  word = omega (arith, small);
  compact = ground arith;
}
  where
    below : (ys : List ℕ) → All (λ y. y < 3) ys → All (λ y. y < 4) ys
    below [] h = tt
    below (y ∷ ys) h = (omega arith, below ys h.1)

    small : pack_symbols 4 7 (take 7 symbols) < 16384
    small =
        pack-lt 4 7 (take 7 symbols) (omega arith)
          (below (take 7 symbols) (All-take (λ x. x < 3) 7 symbols h))

    bits :
        ((49152 + pack_symbols 4 7 (take 7 symbols)) / 32768 % 2 ≡ 1)
        × ((49152 + pack_symbols 4 7 (take 7 symbols)) / 16384 % 2 ≡ 1)
    bits = omega (arith, small)

    count : min 7 (length symbols) ≡ length (take 7 symbols)
    count = omega (arith, length-take 7 symbols)

    unpacked :
        two_bit_symbols 7 (length (take 7 symbols)) (49152 + pack_symbols 4 7 (take 7 symbols))
        ≡ ok (take 7 symbols)
    unpacked =
        two_bit-pack 3 7 (take 7 symbols) (omega (arith, length-take 7 symbols))
          (All-take (λ x. x < 3) 7 symbols h)

pub next_chunk-IsChunkOf :
    (s : ℕ) (rest : List ℕ) → AreSymbols (s ∷ rest) → IsChunkOf (s ∷ rest) (next_chunk s rest)
unfolding next_chunk
next_chunk-IsChunkOf s rest h = elim (Bool-cases (leb 7 (suc (run_behind s 8190 rest)))) [
  | inl e ↦ rw e (run-IsChunkOf s rest h.0 (leb→le 7 _ e))
  | inr e ↦ rw e (elim (Bool-cases (one_bit_compatible (take 14 (s ∷ rest)))) [
    | inl f ↦
        rw f (one_bit-IsChunkOf (s ∷ rest) (omega arith) (compatible-lt (take 14 (s ∷ rest)) f))
    | inr f ↦ rw f (two_bit-IsChunkOf (s ∷ rest) (omega arith) h)
  ])
]
