-- ===== src/Rtcp/RoundTrip/FirBytes.antt =====
-- The bytes of a full intra request, written out from RFC 5104: what rtcp_packet_builder.cpp computes.
use mathlib.Core.List.{append_assoc}
use simple_webrtc.Base.{
  ℕ, suc, ◌+◌, ◌-◌, ◌*◌, ◌/◌, ◌^◌, ◌≤◌, ◌<◌, ◌≡◌, ◌≢◌, refl, ap, sym, ◌∙◌, false, List, [], ◌∷◌,
  ◌++◌, length, All, ltb, ◌==◌, length-append, ok, overwrite-then, zeros, u32_bytes, arith,
}
use simple_webrtc.Rtcp.Builder.{RtcpFirRequest, write_fir_requests, build_rtcp_full_intra_request}
use simple_webrtc.Rtcp.Builder.Bytes.{
  common_header, length-common_header, write_common_header-zeros,
}
use simple_webrtc.Rtcp.RoundTrip.Blocks.{IsU32}

unfoldable pub fir_bytes : RtcpFirRequest → List ℕ
fir_bytes r = u32_bytes r.media_ssrc ++ (r.sequence_number ∷ 0 ∷ 0 ∷ 0 ∷ [])

unfoldable pub firs_bytes : List RtcpFirRequest → List ℕ
firs_bytes [] = []
firs_bytes (r ∷ rs) = fir_bytes r ++ firs_bytes rs

pub record IsRequest (r : RtcpFirRequest) : Type 0 where
  pub nonzero : r.media_ssrc ≢ 0
  pub ssrc : IsU32 r.media_ssrc
  pub sequence : r.sequence_number < 256

pub length-firs_bytes : (rs : List RtcpFirRequest) → length (firs_bytes rs) ≡ length rs * 8
unfolding firs_bytes fir_bytes
length-firs_bytes [] = omega arith
length-firs_bytes (r ∷ rs) = omega (arith, length-firs_bytes rs)

-- The three bytes behind the sequence number stay zero.
three_zeros :
    (front : List ℕ) (n : ℕ) → front ++ zeros (3 + n) ≡ (front ++ (0 ∷ 0 ∷ 0 ∷ [])) ++ zeros n
three_zeros front n =
    ap (λ k. front ++ zeros k) three ∙ sym (append_assoc front (0 ∷ 0 ∷ 0 ∷ []) (zeros n))
  where
    three : 3 + n ≡ suc (suc (suc n))
    three = omega arith

write_fir_requests-zeros :
    (front : List ℕ) (offset size : ℕ) (rs : List RtcpFirRequest)
    → offset ≡ length front
    → size ≡ length rs * 8
    → All IsRequest rs
    → write_fir_requests (front ++ zeros size) offset rs ≡ ok (front ++ firs_bytes rs)
unfolding write_fir_requests firs_bytes fir_bytes
write_fir_requests-zeros front offset size [] e f h = rw f refl
write_fir_requests-zeros front offset size (r ∷ rs) e f h = rw (nonzero) (
    overwrite-then front _ offset size (4 + length rs * 8) _ e (omega arith) (
      overwrite-then _ _ _ _ (3 + length rs * 8) _ (omega (arith, length-append {0})) (omega arith)
        (ap (λ p. write_fir_requests p (offset + 8) rs) (three_zeros _ (length rs * 8))
          ∙ (write_fir_requests-zeros
                (((front ++ u32_bytes r.media_ssrc) ++ (r.sequence_number ∷ []))
                  ++ (0 ∷ 0 ∷ 0 ∷ []))
                (offset + 8) (length rs * 8) rs (omega (arith, length-append {0})) refl h.1
              ∙ simp append_assoc))))
  where
    nonzero : (r.media_ssrc == 0) ≡ false
    nonzero = ground (arith, h.0.nonzero)

unfoldable pub full_intra_request_bytes : ℕ → List RtcpFirRequest → List ℕ
full_intra_request_bytes sender_ssrc requests =
    ((common_header 4 206 (12 + length requests * 8) ++ u32_bytes sender_ssrc) ++ u32_bytes 0)
    ++ firs_bytes requests

pub build_rtcp_full_intra_request-bytes :
    (sender_ssrc : ℕ) (requests : List RtcpFirRequest)
    → sender_ssrc ≢ 0
    → 0 < length requests
    → length requests ≤ 32766
    → All IsRequest requests
    → build_rtcp_full_intra_request sender_ssrc requests
      ≡ ok (full_intra_request_bytes sender_ssrc requests)
unfolding build_rtcp_full_intra_request full_intra_request_bytes
build_rtcp_full_intra_request-bytes ssrc rs nz some_requests few h =
    let n = length rs * 8 in
    rw
      (
        checks.0,
        checks.1,
        checks.2,
        write_common_header-zeros 4 206 (12 + length rs * 8) (8 + length rs * 8) (omega arith)
            (omega arith) (omega arith) (omega arith),
      )
      (overwrite-then _ _ _ _ (4 + n) _ (omega (arith, length-common_header)) (omega arith) (
        overwrite-then _ _ _ _ n _ (omega (arith, length-append {0}, length-common_header))
          (omega arith)
          (write_fir_requests-zeros _ _ _ _ (omega (arith, length-append {0}, length-common_header))
            refl h)))
  where
    checks :
        ((ssrc == 0) ≡ false)
        × ((length rs == 0) ≡ false)
        × (ltb ((2 ^ 64 - 1 - 12) / 8) (length rs) ≡ false)
    checks = ground arith
