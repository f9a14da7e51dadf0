-- ===== src/Rtp/Packet/Encode.antt =====
-- RTP packets written out from RFC 3550, without an extension, against the parser of
-- rtp/rtp_packet.cpp.
use simple_webrtc.Base.{
  ℕ, zero, suc, ◌+◌, ◌*◌, ◌%◌, ◌≤◌, ◌<◌, ◌≡◌, List, [], ◌∷◌, ◌++◌, Bool, true, false, length, ok,
  if◌then◌else◌, byte, at, at-append_right, length-append, length-replicate, replicate, u16_bytes,
  u16_at, u32_at, u32_bytes, read_u16, read_u32, arith, ◌⊎◌, refl, ◌∙◌,
}
use simple_webrtc.Rtp.Packet.{
  RtpPacketHeader, inspect_rtp_packet_layout, parse_rtp_packet_header, header_size_with_extension,
  validate_rtp_padding,
}

pub csrc_bytes : List ℕ → List ℕ
csrc_bytes [] = []
csrc_bytes (c ∷ cs) = u32_bytes c ++ csrc_bytes cs

length-csrc_bytes : (cs : List ℕ) → length (csrc_bytes cs) ≡ 4 * length cs
unfolding csrc_bytes
length-csrc_bytes [] = refl
length-csrc_bytes (c ∷ cs) = omega (arith, length-csrc_bytes cs)

-- The padding of `n` bytes, of which the last is `n`.
pub padding_bytes : ℕ → List ℕ
padding_bytes zero = []
padding_bytes (suc n) = replicate n 0 ++ suc n ∷ []

length-padding_bytes : (n : ℕ) → length (padding_bytes n) ≡ n
unfolding padding_bytes
length-padding_bytes zero = refl
length-padding_bytes (suc n) =
    omega (arith, length-append (replicate n 0) (suc n ∷ []), length-replicate {A = ℕ} n 0)

last-padding_bytes :
    (front : List ℕ) (n j : ℕ)
    → 1 ≤ n
    → j + 1 ≡ length front + n
    → at (front ++ padding_bytes n) j ≡ n
unfolding padding_bytes at
last-padding_bytes front zero j h e = elim h [ ]
last-padding_bytes front (suc n) j h e =
    at-append_right front _ n j (omega arith)
    ∙ at-append_right (replicate n 0) (suc n ∷ []) 0 n (omega (arith, length-replicate {A = ℕ} n 0))

pub flag : Bool → ℕ → ℕ
flag b weight = if b then weight else 0

pub rtp_bytes : RtpPacketHeader → List ℕ → List ℕ → Bool → ℕ → List ℕ
unfolding flag
rtp_bytes h csrcs payload padding n =
    (128 + flag padding 32 + length csrcs)
      ∷ (flag h.marker 128 + h.payload_type)
      ∷ u16_bytes h.sequence_number
    ++ u32_bytes h.timestamp
    ++ u32_bytes h.ssrc
    ++ (csrc_bytes csrcs ++ payload)
    ++ padding_bytes n

-- A payload type that does not look like RTCP, and a padding that fits the padding bit.
pub record IsSendable (h : RtpPacketHeader) (cs : List ℕ) (p : Bool) (n : ℕ) : Type 0 where
  pub payload_type : h.payload_type < 128
  pub demultiplexed : (h.marker ≡ false) ⊎ (h.payload_type < 64) ⊎ (95 < h.payload_type)
  pub sequence_number : h.sequence_number < 65536
  pub timestamp : h.timestamp < 4294967296
  pub ssrc : h.ssrc < 4294967296
  pub csrcs : length cs ≤ 15
  pub padded : (p ≡ false) × (n ≡ 0) ⊎ (p ≡ true) × (1 ≤ n) × (n < 256)

length-rtp_bytes :
    (h : RtpPacketHeader) (csrcs payload : List ℕ) (padding : Bool) (n : ℕ)
    → length (rtp_bytes h csrcs payload padding n) ≡ 12 + 4 * length csrcs + length payload + n
unfolding rtp_bytes
length-rtp_bytes h csrcs payload padding n = omega (
  arith,
  length-append (csrc_bytes csrcs ++ payload) (padding_bytes n),
  length-append (csrc_bytes csrcs) payload,
  length-csrc_bytes csrcs,
  length-padding_bytes n,
)

last-rtp_bytes :
    (h : RtpPacketHeader) (csrcs payload : List ℕ) (padding : Bool) (n j : ℕ)
    → 1 ≤ n
    → j + 1 ≡ 12 + 4 * length csrcs + length payload + n
    → at (rtp_bytes h csrcs payload padding n) j ≡ n
unfolding rtp_bytes
last-rtp_bytes h csrcs payload padding n j few e =
    last-padding_bytes (front (csrc_bytes csrcs ++ payload)) n j few
      (omega (arith, length-append (csrc_bytes csrcs) payload, length-csrc_bytes csrcs))
  where
    front : List ℕ → List ℕ
    front body =
        (128 + flag padding 32 + length csrcs)
          ∷ (flag h.marker 128 + h.payload_type)
          ∷ u16_bytes h.sequence_number
        ++ u32_bytes h.timestamp
        ++ u32_bytes h.ssrc
        ++ body

first-rtp_bytes :
    (h : RtpPacketHeader) (csrcs payload : List ℕ) (padding : Bool) (n : ℕ)
    → (at (rtp_bytes h csrcs payload padding n) 0 ≡ flag padding 32 + 128 + length csrcs)
      × (at (rtp_bytes h csrcs payload padding n) 1 ≡ flag h.marker 128 + h.payload_type)
unfolding rtp_bytes at
first-rtp_bytes h csrcs payload padding n = omega arith

fields-rtp_bytes :
    (h : RtpPacketHeader) (csrcs payload : List ℕ) (padding : Bool) (n : ℕ)
    → (u16_at (rtp_bytes h csrcs payload padding n) 2 ≡ h.sequence_number % 65536)
      × (u32_at (rtp_bytes h csrcs payload padding n) 4 ≡ h.timestamp % 4294967296)
      × (u32_at (rtp_bytes h csrcs payload padding n) 8 ≡ h.ssrc % 4294967296)
unfolding rtp_bytes at
fields-rtp_bytes h csrcs payload padding n = omega arith

-- A packet without extension, with at most 15 CSRCs, a payload type that does not look like RTCP and
-- a padding of 1 to 255 bytes or none, is accepted, and its layout is that of its parts.
pub inspect-rtp_bytes :
    (h : RtpPacketHeader) (csrcs payload : List ℕ) (padding : Bool) (n : ℕ)
    → IsSendable h csrcs padding n
    → inspect_rtp_packet_layout (rtp_bytes h csrcs payload padding n)
      ≡ ok (record {
        header_size = 12 + 4 * length csrcs;
        media_payload_size = length payload;
        padding_size = n;
        padding = padding;
      })
unfolding inspect_rtp_packet_layout validate_rtp_padding header_size_with_extension byte flag
inspect-rtp_bytes h csrcs payload padding n s = ground (
  arith,
  first-rtp_bytes h csrcs payload padding n,
  length-rtp_bytes h csrcs payload padding n,
  last-rtp_bytes h csrcs payload padding n (11 + 4 * length csrcs + length payload + n),
)

-- From the bytes of a packet without extension, with at most 15 CSRCs, a payload type that does not
-- look like RTCP, a padding of 1 to 255 bytes or none, and fields that fit their widths,
-- `parse_rtp_packet_header` reads back the header that was written.
pub parse-rtp_bytes :
    (h : RtpPacketHeader) (csrcs payload : List ℕ) (padding : Bool) (n : ℕ)
    → IsSendable h csrcs padding n
    → parse_rtp_packet_header (rtp_bytes h csrcs payload padding n) ≡ ok h
unfolding parse_rtp_packet_header read_u16 read_u32 byte flag
parse-rtp_bytes h csrcs payload padding n s = rw (inspect-rtp_bytes h csrcs payload padding n s) (
    ground (
      arith,
      first-rtp_bytes h csrcs payload padding n,
      fields-rtp_bytes h csrcs payload padding n,
      length-rtp_bytes h csrcs payload padding n,
    ))
