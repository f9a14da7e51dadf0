-- ===== src/Rtcp/Feedback/Safety.antt =====
-- Every read of rtcp_feedback.cpp is inside the packet, and the fields agree with one another.
use simple_webrtc.Base.{
  ℕ, zero, suc, ◌+◌, ◌-◌, ◌*◌, ◌/◌, ◌%◌, ◌≤◌, ◌<◌, ◌≡◌, ap, refl, ◌∙◌, ◌⊎◌, false, ◌||◌, ◌&&◌, List,
  length, not, ◌==◌, ltb, IsSafe, Ensures, Ensures->>=, Ensures-reject, Ensures-mono, Result,
  AreBytes, byte, at, read_u32, u32_at, arith,
}
use simple_webrtc.Rtp.Packet.{RtcpPacketHeader, parse_rtcp_packet_header}
use simple_webrtc.Rtp.Packet.Layout.{IsRtcpHeaderOf, parse_rtcp_packet_header-Ensures}
use simple_webrtc.Rtcp.Feedback.{
  RtcpFeedbackPacket, RtcpFirEntry, parse_fir_entries, parse_generic_nack, parse_pli, parse_fir,
  parse_remb_fci, parse_remb, is_remb_fci, nonzero_ssrcs, parse_payload_feedback,
  parse_transport_feedback, parse_feedback_payload, parse_rtcp_feedback_packet, new_packet,
  rtcp_feedback_payload_end, padded_payload_end,
}
use simple_webrtc.Rtcp.Feedback.Nack.{
  length-nack_entries_at, is_member, is_asked_for, AreNacksOf, parse_nack_entries-Ensures,
}

-- As many entries as were to be read, and no SSRC that is 0.
abbrev AreFirs : ℕ → List RtcpFirEntry × List ℕ → Type 0
AreFirs n r = (length r.0 ≡ n) × (is_member 0 r.1 ≡ false)

parse_fir_entries-Ensures :
    (bytes : List ℕ) (offset n : ℕ)
    → offset + n * 8 ≤ length bytes
    → Ensures (AreFirs n) (parse_fir_entries bytes offset n)
unfolding parse_fir_entries nonzero_ssrcs is_member read_u32 byte
parse_fir_entries-Ensures bytes offset zero h = ground arith
parse_fir_entries-Ensures bytes offset (suc n) h =
    ground (arith, parse_fir_entries-Ensures bytes (offset + 8) n)

-- What the payload's parsers add to the header, the sender and the media source.
pub record IsFilled {A : Type 0} (header : RtcpPacketHeader) (sender media number : ℕ)
    (p : RtcpFeedbackPacket A) : Type 0 where
  pub format : p.format ≡ header.count
  pub type_of : p.packet_type ≡ header.packet_type
  pub sender_of : p.sender_ssrc ≡ sender
  pub media_of : p.media_ssrc ≡ media
  pub nacks : length p.nack_entries ≡ p.nack_count
  pub firs : length p.fir_entries ≡ p.fir_count
  pub asked : is_member number p.nack_sequence_numbers ≡ is_asked_for p.nack_entries number
  pub nonzero : is_member 0 p.keyframe_request_media_ssrcs ≡ false
  pub is_nack : p.has_generic_nack ≡ ((header.packet_type == 205) && (header.count == 1))
  pub is_keyframe_request :
      p.has_keyframe_request
      ≡ (not (header.packet_type == 205) && ((header.count == 1) || (header.count == 4)))

module _ (A : Type 0) (bytes : List ℕ) (header : RtcpPacketHeader) (sender media number : ℕ) where
  abbrev fresh : RtcpFeedbackPacket A
  fresh = new_packet header sender media

  abbrev Filled : RtcpFeedbackPacket A → Type 0
  Filled = IsFilled header sender media number

  parse_generic_nack-Ensures :
      (end : ℕ)
      → AreBytes bytes
      → number < 65536
      → 12 ≤ end
      → end ≤ length bytes
      → header.packet_type ≡ 205
      → header.count ≡ 1
      → Ensures Filled (parse_generic_nack bytes 12 end fresh)
  unfolding parse_generic_nack new_packet is_member is_asked_for
  parse_generic_nack-Ensures end b n l h t f =
      Ensures-reject Filled (not ((end - 12) % 4 == 0)) _ _ λ e.
        Ensures->>= (AreNacksOf bytes 12 ((end - 12) / 4) number) Filled _ _
          (parse_nack_entries-Ensures bytes 12 ((end - 12) / 4) number b n (omega arith))
          λ r v. record {
            format = refl;
            type_of = refl;
            sender_of = refl;
            media_of = refl;
            nacks = ap length v.entries ∙ length-nack_entries_at bytes 12 ((end - 12) / 4);
            firs = refl;
            asked = v.asked;
            nonzero = refl;
            is_nack = ground (arith, t, f);
            is_keyframe_request = ground (arith, t, f);
          }

  parse_pli-Ensures :
      (end : ℕ)
      → header.packet_type ≡ 206
      → header.count ≡ 1
      → Ensures Filled (parse_pli 12 end fresh)
  unfolding parse_pli new_packet is_member is_asked_for nonzero_ssrcs
  parse_pli-Ensures end t f = ground arith

  parse_fir-Ensures :
      (end : ℕ)
      → 12 ≤ end
      → end ≤ length bytes
      → header.packet_type ≡ 206
      → header.count ≡ 4
      → Ensures Filled (parse_fir bytes 12 end fresh)
  unfolding parse_fir new_packet is_member is_asked_for
  parse_fir-Ensures end l h t f =
      ground (arith, parse_fir_entries-Ensures bytes 12 ((end - 12) / 8))

  parse_remb-Ensures :
      (end : ℕ)
      → end ≤ length bytes
      → header.packet_type ≡ 206
      → header.count ≡ 15
      → Ensures Filled (parse_remb bytes 12 end fresh)
  unfolding parse_remb parse_remb_fci is_remb_fci byte new_packet is_member is_asked_for
  parse_remb-Ensures end h t f = ground arith

  parse_payload_feedback-Ensures :
      (end : ℕ)
      → 12 ≤ end
      → end ≤ length bytes
      → header.packet_type ≡ 206
      → Ensures Filled (parse_payload_feedback bytes 12 end fresh)
  unfolding parse_payload_feedback new_packet is_member is_asked_for
  parse_payload_feedback-Ensures end l h t =
      ground
        (arith, parse_pli-Ensures end t, parse_fir-Ensures end l h t, parse_remb-Ensures end h t)

  parse_transport_feedback-Ensures :
      (transport : List ℕ → Result A) (end : ℕ)
      → ((packet : List ℕ) → IsSafe (transport packet))
      → AreBytes bytes
      → number < 65536
      → 12 ≤ end
      → end ≤ length bytes
      → header.packet_type ≡ 205
      → Ensures Filled (parse_transport_feedback transport bytes 12 end fresh)
  unfolding parse_transport_feedback new_packet is_member is_asked_for
  parse_transport_feedback-Ensures transport end safe b n l h t =
      ground (arith, safe bytes, parse_generic_nack-Ensures end b n l h t)

abbrev pub IsFeedbackType : ℕ → Type 0
IsFeedbackType t = (t ≡ 205) ⊎ (t ≡ 206)

module _ (A : Type 0) (transport : List ℕ → Result A) (bytes : List ℕ) (number : ℕ) where
  parse_feedback_payload-Ensures :
      (header : RtcpPacketHeader) (end : ℕ)
      → ((packet : List ℕ) → IsSafe (transport packet))
      → AreBytes bytes
      → number < 65536
      → 12 ≤ end
      → end ≤ length bytes
      → IsFeedbackType header.packet_type
      → Ensures
          (IsFilled header (u32_at bytes 4) (u32_at bytes 8) number)
          (parse_feedback_payload transport bytes header end)
  unfolding parse_feedback_payload read_u32 byte
  parse_feedback_payload-Ensures header end safe b n l h t = ground (
    arith,
    parse_transport_feedback-Ensures A bytes header (u32_at bytes 4) (u32_at bytes 8) number
        transport end safe b n l h,
    parse_payload_feedback-Ensures A bytes header (u32_at bytes 4) (u32_at bytes 8) number end l h,
  )

rtcp_feedback_payload_end-Ensures :
    (bytes : List ℕ) (header : RtcpPacketHeader)
    → 12 ≤ header.packet_size
    → Ensures (λ e. (12 ≤ e) × (e ≤ length bytes)) (rtcp_feedback_payload_end header bytes)
unfolding rtcp_feedback_payload_end padded_payload_end byte
rtcp_feedback_payload_end-Ensures bytes header h = ground arith

-- What a parsed feedback packet says of the bytes, and of the number of a packet.
pub record IsFeedback {A : Type 0} (bytes : List ℕ) (number : ℕ) (p : RtcpFeedbackPacket A)
    : Type 0 where
  pub type_of : p.packet_type ≡ at bytes 1
  pub is_feedback : IsFeedbackType p.packet_type
  pub format : p.format ≡ at bytes 0 % 32
  pub sender : p.sender_ssrc ≡ u32_at bytes 4
  pub media : p.media_ssrc ≡ u32_at bytes 8
  pub nacks : length p.nack_entries ≡ p.nack_count
  pub firs : length p.fir_entries ≡ p.fir_count
  pub asked : is_member number p.nack_sequence_numbers ≡ is_asked_for p.nack_entries number
  pub nonzero : is_member 0 p.keyframe_request_media_ssrcs ≡ false
  pub is_nack : p.has_generic_nack ≡ ((p.packet_type == 205) && (p.format == 1))
  pub is_keyframe_request :
      p.has_keyframe_request ≡ (not (p.packet_type == 205) && ((p.format == 1) || (p.format == 4)))

-- On any bytes, with a parser of transport feedback that reads nothing outside its packet,
-- `parse_rtcp_feedback_packet` ends without a read outside the packet. A packet that it returns has
-- the type, format, sender and media source of the bytes at their offsets and as many entries as its
-- counts say. It is a NACK exactly for type 205 and format 1, and a number of 16 bits is among its
-- sequence numbers exactly if one of its entries names it or has it in its mask. It is a key frame
-- request exactly for type 206 and formats 1 and 4, and no SSRC that is 0 is requested.
pub parse_rtcp_feedback_packet-Ensures :
    (A : Type 0) (transport : List ℕ → Result A) (bytes : List ℕ) (number : ℕ)
    → ((packet : List ℕ) → IsSafe (transport packet))
    → AreBytes bytes
    → number < 65536
    → Ensures (IsFeedback bytes number) (parse_rtcp_feedback_packet transport bytes)
unfolding parse_rtcp_feedback_packet
parse_rtcp_feedback_packet-Ensures A transport bytes number safe b n =
    Ensures->>= (IsRtcpHeaderOf bytes) _ (parse_rtcp_packet_header bytes) _
      (parse_rtcp_packet_header-Ensures bytes)
      λ header h.
        Ensures-reject _ (not (header.packet_type == 205 || header.packet_type == 206)) _ _ λ e.
          Ensures-reject _ (ltb header.packet_size 12) _ _ λ f.
            Ensures->>= (λ e. (12 ≤ e) × (e ≤ length bytes)) _
              (rtcp_feedback_payload_end header bytes) _
              (rtcp_feedback_payload_end-Ensures bytes header (ground (arith, f)))
              λ payload_end k.
                Ensures-mono (IsFilled header (u32_at bytes 4) (u32_at bytes 8) number) _ _
                  (parse_feedback_payload-Ensures A transport bytes number header payload_end safe b
                    n k.0 k.1 (ground arith))
                  λ p v. ground arith
