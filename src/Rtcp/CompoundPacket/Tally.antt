-- ===== src/Rtcp/CompoundPacket/Tally.antt =====
-- What the counters of a compound packet say of its blocks, and one more block.
use simple_webrtc.Base.{
  ℕ, ◌+◌, ◌≡◌, ◌≢◌, refl, sym, All, All-append, ◌∙◌, Bool, true, false, ◌||◌, Bool-cases, inl, inr,
  List, [], ◌∷◌, ◌++◌, length, length-append, ◌==◌, Ensures, Ensures->>=, Ensures-with_prefix,
  AreBytes, IsSafe, Ensures-if, arith,
}
use simple_webrtc.Rtp.Packet.{RtcpPacketHeader}
use simple_webrtc.Rtp.Packet.Layout.{parse_rtcp_packet_header-Ensures}
use simple_webrtc.Rtcp.Feedback.{is_rtcp_feedback_packet, parse_rtcp_feedback_packet}
use simple_webrtc.Rtcp.Feedback.Safety.{IsFeedback}
use simple_webrtc.Rtcp.Report.{is_rtcp_report_packet, parse_rtcp_report_packet}
use simple_webrtc.Rtcp.Report.Safety.{IsReport, parse_rtcp_report_packet-Ensures}
use simple_webrtc.Rtcp.TransportFeedback.{parse_rtcp_transport_feedback}
use simple_webrtc.Rtcp.TransportFeedback.Dispatch.{
  parse_rtcp_feedback_packet_with_transport-Ensures,
}
use simple_webrtc.Rtcp.SdesBye.{parse_rtcp_sdes_packet, parse_rtcp_bye_packet}
use simple_webrtc.Rtcp.SdesBye.Safety.{
  AreChunksOf, parse_rtcp_sdes_packet-Ensures, IsByeOf, parse_rtcp_bye_packet-Ensures,
}
use simple_webrtc.Rtcp.CompoundBlock.{
  RtcpCompoundBlock, RtcpCompoundPacket, make_block_from_header, fill_feedback_block, contains,
  add_new_ssrcs, increment_if, aggregate_feedback_block, aggregate_report_packet,
}
use simple_webrtc.Rtcp.CompoundPacket.{
  parse_feedback_block, parse_report_block, parse_sdes_block, parse_bye_block, parse_block,
}

-- No number occurs twice.
abbrev pub IsDistinct : List ℕ → Type 0
IsDistinct [] = Unit {0}
IsDistinct (x ∷ xs) = All (λ y. y ≢ x) xs × IsDistinct xs

contains-All : (s : ℕ) (xs : List ℕ) → contains s xs ≡ false → All (λ x. x ≢ s) xs
unfolding contains
contains-All s [] h = tt
contains-All s (x ∷ xs) h = ground (arith, contains-All s xs)

IsDistinct-append :
    (xs : List ℕ) (y : ℕ) → IsDistinct xs → All (λ x. x ≢ y) xs → IsDistinct (xs ++ y ∷ [])
IsDistinct-append [] y h n = (tt, tt)
IsDistinct-append (x ∷ xs) y h n =
    (All-append (λ z. z ≢ x) xs (y ∷ []) h.0 (λ e. n.0 (sym e), tt), IsDistinct-append xs y h.1 n.1)

add_new_ssrcs-IsDistinct :
    (known ssrcs : List ℕ) → IsDistinct known → IsDistinct (add_new_ssrcs known ssrcs)
unfolding add_new_ssrcs
add_new_ssrcs-IsDistinct known [] h = h
add_new_ssrcs-IsDistinct known (s ∷ ss) h = elim (Bool-cases (contains s known)) [
  | inl e ↦ rw e (add_new_ssrcs-IsDistinct known ss h)
  | inr e ↦ rw e (
      add_new_ssrcs-IsDistinct (known ++ s ∷ []) ss
        (IsDistinct-append known s h (contains-All s known e)))
]

abbrev pub one_if : Bool → ℕ
one_if true = 1
one_if false = 0

pub increment_if-add : (b : Bool) (n : ℕ) → increment_if b n ≡ n + one_if b
increment_if-add true n = refl
increment_if-add false n = omega arith

-- Exactly one of the five flags is set.
abbrev pub IsOfOneKind : RtcpCompoundBlock → Type 0
IsOfOneKind b =
    one_if b.is_feedback
      + one_if b.is_report
      + one_if b.is_sdes
      + one_if b.is_bye
      + one_if b.is_unknown
    ≡ 1

-- How many of the blocks are of a kind.
unfoldable pub tally : (RtcpCompoundBlock → Bool) → List RtcpCompoundBlock → ℕ
tally kind [] = 0
tally kind (b ∷ bs) = one_if (kind b) + tally kind bs

tally-append :
    (kind : RtcpCompoundBlock → Bool) (bs : List RtcpCompoundBlock) (b : RtcpCompoundBlock)
    → tally kind (bs ++ b ∷ []) ≡ tally kind bs + one_if (kind b)
unfolding tally
tally-append kind [] b = omega arith
tally-append kind (x ∷ bs) b = omega (arith, tally-append kind bs b)

pub tally-increment :
    (kind : RtcpCompoundBlock → Bool) (bs : List RtcpCompoundBlock) (b : RtcpCompoundBlock)
    → increment_if (kind b) (tally kind bs) ≡ tally kind (bs ++ b ∷ [])
tally-increment kind bs b = increment_if-add (kind b) (tally kind bs) ∙ sym (tally-append kind bs b)

-- What a block adds to the packet before it is appended.
pub record IsAdded (header : RtcpPacketHeader) (p : RtcpCompoundPacket)
    (r : RtcpCompoundBlock × RtcpCompoundPacket) : Type 0 where
  pub size : r.0.length ≡ header.length
  pub type_of : r.0.packet_type ≡ header.packet_type
  pub before : r.1.blocks ≡ p.blocks
  pub kinds : IsOfOneKind r.0
  pub feedbacks : r.1.feedback_block_count ≡ increment_if r.0.is_feedback p.feedback_block_count
  pub reports : r.1.report_packet_count ≡ increment_if r.0.is_report p.report_packet_count
  pub descriptions : r.1.sdes_packet_count ≡ increment_if r.0.is_sdes p.sdes_packet_count
  pub byes : length r.1.bye_packets ≡ increment_if r.0.is_bye (length p.bye_packets)
  pub unknowns : r.1.unknown_block_count ≡ increment_if r.0.is_unknown p.unknown_block_count
  pub sides :
      r.1.sender_report_count + r.1.receiver_report_count
      ≡ increment_if r.0.is_report (p.sender_report_count + p.receiver_report_count)
  pub kept : length r.1.report_packets ≡ increment_if r.0.is_report (length p.report_packets)
  pub leaves : r.1.has_bye ≡ p.has_bye || r.0.is_bye
  pub nacks : length p.nack_entries ≡ p.nack_count → length r.1.nack_entries ≡ r.1.nack_count
  pub firs : length p.fir_entries ≡ p.fir_count → length r.1.fir_entries ≡ r.1.fir_count
  pub distinct :
      IsDistinct p.keyframe_request_media_ssrcs → IsDistinct r.1.keyframe_request_media_ssrcs

module _ (block_data : List ℕ) (header : RtcpPacketHeader) (p : RtcpCompoundPacket) where
  parse_feedback_block-Ensures :
      AreBytes block_data
      → Ensures
          (IsAdded header p)
          (parse_feedback_block block_data (make_block_from_header header) p)
  unfolding parse_feedback_block fill_feedback_block make_block_from_header aggregate_feedback_block
  parse_feedback_block-Ensures b =
      Ensures-with_prefix (IsFeedback block_data 0) _ _
        (parse_rtcp_feedback_packet parse_rtcp_transport_feedback block_data) _
        (parse_rtcp_feedback_packet_with_transport-Ensures block_data 0 b (omega arith))
        λ f v. record {
          size = refl;
          type_of = refl;
          before = refl;
          kinds = refl;
          feedbacks = refl;
          reports = refl;
          descriptions = refl;
          byes = refl;
          unknowns = refl;
          sides = refl;
          kept = refl;
          leaves = ground arith;
          nacks = λ h. omega (arith, h, v.nacks, length-append p.nack_entries f.nack_entries);
          firs = λ h. omega (arith, h, v.firs, length-append p.fir_entries f.fir_entries);
          distinct =
              add_new_ssrcs-IsDistinct p.keyframe_request_media_ssrcs
                f.keyframe_request_media_ssrcs;
        }

  parse_report_block-Ensures :
      Ensures (IsAdded header p) (parse_report_block block_data (make_block_from_header header) p)
  unfolding parse_report_block make_block_from_header aggregate_report_packet
  parse_report_block-Ensures =
      Ensures-with_prefix (IsReport block_data) _ _ (parse_rtcp_report_packet block_data) _
        (parse_rtcp_report_packet-Ensures block_data)
        λ r v. record {
          size = refl;
          type_of = refl;
          before = refl;
          kinds = refl;
          feedbacks = refl;
          reports = refl;
          descriptions = refl;
          byes = refl;
          unknowns = refl;
          sides = ground arith;
          kept = omega (arith, length-append p.report_packets (r ∷ []));
          leaves = ground arith;
          nacks = λ h. h;
          firs = λ h. h;
          distinct = λ h. h;
        }

  parse_sdes_block-Ensures :
      AreBytes block_data
      → Ensures (IsAdded header p) (parse_sdes_block block_data (make_block_from_header header) p)
  unfolding parse_sdes_block make_block_from_header
  parse_sdes_block-Ensures b =
      Ensures-with_prefix (AreChunksOf block_data) _ _ (parse_rtcp_sdes_packet block_data) _
        (parse_rtcp_sdes_packet-Ensures block_data b)
        λ r v. record {
          size = refl;
          type_of = refl;
          before = refl;
          kinds = refl;
          feedbacks = refl;
          reports = refl;
          descriptions = refl;
          byes = refl;
          unknowns = refl;
          sides = refl;
          kept = refl;
          leaves = ground arith;
          nacks = λ h. h;
          firs = λ h. h;
          distinct = λ h. h;
        }

  parse_bye_block-Ensures :
      AreBytes block_data
      → Ensures (IsAdded header p) (parse_bye_block block_data (make_block_from_header header) p)
  unfolding parse_bye_block make_block_from_header
  parse_bye_block-Ensures b =
      Ensures-with_prefix (IsByeOf block_data) _ _ (parse_rtcp_bye_packet block_data) _
        (parse_rtcp_bye_packet-Ensures block_data b)
        λ r v. record {
          size = refl;
          type_of = refl;
          before = refl;
          kinds = refl;
          feedbacks = refl;
          reports = refl;
          descriptions = refl;
          byes = omega (arith, length-append p.bye_packets (r ∷ []));
          unknowns = refl;
          sides = refl;
          kept = refl;
          leaves = ground arith;
          nacks = λ h. h;
          firs = λ h. h;
          distinct = λ h. h;
        }

  unknown-IsAdded : IsAdded header p (
    record (make_block_from_header header) { is_unknown = true },
    record p { unknown_block_count = p.unknown_block_count + 1 },
  )
  unfolding make_block_from_header
  unknown-IsAdded = record {
    size = refl;
    type_of = refl;
    before = refl;
    kinds = refl;
    feedbacks = refl;
    reports = refl;
    descriptions = refl;
    byes = refl;
    unknowns = refl;
    sides = refl;
    kept = refl;
    leaves = ground arith;
    nacks = λ h. h;
    firs = λ h. h;
    distinct = λ h. h;
  }

  is_rtcp_feedback_packet-IsSafe : IsSafe (is_rtcp_feedback_packet block_data)
  unfolding is_rtcp_feedback_packet
  is_rtcp_feedback_packet-IsSafe = ground (arith, parse_rtcp_packet_header-Ensures block_data)

  is_rtcp_report_packet-IsSafe : IsSafe (is_rtcp_report_packet block_data)
  unfolding is_rtcp_report_packet
  is_rtcp_report_packet-IsSafe = ground (arith, parse_rtcp_packet_header-Ensures block_data)

  -- The branch that is taken adds one block, of one kind.
  pub parse_block-Ensures :
      AreBytes block_data → Ensures (IsAdded header p) (parse_block block_data header p)
  unfolding parse_block
  parse_block-Ensures b =
      Ensures->>= (λ v. Unit {0}) _ (is_rtcp_feedback_packet block_data) _
        is_rtcp_feedback_packet-IsSafe
        λ feedback t.
          Ensures-if _ feedback _ _ (λ e. parse_feedback_block-Ensures b)
            λ e.
              Ensures->>= (λ v. Unit {0}) _ (is_rtcp_report_packet block_data) _
                is_rtcp_report_packet-IsSafe
                λ report t.
                  Ensures-if _ report _ _ (λ e. parse_report_block-Ensures)
                    λ e.
                      Ensures-if _ (header.packet_type == 202) _ _ (λ e. parse_sdes_block-Ensures b)
                        λ e.
                          Ensures-if _ (header.packet_type == 203) _ _
                            (λ e. parse_bye_block-Ensures b) λ e. unknown-IsAdded
