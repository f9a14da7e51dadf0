-- ===== src/Rtcp/Builder.antt =====
-- rtp/rtcp_packet_builder.h and rtp/rtcp_packet_builder.cpp: the RTCP packets that the server
-- sends. A packet is a vector of zeros of its final size, written piece by piece. A C++
-- `std::string_view` is the list of its bytes.
pub mod Compound
pub mod Bytes
use simple_webrtc.Base.{
  ℕ, zero, suc, ◌+◌, ◌-◌, ◌*◌, ◌/◌, ◌%◌, ◌^◌, Bool, true, false, ◌||◌, ◌&&◌, List, [], ◌∷◌, ltb,
  leb, ◌==◌, not, if◌then◌else◌, bit_set, length, Result, ok, ◌>>=◌, ◌>>◌, reject, byte, read_u16,
  read_u32, overwrite, write_byte, write_u16, write_u24, write_u32, zeros,
}
use simple_webrtc.Base.Int.{lt_neg, gt_pos, u32_of_i32}
use simple_webrtc.Rtcp.Report.{RtcpReportBlock}

pub record RtcpSenderReportData : Type 0 where
  pub sender_ssrc : ℕ
  pub ntp_timestamp : ℕ
  pub rtp_timestamp : ℕ
  pub sender_packet_count : ℕ
  pub sender_octet_count : ℕ
  pub report_blocks : List RtcpReportBlock

pub record RtcpReceiverReportData : Type 0 where
  pub sender_ssrc : ℕ
  pub report_blocks : List RtcpReportBlock

pub record RtcpFirRequest : Type 0 where
  pub media_ssrc : ℕ
  pub sequence_number : ℕ

unfoldable pub write_common_header : List ℕ → ℕ → ℕ → Result (List ℕ)
write_common_header packet count packet_type = do
  reject (ltb (length packet) 4 || not (length packet % 4 == 0)) "rtcp packet size is invalid"
  reject (ltb 31 count) "rtcp packet count exceeds five-bit field"
  let length_words = length packet / 4 - 1
  reject (ltb 65535 length_words) "rtcp packet length exceeds sixteen-bit field"
  p ← write_byte packet 0 (2 * 64 + count)
  p ← write_byte p 1 packet_type
  write_u16 p 2 length_words

unfoldable pub write_report_block : List ℕ → ℕ → RtcpReportBlock → Result (List ℕ)
write_report_block packet offset block = do
  reject (lt_neg block.cumulative_lost 8388608 || gt_pos block.cumulative_lost 8388607)
      "rtcp cumulative lost exceeds signed 24-bit field"
  reject (ltb (length packet) (offset + 24)) "rtcp report block output is truncated"
  p ← write_u32 packet offset block.source_ssrc
  p ← write_byte p (offset + 4) block.fraction_lost
  p ← write_u24 p (offset + 5) (u32_of_i32 block.cumulative_lost % 2 ^ 24)
  p ← write_u32 p (offset + 8) block.extended_highest_sequence_number
  p ← write_u32 p (offset + 12) block.jitter
  p ← write_u32 p (offset + 16) block.last_sender_report
  write_u32 p (offset + 20) block.delay_since_last_sender_report

unfoldable pub write_report_blocks : List ℕ → ℕ → List RtcpReportBlock → Result (List ℕ)
write_report_blocks packet offset [] = ok packet
write_report_blocks packet offset (block ∷ blocks) = do
  p ← write_report_block packet offset block
  write_report_blocks p (offset + 24) blocks

-- `static_cast<uint8_t>` of a count that the test bounds.
unfoldable pub validate_report : ℕ → ℕ → Result ℕ
validate_report report_count sender_ssrc = do
  reject (sender_ssrc == 0) "rtcp report sender ssrc is zero"
  reject (ltb 31 report_count) "rtcp report block count exceeds five-bit field"
  ok (report_count % 256)

unfoldable pub validate_rtcp_packet : List ℕ → Result ℕ
validate_rtcp_packet packet = do
  reject (ltb (length packet) 4 || not (length packet % 4 == 0))
      "rtcp compound member size is invalid"
  first ← byte packet 0
  reject (not (first / 64 == 2)) "rtcp compound member version is invalid"
  length_words ← read_u16 packet 2
  reject (not ((length_words + 1) * 4 == length packet))
      "rtcp compound member length does not match buffer"
  byte packet 1

unfoldable pub build_rtcp_sender_report : RtcpSenderReportData → Result (List ℕ)
build_rtcp_sender_report report = do
  report_count ← validate_report (length report.report_blocks) report.sender_ssrc
  let packet_size = 4 + 4 + 20 + length report.report_blocks * 24
  p ← write_common_header (zeros packet_size) report_count 200
  p ← write_u32 p 4 report.sender_ssrc
  p ← write_u32 p 8 (report.ntp_timestamp / 2 ^ 32)
  p ← write_u32 p 12 (report.ntp_timestamp % 2 ^ 32)
  p ← write_u32 p 16 report.rtp_timestamp
  p ← write_u32 p 20 report.sender_packet_count
  p ← write_u32 p 24 report.sender_octet_count
  write_report_blocks p 28 report.report_blocks

unfoldable pub build_rtcp_receiver_report : RtcpReceiverReportData → Result (List ℕ)
build_rtcp_receiver_report report = do
  report_count ← validate_report (length report.report_blocks) report.sender_ssrc
  let packet_size = 4 + 4 + length report.report_blocks * 24
  p ← write_common_header (zeros packet_size) report_count 201
  p ← write_u32 p 4 report.sender_ssrc
  write_report_blocks p 8 report.report_blocks

-- `(size + 3) & ~3`.
unfoldable pub align_4 : ℕ → ℕ
align_4 size = (size + 3) / 4 * 4

unfoldable pub build_rtcp_sdes_cname : ℕ → List ℕ → Result (List ℕ)
unfolding align_4
build_rtcp_sdes_cname ssrc cname = do
  reject (ssrc == 0) "rtcp sdes ssrc is zero"
  reject (length cname == 0) "rtcp sdes cname is empty"
  reject (ltb 255 (length cname)) "rtcp sdes cname exceeds eight-bit length field"
  p ← write_common_header (zeros (align_4 (4 + 4 + 2 + length cname + 1))) 1 202
  p ← write_u32 p 4 ssrc
  p ← write_byte p 8 1
  p ← write_byte p 9 (length cname % 256)
  p ← overwrite p 10 cname
  write_byte p (10 + length cname) 0

unfoldable pub build_rtcp_picture_loss_indication : ℕ → ℕ → Result (List ℕ)
build_rtcp_picture_loss_indication sender_ssrc media_ssrc = do
  reject (sender_ssrc == 0) "rtcp pli sender ssrc is zero"
  reject (media_ssrc == 0) "rtcp pli media ssrc is zero"
  p ← write_common_header (zeros 12) 1 206
  p ← write_u32 p 4 sender_ssrc
  write_u32 p 8 media_ssrc

unfoldable pub write_fir_requests : List ℕ → ℕ → List RtcpFirRequest → Result (List ℕ)
write_fir_requests packet offset [] = ok packet
write_fir_requests packet offset (request ∷ requests) = do
  reject (request.media_ssrc == 0) "rtcp fir media ssrc is zero"
  p ← write_u32 packet offset request.media_ssrc
  p ← write_byte p (offset + 4) request.sequence_number
  write_fir_requests p (offset + 8) requests

unfoldable pub build_rtcp_full_intra_request : ℕ → List RtcpFirRequest → Result (List ℕ)
build_rtcp_full_intra_request sender_ssrc requests = do
  reject (sender_ssrc == 0) "rtcp fir sender ssrc is zero"
  reject (length requests == 0) "rtcp fir request list is empty"
  reject (ltb ((2 ^ 64 - 1 - 12) / 8) (length requests)) "rtcp fir request list is too large"
  p ← write_common_header (zeros (12 + length requests * 8)) 4 206
  p ← write_u32 p 4 sender_ssrc
  p ← write_u32 p 8 0
  write_fir_requests p 12 requests

unfoldable pub reject_zero_ssrcs : List ℕ → Result (Unit {0})
reject_zero_ssrcs [] = ok tt
reject_zero_ssrcs (ssrc ∷ ssrcs) = do
  reject (ssrc == 0) "rtcp bye ssrc is zero"
  reject_zero_ssrcs ssrcs

unfoldable pub write_ssrcs : List ℕ → ℕ → List ℕ → Result (List ℕ)
write_ssrcs packet offset [] = ok packet
write_ssrcs packet offset (ssrc ∷ ssrcs) = do
  p ← write_u32 packet offset ssrc
  write_ssrcs p (offset + 4) ssrcs

unfoldable pub write_reason : List ℕ → ℕ → List ℕ → Result (List ℕ)
write_reason packet offset [] = ok packet
write_reason packet offset (c ∷ cs) = do
  p ← write_byte packet offset (length (c ∷ cs) % 256)
  overwrite p (offset + 1) (c ∷ cs)

unfoldable pub build_rtcp_bye : List ℕ → List ℕ → Result (List ℕ)
unfolding align_4
build_rtcp_bye ssrcs reason = do
  reject (length ssrcs == 0) "rtcp bye ssrc list is empty"
  reject (ltb 31 (length ssrcs)) "rtcp bye ssrc count exceeds five-bit field"
  reject (ltb 255 (length reason)) "rtcp bye reason exceeds eight-bit length field"
  reject_zero_ssrcs ssrcs
  let reason_size = if length reason == 0 then 0 else 1 + length reason
  p ←
      write_common_header (zeros (align_4 (4 + length ssrcs * 4 + reason_size)))
        (length ssrcs % 256) 203
  p ← write_ssrcs p 4 ssrcs
  write_reason p (4 + length ssrcs * 4) reason
