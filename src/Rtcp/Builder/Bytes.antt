-- ===== src/Rtcp/Builder/Bytes.antt =====
-- The bytes of each packet, written out from RFC 3550 and RFC 4585: what the builders compute.
use mathlib.Core.List.{append_assoc}
use simple_webrtc.Base.{
  ℕ, ◌+◌, ◌-◌, ◌*◌, ◌/◌, ◌%◌, ◌^◌, ◌≤◌, ◌≡◌, ◌≢◌, refl, ◌∙◌, false, List, [], ◌∷◌, ◌++◌, length,
  All, length-append, ok, overwrite-zeros, overwrite-then, zeros, ltb, ◌||◌, not, ◌==◌,
  length-replicate, u16_bytes, u24_bytes, u32_bytes, arith,
}
use simple_webrtc.Base.Int.{lt_neg, gt_pos, u32_of_i32}
use simple_webrtc.Rtcp.Report.{RtcpReportBlock}
use simple_webrtc.Rtcp.Builder.{
  RtcpSenderReportData, RtcpReceiverReportData, write_common_header, write_report_block,
  write_report_blocks, build_rtcp_sender_report, build_rtcp_receiver_report, validate_report,
}

unfoldable pub common_header : ℕ → ℕ → ℕ → List ℕ
common_header count packet_type size = (128 + count) ∷ packet_type ∷ u16_bytes (size / 4 - 1)

unfoldable pub block_bytes : RtcpReportBlock → List ℕ
block_bytes b =
    u32_bytes b.source_ssrc
    ++ ((b.fraction_lost ∷ [])
        ++ (u24_bytes (u32_of_i32 b.cumulative_lost % 2 ^ 24)
            ++ (u32_bytes b.extended_highest_sequence_number
                ++ (u32_bytes b.jitter
                    ++ (u32_bytes b.last_sender_report
                        ++ u32_bytes b.delay_since_last_sender_report)))))

unfoldable pub blocks_bytes : List RtcpReportBlock → List ℕ
blocks_bytes [] = []
blocks_bytes (b ∷ bs) = block_bytes b ++ blocks_bytes bs

-- The cumulative loss of a block fits 24 bits.
abbrev pub LossFits : RtcpReportBlock → Type 0
LossFits b = (lt_neg b.cumulative_lost 8388608 ≡ false) × (gt_pos b.cumulative_lost 8388607 ≡ false)

write_report_block-zeros :
    (front : List ℕ) (offset size rest : ℕ) (b : RtcpReportBlock)
    → offset ≡ length front
    → size ≡ 24 + rest
    → LossFits b
    → write_report_block (front ++ zeros size) offset b
      ≡ ok ((front ++ block_bytes b) ++ zeros rest)
unfolding write_report_block block_bytes
write_report_block-zeros front offset size rest b e f h =
    rw (h.0, h.1, long)
      (overwrite-then front _ offset size (20 + rest) _ e (omega arith) (
        overwrite-then _ _ _ _ (19 + rest) _ (omega (arith, length-append {0})) (omega arith) (
          overwrite-then _ _ _ _ (16 + rest) _ (omega (arith, length-append {0})) (omega arith) (
            overwrite-then _ _ _ _ (12 + rest) _ (omega (arith, length-append {0})) (omega arith) (
              overwrite-then _ _ _ _ (8 + rest) _ (omega (arith, length-append {0})) (omega arith) (
                overwrite-then _ _ _ _ (4 + rest) _ (omega (arith, length-append {0})) (omega arith)
                  (overwrite-zeros _ _ _ _ rest (omega (arith, length-append {0})) (omega arith)
                    ∙ simp append_assoc)))))))
  where
    long : ltb (length (front ++ zeros size)) (offset + 24) ≡ false
    long = ground (arith, length-append front (zeros size), length-replicate {A = ℕ} size 0)

pub length-blocks_bytes : (bs : List RtcpReportBlock) → length (blocks_bytes bs) ≡ length bs * 24
unfolding blocks_bytes block_bytes
length-blocks_bytes [] = omega arith
length-blocks_bytes (b ∷ bs) = omega (arith, length-blocks_bytes bs)

write_report_blocks-zeros :
    (front : List ℕ) (offset size : ℕ) (bs : List RtcpReportBlock)
    → offset ≡ length front
    → size ≡ length bs * 24
    → All LossFits bs
    → write_report_blocks (front ++ zeros size) offset bs ≡ ok (front ++ blocks_bytes bs)
unfolding write_report_blocks blocks_bytes
write_report_blocks-zeros front offset size [] e f h = rw f refl
write_report_blocks-zeros front offset size (b ∷ bs) e f h =
    rw (write_report_block-zeros front offset size (length bs * 24) b e (omega arith) h.0) (
      write_report_blocks-zeros (front ++ block_bytes b) (offset + 24) (length bs * 24) bs
        (omega (arith, length-append front (block_bytes b), block)) refl h.1
      ∙ simp append_assoc)
  where
    block : length (block_bytes b) ≡ 24
    block = unfold block_bytes in refl

pub write_common_header-zeros :
    (count packet_type size rest : ℕ)
    → size ≡ 4 + rest
    → count ≤ 31
    → size % 4 ≡ 0
    → size ≤ 262144
    → write_common_header (zeros size) count packet_type
      ≡ ok (common_header count packet_type size ++ zeros rest)
unfolding write_common_header common_header
write_common_header-zeros count packet_type size rest e c m l =
    rw (length-replicate {A = ℕ} size 0, checks.0, checks.1, checks.2)
      (overwrite-then [] _ 0 size (3 + rest) _ (omega arith) (omega arith) (
        overwrite-then ((128 + count) ∷ []) _ 1 (3 + rest) (2 + rest) _ (omega arith) (omega arith)
          (overwrite-zeros ((128 + count) ∷ packet_type ∷ []) _ 2 (2 + rest) rest (omega arith)
            (omega arith))))
  where
    checks :
        ((ltb size 4 || not (size % 4 == 0)) ≡ false)
        × (ltb 31 count ≡ false)
        × (ltb 65535 (size / 4 - 1) ≡ false)
    checks = ground arith

pub length-common_header :
    (count packet_type size : ℕ) → length (common_header count packet_type size) ≡ 4
unfolding common_header
length-common_header count packet_type size = refl

-- The sender's SSRC, without the checks of the counts.
abbrev pub IsReportable : ℕ → List RtcpReportBlock → Type 0
IsReportable sender_ssrc blocks = (sender_ssrc ≢ 0) × (length blocks ≤ 31) × All LossFits blocks

validate_report_lem : (n ssrc : ℕ) → n ≤ 31 → ssrc ≢ 0 → validate_report n ssrc ≡ ok n
unfolding validate_report
validate_report_lem n ssrc h k = ground arith

unfoldable pub receiver_report_bytes : RtcpReceiverReportData → List ℕ
receiver_report_bytes r =
    (common_header (length r.report_blocks) 201 (4 + 4 + length r.report_blocks * 24)
      ++ u32_bytes r.sender_ssrc)
    ++ blocks_bytes r.report_blocks

-- A receiver report of a nonzero sender, with at most 31 blocks whose losses fit 24 bits, is built,
-- and its bytes are the header, the sender and the blocks of RFC 3550.
pub build_rtcp_receiver_report-bytes :
    (r : RtcpReceiverReportData)
    → IsReportable r.sender_ssrc r.report_blocks
    → build_rtcp_receiver_report r ≡ ok (receiver_report_bytes r)
unfolding build_rtcp_receiver_report receiver_report_bytes
build_rtcp_receiver_report-bytes r h =
    rw
      (
        validate_report_lem (length r.report_blocks) r.sender_ssrc h.1 h.0,
        write_common_header-zeros (length r.report_blocks) 201 (4 + 4 + length r.report_blocks * 24)
            (4 + length r.report_blocks * 24) (omega arith) h.1 (omega arith) (omega arith),
      )
      (overwrite-then _ _ _ _ (length r.report_blocks * 24) _ (omega (arith, length-common_header))
        (omega arith)
        (write_report_blocks-zeros _ _ _ _ (omega (arith, length-append {0}, length-common_header))
          refl h.2))

unfoldable pub sender_report_bytes : RtcpSenderReportData → List ℕ
sender_report_bytes r =
    ((((((common_header (length r.report_blocks) 200 (4 + 4 + 20 + length r.report_blocks * 24)
                ++ u32_bytes r.sender_ssrc)
              ++ u32_bytes (r.ntp_timestamp / 2 ^ 32))
            ++ u32_bytes (r.ntp_timestamp % 2 ^ 32))
          ++ u32_bytes r.rtp_timestamp)
        ++ u32_bytes r.sender_packet_count)
      ++ u32_bytes r.sender_octet_count)
    ++ blocks_bytes r.report_blocks

-- A sender report of a nonzero sender, with at most 31 blocks whose losses fit 24 bits, is built, and
-- its bytes are the header, the sender, the sender info and the blocks of RFC 3550.
pub build_rtcp_sender_report-bytes :
    (r : RtcpSenderReportData)
    → IsReportable r.sender_ssrc r.report_blocks
    → build_rtcp_sender_report r ≡ ok (sender_report_bytes r)
unfolding build_rtcp_sender_report sender_report_bytes
build_rtcp_sender_report-bytes r h =
    let n = length r.report_blocks * 24 in
    rw
      (
        validate_report_lem (length r.report_blocks) r.sender_ssrc h.1 h.0,
        write_common_header-zeros (length r.report_blocks) 200
            (4 + 4 + 20 + length r.report_blocks * 24) (24 + length r.report_blocks * 24)
            (omega arith) h.1 (omega arith) (omega arith),
      )
      (overwrite-then _ _ _ _ (20 + n) _ (omega (arith, length-common_header)) (omega arith) (
        overwrite-then _ _ _ _ (16 + n) _ (omega (arith, length-append {0}, length-common_header))
          (omega arith)
          (overwrite-then _ _ _ _ (12 + n) _
            (omega (arith, length-append {0}, length-common_header)) (omega arith)
            (overwrite-then _ _ _ _ (8 + n) _
              (omega (arith, length-append {0}, length-common_header)) (omega arith)
              (overwrite-then _ _ _ _ (4 + n) _
                (omega (arith, length-append {0}, length-common_header)) (omega arith)
                (overwrite-then _ _ _ _ n _ (omega (arith, length-append {0}, length-common_header))
                  (omega arith)
                  (write_report_blocks-zeros _ _ _ _
                    (omega (arith, length-append {0}, length-common_header)) refl h.2)))))))
