-- ===== src/Tests/ReceiveStatistics.antt =====
-- The theorems on rtp_receive_statistics.cpp at concrete packets, with whole numbers as jitter.
use simple_webrtc.Base.{
  ℕ, ◌≡◌, refl, ◌-◌, ◌+◌, ◌*◌, ◌/◌, ◌%◌, inl, inr, List, [], ◌∷◌, length, arith,
}
use simple_webrtc.Rtp.ReceiveStatistics.{
  RtpReceiveReportSnapshot, RtpReceiveStatistics, reset, preview_report,
}
use simple_webrtc.Rtp.ReceiveStatistics.Intervals.{
  loss_fraction, next_report, preview_report-commit_report,
}
use simple_webrtc.Rtp.ReceiveStatistics.Counts.{
  IsReportFor, highest_of, observe_all, preview_report-observe_all,
}

abbrev smooth : ℕ → ℕ → ℕ
smooth delta jitter = (delta + 15 * jitter) / 16

abbrev to_u32 : ℕ → ℕ
to_u32 jitter = jitter % 4294967296

-- Behind packet 65534, packet 65538, which is 2 on the wire, and the late packet 65535.
abbrev numbers : List ℕ
numbers = 65538 ∷ 65535 ∷ []

abbrev clock : ℕ → ℕ
clock n = n * 3000

abbrev observed : RtpReceiveStatistics ℕ
observed = observe_all 0 smooth to_u32 clock clock 90000 0 (65534 ∷ numbers) (reset 0 smooth to_u32)

preview_report-observe_all_example :
    IsReportFor 65534
      (highest_of 65534 numbers)
      (1 + length numbers)
      (preview_report 0 smooth to_u32 observed)
preview_report-observe_all_example =
    preview_report-observe_all 0 smooth to_u32 clock clock 90000 65534 numbers (omega arith)
      (omega arith)
      (
        inl (omega arith, omega arith),
        omega arith,
        (inr (omega arith, omega arith), omega arith, tt),
      )

-- Of the numbers 65539 to 65544, two arrive behind the committed report.
abbrev later : List ℕ
later = 65540 ∷ 65544 ∷ []

abbrev next : RtpReceiveReportSnapshot
next = next_report 0 smooth to_u32 clock clock 90000 65534 numbers later

-- Four of six are lost.
next-fraction : loss_fraction 6 2 ≡ 170
next-fraction = refl

preview_report-commit_report_example :
    (next.fraction_lost
      ≡ loss_fraction
          (highest_of (highest_of 65534 numbers) later - highest_of 65534 numbers)
          (length later))
    × IsReportFor 65534
        (highest_of (highest_of 65534 numbers) later)
        (1 + length numbers + length later)
        next
unfolding highest_of
preview_report-commit_report_example =
    preview_report-commit_report 0 smooth to_u32 clock clock 90000 65534 numbers later (omega arith)
      (omega arith)
      (
        inl (omega arith, omega arith),
        omega arith,
        (inr (omega arith, omega arith), omega arith, tt),
      )
      (
        inl (omega arith, omega arith),
        omega arith,
        (inl (omega arith, omega arith), omega arith, tt),
      )
      (omega arith)
