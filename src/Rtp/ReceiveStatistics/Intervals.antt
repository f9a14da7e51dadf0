-- ===== src/Rtp/ReceiveStatistics/Intervals.antt =====
-- The report behind a committed one: its fraction is that of the packets since.
use simple_webrtc.Base.{
  ℕ, suc, ◌+◌, ◌-◌, ◌*◌, ◌/◌, ◌%◌, ◌^◌, ◌≡◌, ◌∙◌, ◌≤◌, ◌<◌, min, max, List, [], ◌∷◌, length, leb,
  if◌then◌else◌, arith,
}
use simple_webrtc.Rtp.ReceiveStatistics.{
  RtpReceiveReportSnapshot, RtpReceiveStatistics, SequenceState, expected_packet_count,
  signed_difference, fraction_lost_of, commit_sequence, preview_report, commit_report, reset,
}
use simple_webrtc.Rtp.ReceiveStatistics.Tracking.{Tracks}
use simple_webrtc.Rtp.ReceiveStatistics.Counts.{
  AreNear, highest_of, highest_of-lt, IsReportFor, observe_all, observe_all-Tracks, first-Tracks,
  preview_report-Tracks,
}

-- The lost share of the expected packets, in 256ths: 255 at most, and 0 where none is lost.
abbrev pub loss_fraction : ℕ → ℕ → ℕ
loss_fraction expected received =
    if leb expected received then 0 else min 255 ((expected - received) * 256 / expected)

capped : (q : ℕ) → min q 255 % 256 ≡ min 255 q
capped q = ground arith

fraction_lost_of-difference :
    (expected received : ℕ)
    → expected ≤ 4294967296
    → fraction_lost_of expected (signed_difference expected received)
      ≡ loss_fraction expected received
unfolding fraction_lost_of signed_difference
fraction_lost_of-difference expected received h =
    ground (arith, whole, capped ((expected - received) * 256 / expected))
  where
    whole : (expected - received) * 256 % 2 ^ 64 ≡ (expected - received) * 256
    whole = omega arith

expected_packet_count-Tracks :
    (prior : ℕ × ℕ) (first highest received : ℕ) (s : SequenceState)
    → highest < 4294967296
    → Tracks prior first highest received s
    → expected_packet_count s ≡ highest - first + 1
unfolding expected_packet_count
expected_packet_count-Tracks prior first highest received s small t =
    rw t.started (omega (arith, t.extended, t.base, t.above))

commit_sequence-Tracks :
    (prior : ℕ × ℕ) (first highest received : ℕ) (s : SequenceState)
    → highest < 4294967296
    → Tracks prior first highest received s
    → Tracks (highest - first + 1, received) first highest received (commit_sequence s)
unfolding commit_sequence
commit_sequence-Tracks prior first highest received s small t = record {
  started = t.started;
  base = t.base;
  maximum = t.maximum;
  extended = t.extended;
  above = t.above;
  packets = t.packets;
  reported = (expected_packet_count-Tracks prior first highest received s small t, t.packets);
}

highest_of-ge : (highest : ℕ) (es : List ℕ) → highest ≤ highest_of highest es
unfolding highest_of
highest_of-ge highest [] = omega arith
highest_of-ge highest (e ∷ es) = omega (arith, highest_of-ge (max highest e) es)

module _ {J : Type 0} (zero_jitter : J) (smooth : ℕ → J → J) (to_u32 : J → ℕ)
    (timestamps arrivals : ℕ → ℕ) (clock_rate : ℕ) where
  preview_report-fraction :
      (prior : ℕ × ℕ) (first highest received : ℕ) (r : RtpReceiveStatistics J)
      → highest < 4294967296
      → prior.0 ≤ highest - first + 1
      → prior.1 ≤ received
      → received - prior.1 < 2 ^ 64
      → Tracks prior first highest received r.sequence
      → (preview_report zero_jitter smooth to_u32 r).fraction_lost
        ≡ loss_fraction (highest - first + 1 - prior.0) (received - prior.1)
  unfolding preview_report
  preview_report-fraction prior first highest received r small p q few t =
      rw
        (
          expected_packet_count-Tracks prior first highest received r.sequence small t,
          t.started,
          t.packets,
          t.reported.0,
          t.reported.1,
          expected_interval,
          received_interval,
        )
        (fraction_lost_of-difference (highest - first + 1 - prior.0) (received - prior.1)
          (omega arith))
    where
      expected_interval :
          (highest - first + 1 + 2 ^ 64 - prior.0) % 2 ^ 64 ≡ highest - first + 1 - prior.0
      expected_interval = omega arith

      received_interval : (received + 2 ^ 64 - prior.1) % 2 ^ 64 ≡ received - prior.1
      received_interval = omega arith

  -- The report on packets that arrive behind a first report, which is committed.
  abbrev pub next_report : ℕ → List ℕ → List ℕ → RtpReceiveReportSnapshot
  next_report first es later = preview_report zero_jitter smooth to_u32 (
      observe_all zero_jitter smooth to_u32 timestamps arrivals clock_rate (suc (length es)) later (
        commit_report zero_jitter smooth to_u32 (
          observe_all zero_jitter smooth to_u32 timestamps arrivals clock_rate 0 (first ∷ es)
            (reset zero_jitter smooth to_u32))))

  -- The first packets of a source arrive after a reset, at a clock rate above 0 and from a number below
  -- 2 ^ 16 on, a report is committed, and fewer than 2 ^ 64 later packets arrive, all less than 3000
  -- ahead of the highest extended number so far or less than 100 behind it, below 2 ^ 32. The next report's fraction is the lost share, in 256ths and 255 at
  -- most, of the numbers by which the highest has gone up since the first report, of which as many
  -- count as received as later packets arrived; it is 0 where none of them is lost. The report's counts
  -- are those of all packets.
  pub preview_report-commit_report :
      (first : ℕ) (es later : List ℕ)
      → 0 < clock_rate
      → first < 65536
      → AreNear first es
      → AreNear (highest_of first es) later
      → length later < 2 ^ 64
      → ((next_report first es later).fraction_lost
          ≡ loss_fraction
              (highest_of (highest_of first es) later - highest_of first es)
              (length later))
        × IsReportFor first
            (highest_of (highest_of first es) later)
            (1 + length es + length later)
            (next_report first es later)
  unfolding observe_all commit_report
  preview_report-commit_report first es later c h near near_later few =
      let highest = highest_of first es in
      let prior : ℕ × ℕ = (highest - first + 1, 1 + length es) in
      let small = highest_of-lt first es (omega arith) near in
      let small_later = highest_of-lt highest later small near_later in
      let up = highest_of-ge first es in
      let up_later = highest_of-ge highest later in
      let started =
        first-Tracks zero_jitter smooth to_u32 timestamps arrivals clock_rate first 0 c h in
      let before =
        observe_all-Tracks zero_jitter smooth to_u32 timestamps arrivals clock_rate (0, 0) first
          first 1 1 es _ c (omega arith) near started in
      let behind =
        observe_all-Tracks zero_jitter smooth to_u32 timestamps arrivals clock_rate prior first
          highest (1 + length es) (suc (length es)) later _ c small near_later
          (commit_sequence-Tracks (0, 0) first highest (1 + length es) _ small before) in
      (
        preview_report-fraction prior first (highest_of highest later)
              (1 + length es + length later) _ small_later (omega (arith, up, up_later))
              (omega arith) (omega (arith, few)) behind
            ∙ same_fraction (omega (arith, up, up_later)) (omega arith),
        preview_report-Tracks zero_jitter smooth to_u32 timestamps arrivals clock_rate prior first
            (highest_of highest later) (1 + length es + length later) _ small_later behind,
      )
    where
      same_fraction : {a b c d : ℕ} → a ≡ c → b ≡ d → loss_fraction a b ≡ loss_fraction c d
      same_fraction e f = cc
