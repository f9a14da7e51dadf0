-- ===== src/Rtp/ReceiveStatistics/Counts.antt =====
-- The counts of a report against the numbers that the source sent.
use mathlib.Core.Path.{subst}
use simple_webrtc.Base.{
  ℕ, suc, ◌+◌, ◌-◌, ◌%◌, ◌^◌, ◌≡◌, ◌<◌, inl, inr, refl, ap, ◌∙◌, min, max, true, false, List, [],
  ◌∷◌, length, ltb, ◌==◌, arith,
}
use simple_webrtc.Base.Int.{ℤ, pos, negsuc, sub_ℕ}
use simple_webrtc.Rtp.ReceiveStatistics.{
  RtpReceiveReportSnapshot, RtpReceiveStatistics, SequenceUpdate, counted, restarted, rejected,
  update_sequence, expected_packet_count, clamp_cumulative_lost, signed_difference, finish_observe,
  observe, reset, preview_report,
}
use simple_webrtc.Rtp.ReceiveStatistics.Tracking.{
  Tracks, IsTracked, IsNear, ahead-IsTracked, behind-IsTracked,
}

-- The packets in the order of their arrival, each near to the highest before it.
abbrev pub AreNear : ℕ → List ℕ → Type 0
AreNear highest [] = Unit {0}
AreNear highest (e ∷ es) = IsNear highest e × (e < 4294967296) × AreNear (max highest e) es

unfoldable pub highest_of : ℕ → List ℕ → ℕ
highest_of highest [] = highest
highest_of highest (e ∷ es) = highest_of (max highest e) es

pub highest_of-lt :
    (highest : ℕ) (es : List ℕ)
    → highest < 4294967296
    → AreNear highest es
    → highest_of highest es < 4294967296
unfolding highest_of
highest_of-lt highest [] h near = h
highest_of-lt highest (e ∷ es) h near =
    highest_of-lt (max highest e) es (omega (arith, near.1)) near.2

-- A number of 24 bits with a sign, the nearest one where it does not fit.
abbrev pub to_i24 : ℤ → ℤ
to_i24 (pos n) = pos (min n 8388607)
to_i24 (negsuc n) = negsuc (min n 8388607)

clamp_cumulative_lost-eq : (v : ℤ) → clamp_cumulative_lost v ≡ to_i24 v
unfolding clamp_cumulative_lost
clamp_cumulative_lost-eq (pos n) = ground arith
clamp_cumulative_lost-eq (negsuc n) = ground arith

-- A report on the packets from `first` to `highest`, of which `received` arrived.
pub record IsReportFor (first highest arrived : ℕ) (p : RtpReceiveReportSnapshot) : Type 0 where
  pub extended : p.extended_highest_sequence_number ≡ highest
  pub expected : p.expected_packet_count ≡ highest - first + 1
  pub received : p.received_packet_count ≡ arrived
  pub lost : p.cumulative_lost ≡ to_i24 (sub_ℕ (highest - first + 1) arrived)

module _ {J : Type 0} (zero_jitter : J) (smooth : ℕ → J → J) (to_u32 : J → ℕ)
    (timestamps arrivals : ℕ → ℕ) (clock_rate : ℕ) where
  -- Packets with these extended numbers are observed; the time stamps are those of the n-th packet.
  unfoldable pub observe_all : ℕ → List ℕ → RtpReceiveStatistics J → RtpReceiveStatistics J
  observe_all n [] r = r
  observe_all n (e ∷ es) r =
      observe_all (suc n) es
        (observe zero_jitter smooth to_u32 (e % 65536) (timestamps n) clock_rate (arrivals n) r).1

  finish_observe-Tracks :
      (prior : ℕ × ℕ) (first highest received n : ℕ) (u : SequenceUpdate)
      (r : RtpReceiveStatistics J)
      → IsTracked prior first highest received u
      → Tracks prior first highest received
          (finish_observe zero_jitter smooth to_u32 u
            (timestamps n)
            clock_rate
            (arrivals n)
            r).1.sequence
  unfolding finish_observe
  finish_observe-Tracks prior first highest received n (counted q) r t = t
  finish_observe-Tracks prior first highest received n (restarted q) r t = absurd t
  finish_observe-Tracks prior first highest received n (rejected q) r t = absurd t

  observe-Tracks :
      (prior : ℕ × ℕ) (first highest received n e : ℕ) (r : RtpReceiveStatistics J)
      → 0 < clock_rate
      → IsTracked prior first highest received (update_sequence (e % 65536) r.sequence)
      → Tracks prior first highest received
          (observe zero_jitter smooth to_u32
            (e % 65536)
            (timestamps n)
            clock_rate
            (arrivals n)
            r).1.sequence
  unfolding observe
  observe-Tracks prior first highest received n e r c t = rw some_rate (
      finish_observe-Tracks prior first highest received n (update_sequence (e % 65536) r.sequence)
        r t)
    where
      some_rate : (clock_rate == 0) ≡ false
      some_rate = ground arith

  pub observe_all-Tracks :
      (prior : ℕ × ℕ) (first highest received n : ℕ) (es : List ℕ) (r : RtpReceiveStatistics J)
      → 0 < clock_rate
      → highest < 4294967296
      → AreNear highest es
      → Tracks prior first highest received r.sequence
      → Tracks prior first
          (highest_of highest es)
          (received + length es)
          (observe_all n es r).sequence
  unfolding observe_all highest_of
  observe_all-Tracks prior first highest received n [] r c small near t =
      subst (λ k. Tracks prior first highest k r.sequence) (omega arith) t
  observe_all-Tracks prior first highest received n (e ∷ es) r c small near t =
      let next =
        (observe zero_jitter smooth to_u32 (e % 65536) (timestamps n) clock_rate (arrivals n)
          r).1 in
      let tracked : Tracks prior first (max highest e) (received + 1) next.sequence =
        observe-Tracks prior first (max highest e) (received + 1) n e r c (step near.0) in
      subst
        (λ k.
          Tracks prior first (highest_of (max highest e) es) k
            (observe_all (suc n) es next).sequence)
        (omega arith)
        (observe_all-Tracks prior first (max highest e) (received + 1) (suc n) es next c
          (omega (arith, near.1)) near.2 tracked)
    where
      step :
          IsNear highest e
          → IsTracked prior first
              (max highest e)
              (received + 1)
              (update_sequence (e % 65536) r.sequence)
      step (inl a) =
          subst
            (λ k. IsTracked prior first k (received + 1) (update_sequence (e % 65536) r.sequence))
            (omega (arith, a.0))
            (ahead-IsTracked prior first highest received e r.sequence t small near.1 a.0 a.1)
      step (inr b) =
          subst
            (λ k. IsTracked prior first k (received + 1) (update_sequence (e % 65536) r.sequence))
            (omega (arith, b.0))
            (behind-IsTracked prior first highest received e r.sequence t small near.1 b.0 b.1)

  pub first-Tracks :
      (first n : ℕ)
      → 0 < clock_rate
      → first < 65536
      → Tracks
          (0, 0)
          first
          first
          1
          (observe zero_jitter smooth to_u32
            (first % 65536)
            (timestamps n)
            clock_rate
            (arrivals n)
            (reset zero_jitter smooth to_u32)).1.sequence
  unfolding observe reset finish_observe update_sequence
  first-Tracks first n c h = rw some_rate (record {
    started = refl;
    base = omega arith;
    maximum = refl;
    extended = omega arith;
    above = omega arith;
    packets = refl;
    reported = (refl, refl);
  })
    where
      some_rate : (clock_rate == 0) ≡ false
      some_rate = ground arith

  pub preview_report-Tracks :
      (prior : ℕ × ℕ) (first highest received : ℕ) (r : RtpReceiveStatistics J)
      → highest < 4294967296
      → Tracks prior first highest received r.sequence
      → IsReportFor first highest received (preview_report zero_jitter smooth to_u32 r)
  unfolding preview_report expected_packet_count signed_difference
  preview_report-Tracks prior first highest received r small t = rw t.started (record {
    extended = ground (arith, t.extended);
    expected = expected;
    received = t.packets;
    lost =
        rw (expected, below)
          (ap (λ n. clamp_cumulative_lost (sub_ℕ (highest - first + 1) n)) t.packets
            ∙ clamp_cumulative_lost-eq (sub_ℕ (highest - first + 1) received));
  })
    where
      expected :
          (r.sequence.sequence_cycles
              + r.sequence.maximum_sequence_number
              + 2 ^ 64
              - r.sequence.base_sequence_number
              + 1)
            % 2 ^ 64
          ≡ highest - first + 1
      expected = omega (arith, t.extended, t.base, t.above)

      below : ltb (highest - first + 1) (2 ^ 63) ≡ true
      below = ground arith

  -- Of the packets of a source that arrive after a reset, at a clock rate above 0, the first with a
  -- number below 2 ^ 16, each later one with its extended number less than 3000 ahead of the highest so
  -- far or less than 100 behind it, below 2 ^ 32, the report before the first commit gives the highest
  -- extended number, the number of packets from the first to it as expected, the arrived packets as
  -- received, and their difference as lost, held within 24 bits with a sign, whatever the wrap-around.
  pub preview_report-observe_all :
      (first : ℕ) (es : List ℕ)
      → 0 < clock_rate
      → first < 65536
      → AreNear first es
      → IsReportFor first (highest_of first es) (1 + length es) (
          preview_report zero_jitter smooth to_u32
            (observe_all 0 (first ∷ es) (reset zero_jitter smooth to_u32)))
  unfolding observe_all
  preview_report-observe_all first es c h near =
      preview_report-Tracks (0, 0) first (highest_of first es) (1 + length es) _
        (highest_of-lt first es (omega arith) near)
        (observe_all-Tracks (0, 0) first first 1 1 es _ c (omega arith) near
          (first-Tracks first 0 c h))
