-- ===== src/Rtp/ReceiveStatistics/Tracking.antt =====
-- `update_sequence` of rtp/rtp_receive_statistics.cpp on packets near to the highest before them.
use mathlib.Core.Path.{subst}
use simple_webrtc.Base.{
  ℕ, ◌+◌, ◌-◌, ◌%◌, ◌^◌, ◌≡◌, ◌≤◌, ◌<◌, ◌⊎◌, refl, ap, sym, true, false, ltb, leb, if◌then◌else◌,
  arith,
}
use simple_webrtc.Rtp.ReceiveStatistics.{
  SequenceState, SequenceUpdate, counted, restarted, rejected, update_sequence,
}

-- The state behind `received` packets of which the highest extended number is `highest`, and the
-- first `first`.
pub record Tracks (prior : ℕ × ℕ) (first highest received : ℕ) (s : SequenceState) : Type 0 where
  pub started : s.sequence_initialized ≡ true
  pub base : s.base_sequence_number ≡ first
  pub maximum : s.maximum_sequence_number ≡ highest % 65536
  pub extended : s.sequence_cycles + s.maximum_sequence_number ≡ highest
  pub above : first ≤ highest
  pub packets : s.received_packet_count ≡ received
  pub reported :
      (s.expected_packet_count_prior ≡ prior.0) × (s.received_packet_count_prior ≡ prior.1)

-- The next extended number is less than 3000 ahead of the highest, or less than 100 behind it.
abbrev pub IsNear : ℕ → ℕ → Type 0
IsNear highest e = (highest ≤ e) × (e < highest + 3000) ⊎ (e < highest) × (highest < e + 100)

-- The update counts the packet.
abbrev pub IsTracked : ℕ × ℕ → ℕ → ℕ → ℕ → SequenceUpdate → Type 0
IsTracked prior first highest received (counted s) = Tracks prior first highest received s
IsTracked prior first highest received (restarted s) = ⊥
IsTracked prior first highest received (rejected s) = ⊥

-- The distance that the code computes from 16 bits.
distance-ahead :
    (highest e : ℕ)
    → highest ≤ e
    → e < highest + 3000
    → (e % 65536 + 65536 - highest % 65536) % 65536 ≡ e - highest
distance-ahead highest e l u = omega arith

distance-behind :
    (highest e : ℕ)
    → e < highest
    → highest < e + 100
    → (e % 65536 + 65536 - highest % 65536) % 65536 ≡ 65536 - (highest - e)
distance-behind highest e l u = omega arith

-- The cycles go up by one exactly if the 16 bits went down.
cycles-ahead :
    (cycles highest e : ℕ)
    → cycles + highest % 65536 ≡ highest
    → highest ≤ e
    → e < highest + 3000
    → e < 4294967296
    → (if ltb (e % 65536) (highest % 65536) then (cycles + 65536) % 2 ^ 32 else cycles) + e % 65536
      ≡ e
cycles-ahead cycles highest e h l u small = ground arith

module _ (prior : ℕ × ℕ) (first highest received e : ℕ) (s : SequenceState)
    (t : Tracks prior first highest received s) (small : highest < 4294967296)
    (small_next : e < 4294967296) where
  pub ahead-IsTracked :
      highest ≤ e
      → e < highest + 3000
      → IsTracked prior first e (received + 1) (update_sequence (e % 65536) s)
  unfolding update_sequence
  ahead-IsTracked l u =
      subst (λ m. IsTracked prior first e (received + 1) m) (sym taken)
        (record {
          started = t.started;
          base = t.base;
          maximum = refl;
          extended = extended;
          above = omega (arith, t.above);
          packets = ap (λ n. n + 1) t.packets;
          reported = t.reported;
        })
    where
      near : ltb ((e % 65536 + 65536 - s.maximum_sequence_number) % 65536) 3000 ≡ true
      near = ground (arith, t.maximum, distance-ahead highest e l u)

      extended :
          (if ltb (e % 65536) s.maximum_sequence_number
              then (s.sequence_cycles + 65536) % 2 ^ 32
              else s.sequence_cycles)
            + e % 65536
          ≡ e
      extended = ground (
        arith,
        t.maximum,
        t.extended,
        cycles-ahead s.sequence_cycles highest e (omega (arith, t.maximum, t.extended)) l u
            small_next,
      )

      taken :
          update_sequence (e % 65536) s
          ≡ counted (record s {
            sequence_cycles =
                if ltb (e % 65536) s.maximum_sequence_number
                then (s.sequence_cycles + 65536) % 2 ^ 32
                else s.sequence_cycles;
            maximum_sequence_number = e % 65536;
            received_packet_count = s.received_packet_count + 1;
          })
      taken = rw (t.started, near) refl

  pub behind-IsTracked :
      e < highest
      → highest < e + 100
      → IsTracked prior first highest (received + 1) (update_sequence (e % 65536) s)
  unfolding update_sequence
  behind-IsTracked l u =
      subst (λ m. IsTracked prior first highest (received + 1) m) (sym taken)
        (record {
          started = t.started;
          base = t.base;
          maximum = t.maximum;
          extended = t.extended;
          above = t.above;
          packets = ap (λ n. n + 1) t.packets;
          reported = t.reported;
        })
    where
      far : ltb ((e % 65536 + 65536 - s.maximum_sequence_number) % 65536) 3000 ≡ false
      far = ground (arith, t.maximum, distance-behind highest e l u)

      late : leb ((e % 65536 + 65536 - s.maximum_sequence_number) % 65536) 65436 ≡ false
      late = ground (arith, t.maximum, distance-behind highest e l u)

      taken :
          update_sequence (e % 65536) s
          ≡ counted (record s { received_packet_count = s.received_packet_count + 1 })
      taken = rw (t.started, far, late) refl
