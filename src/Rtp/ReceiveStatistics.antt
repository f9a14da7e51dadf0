-- ===== src/Rtp/ReceiveStatistics.antt =====
-- rtp/rtp_receive_statistics.h and rtp/rtp_receive_statistics.cpp: the sequence numbers received from
-- one source, for its report blocks. The jitter is a `double`: its type `J`, the zero, the smoothing
-- step `jitter_ += (absolute_delta - jitter_) / 16.0` on an absolute difference, and the clamped cast
-- to 32 bits are parameters. Time points are nanoseconds; an interval that would be negative is 0, as
-- the code makes it. A field's trailing `_` is left out.
pub mod Tracking
pub mod Counts
pub mod Intervals
use simple_webrtc.Base.{
  ℕ, zero, suc, ◌+◌, ◌-◌, ◌*◌, ◌/◌, ◌%◌, ◌^◌, min, Bool, true, false, not, ◌||◌, ◌&&◌, List, ltb,
  leb, ◌==◌, if◌then◌else◌,
}
use simple_webrtc.Base.Int.{ℤ, pos, negsuc, sub_ℕ, lt_neg, gt_pos, i32_of_u32}

pub record RtpReceiveReportSnapshot : Type 0 where
  pub fraction_lost : ℕ
  pub cumulative_lost : ℤ
  pub extended_highest_sequence_number : ℕ
  pub jitter : ℕ
  pub expected_packet_count : ℕ
  pub received_packet_count : ℕ

-- The fields of the jitter.
pub record JitterState (J : Type 0) : Type 0 where
  pub clock_rate : ℕ
  pub jitter_initialized : Bool
  pub arrival_anchor : ℕ
  pub rtp_timestamp_anchor : ℕ
  pub previous_transit : ℤ
  pub jitter : J

-- The fields of the sequence numbers.
pub record SequenceState : Type 0 where
  pub sequence_initialized : Bool
  pub base_sequence_number : ℕ
  pub maximum_sequence_number : ℕ
  pub bad_sequence_number : ℕ
  pub sequence_cycles : ℕ
  pub received_packet_count : ℕ
  pub expected_packet_count_prior : ℕ
  pub received_packet_count_prior : ℕ

pub record RtpReceiveStatistics (J : Type 0) : Type 0 where
  pub sequence : SequenceState
  pub timing : JitterState J

unfoldable pub initialize_sequence : ℕ → SequenceState
initialize_sequence sequence_number = record {
  sequence_initialized = true;
  base_sequence_number = sequence_number;
  maximum_sequence_number = sequence_number;
  bad_sequence_number = 65537;
  sequence_cycles = 0;
  received_packet_count = 0;
  expected_packet_count_prior = 0;
  received_packet_count_prior = 0;
}

-- What becomes of a packet: counted, counted with everything started anew, or not counted.
pub data SequenceUpdate : Type 0 where
  counted : SequenceState → SequenceUpdate
  restarted : SequenceState → SequenceUpdate
  rejected : SequenceState → SequenceUpdate

abbrev count_packet : SequenceState → SequenceState
count_packet s = record s { received_packet_count = s.received_packet_count + 1 }

unfoldable pub update_sequence : ℕ → SequenceState → SequenceUpdate
unfolding initialize_sequence
update_sequence sequence_number s =
    let delta = (sequence_number + 65536 - s.maximum_sequence_number) % 65536 in
    if not s.sequence_initialized
    then counted (record (initialize_sequence sequence_number) { received_packet_count = 1 })
    else if ltb delta 3000
    then counted (
        count_packet (record s {
          sequence_cycles =
              if ltb sequence_number s.maximum_sequence_number
              then (s.sequence_cycles + 65536) % 2 ^ 32
              else s.sequence_cycles;
          maximum_sequence_number = sequence_number;
        }))
    else if leb delta 65436
    then if sequence_number == s.bad_sequence_number
      then restarted (count_packet (initialize_sequence sequence_number))
      else rejected (record s { bad_sequence_number = (sequence_number + 1) % 65536 })
    else counted (count_packet s)

unfoldable pub expected_packet_count : SequenceState → ℕ
expected_packet_count s =
    if not s.sequence_initialized
    then 0
    else (s.sequence_cycles + s.maximum_sequence_number + 2 ^ 64 - s.base_sequence_number + 1)
      % 2 ^ 64

unfoldable pub clamp_cumulative_lost : ℤ → ℤ
clamp_cumulative_lost value =
    if lt_neg value 8388608
    then negsuc 8388607
    else if gt_pos value 8388607
    then pos 8388607
    else value

-- `static_cast<int64_t>(left) - static_cast<int64_t>(right)`, where `right` is below 2 ^ 63.
unfoldable pub signed_difference : ℕ → ℕ → ℤ
signed_difference left right =
    if ltb left (2 ^ 63) then sub_ℕ left right else negsuc (2 ^ 64 - 1 - left + right)

unfoldable pub fraction_lost_of : ℕ → ℤ → ℕ
fraction_lost_of expected_interval (negsuc n) = 0
fraction_lost_of expected_interval (pos lost) =
    if not (expected_interval == 0) && ltb 0 lost
    then min (lost * 256 % 2 ^ 64 / expected_interval) 255 % 256
    else 0

unfoldable pub commit_sequence : SequenceState → SequenceState
unfolding expected_packet_count
commit_sequence s = record s {
  expected_packet_count_prior = expected_packet_count s;
  received_packet_count_prior = s.received_packet_count;
}

-- `wrapping_difference(left, right)`.
unfoldable pub wrapping_difference : ℕ → ℕ → ℤ
wrapping_difference left right = i32_of_u32 ((left + 2 ^ 32 - right) % 2 ^ 32)

-- `|left - right|` in 64 bits.
unfoldable pub absolute_difference : ℤ → ℤ → ℕ
absolute_difference (pos a) (pos b) = if leb b a then a - b else b - a
absolute_difference (pos a) (negsuc b) = a + b + 1
absolute_difference (negsuc a) (pos b) = a + b + 1
absolute_difference (negsuc a) (negsuc b) = if leb b a then a - b else b - a

module _ {J : Type 0} (zero_jitter : J) (smooth : ℕ → J → J) (to_u32 : J → ℕ) where
  abbrev pub no_timing : JitterState J
  no_timing = record {
    clock_rate = 0;
    jitter_initialized = false;
    arrival_anchor = 0;
    rtp_timestamp_anchor = 0;
    previous_transit = pos 0;
    jitter = zero_jitter;
  }

  unfoldable pub reset : RtpReceiveStatistics J
  reset = record {
    sequence = record {
      sequence_initialized = false;
      base_sequence_number = 0;
      maximum_sequence_number = 0;
      bad_sequence_number = 65537;
      sequence_cycles = 0;
      received_packet_count = 0;
      expected_packet_count_prior = 0;
      received_packet_count_prior = 0;
    };
    timing = no_timing;
  }

  unfoldable pub update_jitter : ℕ → ℕ → ℕ → JitterState J → JitterState J
  unfolding wrapping_difference absolute_difference
  update_jitter rtp_timestamp clock_rate arrival_time t =
      if not t.jitter_initialized || not (t.clock_rate == clock_rate)
      then record {
        clock_rate = clock_rate;
        jitter_initialized = true;
        arrival_anchor = arrival_time;
        rtp_timestamp_anchor = rtp_timestamp;
        previous_transit = pos 0;
        jitter = zero_jitter;
      }
      else (let elapsed =
            (arrival_time - t.arrival_anchor) / 1000 * t.clock_rate % 2 ^ 64 / 1000000 in
          let arrival_timestamp = (t.rtp_timestamp_anchor + elapsed % 2 ^ 32) % 2 ^ 32 in
          let transit = wrapping_difference arrival_timestamp rtp_timestamp in
          record t {
            jitter = smooth (absolute_difference transit t.previous_transit) t.jitter;
            previous_transit = transit;
          })

  -- The part of `observe` behind the update of the sequence numbers.
  unfoldable pub finish_observe :
      SequenceUpdate → ℕ → ℕ → ℕ → RtpReceiveStatistics J → Bool × RtpReceiveStatistics J
  finish_observe (rejected q) rtp_timestamp clock_rate arrival_time s =
      (false, record s { sequence = q })
  finish_observe (counted q) rtp_timestamp clock_rate arrival_time s = (
    true,
    record { sequence = q; timing = update_jitter rtp_timestamp clock_rate arrival_time s.timing },
  )
  finish_observe (restarted q) rtp_timestamp clock_rate arrival_time s = (
    true,
    record { sequence = q; timing = update_jitter rtp_timestamp clock_rate arrival_time no_timing },
  )

  unfoldable pub observe : ℕ → ℕ → ℕ → ℕ → RtpReceiveStatistics J → Bool × RtpReceiveStatistics J
  observe sequence_number rtp_timestamp clock_rate arrival_time s =
      if clock_rate == 0
      then (false, s)
      else finish_observe (update_sequence sequence_number s.sequence) rtp_timestamp clock_rate
          arrival_time s

  unfoldable pub preview_report : RtpReceiveStatistics J → RtpReceiveReportSnapshot
  preview_report r =
      let s = r.sequence in
      if not s.sequence_initialized
      then record {
        fraction_lost = 0;
        cumulative_lost = pos 0;
        extended_highest_sequence_number = 0;
        jitter = 0;
        expected_packet_count = 0;
        received_packet_count = 0;
      }
      else (let expected = expected_packet_count s in
          let expected_interval = (expected + 2 ^ 64 - s.expected_packet_count_prior) % 2 ^ 64 in
          let received_interval =
            (s.received_packet_count + 2 ^ 64 - s.received_packet_count_prior) % 2 ^ 64 in
          record {
            fraction_lost =
                fraction_lost_of expected_interval
                  (signed_difference expected_interval received_interval);
            cumulative_lost =
                clamp_cumulative_lost (signed_difference expected s.received_packet_count);
            extended_highest_sequence_number =
                (s.sequence_cycles + s.maximum_sequence_number) % 2 ^ 32;
            jitter = to_u32 r.timing.jitter;
            expected_packet_count = expected;
            received_packet_count = s.received_packet_count;
          })

  unfoldable pub commit_report : RtpReceiveStatistics J → RtpReceiveStatistics J
  unfolding commit_sequence
  commit_report r = record r { sequence = commit_sequence r.sequence }
