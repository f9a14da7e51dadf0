-- ===== src/Rtcp/Builder/Compound.antt =====
-- The compound packets of rtp/rtcp_packet_builder.cpp: members are checked one by one with the
-- running size, and joined.
pub mod Members
use simple_webrtc.Base.{
  ℕ, ◌+◌, ◌-◌, Bool, true, false, ◌||◌, ◌&&◌, List, [], ◌∷◌, ◌++◌, ltb, ◌==◌, not, if◌then◌else◌,
  bit_set, length, Result, ok, ◌>>=◌, ◌>>◌, reject, byte, read_u32,
}
use simple_webrtc.Rtcp.Builder.{
  validate_rtcp_packet, build_rtcp_receiver_report, build_rtcp_sdes_cname, build_rtcp_bye,
}

abbrev pub is_empty {ℓ} : {A : Type ℓ} → List A → Bool
is_empty [] = true
is_empty (x ∷ xs) = false

-- The loop over the members; `is_first` is `index == 0`, and the last member has none behind it.
unfoldable pub validate_members : ℕ → Bool → ℕ → Bool → List (List ℕ) → Result Bool
validate_members maximum_size is_first total_size has_sdes [] = ok has_sdes
validate_members maximum_size is_first total_size has_sdes (packet ∷ packets) = do
  packet_type ← validate_rtcp_packet packet
  reject (is_first && not (packet_type == 200 || packet_type == 201))
      "rtcp compound packet must begin with sender or receiver report"
  first ← byte packet 0
  reject (bit_set first 5 && not (is_empty packets))
      "rtcp compound padding is only allowed on final member"
  reject (ltb maximum_size total_size || ltb (maximum_size - total_size) (length packet))
      "rtcp compound packet exceeds maximum size"
  validate_members maximum_size false (total_size + length packet) (has_sdes || packet_type == 202)
      packets

unfoldable pub join : List (List ℕ) → List ℕ
join [] = []
join (packet ∷ packets) = packet ++ join packets

unfoldable pub build_rtcp_compound_packet : List (List ℕ) → ℕ → Result (List ℕ)
build_rtcp_compound_packet packets maximum_size = do
  reject (is_empty packets) "rtcp compound packet list is empty"
  reject (ltb maximum_size 4) "rtcp compound maximum size is too small"
  has_sdes ← validate_members maximum_size true 0 false packets
  reject (not has_sdes) "rtcp compound packet is missing sdes"
  ok (join packets)

-- `size < 12 || read_u32(packet, 4) != sender`: the read is made only behind the size test.
unfoldable pub sender_differs : List ℕ → ℕ → ℕ → Result Bool
sender_differs packet minimum_size ssrc =
    if ltb (length packet) minimum_size
    then ok true
    else (do sender ← read_u32 packet 4; ok (not (sender == ssrc)))

unfoldable pub build_rtcp_feedback_datagram : List ℕ → ℕ → List ℕ → Bool → ℕ → Result (List ℕ)
build_rtcp_feedback_datagram feedback_packet sender_ssrc cname reduced_size maximum_size = do
  reject (sender_ssrc == 0) "rtcp feedback sender ssrc is zero"
  packet_type ← validate_rtcp_packet feedback_packet
  reject (not (packet_type == 205) && not (packet_type == 206))
      "rtcp feedback datagram member is not a feedback packet"
  differs ← sender_differs feedback_packet 12 sender_ssrc
  reject differs "rtcp feedback sender ssrc does not match datagram sender"
  if reduced_size
      then (do
        reject (ltb maximum_size (length feedback_packet))
            "rtcp reduced-size feedback exceeds maximum size"
        ok feedback_packet)
      else (do
        receiver_report ←
            build_rtcp_receiver_report (record { sender_ssrc = sender_ssrc; report_blocks = [] })
        sdes ← build_rtcp_sdes_cname sender_ssrc cname
        build_rtcp_compound_packet (receiver_report ∷ sdes ∷ feedback_packet ∷ []) maximum_size)

-- The chain of `||` in front of "rtcp bye report sender does not match participant".
unfoldable pub is_no_report_of : List ℕ → ℕ → ℕ → Result Bool
unfolding sender_differs
is_no_report_of report_packet packet_type participant_ssrc =
    if not (packet_type == 200) && not (packet_type == 201)
    then ok true
    else sender_differs report_packet 8 participant_ssrc

unfoldable pub build_rtcp_bye_datagram : List ℕ → ℕ → List ℕ → List ℕ → List ℕ → ℕ → Result (List ℕ)
build_rtcp_bye_datagram report_packet participant_ssrc cname bye_ssrcs reason maximum_size = do
  reject (participant_ssrc == 0) "rtcp bye participant ssrc is zero"
  reject (is_empty cname) "rtcp bye cname is empty"
  packet_type ← validate_rtcp_packet report_packet
  other ← is_no_report_of report_packet packet_type participant_ssrc
  reject other "rtcp bye report sender does not match participant"
  sdes ← build_rtcp_sdes_cname participant_ssrc cname
  bye ← build_rtcp_bye bye_ssrcs reason
  build_rtcp_compound_packet (report_packet ∷ sdes ∷ bye ∷ []) maximum_size
