-- ===== src/Rtcp/Builder/Compound/Members.antt =====
-- `build_rtcp_compound_packet` against the rules for a compound packet (RFC 3550, section 6.1).
use simple_webrtc.Base.{
  ℕ, ◌+◌, ◌*◌, ◌/◌, ◌≤◌, ◌≡◌, ◌⊎◌, Bool, true, false, ◌||◌, List, [], ◌∷◌, ◌==◌, bit_set, length,
  length-append, ok, byte, at, u16_at, read_u16, Ensures, arith,
}
use simple_webrtc.Rtcp.Builder.{validate_rtcp_packet}
use simple_webrtc.Rtcp.Builder.Compound.{
  is_empty, validate_members, join, build_rtcp_compound_packet,
}

-- A whole RTCP packet: version 2, and as long as its length field says.
pub record IsMember (packet : List ℕ) : Type 0 where
  pub long : 4 ≤ length packet
  pub version : at packet 0 / 64 ≡ 2
  pub sized : (u16_at packet 2 + 1) * 4 ≡ length packet

pub validate_rtcp_packet-Ensures :
    (packet : List ℕ)
    → Ensures (λ t. IsMember packet × (t ≡ at packet 1)) (validate_rtcp_packet packet)
unfolding validate_rtcp_packet byte read_u16
validate_rtcp_packet-Ensures packet = ground arith

pub validate_rtcp_packet-IsMember :
    (packet : List ℕ) → IsMember packet → validate_rtcp_packet packet ≡ ok (at packet 1)
unfolding validate_rtcp_packet byte read_u16
validate_rtcp_packet-IsMember packet m = ground arith

abbrev pub IsReportType : ℕ → Type 0
IsReportType t = (t ≡ 200) ⊎ (t ≡ 201)

-- Every member is whole, and only the last may be padded.
abbrev pub AreMembers : List (List ℕ) → Type 0
AreMembers [] = Unit {0}
AreMembers (p ∷ ps) =
    IsMember p × ((bit_set (at p 0) 5 ≡ false) ⊎ (is_empty ps ≡ true)) × AreMembers ps

abbrev pub has_sdes_member : List (List ℕ) → Bool
has_sdes_member [] = false
has_sdes_member (p ∷ ps) = at p 1 == 202 || has_sdes_member ps

validate_members-Ensures :
    (maximum_size total : ℕ) (has_sdes : Bool) (packets : List (List ℕ))
    → total ≤ maximum_size
    → Ensures
        (λ b.
          AreMembers packets
          × (total + length (join packets) ≤ maximum_size)
          × (b ≡ has_sdes || has_sdes_member packets))
        (validate_members maximum_size false total has_sdes packets)
unfolding validate_members join byte
validate_members-Ensures maximum_size total has_sdes [] h = ground arith
validate_members-Ensures maximum_size total has_sdes (p ∷ ps) h = ground (
  arith,
  validate_rtcp_packet-Ensures p,
  length-append p (join ps),
  validate_members-Ensures maximum_size (total + length p) (has_sdes || at p 1 == 202) ps,
)

abbrev pub BeginsWithReport : List (List ℕ) → Type 0
BeginsWithReport [] = ⊥
BeginsWithReport (p ∷ ps) = IsReportType (at p 1)

-- The members may be joined into one datagram of at most `maximum_size` bytes.
pub record IsCompound (packets : List (List ℕ)) (maximum_size : ℕ) : Type 0 where
  pub report : BeginsWithReport packets
  pub members : AreMembers packets
  pub sdes : has_sdes_member packets ≡ true
  pub fits : length (join packets) ≤ maximum_size

-- A compound packet that is returned is the members one after the other, and they meet the rules:
-- the first is a report, each is whole, only the last may be padded, one is an SDES packet, and the
-- datagram is within the maximum size. No read is outside a member.
pub build_rtcp_compound_packet-Ensures :
    (packets : List (List ℕ)) (maximum_size : ℕ)
    → Ensures
        (λ c. (c ≡ join packets) × IsCompound packets maximum_size)
        (build_rtcp_compound_packet packets maximum_size)
unfolding build_rtcp_compound_packet validate_members join byte
build_rtcp_compound_packet-Ensures [] maximum_size = ground arith
build_rtcp_compound_packet-Ensures (p ∷ ps) maximum_size = ground (
  arith,
  validate_rtcp_packet-Ensures p,
  length-append p (join ps),
  validate_members-Ensures maximum_size (length p) (at p 1 == 202) ps,
)

validate_members-total :
    (maximum_size total : ℕ) (has_sdes : Bool) (packets : List (List ℕ))
    → AreMembers packets
    → total + length (join packets) ≤ maximum_size
    → validate_members maximum_size false total has_sdes packets
      ≡ ok (has_sdes || has_sdes_member packets)
unfolding validate_members join byte
validate_members-total maximum_size total has_sdes [] m h = ground arith
validate_members-total maximum_size total has_sdes (p ∷ ps) m h = ground (
  arith,
  validate_rtcp_packet-IsMember p m.0,
  length-append p (join ps),
  validate_members-total maximum_size (total + length p) (has_sdes || at p 1 == 202) ps m.2,
)

-- Members of which the first is a report, each is whole, only the last may be padded, one is an SDES
-- packet, and which fit the maximum size together, are joined one after the other.
pub build_rtcp_compound_packet-total :
    (packets : List (List ℕ)) (maximum_size : ℕ)
    → IsCompound packets maximum_size
    → build_rtcp_compound_packet packets maximum_size ≡ ok (join packets)
unfolding build_rtcp_compound_packet validate_members join byte
build_rtcp_compound_packet-total [] maximum_size c = absurd c.report
build_rtcp_compound_packet-total (p ∷ ps) maximum_size c = ground (
  arith,
  validate_rtcp_packet-IsMember p c.members.0,
  length-append p (join ps),
  validate_members-total maximum_size (length p) (at p 1 == 202) ps c.members.2,
)
