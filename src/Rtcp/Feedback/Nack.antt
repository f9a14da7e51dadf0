-- ===== src/Rtcp/Feedback/Nack.antt =====
-- Which packets a generic NACK of rtcp_feedback.cpp asks for.
use simple_webrtc.Base.{
  ℕ, zero, suc, ◌+◌, ◌-◌, ◌%◌, ◌*◌, ◌≤◌, ◌<◌, ◌≡◌, ap, refl, Bool, false, ◌||◌, ◌&&◌, List, [], ◌∷◌,
  ◌++◌, leb, ◌==◌, length, Ensures, read_u16, byte, bit_set, arith, u16_at, AreBytes, at-lt,
  Ensures->>=,
}
use simple_webrtc.Rtcp.Feedback.{RtcpNackEntry, masked_sequence_numbers, parse_nack_entries}

unfoldable pub is_member : ℕ → List ℕ → Bool
is_member n [] = false
is_member n (m ∷ ms) = n == m || is_member n ms

is_member-append :
    (n : ℕ) (xs ys : List ℕ) → is_member n (xs ++ ys) ≡ is_member n xs || is_member n ys
unfolding is_member
is_member-append n [] ys = λ i. is_member n ys
is_member-append n (x ∷ xs) ys = ground (arith, is_member-append n xs ys)

-- How far a sequence number is behind another, modulo 2 ^ 16.
abbrev pub distance : ℕ → ℕ → ℕ
distance packet_id number = (number + 65536 - packet_id) % 65536

-- The bit of the mask that stands for the number is one of those of the loop, and it is set.
abbrev is_masked : ℕ → ℕ → ℕ → ℕ → Bool
is_masked bitmask first last d = (leb (first + 1) d && leb d last) && bit_set bitmask (d - 1)

in_range_round :
    (first rounds d : ℕ) (b c : Bool)
    → (d ≡ first + 1 → b ≡ c)
    → (leb (first + 1) d && leb d (first + suc rounds)) && b
      ≡ ((d == first + 1) && c) || ((leb (first + 1 + 1) d && leb d (first + 1 + rounds)) && b)
in_range_round first rounds d b c h = ground (arith, h)

is_masked_round :
    (bitmask rounds first d : ℕ)
    → is_masked bitmask first (first + suc rounds) d
      ≡ ((d == first + 1) && bit_set bitmask first)
        || is_masked bitmask (first + 1) (first + 1 + rounds) d
is_masked_round bitmask rounds first d =
    in_range_round first rounds d (bit_set bitmask (d - 1)) (bit_set bitmask first)
      λ e. ap (λ k. bit_set bitmask k) (omega (arith, e))

is_member-masked :
    (packet_id bitmask rounds first number : ℕ)
    → packet_id < 65536
    → number < 65536
    → first + rounds ≤ 16
    → is_member number (masked_sequence_numbers packet_id bitmask rounds first)
      ≡ is_masked bitmask first (first + rounds) (distance packet_id number)
unfolding masked_sequence_numbers is_member
is_member-masked packet_id bitmask zero first number p n h = ground arith
is_member-masked packet_id bitmask (suc rounds) first number p n h = ground (
  arith,
  is_member-masked packet_id bitmask rounds (first + 1) number p n,
  is_masked_round bitmask rounds first (distance packet_id number),
)

-- The number itself, or one of the 16 that follow it, by the mask.
unfoldable pub asks_for : RtcpNackEntry → ℕ → Bool
asks_for e number =
    distance e.packet_id number == 0
    || ((leb 1 (distance e.packet_id number) && leb (distance e.packet_id number) 16)
        && bit_set e.bitmask (distance e.packet_id number - 1))

unfoldable pub is_asked_for : List RtcpNackEntry → ℕ → Bool
is_asked_for [] number = false
is_asked_for (e ∷ es) number = asks_for e number || is_asked_for es number

-- An entry of which both fields fit 16 bits.
abbrev pub IsNackEntry : RtcpNackEntry → Type 0
IsNackEntry e = (e.packet_id < 65536) × (e.bitmask < 65536)

is_member-entry :
    (packet_id bitmask number : ℕ)
    → packet_id < 65536
    → number < 65536
    → is_member number (packet_id ∷ masked_sequence_numbers packet_id bitmask 16 0)
      ≡ asks_for (record { packet_id = packet_id; bitmask = bitmask }) number
unfolding is_member asks_for
is_member-entry packet_id bitmask number p n =
    ground (arith, is_member-masked packet_id bitmask 16 0 number p n)

-- The entries in the bytes from an offset on.
unfoldable pub nack_entries_at : List ℕ → ℕ → ℕ → List RtcpNackEntry
nack_entries_at bytes offset zero = []
nack_entries_at bytes offset (suc n) =
    record { packet_id = u16_at bytes offset; bitmask = u16_at bytes (offset + 2) }
    ∷ nack_entries_at bytes (offset + 4) n

u16_at-lt : (bytes : List ℕ) (i : ℕ) → AreBytes bytes → u16_at bytes i < 65536
u16_at-lt bytes i h = omega (arith, at-lt bytes i h, at-lt bytes (i + 1) h)

pub length-nack_entries_at :
    (bytes : List ℕ) (offset n : ℕ) → length (nack_entries_at bytes offset n) ≡ n
unfolding nack_entries_at
length-nack_entries_at bytes offset zero = ground arith
length-nack_entries_at bytes offset (suc n) =
    ground (arith, length-nack_entries_at bytes (offset + 4) n)

-- The entries read, and whether a number is among those asked for.
pub record AreNacksOf (bytes : List ℕ) (offset n number : ℕ) (r : List RtcpNackEntry × List ℕ)
    : Type 0 where
  pub entries : r.0 ≡ nack_entries_at bytes offset n
  pub asked : is_member number r.1 ≡ is_asked_for r.0 number

module _ (bytes : List ℕ) (offset n number : ℕ) (r : List RtcpNackEntry × List ℕ)
    (packet_id bitmask : ℕ) where
  parse_nack_entry_round :
      number < 65536
      → packet_id < 65536
      → packet_id ≡ u16_at bytes offset
      → bitmask ≡ u16_at bytes (offset + 2)
      → AreNacksOf bytes (offset + 4) n number r
      → AreNacksOf bytes offset (suc n) number (
        record { packet_id = packet_id; bitmask = bitmask } ∷ r.0,
        packet_id ∷ masked_sequence_numbers packet_id bitmask 16 0 ++ r.1,
      )
  unfolding nack_entries_at is_asked_for is_member
  parse_nack_entry_round k l e f v = record {
    entries = ground (arith, v.entries, e, f);
    asked = ground (
      arith,
      v.asked,
      is_member-entry packet_id bitmask number l k,
      is_member-append number (masked_sequence_numbers packet_id bitmask 16 0) r.1,
    );
  }

read_u16-Ensures :
    (bytes : List ℕ) (i : ℕ)
    → AreBytes bytes
    → i + 1 < length bytes
    → Ensures (λ v. (v ≡ u16_at bytes i) × (v < 65536)) (read_u16 bytes i)
unfolding read_u16 byte
read_u16-Ensures bytes i h l = ground (arith, at-lt bytes i h, at-lt bytes (i + 1) h)

pub parse_nack_entries-Ensures :
    (bytes : List ℕ) (offset n number : ℕ)
    → AreBytes bytes
    → number < 65536
    → offset + n * 4 ≤ length bytes
    → Ensures (AreNacksOf bytes offset n number) (parse_nack_entries bytes offset n)
unfolding parse_nack_entries nack_entries_at is_member is_asked_for
parse_nack_entries-Ensures bytes offset zero number h k l = record { entries = refl; asked = refl }
parse_nack_entries-Ensures bytes offset (suc n) number h k l =
    Ensures->>= (λ v. (v ≡ u16_at bytes offset) × (v < 65536)) _ (read_u16 bytes offset) _
      (read_u16-Ensures bytes offset h (omega arith))
      λ packet_id e.
        Ensures->>= (λ v. (v ≡ u16_at bytes (offset + 2)) × (v < 65536)) _
          (read_u16 bytes (offset + 2)) _ (read_u16-Ensures bytes (offset + 2) h (omega arith))
          λ bitmask f.
            Ensures->>= (AreNacksOf bytes (offset + 4) n number) _
              (parse_nack_entries bytes (offset + 4) n) _
              (parse_nack_entries-Ensures bytes (offset + 4) n number h k (omega arith))
              λ r v.
                parse_nack_entry_round bytes offset n number r packet_id bitmask k e.1 e.0 f.0 v
