-- ===== src/Rtcp/CompoundPacket/Members.antt =====
-- A datagram joined from whole packets is parsed packet by packet.
use mathlib.Core.List.{append_assoc}
use simple_webrtc.Base.{
  ℕ, zero, suc, ◌+◌, ◌-◌, ◌*◌, ◌≡◌, ◌≤◌, ◌<◌, refl, ap, sym, ◌∙◌, true, false, List, [], ◌∷◌, ◌++◌,
  length, length-append, drop, drop-front, take-front, ltb, leb, ◌==◌, Result, ok, err, fault,
  ◌>>=◌, ◌>>◌, reject, All, arith,
}
use simple_webrtc.Rtp.Packet.{RtcpPacketHeader, parse_rtcp_packet_header}
use simple_webrtc.Rtcp.Builder.Compound.{join}
use simple_webrtc.Rtcp.CompoundBlock.{RtcpCompoundBlock, RtcpCompoundPacket, empty_packet}
use simple_webrtc.Rtcp.CompoundPacket.{
  parse_block, parse_block_at, parse_blocks, parse_rtcp_compound_packet,
}
use simple_webrtc.Rtcp.CompoundPacket.MemberHeader.{IsWhole, parse_rtcp_packet_header-append}

-- The packets of a list parsed one by one, each on its own.
unfoldable pub parse_member : List ℕ → RtcpCompoundPacket → Result RtcpCompoundPacket
parse_member member packet = do
  header ← parse_rtcp_packet_header member
  (block, filled) ← parse_block member header packet
  ok (record filled { blocks = filled.blocks ++ block ∷ [] })

unfoldable pub parse_members : List (List ℕ) → RtcpCompoundPacket → Result RtcpCompoundPacket
unfolding parse_member
parse_members [] packet = ok packet
parse_members (member ∷ members) packet = do
  next ← parse_member member packet
  parse_members members next

abbrev pub AreWhole : List (List ℕ) → Type 0
AreWhole = All (λ m. (header : RtcpPacketHeader) × IsWhole m header)

abbrev append_block : RtcpCompoundBlock × RtcpCompoundPacket → RtcpCompoundPacket
append_block r = record r.1 { blocks = r.1.blocks ++ r.0 ∷ [] }

parse_block_at-member :
    (front member rest : List ℕ) (offset : ℕ) (header : RtcpPacketHeader) (p : RtcpCompoundPacket)
    → offset ≡ length front
    → IsWhole member header
    → parse_block_at (front ++ (member ++ rest)) offset p
      ≡ (parse_block member header p >>= λ r. ok (length member, append_block r))
unfolding parse_block_at
parse_block_at-member front member rest offset header p e w =
    rw
      (
        tests.0,
        behind,
        parse_rtcp_packet_header-append member rest header w,
        w.sized,
        tests.1,
        tests.2,
        w.unpadded,
        take-front member rest,
      )
      refl
  where
    place : offset ≡ length front + 0
    place = omega arith

    behind : drop offset (front ++ (member ++ rest)) ≡ member ++ rest
    behind =
        ap (λ n. drop n (front ++ (member ++ rest))) place ∙ drop-front front (member ++ rest) 0

    tests :
        (ltb (length (front ++ (member ++ rest)) - offset) 4 ≡ false)
        × ((length member == 0) ≡ false)
        × (ltb (length (member ++ rest)) (length member) ≡ false)
    tests = ground (arith, w.long, length-append front (member ++ rest), length-append member rest)

then-same :
    (r : Result (RtcpCompoundBlock × RtcpCompoundPacket)) (size : ℕ)
    (f : ℕ → RtcpCompoundPacket → Result RtcpCompoundPacket)
    (g : RtcpCompoundPacket → Result RtcpCompoundPacket)
    → ((p : RtcpCompoundPacket) → f size p ≡ g p)
    → ◌>>=◌ {A = ℕ × RtcpCompoundPacket} (r >>= λ x. ok (size, append_block x)) (λ y. f y.0 y.1)
      ≡ ((r >>= λ x. ok (append_block x)) >>= g)
then-same (ok x) size f g h = h (append_block x)
then-same (err message) size f g h = refl
then-same fault size f g h = refl

all_read :
    (front : List ℕ) (offset : ℕ) → offset ≡ length front → leb (length (front ++ [])) offset ≡ true
all_read front offset e = ground (arith, length-append front [])

parse_member-eq :
    (member : List ℕ) (header : RtcpPacketHeader) (p : RtcpCompoundPacket)
    → IsWhole member header
    → parse_member member p ≡ (parse_block member header p >>= λ r. ok (append_block r))
unfolding parse_member
parse_member-eq member header p w = rw w.parsed refl

parse_blocks-join :
    (front : List ℕ) (members : List (List ℕ)) (fuel offset : ℕ) (p : RtcpCompoundPacket)
    → offset ≡ length front
    → length members ≤ fuel
    → AreWhole members
    → parse_blocks (front ++ join members) fuel offset p ≡ parse_members members p
unfolding parse_blocks parse_members join
parse_blocks-join front [] zero offset p e f w = rw (all_read front offset e) refl
parse_blocks-join front [] (suc fuel) offset p e f w = rw (all_read front offset e) refl
parse_blocks-join front (m ∷ ms) zero offset p e f w = absurd (omega arith)
parse_blocks-join front (m ∷ ms) (suc fuel) offset p e f (whole, w) =
    let (header, h) = whole in
    rw (more h.long) (
      ap (λ r. r >>= λ y. parse_blocks (front ++ (m ++ join ms)) fuel (offset + y.0) y.1)
        (parse_block_at-member front m (join ms) offset header p e h)
      ∙ (then-same (parse_block m header p) (length m)
            (λ size next. parse_blocks (front ++ (m ++ join ms)) fuel (offset + size) next)
            (parse_members ms)
            (λ next.
              ap (λ bytes. parse_blocks bytes fuel (offset + length m) next)
                (sym (append_assoc front m (join ms)))
              ∙ parse_blocks-join (front ++ m) ms fuel (offset + length m) next
                  (omega (arith, length-append front m)) (omega arith) w)
          ∙ ap (λ r. r >>= parse_members ms) (sym (parse_member-eq m header p h))))
  where
    more : 8 ≤ length m → leb (length (front ++ (m ++ join ms))) offset ≡ false
    more l = ground (arith, length-append front (m ++ join ms), length-append m (join ms))

length-join :
    (members : List (List ℕ)) → AreWhole members → length members * 8 ≤ length (join members)
unfolding join
length-join [] w = omega arith
length-join (m ∷ ms) w = omega (arith, length-append m (join ms), length-join ms w.1, w.0.1.long)

bind-ok : (r : Result RtcpCompoundPacket) → (r >>= λ p. ok p) ≡ r
bind-ok (ok p) = refl
bind-ok (err message) = refl
bind-ok fault = refl

-- A check behind a chain that its last part passes.
checked :
    {A : Type 0} (r : Result A) (f : A → Result RtcpCompoundPacket)
    (k : RtcpCompoundPacket → Result RtcpCompoundPacket)
    → ((a : A) → (f a >>= k) ≡ f a)
    → ((r >>= f) >>= k) ≡ (r >>= f)
checked (ok a) f k h = h a
checked (err message) f k h = refl
checked fault f k h = refl

abbrev with_blocks : RtcpCompoundPacket → Result RtcpCompoundPacket
with_blocks packet =
    reject (length packet.blocks == 0) "rtcp compound packet has no blocks" >> ok packet

parse_member-with_blocks :
    (member : List ℕ) (p : RtcpCompoundPacket)
    → (parse_member member p >>= with_blocks) ≡ parse_member member p
unfolding parse_member
parse_member-with_blocks member p =
    checked (parse_rtcp_packet_header member)
      (λ header. parse_block member header p >>= λ r. ok (append_block r)) with_blocks
      λ header.
        checked (parse_block member header p) (λ r. ok (append_block r)) with_blocks
          λ r. rw (some_block r) refl
  where
    some_block :
        (r : RtcpCompoundBlock × RtcpCompoundPacket)
        → (length (r.1.blocks ++ r.0 ∷ []) == 0) ≡ false
    some_block r = ground (arith, length-append r.1.blocks (r.0 ∷ []))

parse_members-with_blocks :
    (m : List ℕ) (ms : List (List ℕ)) (p : RtcpCompoundPacket)
    → (parse_members (m ∷ ms) p >>= with_blocks) ≡ parse_members (m ∷ ms) p
unfolding parse_members
parse_members-with_blocks m [] p =
    ap (λ r. r >>= with_blocks) (bind-ok (parse_member m p))
    ∙ (parse_member-with_blocks m p ∙ sym (bind-ok (parse_member m p)))
parse_members-with_blocks m (n ∷ ms) p =
    checked (parse_member m p) (parse_members (n ∷ ms)) with_blocks (parse_members-with_blocks n ms)

-- A datagram that is joined from one or more whole packets, each without padding and with a source,
-- is parsed to what its packets, parsed one by one in turn, add up to: the first packet that is
-- refused gives the error, and a packet is read alike alone and inside the datagram.
pub parse_rtcp_compound_packet-join :
    (members : List (List ℕ))
    → 0 < length members
    → AreWhole members
    → parse_rtcp_compound_packet (join members) ≡ parse_members members empty_packet
unfolding parse_rtcp_compound_packet
parse_rtcp_compound_packet-join [] n w = absurd (omega arith)
parse_rtcp_compound_packet-join (m ∷ ms) n w =
    rw
      (
        some_bytes,
        parse_blocks-join [] (m ∷ ms) (length (join (m ∷ ms))) 0 empty_packet refl
            (omega (arith, length-join (m ∷ ms) w)) w,
      )
      (parse_members-with_blocks m ms empty_packet)
  where
    some_bytes : (length (join (m ∷ ms)) == 0) ≡ false
    some_bytes = ground (arith, length-join (m ∷ ms) w)
