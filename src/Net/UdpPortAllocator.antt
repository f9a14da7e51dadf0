-- ===== src/Net/UdpPortAllocator.antt =====
-- net/udp_port_allocator.h and net/udp_port_allocator.cpp: ports of a range, handed out in turn. The
-- `std::set` of ports in use is a list; `insert` adds a port only where it is absent.
pub mod Acquire
pub mod Reserved
use simple_webrtc.Base.{
  ℕ, zero, suc, ◌+◌, ◌-◌, ◌%◌, Bool, true, false, ◌||◌, List, [], ◌∷◌, ltb, leb, ◌==◌, not,
  if◌then◌else◌, Option, none, some, length,
}

pub record UdpPortRange : Type 0 where
  pub min_port : ℕ
  pub max_port : ℕ

pub record UdpPortAllocator : Type 0 where
  pub range : UdpPortRange
  pub next_port : ℕ
  pub used_ports : List ℕ

unfoldable pub contains : ℕ → List ℕ → Bool
contains p [] = false
contains p (q ∷ qs) = q == p || contains p qs

unfoldable pub insert : ℕ → List ℕ → List ℕ
insert p qs = if contains p qs then qs else p ∷ qs

unfoldable pub erase : ℕ → List ℕ → List ℕ
erase p [] = []
erase p (q ∷ qs) = if q == p then qs else q ∷ erase p qs

unfoldable pub udp_port_range_is_valid : UdpPortRange → Bool
udp_port_range_is_valid r =
    if r.min_port == 0 || r.max_port == 0 then false else leb r.min_port r.max_port

unfoldable pub make_allocator : UdpPortRange → UdpPortAllocator
make_allocator range = record { range = range; next_port = range.min_port; used_ports = [] }

-- The port after a candidate, as `uint16_t`, from the range's end back to its start.
unfoldable pub following : UdpPortRange → ℕ → ℕ
following range candidate =
    if candidate == range.max_port then range.min_port else (candidate + 1) % 65536

-- The loop over the attempts left.
unfoldable pub try_ports : ℕ → ℕ → UdpPortAllocator → Option (ℕ × UdpPortAllocator)
try_ports zero candidate a = none
try_ports (suc attempts) candidate a = elim (contains candidate a.used_ports) [
  | true ↦ try_ports attempts (following a.range candidate) a
  | false ↦ some (
    candidate,
    record a {
      next_port = following a.range candidate;
      used_ports = insert candidate a.used_ports;
    },
  )
]

unfoldable pub acquire : UdpPortAllocator → Option (ℕ × UdpPortAllocator)
unfolding udp_port_range_is_valid
acquire a =
    let capacity = a.range.max_port - a.range.min_port + 1 in
    if not (udp_port_range_is_valid a.range)
    then none
    else if leb capacity (length a.used_ports)
    then none
    else try_ports capacity a.next_port a

unfoldable pub release : ℕ → UdpPortAllocator → UdpPortAllocator
release port a = record a { used_ports = erase port a.used_ports }

-- `~udp_port_reservation`, for a reservation whose allocator is not null.
unfoldable pub drop_reservation : ℕ → UdpPortAllocator → UdpPortAllocator
unfolding release
drop_reservation port a = if port == 0 then a else release port a
