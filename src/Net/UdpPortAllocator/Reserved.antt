-- ===== src/Net/UdpPortAllocator/Reserved.antt =====
-- The ports in use are distinct ports of the range, and none is handed out twice.
use mathlib.Core.Path.{subst}
use simple_webrtc.Base.{
  ℕ, zero, suc, ◌+◌, ◌-◌, ◌≤◌, ◌≡◌, refl, false, List, [], ◌∷◌, ◌==◌, Bool-cases, inl, inr, Option,
  none, some, length, All, arith,
}
use simple_webrtc.Net.UdpPortAllocator.{
  UdpPortRange, UdpPortAllocator, contains, insert, erase, make_allocator, following, try_ports,
  acquire, release,
}
use simple_webrtc.Net.UdpPortAllocator.Acquire.{
  IsValidRange, AreUsed-length, whole_range, contains-erase_ne,
}

abbrev AreDistinct : List ℕ → Type 0
AreDistinct [] = Unit {0}
AreDistinct (p ∷ ps) = (contains p ps ≡ false) × AreDistinct ps

abbrev InRange : UdpPortRange → ℕ → Type 0
InRange r p = (r.min_port ≤ p) × (p ≤ r.max_port)

pub record IsWellFormed (a : UdpPortAllocator) : Type 0 where
  pub range : IsValidRange a.range
  pub next : InRange a.range a.next_port
  pub used : All (InRange a.range) a.used_ports
  pub distinct : AreDistinct a.used_ports

pub make_allocator-IsWellFormed :
    (r : UdpPortRange) → IsValidRange r → IsWellFormed (make_allocator r)
unfolding make_allocator
make_allocator-IsWellFormed r v = ground arith

erase-AreDistinct : (p : ℕ) (l : List ℕ) → AreDistinct l → AreDistinct (erase p l)
unfolding erase
erase-AreDistinct p [] d = tt
erase-AreDistinct p (q ∷ l) d = ground (arith, erase-AreDistinct p l d.1, contains-erase_ne q p l)

erase-All : (P : ℕ → Type 0) (p : ℕ) (l : List ℕ) → All P l → All P (erase p l)
unfolding erase
erase-All P p [] h = tt
erase-All P p (q ∷ l) h = elim (Bool-cases (q == p)) [
  | inl same ↦ rw (same, erase) h.1
  | inr other ↦ rw (other, erase) (h.0, erase-All P p l h.1)
]

-- Releasing a port keeps the allocator well formed.
pub release-IsWellFormed :
    (p : ℕ) (a : UdpPortAllocator) → IsWellFormed a → IsWellFormed (release p a)
unfolding release
release-IsWellFormed p a w = record {
  range = w.range;
  next = w.next;
  used = erase-All (InRange a.range) p a.used_ports w.used;
  distinct = erase-AreDistinct p a.used_ports w.distinct;
}

contains-erase_self : (p : ℕ) (l : List ℕ) → AreDistinct l → contains p (erase p l) ≡ false
unfolding contains erase
contains-erase_self p [] d = refl
contains-erase_self p (q ∷ l) d = ground (arith, contains-erase_self p l d.1)

-- A port that was handed out: of the range, free before, and the only one that is new in use.
pub record IsAcquired (a : UdpPortAllocator) (p : ℕ) (b : UdpPortAllocator) : Type 0 where
  pub in_range : InRange a.range p
  pub free : contains p a.used_ports ≡ false
  pub used : b.used_ports ≡ p ∷ a.used_ports
  pub same : b.range ≡ a.range
  pub kept : IsWellFormed b

abbrev pub Acquires : UdpPortAllocator → Option (ℕ × UdpPortAllocator) → Type 0
Acquires a none = a.range.max_port - a.range.min_port + 1 ≤ length a.used_ports
Acquires a (some (p, b)) = IsAcquired a p b

try_ports-IsAcquired :
    (n c : ℕ) (a : UdpPortAllocator) (p : ℕ) (b : UdpPortAllocator)
    → IsWellFormed a
    → InRange a.range c
    → try_ports n c a ≡ some (p, b)
    → IsAcquired a p b
unfolding try_ports following insert
try_ports-IsAcquired zero c a p b w h e = cc
try_ports-IsAcquired (suc n) c a p b w h e =
    ground (arith, try_ports-IsAcquired n (following a.range c) a p b w, w.range)

try_ports-Acquires :
    (a : UdpPortAllocator) (o : Option (ℕ × UdpPortAllocator))
    → IsWellFormed a
    → try_ports (a.range.max_port - a.range.min_port + 1) a.next_port a ≡ o
    → Acquires a o
try_ports-Acquires a none w e =
    AreUsed-length a.range.min_port _ a.used_ports
      (whole_range a w.range a.next_port _ w.next.0 w.next.1 refl e)
try_ports-Acquires a (some (p, b)) w e = try_ports-IsAcquired _ a.next_port a p b w w.next e

-- On a well-formed allocator `acquire` hands out a port of the range that was free, adds just that
-- port to those in use and keeps the allocator well formed; it fails only where as many ports are in
-- use as the range has.
pub acquire-Acquires : (a : UdpPortAllocator) → IsWellFormed a → Acquires a (acquire a)
unfolding acquire
acquire-Acquires a w = ground (
  arith,
  try_ports-Acquires a (try_ports (a.range.max_port - a.range.min_port + 1) a.next_port a) w refl,
)

-- On a well-formed allocator, giving back the port that `acquire` handed out leaves the same ports
-- in use as before.
pub release-acquire :
    (a b : UdpPortAllocator) (p q : ℕ)
    → IsWellFormed a
    → acquire a ≡ some (p, b)
    → contains q (release p b).used_ports ≡ contains q a.used_ports
unfolding release erase
release-acquire a b p q w e = ground (arith, acquired.used)
  where
    acquired : IsAcquired a p b
    acquired = subst (Acquires a) e (acquire-Acquires a w)
