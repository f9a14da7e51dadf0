-- ===== src/Net/UdpPortAllocator/Acquire.antt =====
-- `acquire` finds a free port of the range whenever there is one.
use mathlib.Core.Path.{subst₂}
use simple_webrtc.Base.{
  ℕ, zero, suc, ◌+◌, ◌-◌, ◌≤◌, ◌<◌, ◌≡◌, ◌≢◌, refl, true, List, [], ◌∷◌, none, length, arith, ◌∙◌,
}
use simple_webrtc.Net.UdpPortAllocator.{
  UdpPortRange, UdpPortAllocator, contains, erase, following, try_ports,
}

pub contains-erase_ne : (p q : ℕ) (l : List ℕ) → p ≢ q → contains p (erase q l) ≡ contains p l
unfolding contains erase
contains-erase_ne p q [] h = refl
contains-erase_ne p q (r ∷ l) h = ground (arith, contains-erase_ne p q l)

length-erase : (p : ℕ) (l : List ℕ) → contains p l ≡ true → length l ≡ length (erase p l) + 1
unfolding contains erase
length-erase p [] h = cc
length-erase p (q ∷ l) h = ground (arith, length-erase p l)

-- `n` ports from `lo` on are in use.
abbrev pub AreUsed : ℕ → ℕ → List ℕ → Type 0
AreUsed lo zero l = Unit {0}
AreUsed lo (suc n) l = (contains lo l ≡ true) × AreUsed (lo + 1) n l

AreUsed-erase : (p lo n : ℕ) (l : List ℕ) → p < lo → AreUsed lo n l → AreUsed lo n (erase p l)
AreUsed-erase p lo zero l h u = tt
AreUsed-erase p lo (suc n) l h u =
    (contains-erase_ne lo p l (omega arith) ∙ u.0, AreUsed-erase p (lo + 1) n l (omega arith) u.1)

-- The pigeonhole: so many ports take so many places.
pub AreUsed-length : (lo n : ℕ) (l : List ℕ) → AreUsed lo n l → n ≤ length l
AreUsed-length lo zero l u = omega arith
AreUsed-length lo (suc n) l u = omega (
  arith,
  length-erase lo l u.0,
  AreUsed-length (lo + 1) n (erase lo l) (AreUsed-erase lo (lo + 1) n l (omega arith) u.1),
)

AreUsed-append :
    (lo n m mid : ℕ) (l : List ℕ)
    → mid ≡ lo + n
    → AreUsed lo n l
    → AreUsed mid m l
    → (k : ℕ) → k ≡ n + m
    → AreUsed lo k l
AreUsed-append lo zero m mid l e u v k f = subst₂ (λ a b. AreUsed a b l) start count v
  where
    start : mid ≡ lo
    start = omega arith

    count : m ≡ k
    count = omega arith
AreUsed-append lo (suc n) m mid l e u v zero f = tt
AreUsed-append lo (suc n) m mid l e u v (suc k) f =
    (u.0, AreUsed-append (lo + 1) n m mid l (omega arith) u.1 v k (omega arith))

pub record IsValidRange (r : UdpPortRange) : Type 0 where
  pub positive : 1 ≤ r.min_port
  pub ordered : r.min_port ≤ r.max_port
  pub word : r.max_port < 65536

-- A failed run over `n` ports up to the range's end found them in use, and goes on from there.
module _ (a : UdpPortAllocator) (v : IsValidRange a.range) where
  straight :
      (n k c : ℕ)
      → n ≤ k
      → a.range.min_port ≤ c
      → c + n ≤ a.range.max_port
      → try_ports k c a ≡ none
      → AreUsed c n a.used_ports × (try_ports (k - n) (c + n) a ≡ none)
  unfolding try_ports following
  straight zero k c le lo hi e = (tt, ground arith)
  straight (suc n) zero c le lo hi e = absurd (omega arith)
  straight (suc n) (suc k) c le lo hi e = ground (arith, straight n k (c + 1), v)

  at_the_end :
      (k : ℕ)
      → try_ports (suc k) a.range.max_port a ≡ none
      → (contains a.range.max_port a.used_ports ≡ true) × (try_ports k a.range.min_port a ≡ none)
  unfolding try_ports following
  at_the_end k e = ground arith

  -- A failed run over the whole range leaves no port free.
  pub whole_range :
      (c n : ℕ)
      → a.range.min_port ≤ c
      → c ≤ a.range.max_port
      → n ≡ a.range.max_port - a.range.min_port + 1
      → try_ports n c a ≡ none
      → AreUsed a.range.min_port n a.used_ports
  whole_range c n lo hi size e =
      AreUsed-append a.range.min_port below (suc above) c a.used_ports (omega arith) (second.0)
        (AreUsed-append c above 1 a.range.max_port a.used_ports (omega arith) first.0
          (wrapped.0, tt) (suc above) (omega arith))
        n (omega arith)
    where
      above : ℕ
      above = a.range.max_port - c

      below : ℕ
      below = c - a.range.min_port

      first : AreUsed c above a.used_ports × (try_ports (n - above) (c + above) a ≡ none)
      first = straight above n c (omega arith) lo (omega arith) e

      wrapped :
          (contains a.range.max_port a.used_ports ≡ true)
          × (try_ports below a.range.min_port a ≡ none)
      wrapped = at_the_end below (ground (arith, first.1))

      second :
          AreUsed a.range.min_port below a.used_ports
          × (try_ports (below - below) (a.range.min_port + below) a ≡ none)
      second =
          straight below below a.range.min_port (omega arith) (omega arith) (omega arith) wrapped.1
