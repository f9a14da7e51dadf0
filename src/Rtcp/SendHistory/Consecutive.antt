-- ===== src/Rtcp/SendHistory/Consecutive.antt =====
-- The records of the history have consecutive extended sequence numbers.
use simple_webrtc.Base.{
  ℕ, zero, suc, ◌+◌, ◌%◌, ◌≡◌, ◌≤◌, ◌<◌, refl, inl, inr, Bool-cases, List, [], ◌∷◌, ◌++◌, ltb,
  Option, none, some, length, ok, arith,
}
use simple_webrtc.Rtcp.SendHistory.{
  SentRecord, TransportFeedbackSentPacket, back, within, find_extended_sequence, evict_by_age,
  evict_by_capacity, record_at,
}

-- From `first` on, one after the other, up to `next`.
abbrev pub IsRun : ℕ → ℕ → List SentRecord → Type 0
IsRun first next [] = first ≡ next
IsRun first next (r ∷ rs) = (r.extended_sequence_number ≡ first) × IsRun (first + 1) next rs

pub length-run :
    (first next : ℕ) (rs : List SentRecord) → IsRun first next rs → first + length rs ≡ next
length-run first next [] h = omega (arith, h)
length-run first next (r ∷ rs) h = omega (arith, length-run (first + 1) next rs h.1)

pub back-IsRun :
    (first next : ℕ) (r : SentRecord) (rs : List SentRecord)
    → IsRun first next (r ∷ rs)
    → (back r rs).extended_sequence_number + 1 ≡ next
unfolding back
back-IsRun first next r [] h = omega (arith, h)
back-IsRun first next r (s ∷ rs) h = back-IsRun (first + 1) next s rs h.1

pub append-IsRun :
    (first next : ℕ) (rs : List SentRecord) (p : TransportFeedbackSentPacket)
    → IsRun first next rs
    → IsRun first (next + 1) (rs ++ record { extended_sequence_number = next; packet = p } ∷ [])
append-IsRun first next [] p h = (omega (arith, h), omega (arith, h))
append-IsRun first next (r ∷ rs) p h = (h.0, append-IsRun (first + 1) next rs p h.1)

-- Evicting from the front leaves a run.
abbrev pub Leaves : ℕ → ℕ → List SentRecord → Type 0
Leaves first next rs = (start : ℕ) × (first ≤ start) × IsRun start next rs

pub evict_by_age-IsRun :
    (now age first next : ℕ) (rs : List SentRecord)
    → IsRun first next rs
    → Leaves first next (evict_by_age now age rs).0
unfolding evict_by_age
evict_by_age-IsRun now age first next [] h = (first, omega arith, h)
evict_by_age-IsRun now age first next (r ∷ rs) h =
    let (start, l, run) = evict_by_age-IsRun now age (first + 1) next rs h.1 in
    elim (Bool-cases (ltb (r.packet.sent_at + age) now)) [
      | inl e ↦ rw e (start, omega arith, run)
      | inr e ↦ rw e (first, omega arith, h)
    ]

pub evict_by_capacity-IsRun :
    (capacity first next : ℕ) (rs : List SentRecord)
    → IsRun first next rs
    → Leaves first next (evict_by_capacity capacity rs).0
      × (length (evict_by_capacity capacity rs).0 ≤ capacity)
unfolding evict_by_capacity
evict_by_capacity-IsRun capacity first next [] h = ((first, omega arith, h), omega arith)
evict_by_capacity-IsRun capacity first next (r ∷ rs) h =
    let ((start, l, run), few) = evict_by_capacity-IsRun capacity (first + 1) next rs h.1 in
    elim (Bool-cases (ltb capacity (length (r ∷ rs)))) [
      | inl e ↦ rw e ((start, omega arith, run), few)
      | inr e ↦ rw e ((first, omega arith, h), ground arith)
    ]

-- A number in the run has its record at its distance from the first.
pub record_at-IsRun :
    (first next i : ℕ) (rs : List SentRecord)
    → IsRun first next rs
    → i < length rs
    → (r : SentRecord) × (record_at rs i ≡ ok r) × (r.extended_sequence_number ≡ first + i)
unfolding record_at
record_at-IsRun first next i [] h l = absurd (omega (arith, h))
record_at-IsRun first next zero (r ∷ rs) h l = (r, refl, omega (arith, h.0))
record_at-IsRun first next (suc i) (r ∷ rs) h l =
    let (q, e, n) = record_at-IsRun (first + 1) next i rs h.1 (omega arith) in
    (q, e, omega (arith, n))

-- In a run of at most 2 ^ 15 records, each number is found from its low 16 bits, and what is found
-- for any 16 bits is in the run and ends with them.
pub find_extended_sequence-IsRun :
    (first next n : ℕ) (rs : List SentRecord)
    → IsRun first next rs
    → length rs ≤ 32768
    → first ≤ n
    → n < next
    → find_extended_sequence (n % 65536) rs ≡ some n
unfolding find_extended_sequence within
find_extended_sequence-IsRun first next n [] h few l u = absurd (omega (arith, h))
find_extended_sequence-IsRun first next n (r ∷ rs) h few l u =
    ground (arith, back-IsRun first next r rs h, length-run first next (r ∷ rs) h, h.0)

abbrev pub AreFound : ℕ → ℕ → ℕ → Option ℕ → Type 0
AreFound first next s none = Unit {0}
AreFound first next s (some n) = (first ≤ n) × (n < next) × (n % 65536 ≡ s)

pub find_extended_sequence-AreFound :
    (first next s : ℕ) (rs : List SentRecord)
    → IsRun first next rs
    → s < 65536
    → AreFound first next s (find_extended_sequence s rs)
unfolding find_extended_sequence within
find_extended_sequence-AreFound first next s [] h l = tt
find_extended_sequence-AreFound first next s (r ∷ rs) h l =
    ground (arith, back-IsRun first next r rs h, h.0)
