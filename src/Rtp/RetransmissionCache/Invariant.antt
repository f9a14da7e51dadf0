-- ===== src/Rtp/RetransmissionCache/Invariant.antt =====
-- The invariant of the cache, kept by every operation, and the limits behind `prune`.
use simple_webrtc.Base.{
  ℕ, ◌+◌, ◌<◌, ◌≡◌, ◌≢◌, refl, Bool, true, false, ◌||◌, ◌&&◌, List, [], ◌∷◌, leb, ◌==◌, Option,
  none, some, Option-cases, Bool-cases, inl, inr, length, arith,
}
use simple_webrtc.Rtp.RetransmissionCache.{
  Cache, OrderEntry, current, erase_entry, evict_by_age, evict_by_capacity, over_capacity,
}
use simple_webrtc.Rtp.RetransmissionCache.Entries.{
  Entry, lookup, erase, total_bytes, HasDistinctKeys, erase-HasDistinctKeys, erase_sizes,
}

abbrev pub queued : List OrderEntry → ℕ → ℕ → Bool
queued [] k s = false
queued (o ∷ os) k s = (o.key == k && o.serial == s) || queued os k s

-- Every entry waits in the queue under its serial.
abbrev pub AreQueued : List OrderEntry → List (ℕ × Entry) → Type 0
AreQueued os [] = Unit {0}
AreQueued os ((k, e) ∷ m) = (queued os k e.serial ≡ true) × AreQueued os m

abbrev pub AreBelow : ℕ → List OrderEntry → Type 0
AreBelow n [] = Unit {0}
AreBelow n (o ∷ os) = (o.serial < n) × AreBelow n os

-- The invariant with the queue apart, as the loops of `prune` hold it.
pub record IsConsistent (os : List OrderEntry) (c : Cache) : Type 0 where
  pub distinct : HasDistinctKeys c.entries
  pub counted : c.byte_count ≡ total_bytes c.entries
  pub waiting : AreQueued os c.entries
  pub below : AreBelow c.next_serial os
  pub balanced : c.inserted ≡ length c.entries + c.evicted_age + c.evicted_capacity

-- The byte count is that of the packets held, each packet held waits in the queue, and every packet
-- that was inserted is held or was evicted once.
abbrev pub Inv : Cache → Type 0
Inv c = IsConsistent c.order c

abbrev pub IsStale : OrderEntry → Option Entry → Type 0
IsStale o none = Unit {0}
IsStale o (some e) = e.serial ≢ o.serial

skip-AreQueued :
    (o : OrderEntry) (os : List OrderEntry) (m : List (ℕ × Entry))
    → HasDistinctKeys m
    → IsStale o (lookup o.key m)
    → AreQueued (o ∷ os) m
    → AreQueued os m
unfolding lookup
skip-AreQueued o os [] d s h = tt
skip-AreQueued o os ((k, e) ∷ m) d s h = ground (arith, skip-AreQueued o os m d.1)

erase-AreQueued :
    (o : OrderEntry) (os : List OrderEntry) (m : List (ℕ × Entry))
    → HasDistinctKeys m
    → AreQueued (o ∷ os) m
    → AreQueued os (erase o.key m)
unfolding erase
erase-AreQueued o os [] d h = tt
erase-AreQueued o os ((k, e) ∷ m) d h =
    ground (arith, erase-AreQueued o os m d.1, skip-AreQueued o os m d.1)

pub current-lookup :
    (c : Cache) (o : OrderEntry) (e : Entry)
    → current c o ≡ some e
    → (lookup o.key c.entries ≡ some e) × (e.serial ≡ o.serial)
unfolding current
current-lookup c o e h = ground arith

pub current-IsStale :
    (c : Cache) (o : OrderEntry) → current c o ≡ none → IsStale o (lookup o.key c.entries)
unfolding current
current-IsStale c o h = ground arith

pub skip-IsConsistent :
    (o : OrderEntry) (os : List OrderEntry) (c : Cache)
    → current c o ≡ none
    → IsConsistent (o ∷ os) c
    → IsConsistent os c
skip-IsConsistent o os c h v = record {
  distinct = v.distinct;
  counted = v.counted;
  waiting = skip-AreQueued o os c.entries v.distinct (current-IsStale c o h) v.waiting;
  below = v.below.1;
  balanced = v.balanced;
}

pub erase-IsConsistent :
    (o : OrderEntry) (os : List OrderEntry) (c : Cache) (e : Entry) (by_age : Bool)
    → lookup o.key c.entries ≡ some e
    → IsConsistent (o ∷ os) c
    → IsConsistent os (erase_entry o.key by_age c)
unfolding erase_entry
erase-IsConsistent o os c e by_age h v = ground (
  arith,
  erase-HasDistinctKeys o.key c.entries v.distinct,
  erase-AreQueued o os c.entries v.distinct v.waiting,
  erase_sizes o.key e c.entries h,
)

pub settled-Inv :
    (os : List OrderEntry) (c : Cache) → IsConsistent os c → Inv (record c { order = os })
settled-Inv os c v = record {
  distinct = v.distinct;
  counted = v.counted;
  waiting = v.waiting;
  below = v.below;
  balanced = v.balanced;
}

-- The rounds of the two loops, for a property of the cache that is left.
pub evict_by_age_round :
    (P : Cache → Type 0) (now : ℕ) (o : OrderEntry) (os : List OrderEntry) (c : Cache)
    → (current c o ≡ none → P (evict_by_age now os c))
    → ((e : Entry)
        → current c o ≡ some e
        → leb now (e.packet.stored_at + c.limits.max_age) ≡ true
        → P (record c { order = o ∷ os }))
    → ((e : Entry)
        → current c o ≡ some e
        → leb now (e.packet.stored_at + c.limits.max_age) ≡ false
        → P (evict_by_age now os (erase_entry o.key true c)))
    → P (evict_by_age now (o ∷ os) c)
unfolding evict_by_age
evict_by_age_round P now o os c skipped kept evicted = elim (Option-cases (current c o)) [
  | inl gone ↦ rw (gone, evict_by_age) (skipped gone)
  | inr (e, held) ↦ elim (Bool-cases (leb now (e.packet.stored_at + c.limits.max_age))) [
    | inl young ↦ rw (held, evict_by_age) (rw (young, evict_by_age) (kept e held young))
    | inr old ↦ rw (held, evict_by_age) (rw (old, evict_by_age) (evicted e held old))
  ]
]

pub evict_by_capacity_round :
    (P : Cache → Type 0) (o : OrderEntry) (os : List OrderEntry) (c : Cache)
    → (over_capacity c ≡ false → P (record c { order = o ∷ os }))
    → (over_capacity c ≡ true → current c o ≡ none → P (evict_by_capacity os c))
    → ((e : Entry)
        → over_capacity c ≡ true
        → current c o ≡ some e
        → P (evict_by_capacity os (erase_entry o.key false c)))
    → P (evict_by_capacity (o ∷ os) c)
unfolding evict_by_capacity
evict_by_capacity_round P o os c fits skipped evicted = elim (Bool-cases (over_capacity c)) [
  | inr under ↦ rw (under, evict_by_capacity) (fits under)
  | inl over ↦ elim (Option-cases (current c o)) [
    | inl gone ↦ rw (over, evict_by_capacity) (rw (gone, evict_by_capacity) (skipped over gone))
    | inr (e, held) ↦
        rw (over, evict_by_capacity) (rw (held, evict_by_capacity) (evicted e over held))
  ]
]

pub evict_by_age-Inv :
    (now : ℕ) (os : List OrderEntry) (c : Cache) → IsConsistent os c → Inv (evict_by_age now os c)
unfolding evict_by_age
evict_by_age-Inv now [] c v = settled-Inv [] c v
evict_by_age-Inv now (o ∷ os) c v =
    evict_by_age_round Inv now o os c
      (λ gone. evict_by_age-Inv now os c (skip-IsConsistent o os c gone v))
      (λ e held young. settled-Inv (o ∷ os) c v)
      (λ e held old.
        evict_by_age-Inv now os (erase_entry o.key true c)
          (erase-IsConsistent o os c e true (current-lookup c o e held).0 v))

nothing_queued : (c : Cache) → IsConsistent [] c → over_capacity (record c { order = [] }) ≡ false
unfolding over_capacity total_bytes
nothing_queued c v = ground (arith, no_entries c.entries v.waiting)
  where
    no_entries : (m : List (ℕ × Entry)) → AreQueued [] m → m ≡ []
    no_entries [] h = refl
    no_entries ((k, e) ∷ m) h = cc (h.0)

abbrev pub IsTrimmed : Cache → Type 0
IsTrimmed c = Inv c × (over_capacity c ≡ false)

pub evict_by_capacity-Inv :
    (os : List OrderEntry) (c : Cache) → IsConsistent os c → IsTrimmed (evict_by_capacity os c)
unfolding evict_by_capacity
evict_by_capacity-Inv [] c v = (settled-Inv [] c v, nothing_queued c v)
evict_by_capacity-Inv (o ∷ os) c v =
    evict_by_capacity_round (λ c. IsTrimmed c) o os c
      (λ fits. (settled-Inv (o ∷ os) c v, unfold over_capacity in fits))
      (λ over gone. evict_by_capacity-Inv os c (skip-IsConsistent o os c gone v))
      (λ e over held.
        evict_by_capacity-Inv os (erase_entry o.key false c)
          (erase-IsConsistent o os c e false (current-lookup c o e held).0 v))
