-- ===== src/Rtp/RetransmissionCache/Operations.antt =====
-- The parts of the operations of rtp_retransmission_cache.cpp keep the invariant.
use simple_webrtc.Base.{
  ℕ, ◌+◌, ◌≡◌, refl, ◌∙◌, Bool, true, false, ◌||◌, ◌&&◌, List, [], ◌∷◌, ◌++◌, ◌==◌, Option, none,
  some, Option-cases, inl, inr, arith,
}
use simple_webrtc.Rtp.RetransmissionCache.{
  Cache, OrderEntry, erase_entry, evict_by_age, evict_by_capacity, over_capacity, prune, store,
  make_key, answer,
}
use simple_webrtc.Rtp.RetransmissionCache.Entries.{
  Packet, Entry, lookup, insert_or_assign, insert-HasDistinctKeys, insert_sizes_new,
  insert_sizes_old, erase_sizes,
}
use simple_webrtc.Rtp.RetransmissionCache.Invariant.{
  queued, AreQueued, AreBelow, Inv, IsTrimmed, evict_by_age-Inv, evict_by_capacity-Inv,
  evict_by_age_round, evict_by_capacity_round,
}

erase_entry-limits :
    (key : ℕ) (by_age : Bool) (c : Cache) → (erase_entry key by_age c).limits ≡ c.limits
unfolding erase_entry
erase_entry-limits key by_age c = ground arith

pub prune-IsTrimmed : (now : ℕ) (c : Cache) → Inv c → IsTrimmed (prune now c)
unfolding prune
prune-IsTrimmed now c v = evict_by_capacity-Inv _ _ (evict_by_age-Inv now c.order c v)

evict_by_age-limits :
    (now : ℕ) (os : List OrderEntry) (c : Cache) → (evict_by_age now os c).limits ≡ c.limits
unfolding evict_by_age
evict_by_age-limits now [] c = refl
evict_by_age-limits now (o ∷ os) c =
    evict_by_age_round (λ d. d.limits ≡ c.limits) now o os c (λ _. evict_by_age-limits now os c)
      (λ _ _ _. refl)
      (λ e _ _.
        evict_by_age-limits now os (erase_entry o.key true c) ∙ erase_entry-limits o.key true c)

evict_by_capacity-limits :
    (os : List OrderEntry) (c : Cache) → (evict_by_capacity os c).limits ≡ c.limits
unfolding evict_by_capacity
evict_by_capacity-limits [] c = refl
evict_by_capacity-limits (o ∷ os) c =
    evict_by_capacity_round (λ d. d.limits ≡ c.limits) o os c (λ _. refl)
      (λ _ _. evict_by_capacity-limits os c)
      (λ e _ _.
        evict_by_capacity-limits os (erase_entry o.key false c) ∙ erase_entry-limits o.key false c)

pub prune-limits : (now : ℕ) (c : Cache) → (prune now c).limits ≡ c.limits
unfolding prune
prune-limits now c =
    evict_by_capacity-limits (evict_by_age now c.order c).order (evict_by_age now c.order c)
    ∙ evict_by_age-limits now c.order c

-- A fresh item at the end of the queue keeps the others waiting.
queued-append :
    (os : List OrderEntry) (o : OrderEntry) (k s : ℕ)
    → queued (os ++ o ∷ []) k s ≡ queued os k s || (o.key == k && o.serial == s)
queued-append [] o k s = ground arith
queued-append (p ∷ os) o k s = ground (arith, queued-append os o k s)

AreQueued-append :
    (os : List OrderEntry) (o : OrderEntry) (m : List (ℕ × Entry))
    → AreQueued os m
    → AreQueued (os ++ o ∷ []) m
AreQueued-append os o [] h = tt
AreQueued-append os o ((k, e) ∷ m) h =
    ground (arith, AreQueued-append os o m h.1, queued-append os o k e.serial)

insert-AreQueued :
    (os : List OrderEntry) (o : OrderEntry) (d : Entry) (m : List (ℕ × Entry))
    → d.serial ≡ o.serial
    → AreQueued os m
    → AreQueued (os ++ o ∷ []) (insert_or_assign o.key d m)
unfolding insert_or_assign
insert-AreQueued os o d [] e h = ground (arith, queued-append os o o.key o.serial)
insert-AreQueued os o d ((k, f) ∷ m) e h = ground (
  arith,
  insert-AreQueued os o d m e h.1,
  AreQueued-append os o m h.1,
  queued-append os o k f.serial,
  queued-append os o o.key o.serial,
)

append-AreBelow :
    (os : List OrderEntry) (o : OrderEntry) (n : ℕ)
    → AreBelow n os
    → o.serial ≡ n
    → AreBelow (n + 1) (os ++ o ∷ [])
append-AreBelow [] o n h e = omega arith
append-AreBelow (p ∷ os) o n h e = (omega arith, append-AreBelow os o n h.1 e)

pub store-Inv : (packet : Packet) (now : ℕ) (c : Cache) → Inv c → Inv (store packet now c)
unfolding store
store-Inv packet now c v =
    let key = make_key packet.target_ssrc packet.target_sequence_number in
    let item : OrderEntry = record { key = key; serial = c.next_serial } in
    let entry : Entry = record {
      packet = record packet { stored_at = now };
      serial = c.next_serial;
      last_retransmitted_at = none;
    } in
    elim (Option-cases (lookup key c.entries)) [
      | inl new ↦ ground (
        arith,
        insert-HasDistinctKeys key entry c.entries v.distinct,
        insert-AreQueued c.order item entry c.entries refl v.waiting,
        append-AreBelow c.order item c.next_serial v.below refl,
        insert_sizes_new key entry c.entries new,
      )
      | inr (d, old) ↦ ground (
        arith,
        insert-HasDistinctKeys key entry c.entries v.distinct,
        insert-AreQueued c.order item entry c.entries refl v.waiting,
        append-AreBelow c.order item c.next_serial v.below refl,
        insert_sizes_old key entry d c.entries old,
        erase_sizes key d c.entries old,
      )
    ]

lookup-queued :
    (os : List OrderEntry) (key : ℕ) (e : Entry) (m : List (ℕ × Entry))
    → AreQueued os m
    → lookup key m ≡ some e
    → queued os key e.serial ≡ true
unfolding lookup
lookup-queued os key e [] h f = cc
lookup-queued os key e ((k, d) ∷ m) h f = ground (arith, lookup-queued os key e m h.1)

assign-AreQueued :
    (os : List OrderEntry) (key : ℕ) (e : Entry) (m : List (ℕ × Entry))
    → queued os key e.serial ≡ true
    → AreQueued os m
    → AreQueued os (insert_or_assign key e m)
unfolding insert_or_assign
assign-AreQueued os key e [] q h = (q, tt)
assign-AreQueued os key e ((k, d) ∷ m) q h = ground (arith, assign-AreQueued os key e m q h.1)

-- Marking an entry changes neither its size nor its serial.
mark-IsTrimmed :
    (key now : ℕ) (e : Entry) (c : Cache)
    → IsTrimmed c
    → lookup key c.entries ≡ some e
    → IsTrimmed (record c {
      entries = insert_or_assign key (record e { last_retransmitted_at = some now }) c.entries;
    })
unfolding over_capacity
mark-IsTrimmed key now e c (v, w) h =
    let marked : Entry = record e { last_retransmitted_at = some now } in
    ground (
      arith,
      insert-HasDistinctKeys key marked c.entries v.distinct,
      assign-AreQueued c.order key marked c.entries
          (lookup-queued c.order key e c.entries v.waiting h) v.waiting,
      insert_sizes_old key marked e c.entries h,
    )

pub answer-IsTrimmed :
    (found : Option Entry) (key now : ℕ) (c : Cache)
    → IsTrimmed c
    → lookup key c.entries ≡ found
    → IsTrimmed (answer found key now c).1
unfolding answer
answer-IsTrimmed none key now c t h = t
answer-IsTrimmed (some e) key now c t h = ground (arith, t, mark-IsTrimmed key now e c t h)
