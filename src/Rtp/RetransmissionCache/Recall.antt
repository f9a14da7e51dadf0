-- ===== src/Rtp/RetransmissionCache/Recall.antt =====
-- What was stored last is found again.
pub mod Newest
use mathlib.Core.Path.{subst}
use simple_webrtc.Base.{
  ℕ, ◌+◌, ◌≤◌, ◌<◌, ◌≡◌, refl, sym, ap, Bool, true, false, List, [], ◌∷◌, ◌++◌, none, some, length,
  arith,
}
use simple_webrtc.Rtp.RetransmissionCache.{
  Cache, Limits, OrderEntry, hit, current, erase_entry, evict_by_age, evict_by_capacity,
  over_capacity, prune, store, remember, make_key, lookup_for_retransmission,
}
use simple_webrtc.Rtp.RetransmissionCache.Entries.{
  Packet, Entry, lookup, erase, total_bytes, HasDistinctKeys, lookup-erase, lookup-insert,
}
use simple_webrtc.Rtp.RetransmissionCache.Invariant.{
  AreQueued, AreBelow, IsConsistent, Inv, evict_by_age-Inv, evict_by_age_round,
  evict_by_capacity_round, current-lookup, skip-IsConsistent, erase-IsConsistent,
}
use simple_webrtc.Rtp.RetransmissionCache.Operations.{prune-IsTrimmed, prune-limits, store-Inv}
use simple_webrtc.Rtp.RetransmissionCache.Recall.Newest.{Kept, prune-Kept, Holds}

-- The entry and the queue's item that `store` adds.
abbrev pub stored : Packet → ℕ → Packet
stored packet now = record packet { stored_at = now }

fresh_entry : Packet → ℕ → Cache → Entry
fresh_entry packet now c = record {
  packet = stored packet now;
  serial = c.next_serial;
  last_retransmitted_at = none;
}

fresh_item : Packet → Cache → OrderEntry
fresh_item packet c = record {
  key = make_key packet.target_ssrc packet.target_sequence_number;
  serial = c.next_serial;
}

store-Kept :
    (packet : Packet) (now : ℕ) (c : Cache)
    → Inv c
    → Kept (fresh_entry packet now c) (fresh_item packet c) c.limits (store packet now c)
unfolding Kept store fresh_entry fresh_item
store-Kept packet now c v = (
  c.order,
  refl,
  record {
    present = ground (
      arith,
      lookup-insert (make_key packet.target_ssrc packet.target_sequence_number)
          (make_key packet.target_ssrc packet.target_sequence_number) (fresh_entry packet now c)
          c.entries,
    );
    serial = refl;
    older = v.below;
    same = refl;
  },
)

-- A packet that is not empty, has an SSRC and fits the cache is a hit when it is looked up within
-- the maximum age: the packet as it was given, with the time of its storing. It is not evicted
-- meanwhile, whatever else the cache holds.
pub lookup-remember :
    (packet : Packet) (now later : ℕ) (c : Cache)
    → Inv c
    → 0 < length packet.bytes
    → 0 < packet.target_ssrc
    → 1 ≤ c.limits.max_packets
    → length packet.bytes ≤ c.limits.max_bytes
    → later ≤ now + c.limits.max_age
    → (lookup_for_retransmission packet.target_ssrc packet.target_sequence_number later
        (remember packet now c)).0
      ≡ hit (stored packet now)
unfolding lookup_for_retransmission remember Kept fresh_entry fresh_item
lookup-remember packet now later c v some_bytes ssrc few small young =
    ground (arith, found.2.present)
  where
    before : Cache
    before = prune now c

    limits : before.limits ≡ c.limits
    limits = prune-limits now c

    inv : Inv (store packet now before)
    inv = store-Inv packet now before (prune-IsTrimmed now c v).0

    kept :
        Kept
          (fresh_entry packet now before)
          (fresh_item packet before)
          before.limits
          (prune now (store packet now before))
    kept =
        prune-Kept (fresh_entry packet now before) (fresh_item packet before) before.limits now
          (store packet now before) (omega arith)
          (omega (arith, ap (λ (l : Limits). l.max_packets) limits))
          (omega (arith, ap (λ (l : Limits). l.max_bytes) limits)) inv
          (store-Kept packet now before (prune-IsTrimmed now c v).0)

    found :
        Kept
          (fresh_entry packet now before)
          (fresh_item packet before)
          before.limits
          (prune later (prune now (store packet now before)))
    found =
        prune-Kept (fresh_entry packet now before) (fresh_item packet before) before.limits later
          (prune now (store packet now before))
          (omega (arith, ap (λ (l : Limits). l.max_age) limits))
          (omega (arith, ap (λ (l : Limits). l.max_packets) limits))
          (omega (arith, ap (λ (l : Limits). l.max_bytes) limits))
          (prune-IsTrimmed now (store packet now before) inv).0 kept
