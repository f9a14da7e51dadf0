-- ===== src/Rtp/RetransmissionCache/Recall/Newest.antt =====
-- The newest entry of the retransmission cache stays through both loops of `prune`.
use mathlib.Core.Path.{subst}
use simple_webrtc.Base.{
  ℕ, ◌+◌, ◌≤◌, ◌≡◌, refl, sym, Bool, true, false, List, [], ◌∷◌, ◌++◌, some, length, arith,
}
use simple_webrtc.Rtp.RetransmissionCache.{
  Cache, Limits, OrderEntry, current, erase_entry, evict_by_age, evict_by_capacity, over_capacity,
  prune,
}
use simple_webrtc.Rtp.RetransmissionCache.Entries.{
  Entry, lookup, erase, total_bytes, HasDistinctKeys, lookup-erase,
}
use simple_webrtc.Rtp.RetransmissionCache.Invariant.{
  AreQueued, AreBelow, IsConsistent, Inv, evict_by_age-Inv, evict_by_age_round,
  evict_by_capacity_round, current-lookup, skip-IsConsistent, erase-IsConsistent,
}

erase_entry_lem :
    (key : ℕ) (e : Entry) (by_age : Bool) (c : Cache)
    → lookup key c.entries ≡ some e
    → ((erase_entry key by_age c).entries ≡ erase key c.entries)
      × ((erase_entry key by_age c).limits ≡ c.limits)
unfolding erase_entry
erase_entry_lem key e by_age c h = ground arith

module _ (newest : Entry) (item : OrderEntry) (limits : Limits) where
  -- The newest entry is held, and its item is the last in the queue.
  pub record Holds (front : List OrderEntry) (c : Cache) : Type 0 where
    pub present : lookup item.key c.entries ≡ some newest
    pub serial : newest.serial ≡ item.serial
    pub older : AreBelow item.serial front
    pub same : c.limits ≡ limits

  unfoldable pub Kept : Cache → Type 0
  Kept c = (front : List OrderEntry) × (c.order ≡ front ++ item ∷ []) × Holds front c

  erase-Holds :
      (o : OrderEntry) (front : List OrderEntry) (c : Cache) (e : Entry) (by_age : Bool)
      → HasDistinctKeys c.entries
      → current c o ≡ some e
      → Holds (o ∷ front) c
      → Holds front (erase_entry o.key by_age c)
  erase-Holds o front c e by_age d h v = ground (
    arith,
    current-lookup c o e h,
    erase_entry_lem o.key e by_age c,
    lookup-erase o.key item.key c.entries d,
  )

  skip-Holds :
      (o : OrderEntry) (front : List OrderEntry) (c : Cache) → Holds (o ∷ front) c → Holds front c
  skip-Holds o front c v = record {
    present = v.present;
    serial = v.serial;
    older = v.older.1;
    same = v.same;
  }

  settled-Holds :
      (front : List OrderEntry) (os : List OrderEntry) (c : Cache)
      → Holds front c
      → Holds front (record c { order = os })
  settled-Holds front os c v = record {
    present = v.present;
    serial = v.serial;
    older = v.older;
    same = v.same;
  }

  current-newest : (c : Cache) → Holds [] c → current c item ≡ some newest
  unfolding current
  current-newest c v = ground (arith, v)

  evict_by_age-Kept :
      (now : ℕ) (front : List OrderEntry) (c : Cache)
      → now ≤ newest.packet.stored_at + limits.max_age
      → IsConsistent (front ++ item ∷ []) c
      → Holds front c
      → Kept (evict_by_age now (front ++ item ∷ []) c)
  unfolding Kept
  evict_by_age-Kept now [] c young v h =
      evict_by_age_round Kept now item [] c (λ gone. absurd (cc (gone, current-newest c h)))
        (λ e held t. ([], refl, settled-Holds [] (item ∷ []) c h))
        (λ e held t. absurd (ground (arith, held, current-newest c h, h.same, t)))
  evict_by_age-Kept now (o ∷ front) c young v h =
      evict_by_age_round Kept now o (front ++ item ∷ []) c
        (λ gone.
          evict_by_age-Kept now front c young (skip-IsConsistent o _ c gone v)
            (skip-Holds o front c h))
        (λ e held t. (o ∷ front, refl, settled-Holds (o ∷ front) (o ∷ front ++ item ∷ []) c h))
        (λ e held t.
          evict_by_age-Kept now front (erase_entry o.key true c) young
            (erase-IsConsistent o _ c e true (current-lookup c o e held).0 v)
            (erase-Holds o front c e true v.distinct held h))

  -- With one item in the queue there is one entry.
  only_newest :
      (m : List (ℕ × Entry))
      → HasDistinctKeys m
      → AreQueued (item ∷ []) m
      → lookup item.key m ≡ some newest
      → m ≡ (item.key, newest) ∷ []
  unfolding lookup
  only_newest [] d q h = cc
  only_newest ((k, e) ∷ []) d q h = ground arith
  only_newest ((k, e) ∷ (j, f) ∷ m) d q h = ground arith

  alone-fits :
      (c : Cache)
      → 1 ≤ limits.max_packets
      → length newest.packet.bytes ≤ limits.max_bytes
      → IsConsistent (item ∷ []) c
      → Holds [] c
      → over_capacity c ≡ false
  unfolding over_capacity total_bytes
  alone-fits c few small v h =
      ground (arith, only_newest c.entries v.distinct v.waiting h.present, h.same, v.counted)

  evict_by_capacity-Kept :
      (front : List OrderEntry) (c : Cache)
      → 1 ≤ limits.max_packets
      → length newest.packet.bytes ≤ limits.max_bytes
      → IsConsistent (front ++ item ∷ []) c
      → Holds front c
      → Kept (evict_by_capacity (front ++ item ∷ []) c)
  unfolding Kept
  evict_by_capacity-Kept [] c few small v h =
      let fits = alone-fits c few small v h in
      evict_by_capacity_round Kept item [] c (λ under. ([], refl, settled-Holds [] (item ∷ []) c h))
        (λ over gone. absurd (cc (over, fits))) (λ e over held. absurd (cc (over, fits)))
  evict_by_capacity-Kept (o ∷ front) c few small v h =
      evict_by_capacity_round Kept o (front ++ item ∷ []) c
        (λ under. (o ∷ front, refl, settled-Holds (o ∷ front) (o ∷ front ++ item ∷ []) c h))
        (λ over gone.
          evict_by_capacity-Kept front c few small (skip-IsConsistent o _ c gone v)
            (skip-Holds o front c h))
        (λ e over held.
          evict_by_capacity-Kept front (erase_entry o.key false c) few small
            (erase-IsConsistent o _ c e false (current-lookup c o e held).0 v)
            (erase-Holds o front c e false v.distinct held h))

  pub prune-Kept :
      (now : ℕ) (c : Cache)
      → now ≤ newest.packet.stored_at + limits.max_age
      → 1 ≤ limits.max_packets
      → length newest.packet.bytes ≤ limits.max_bytes
      → Inv c
      → Kept c
      → Kept (prune now c)
  unfolding Kept prune
  prune-Kept now c young few small v (front, e, h) =
      let aged = evict_by_age now c.order c in
      let (front', e', h') =
        subst (λ os. IsConsistent os c → Kept (evict_by_age now os c)) (sym e)
          (λ w. evict_by_age-Kept now front c young w h) v in
      subst (λ os. IsConsistent os aged → Kept (evict_by_capacity os aged)) (sym e')
        (λ w. evict_by_capacity-Kept front' aged few small w h') (evict_by_age-Inv now c.order c v)
