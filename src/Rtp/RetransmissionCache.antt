-- ===== src/Rtp/RetransmissionCache.antt =====
-- rtp/rtp_retransmission_cache.h and rtp/rtp_retransmission_cache.cpp: sent packets, kept for
-- retransmission by SSRC and sequence number, dropped by age and by capacity. Time points count the
-- clock's nanoseconds, and `now - t <= d` is written `now ≤ t + d`, which has no negative side.
-- The 64-bit counters do not reach 2 ^ 64.
pub mod Entries
pub mod Invariant
pub mod Operations
pub mod Runs
pub mod Recall
use simple_webrtc.Base.{
  ℕ, suc, ◌+◌, ◌-◌, ◌*◌, ◌<◌, Bool, true, false, ◌||◌, ◌&&◌, List, [], ◌∷◌, ◌++◌, ltb, leb, ◌==◌,
  not, if◌then◌else◌, Option, none, some, length,
}
use simple_webrtc.Base.Int.{ℤ, pos, negsuc}
use Entries.{Packet, Entry, lookup, erase, insert_or_assign}

pub record Config : Type 0 where
  pub max_age : ℤ
  pub max_packets : ℕ
  pub max_bytes : ℕ
  pub minimum_retransmit_interval : ℤ

-- The limits behind the constructor's checks, times in nanoseconds.
pub record Limits : Type 0 where
  pub max_age : ℕ
  pub max_packets : ℕ
  pub max_bytes : ℕ
  pub minimum_retransmit_interval : ℕ

pub record OrderEntry : Type 0 where
  pub key : ℕ
  pub serial : ℕ

pub record Cache : Type 0 where
  pub limits : Limits
  pub entries : List (ℕ × Entry)
  pub order : List OrderEntry
  pub byte_count : ℕ
  pub next_serial : ℕ
  pub inserted : ℕ
  pub replaced : ℕ
  pub evicted_age : ℕ
  pub evicted_capacity : ℕ

pub data Lookup : Type 0 where
  hit : Packet → Lookup
  miss suppressed : Lookup

pub record Snapshot : Type 0 where
  pub packet_count : ℕ
  pub byte_count : ℕ
  pub inserted : ℕ
  pub replaced : ℕ
  pub evicted_age : ℕ
  pub evicted_capacity : ℕ

abbrev pub nanoseconds : ℕ → ℕ
nanoseconds milliseconds = milliseconds * 1000000

unfoldable pub positive_or : ℤ → ℕ → ℕ
positive_or (pos n) default = if n == 0 then default else n
positive_or (negsuc n) default = default

unfoldable pub at_least_zero : ℤ → ℕ
at_least_zero (pos n) = n
at_least_zero (negsuc n) = 0

unfoldable pub limits_of : Config → Limits
unfolding positive_or at_least_zero
limits_of c = record {
  max_age = nanoseconds (positive_or c.max_age 2000);
  max_packets = if c.max_packets == 0 then 4096 else c.max_packets;
  max_bytes = if c.max_bytes == 0 then 8 * 1024 * 1024 else c.max_bytes;
  minimum_retransmit_interval = nanoseconds (at_least_zero c.minimum_retransmit_interval);
}

unfoldable pub clear : Cache → Cache
clear c = record {
  limits = c.limits;
  entries = [];
  order = [];
  byte_count = 0;
  next_serial = 1;
  inserted = 0;
  replaced = 0;
  evicted_age = 0;
  evicted_capacity = 0;
}

unfoldable pub make_cache : Config → Cache
unfolding limits_of
make_cache c = record {
  limits = limits_of c;
  entries = [];
  order = [];
  byte_count = 0;
  next_serial = 1;
  inserted = 0;
  replaced = 0;
  evicted_age = 0;
  evicted_capacity = 0;
}

-- `(ssrc << 16) | sequence_number`, for a sequence number of 16 bits.
unfoldable pub make_key : ℕ → ℕ → ℕ
make_key target_ssrc target_sequence_number = target_ssrc * 65536 + target_sequence_number

unfoldable pub erase_found : Option Entry → ℕ → Bool → Cache → Cache
erase_found none key age_eviction c = c
erase_found (some e) key age_eviction c = record c {
  byte_count = c.byte_count - length e.packet.bytes;
  entries = erase key c.entries;
  evicted_age = if age_eviction then c.evicted_age + 1 else c.evicted_age;
  evicted_capacity = if age_eviction then c.evicted_capacity else c.evicted_capacity + 1;
}

unfoldable pub erase_entry : ℕ → Bool → Cache → Cache
unfolding erase_found
erase_entry key age_eviction c = erase_found (lookup key c.entries) key age_eviction c

-- The entry that an item of the queue stands for, if it was not erased or replaced since.
unfoldable pub current : Cache → OrderEntry → Option Entry
current c o = elim (lookup o.key c.entries) [
  | none ↦ none
  | some e ↦ if e.serial == o.serial then some e else none
]

-- The first loop of `prune`.
unfoldable pub evict_by_age : ℕ → List OrderEntry → Cache → Cache
evict_by_age now [] c = record c { order = [] }
evict_by_age now (o ∷ os) c = elim (current c o) [
  | none ↦ evict_by_age now os c
  | some e ↦ elim (leb now (e.packet.stored_at + c.limits.max_age)) [
    | true ↦ record c { order = o ∷ os }
    | false ↦ evict_by_age now os (erase_entry o.key true c)
  ]
]

unfoldable pub over_capacity : Cache → Bool
over_capacity c = ltb c.limits.max_packets (length c.entries) || ltb c.limits.max_bytes c.byte_count

-- The second loop of `prune`.
unfoldable pub evict_by_capacity : List OrderEntry → Cache → Cache
evict_by_capacity [] c = record c { order = [] }
evict_by_capacity (o ∷ os) c = elim (over_capacity c) [
  | false ↦ record c { order = o ∷ os }
  | true ↦ elim (current c o) [
    | none ↦ evict_by_capacity os c
    | some e ↦ evict_by_capacity os (erase_entry o.key false c)
  ]
]

unfoldable pub prune : ℕ → Cache → Cache
prune now c = let aged = evict_by_age now c.order c in evict_by_capacity aged.order aged

-- The assignment of the new entry, between the two calls of `prune`.
unfoldable pub store : Packet → ℕ → Cache → Cache
store packet now c =
    let key = make_key packet.target_ssrc packet.target_sequence_number in
    let existing = lookup key c.entries in
    let kept_bytes : ℕ = elim existing [
      | none ↦ c.byte_count
      | some e ↦ c.byte_count - length e.packet.bytes
    ] in
    let stored = record packet { stored_at = now } in
    record c {
      entries =
          insert_or_assign key
            (record { packet = stored; serial = c.next_serial; last_retransmitted_at = none })
            c.entries;
      order = c.order ++ record { key = key; serial = c.next_serial } ∷ [];
      byte_count = kept_bytes + length packet.bytes;
      next_serial = c.next_serial + 1;
      inserted = elim existing [ none ↦ c.inserted + 1 | some e ↦ c.inserted ];
      replaced = elim existing [ none ↦ c.replaced | some e ↦ c.replaced + 1 ];
    }

unfoldable pub remember : Packet → ℕ → Cache → Cache
remember packet now c =
    if length packet.bytes == 0 || packet.target_ssrc == 0
    then c
    else prune now (store packet now (prune now c))

-- `last && now - last < interval`.
unfoldable pub is_suppressed : Option ℕ → ℕ → ℕ → Bool
is_suppressed none now interval = false
is_suppressed (some last) now interval = ltb now (last + interval)

unfoldable pub answer : Option Entry → ℕ → ℕ → Cache → Lookup × Cache
unfolding is_suppressed
answer none key now c = (miss, c)
answer (some e) key now c =
    if is_suppressed e.last_retransmitted_at now c.limits.minimum_retransmit_interval
    then (suppressed, c)
    else (
      hit e.packet,
      record c {
        entries = insert_or_assign key (record e { last_retransmitted_at = some now }) c.entries;
      },
    )

unfoldable pub lookup_for_retransmission : ℕ → ℕ → ℕ → Cache → Lookup × Cache
unfolding answer
lookup_for_retransmission target_ssrc target_sequence_number now c =
    let pruned = prune now c in
    let key = make_key target_ssrc target_sequence_number in
    answer (lookup key pruned.entries) key now pruned

unfoldable pub snapshot : ℕ → Cache → Snapshot × Cache
snapshot now c =
    let pruned = prune now c in
    (
      record {
        packet_count = length pruned.entries;
        byte_count = pruned.byte_count;
        inserted = pruned.inserted;
        replaced = pruned.replaced;
        evicted_age = pruned.evicted_age;
        evicted_capacity = pruned.evicted_capacity;
      },
      pruned,
    )
