-- ===== src/Rtp/RetransmissionCache/Entries.antt =====
-- The packets of rtp/rtp_retransmission_cache.h and the map of entries. The `std::unordered_map` is
-- an association list, in which a key occurs once.
use simple_webrtc.Base.{
  ℕ, ◌+◌, ◌≡◌, refl, List, [], ◌∷◌, ◌==◌, if◌then◌else◌, Option, none, some, length, arith,
}

pub record Packet : Type 0 where
  pub bytes : List ℕ
  pub target_ssrc : ℕ
  pub target_payload_type : ℕ
  pub target_sequence_number : ℕ
  pub target_timestamp : ℕ
  pub payload_size : ℕ
  pub source_generation : ℕ
  pub stored_at : ℕ

pub record Entry : Type 0 where
  pub packet : Packet
  pub serial : ℕ
  pub last_retransmitted_at : Option ℕ

unfoldable pub lookup : ℕ → List (ℕ × Entry) → Option Entry
lookup k [] = none
lookup k ((j, e) ∷ m) = if j == k then some e else lookup k m

unfoldable pub erase : ℕ → List (ℕ × Entry) → List (ℕ × Entry)
erase k [] = []
erase k ((j, e) ∷ m) = if j == k then m else (j, e) ∷ erase k m

unfoldable pub insert_or_assign : ℕ → Entry → List (ℕ × Entry) → List (ℕ × Entry)
insert_or_assign k e [] = (k, e) ∷ []
insert_or_assign k e ((j, d) ∷ m) = if j == k then (k, e) ∷ m else (j, d) ∷ insert_or_assign k e m

-- The bytes of all packets held.
unfoldable pub total_bytes : List (ℕ × Entry) → ℕ
total_bytes [] = 0
total_bytes ((k, e) ∷ m) = length e.packet.bytes + total_bytes m

abbrev pub HasDistinctKeys : List (ℕ × Entry) → Type 0
HasDistinctKeys [] = Unit {0}
HasDistinctKeys ((k, e) ∷ m) = (lookup k m ≡ none) × HasDistinctKeys m

pub lookup-insert :
    (k j : ℕ) (e : Entry) (m : List (ℕ × Entry))
    → lookup j (insert_or_assign k e m) ≡ (if k == j then some e else lookup j m)
unfolding lookup insert_or_assign
lookup-insert k j e [] = refl
lookup-insert k j e ((i, d) ∷ m) = ground (arith, lookup-insert k j e m)

pub lookup-erase :
    (k j : ℕ) (m : List (ℕ × Entry))
    → HasDistinctKeys m
    → lookup j (erase k m) ≡ (if k == j then none else lookup j m)
unfolding lookup erase
lookup-erase k j [] h = ground arith
lookup-erase k j ((i, d) ∷ m) h = ground (arith, lookup-erase k j m h.1)

pub erase-HasDistinctKeys :
    (k : ℕ) (m : List (ℕ × Entry)) → HasDistinctKeys m → HasDistinctKeys (erase k m)
unfolding erase
erase-HasDistinctKeys k [] h = tt
erase-HasDistinctKeys k ((i, d) ∷ m) h =
    ground (arith, erase-HasDistinctKeys k m h.1, lookup-erase k i m h.1)

pub insert-HasDistinctKeys :
    (k : ℕ) (e : Entry) (m : List (ℕ × Entry))
    → HasDistinctKeys m
    → HasDistinctKeys (insert_or_assign k e m)
unfolding insert_or_assign lookup
insert-HasDistinctKeys k e [] h = (refl, tt)
insert-HasDistinctKeys k e ((i, d) ∷ m) h =
    ground (arith, insert-HasDistinctKeys k e m h.1, lookup-insert k i e m)

-- What is erased is counted once.
pub erase_sizes :
    (k : ℕ) (e : Entry) (m : List (ℕ × Entry))
    → lookup k m ≡ some e
    → (length m ≡ length (erase k m) + 1)
      × (total_bytes m ≡ length e.packet.bytes + total_bytes (erase k m))
unfolding lookup erase total_bytes
erase_sizes k e [] h = cc
erase_sizes k e ((i, d) ∷ m) h = ground (arith, erase_sizes k e m)

pub insert_sizes_new :
    (k : ℕ) (e : Entry) (m : List (ℕ × Entry))
    → lookup k m ≡ none
    → (length (insert_or_assign k e m) ≡ length m + 1)
      × (total_bytes (insert_or_assign k e m) ≡ length e.packet.bytes + total_bytes m)
unfolding lookup insert_or_assign total_bytes
insert_sizes_new k e [] h = ground arith
insert_sizes_new k e ((i, d) ∷ m) h = ground (arith, insert_sizes_new k e m)

pub insert_sizes_old :
    (k : ℕ) (e d : Entry) (m : List (ℕ × Entry))
    → lookup k m ≡ some d
    → (length (insert_or_assign k e m) ≡ length m)
      × (total_bytes (insert_or_assign k e m) + length d.packet.bytes
          ≡ length e.packet.bytes + total_bytes m)
unfolding lookup insert_or_assign total_bytes
insert_sizes_old k e d [] h = cc
insert_sizes_old k e d ((i, c) ∷ m) h = ground (arith, insert_sizes_old k e d m)
