-- ===== src/Tests/State.antt =====
-- The retransmission cache and the port allocator.
use simple_webrtc.Base.{◌≡◌, refl, List, [], ◌∷◌, some, arith}
use simple_webrtc.Base.Int.{pos}
use simple_webrtc.Rtp.RetransmissionCache.{
  Config, hit, miss, limits_of, make_cache, remember, lookup_for_retransmission, prune, store,
  evict_by_age, evict_by_capacity, over_capacity, current, erase_entry, make_key,
}
use simple_webrtc.Rtp.RetransmissionCache.Entries.{
  Packet, total_bytes, lookup, erase, insert_or_assign,
}
use simple_webrtc.Rtp.RetransmissionCache.Invariant.{Inv}
use simple_webrtc.Rtp.RetransmissionCache.Runs.{
  Op, remembers, looks_up, snapshots, clears, run, IsWithin, run-IsWithin,
}
use simple_webrtc.Rtp.RetransmissionCache.Recall.{stored, lookup-remember}
use simple_webrtc.Net.UdpPortAllocator.{
  UdpPortRange, UdpPortAllocator, contains, make_allocator, acquire, release, try_ports, following,
  insert,
}
use simple_webrtc.Net.UdpPortAllocator.Reserved.{
  IsWellFormed, Acquires, acquire-Acquires, release-acquire, make_allocator-IsWellFormed,
}

abbrev packet : Packet
packet = record {
  bytes = 1 ∷ 2 ∷ 3 ∷ [];
  target_ssrc = 5;
  target_payload_type = 96;
  target_sequence_number = 10;
  target_timestamp = 0;
  payload_size = 3;
  source_generation = 1;
  stored_at = 0;
}

abbrev one_packet : Config
one_packet = record {
  max_age = pos 0;
  max_packets = 1;
  max_bytes = 8;
  minimum_retransmit_interval = pos 20;
}

new-Inv : Inv (make_cache one_packet)
unfolding make_cache total_bytes
new-Inv = record { distinct = tt; counted = refl; waiting = tt; below = tt; balanced = omega arith }

-- A second packet pushes the first one out.
pushed_out :
    (lookup_for_retransmission 5 10 2 (
      remember
        (record packet { target_sequence_number = 11 })
        1
        (remember packet 0 (make_cache one_packet)))).0
    ≡ miss
unfolding lookup_for_retransmission remember store prune evict_by_age evict_by_capacity
    over_capacity current erase_entry lookup erase insert_or_assign make_cache make_key
pushed_out = refl

lookup-remember_example :
    (lookup_for_retransmission 5 10 7 (remember packet 4 (make_cache one_packet))).0
    ≡ hit (stored packet 4)
unfolding make_cache
lookup-remember_example =
    lookup-remember packet 4 7 (make_cache one_packet) new-Inv (omega arith) (omega arith)
      (omega arith) (omega arith) (omega arith)

abbrev calls : List Op
calls = remembers packet 0 ∷ looks_up 5 10 3 ∷ snapshots 9 ∷ clears ∷ []

run-IsWithin_example : IsWithin (limits_of one_packet) (run calls (make_cache one_packet))
run-IsWithin_example = run-IsWithin one_packet calls

abbrev two_ports : UdpPortRange
two_ports = record { min_port = 50000; max_port = 50001 }

-- Ports are handed out in turn, then none is left.
abbrev first_taken : UdpPortAllocator
first_taken = record { range = two_ports; next_port = 50001; used_ports = 50000 ∷ [] }

first_port : acquire (make_allocator two_ports) ≡ some (50000, first_taken)
unfolding acquire make_allocator try_ports following insert contains
first_port = refl

two_ports-IsWellFormed : IsWellFormed (make_allocator two_ports)
two_ports-IsWellFormed =
    make_allocator-IsWellFormed two_ports
      (record { positive = omega arith; ordered = omega arith; word = omega arith })

acquire-Acquires_example : Acquires (make_allocator two_ports) (acquire (make_allocator two_ports))
acquire-Acquires_example = acquire-Acquires (make_allocator two_ports) two_ports-IsWellFormed

release-acquire_example :
    contains 50000 (release 50000 first_taken).used_ports
    ≡ contains 50000 (make_allocator two_ports).used_ports
release-acquire_example =
    release-acquire (make_allocator two_ports) first_taken 50000 50000 two_ports-IsWellFormed
      first_port
