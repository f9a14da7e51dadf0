-- ===== src/Rtp/RetransmissionCache/Runs.antt =====
-- Any sequence of calls on a cache of rtp_retransmission_cache.cpp.
use simple_webrtc.Base.{ℕ, ◌+◌, ◌≤◌, ◌≡◌, refl, ◌∙◌, List, [], ◌∷◌, length, arith}
use simple_webrtc.Rtp.RetransmissionCache.{
  Cache, Config, Limits, over_capacity, prune, store, remember, make_cache, limits_of, make_key,
  lookup_for_retransmission, snapshot, clear,
}
use simple_webrtc.Rtp.RetransmissionCache.Entries.{Packet, total_bytes, HasDistinctKeys}
use simple_webrtc.Rtp.RetransmissionCache.Invariant.{IsTrimmed}
use simple_webrtc.Rtp.RetransmissionCache.Operations.{
  prune-IsTrimmed, prune-limits, store-Inv, answer-IsTrimmed,
}

-- The operations that a user of the cache calls.
pub data Op : Type 0 where
  remembers : Packet → ℕ → Op
  looks_up : ℕ → ℕ → ℕ → Op
  snapshots : ℕ → Op
  clears : Op

unfoldable pub step : Op → Cache → Cache
step (remembers packet now) c = remember packet now c
step (looks_up ssrc sequence_number now) c =
    (lookup_for_retransmission ssrc sequence_number now c).1
step (snapshots now) c = (snapshot now c).1
step clears c = clear c

unfoldable pub run : List Op → Cache → Cache
run [] c = c
run (op ∷ ops) c = run ops (step op c)

clear-IsTrimmed : (c : Cache) → IsTrimmed (clear c)
unfolding clear over_capacity total_bytes
clear-IsTrimmed c = ground arith

step-IsTrimmed : (op : Op) (c : Cache) → IsTrimmed c → IsTrimmed (step op c)
unfolding step remember lookup_for_retransmission snapshot clear
step-IsTrimmed (remembers packet now) c (v, w) = ground (
  arith,
  w,
  prune-IsTrimmed now (store packet now (prune now c))
      (store-Inv packet now (prune now c) (prune-IsTrimmed now c v).0),
)
step-IsTrimmed (looks_up ssrc sequence_number now) c (v, w) =
    answer-IsTrimmed _ (make_key ssrc sequence_number) now (prune now c) (prune-IsTrimmed now c v)
      refl
step-IsTrimmed (snapshots now) c (v, w) = prune-IsTrimmed now c v
step-IsTrimmed clears c (v, w) = clear-IsTrimmed c

run-IsTrimmed : (ops : List Op) (c : Cache) → IsTrimmed c → IsTrimmed (run ops c)
unfolding run
run-IsTrimmed [] c t = t
run-IsTrimmed (op ∷ ops) c t = run-IsTrimmed ops (step op c) (step-IsTrimmed op c t)

make_cache-IsTrimmed : (config : Config) → IsTrimmed (make_cache config)
unfolding make_cache over_capacity total_bytes
make_cache-IsTrimmed config = ground arith

step-limits : (op : Op) (c : Cache) → (step op c).limits ≡ c.limits
unfolding step remember store lookup_for_retransmission snapshot clear
step-limits (remembers packet now) c =
    ground (arith, prune-limits now (store packet now (prune now c)), prune-limits now c)
step-limits (looks_up ssrc sequence_number now) c = ground (arith, prune-limits now c)
step-limits (snapshots now) c = prune-limits now c
step-limits clears c = refl

run-limits : (ops : List Op) (c : Cache) → (run ops c).limits ≡ c.limits
unfolding run
run-limits [] c = refl
run-limits (op ∷ ops) c = run-limits ops (step op c) ∙ step-limits op c

-- The accounts of a cache, and its size under the limits of its configuration.
pub record IsWithin (limits : Limits) (c : Cache) : Type 0 where
  pub few : length c.entries ≤ limits.max_packets
  pub small : total_bytes c.entries ≤ limits.max_bytes
  pub counted : c.byte_count ≡ total_bytes c.entries
  pub distinct : HasDistinctKeys c.entries
  pub balanced : c.inserted ≡ length c.entries + c.evicted_age + c.evicted_capacity

-- After any sequence of calls on a new cache: the packets held are within the configured limits on
-- their number and on their bytes, the byte count is the sum of their sizes, no key is held twice,
-- and the packets counted as inserted are those held and those counted as evicted.
pub run-IsWithin :
    (config : Config) (ops : List Op) → IsWithin (limits_of config) (run ops (make_cache config))
unfolding over_capacity make_cache
run-IsWithin config ops =
    within (run ops (make_cache config)) (run-limits ops (make_cache config))
      (run-IsTrimmed ops (make_cache config) (make_cache-IsTrimmed config))
  where
    within : (c : Cache) → c.limits ≡ limits_of config → IsTrimmed c → IsWithin (limits_of config) c
    within c e (v, w) = ground (arith, e)
