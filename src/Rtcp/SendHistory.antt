-- ===== src/Rtcp/SendHistory.antt =====
-- `transport_feedback_send_history` of rtp/rtcp_transport_feedback.h and
-- rtp/rtcp_transport_feedback.cpp: the packets sent, looked up when feedback arrives. Time points and
-- durations are nanoseconds, and `now - t > age` is written `t + age < now`, which has no negative
-- side. A field's trailing `_` is left out.
pub mod Consecutive
pub mod Operations
pub mod Runs
pub mod Lookup
use simple_webrtc.Base.{
  ℕ, zero, suc, ◌+◌, ◌-◌, ◌*◌, ◌/◌, ◌%◌, max, Bool, true, false, List, [], ◌∷◌, ◌++◌, ltb, leb,
  ◌==◌, if◌then◌else◌, Option, none, some, length, Result, ok, fault, ◌>>=◌,
}
use simple_webrtc.Rtcp.TransportFeedback.{RtcpTransportFeedbackStatus, ParsedRtcpTransportFeedback}

pub record TransportFeedbackSentPacket : Type 0 where
  pub packet_size : ℕ
  pub retransmission : Bool
  pub sent_at : ℕ

pub record TransportFeedbackSendObservation : Type 0 where
  pub packet_status_count : ℕ
  pub lookup_hit : ℕ
  pub lookup_miss : ℕ
  pub received : ℕ
  pub not_received : ℕ
  pub received_bytes : ℕ
  pub not_received_bytes : ℕ
  pub received_retransmissions : ℕ
  pub not_received_retransmissions : ℕ
  pub maximum_feedback_delay_ms : ℕ

pub record TransportFeedbackSendHistorySnapshot : Type 0 where
  pub history_packets : ℕ
  pub sent_packets : ℕ
  pub sent_bytes : ℕ
  pub sent_retransmissions : ℕ
  pub sent_retransmission_bytes : ℕ
  pub feedback_packets : ℕ
  pub feedback_statuses : ℕ
  pub lookup_hit : ℕ
  pub lookup_miss : ℕ
  pub received : ℕ
  pub not_received : ℕ
  pub received_bytes : ℕ
  pub not_received_bytes : ℕ
  pub received_retransmissions : ℕ
  pub not_received_retransmissions : ℕ
  pub feedback_duplicates : ℕ
  pub feedback_gaps : ℕ
  pub feedback_reordered : ℕ
  pub evicted_age : ℕ
  pub evicted_capacity : ℕ
  pub maximum_feedback_delay_ms : ℕ

pub record SentRecord : Type 0 where
  pub extended_sequence_number : ℕ
  pub packet : TransportFeedbackSentPacket

-- The deque is the list from its front.
pub record TransportFeedbackSendHistory : Type 0 where
  pub maximum_history_age : ℕ
  pub maximum_history_packets : ℕ
  pub next_extended_sequence : ℕ
  pub history : List SentRecord
  pub last_feedback_packet_count : Option ℕ
  pub stats : TransportFeedbackSendHistorySnapshot

abbrev pub no_stats : TransportFeedbackSendHistorySnapshot
no_stats = record {
  history_packets = 0;
  sent_packets = 0;
  sent_bytes = 0;
  sent_retransmissions = 0;
  sent_retransmission_bytes = 0;
  feedback_packets = 0;
  feedback_statuses = 0;
  lookup_hit = 0;
  lookup_miss = 0;
  received = 0;
  not_received = 0;
  received_bytes = 0;
  not_received_bytes = 0;
  received_retransmissions = 0;
  not_received_retransmissions = 0;
  feedback_duplicates = 0;
  feedback_gaps = 0;
  feedback_reordered = 0;
  evicted_age = 0;
  evicted_capacity = 0;
  maximum_feedback_delay_ms = 0;
}

-- The constructor, with the age in milliseconds.
unfoldable pub new_history : ℕ → ℕ → TransportFeedbackSendHistory
new_history maximum_history_age maximum_history_packets = record {
  maximum_history_age = maximum_history_age * 1000000;
  maximum_history_packets = maximum_history_packets;
  next_extended_sequence = 0;
  history = [];
  last_feedback_packet_count = none;
  stats = no_stats;
}

unfoldable pub next_sequence_number : TransportFeedbackSendHistory → ℕ
next_sequence_number h = h.next_extended_sequence % 65536

-- The first loop of `evict_old`: what is left, and how many were dropped.
unfoldable pub evict_by_age : ℕ → ℕ → List SentRecord → List SentRecord × ℕ
evict_by_age now age [] = ([], 0)
evict_by_age now age (r ∷ rs) =
    let (left, dropped) = evict_by_age now age rs in
    if ltb (r.packet.sent_at + age) now then (left, suc dropped) else (r ∷ rs, 0)

-- The second loop.
unfoldable pub evict_by_capacity : ℕ → List SentRecord → List SentRecord × ℕ
evict_by_capacity capacity [] = ([], 0)
evict_by_capacity capacity (r ∷ rs) =
    let (left, dropped) = evict_by_capacity capacity rs in
    if ltb capacity (length (r ∷ rs)) then (left, suc dropped) else (r ∷ rs, 0)

unfoldable pub evict_old : ℕ → TransportFeedbackSendHistory → TransportFeedbackSendHistory
evict_old now h =
    let (young, by_age) = evict_by_age now h.maximum_history_age h.history in
    let (left, by_capacity) = evict_by_capacity h.maximum_history_packets young in
    record h {
      history = left;
      stats = record h.stats {
        evicted_age = h.stats.evicted_age + by_age;
        evicted_capacity = h.stats.evicted_capacity + by_capacity;
      };
    }

unfoldable pub remember_sent :
    TransportFeedbackSentPacket → TransportFeedbackSendHistory → TransportFeedbackSendHistory
remember_sent packet h = evict_old packet.sent_at (record h {
  history =
      h.history
      ++ record { extended_sequence_number = h.next_extended_sequence; packet = packet } ∷ [];
  next_extended_sequence = h.next_extended_sequence + 1;
  stats = record h.stats {
    sent_packets = h.stats.sent_packets + 1;
    sent_bytes = h.stats.sent_bytes + packet.packet_size;
    sent_retransmissions =
        if packet.retransmission
        then h.stats.sent_retransmissions + 1
        else h.stats.sent_retransmissions;
    sent_retransmission_bytes =
        if packet.retransmission
        then h.stats.sent_retransmission_bytes + packet.packet_size
        else h.stats.sent_retransmission_bytes;
  };
})

-- `history_.back()` of a list that is not empty.
unfoldable pub back : SentRecord → List SentRecord → SentRecord
back r [] = r
back r (s ∷ rs) = back s rs

unfoldable pub within : ℕ → ℕ → ℕ → Option ℕ
within oldest newest candidate =
    if ltb candidate oldest then none else if ltb newest candidate then none else some candidate

-- The candidate nearest to the newest number; one below 0 is none.
unfoldable pub find_extended_sequence : ℕ → List SentRecord → Option ℕ
unfolding within
find_extended_sequence sequence_number [] = none
find_extended_sequence sequence_number (r ∷ rs) =
    let oldest = r.extended_sequence_number in
    let newest = (back r rs).extended_sequence_number in
    let candidate = newest / 65536 * 65536 + sequence_number in
    if ltb (newest + 32768) candidate
    then if ltb candidate 65536 then none else within oldest newest (candidate - 65536)
    else if ltb (candidate + 32768) newest
    then within oldest newest (candidate + 65536)
    else within oldest newest candidate

-- The last count and the counters, behind a new count.
unfoldable pub count_feedback_packet :
    ℕ
    → Option ℕ
    → TransportFeedbackSendHistorySnapshot
    → Option ℕ × TransportFeedbackSendHistorySnapshot
count_feedback_packet count none stats = (some count, stats)
count_feedback_packet count (some last) stats =
    let difference = (count + 256 - last) % 256 in
    if difference == 0
    then (some last, record stats { feedback_duplicates = stats.feedback_duplicates + 1 })
    else if ltb difference 128
    then (some count, record stats { feedback_gaps = stats.feedback_gaps + (difference - 1) })
    else (some last, record stats { feedback_reordered = stats.feedback_reordered + 1 })

unfoldable pub observe_feedback_packet_count :
    ℕ → TransportFeedbackSendHistory → TransportFeedbackSendHistory
observe_feedback_packet_count count h =
    let (last, stats) = count_feedback_packet count h.last_feedback_packet_count h.stats in
    record h { last_feedback_packet_count = last; stats = stats }

-- `history_[index]`: an index past the end is a fault.
unfoldable pub record_at : List SentRecord → ℕ → Result SentRecord
record_at [] index = fault
record_at (r ∷ rs) zero = ok r
record_at (r ∷ rs) (suc index) = record_at rs index

abbrev pub one_if : Bool → ℕ
one_if true = 1
one_if false = 0

-- A status of a packet that was found.
unfoldable pub observe_packet :
    TransportFeedbackSentPacket
    → Bool
    → ℕ
    → TransportFeedbackSendObservation
    → TransportFeedbackSendObservation
observe_packet packet received now o =
    let delay_ms = if leb packet.sent_at now then (now - packet.sent_at) / 1000000 else 0 in
    let seen = record o {
      lookup_hit = o.lookup_hit + 1;
      maximum_feedback_delay_ms = max o.maximum_feedback_delay_ms delay_ms;
    } in
    if received
    then record seen {
      received = o.received + 1;
      received_bytes = o.received_bytes + packet.packet_size;
      received_retransmissions = o.received_retransmissions + one_if packet.retransmission;
    }
    else record seen {
      not_received = o.not_received + 1;
      not_received_bytes = o.not_received_bytes + packet.packet_size;
      not_received_retransmissions = o.not_received_retransmissions + one_if packet.retransmission;
    }

-- `history_.front().extended_sequence_number`, where the history is not empty.
unfoldable pub front_number : List SentRecord → ℕ
front_number [] = 0
front_number (r ∷ rs) = r.extended_sequence_number

unfoldable pub observe_status :
    List SentRecord
    → ℕ
    → RtcpTransportFeedbackStatus
    → TransportFeedbackSendObservation
    → Result TransportFeedbackSendObservation
observe_status history now status o = elim (find_extended_sequence status.sequence_number history) [
  | none ↦ ok (record o { lookup_miss = o.lookup_miss + 1 })
  | some extended ↦ (do
    found ← record_at history (extended - front_number history)
    ok (observe_packet found.packet status.received now o))
]

-- The loop over the statuses.
unfoldable pub observe_statuses :
    List SentRecord
    → ℕ
    → List RtcpTransportFeedbackStatus
    → TransportFeedbackSendObservation
    → Result TransportFeedbackSendObservation
observe_statuses history now [] o = ok o
observe_statuses history now (status ∷ statuses) o = do
  next ← observe_status history now status o
  observe_statuses history now statuses next

-- What `observe` adds to the counters at its end.
unfoldable pub add_observation :
    TransportFeedbackSendObservation → TransportFeedbackSendHistory → TransportFeedbackSendHistory
add_observation o h = record h {
  stats = record h.stats {
    lookup_hit = h.stats.lookup_hit + o.lookup_hit;
    lookup_miss = h.stats.lookup_miss + o.lookup_miss;
    received = h.stats.received + o.received;
    not_received = h.stats.not_received + o.not_received;
    received_bytes = h.stats.received_bytes + o.received_bytes;
    not_received_bytes = h.stats.not_received_bytes + o.not_received_bytes;
    received_retransmissions = h.stats.received_retransmissions + o.received_retransmissions;
    not_received_retransmissions =
        h.stats.not_received_retransmissions + o.not_received_retransmissions;
    maximum_feedback_delay_ms = max h.stats.maximum_feedback_delay_ms o.maximum_feedback_delay_ms;
  };
}

-- `transport_feedback_send_observation observation;` with the count of the statuses.
abbrev pub new_observation : ℕ → TransportFeedbackSendObservation
new_observation count = record {
  packet_status_count = count;
  lookup_hit = 0;
  lookup_miss = 0;
  received = 0;
  not_received = 0;
  received_bytes = 0;
  not_received_bytes = 0;
  received_retransmissions = 0;
  not_received_retransmissions = 0;
  maximum_feedback_delay_ms = 0;
}

unfoldable pub observe :
    ParsedRtcpTransportFeedback
    → ℕ
    → TransportFeedbackSendHistory
    → Result (TransportFeedbackSendObservation × TransportFeedbackSendHistory)
observe feedback now h = do
  let counted = observe_feedback_packet_count feedback.feedback_packet_count (evict_old now h)
  let noted = record counted {
    stats = record counted.stats {
      feedback_packets = counted.stats.feedback_packets + 1;
      feedback_statuses = counted.stats.feedback_statuses + length feedback.statuses;
    };
  }
  observation ←
      observe_statuses noted.history now feedback.statuses
        (new_observation (length feedback.statuses))
  ok (observation, add_observation observation noted)

unfoldable pub expire : ℕ → TransportFeedbackSendHistory → TransportFeedbackSendHistory
expire now h = evict_old now h

unfoldable pub snapshot : TransportFeedbackSendHistory → TransportFeedbackSendHistorySnapshot
snapshot h = record h.stats { history_packets = length h.history }

unfoldable pub reset : TransportFeedbackSendHistory → TransportFeedbackSendHistory
reset h = record h {
  next_extended_sequence = 0;
  history = [];
  last_feedback_packet_count = none;
  stats = no_stats;
}
