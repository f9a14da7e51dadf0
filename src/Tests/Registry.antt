-- ===== src/Tests/Registry.antt =====
-- Runs of stream_registry.cpp and of a session's remote candidates, and the theorems at them.
use simple_webrtc.Base.{Bool}
use simple_webrtc.Session.RemoteCandidates.Trickled.{IsTrickled, add_all, add_all-IsTrickled}
use simple_webrtc.Base.{ℕ, zero, suc, ◌+◌, ◌≡◌, refl, true, false, List, [], ◌∷◌, length, arith}
use simple_webrtc.Session.Maps.{same, lookup, has_value, emplace}
use simple_webrtc.Session.StreamRegistry.{
  StreamRegistry, is_used, make_unique_session_id, add_publisher, create_publisher_session,
  add_subscriber, create_subscriber_session, remove_publisher_session,
  remove_subscriber_sessions_by_stream_id, empty_registry, find_publisher_by_session_id,
  find_subscriber_by_session_id,
}
use simple_webrtc.Session.StreamRegistry.Consistent.{IsConsistent, kept}
use simple_webrtc.Session.StreamRegistry.Lifecycle.{
  Publishes, Subscribes, create_publisher_session-Publishes, create_subscriber_session-Subscribes,
}
use simple_webrtc.Session.StreamRegistry.Removal.{Unpublishes, remove_publisher_session-Unpublishes}
use simple_webrtc.Session.StreamRegistry.Runs.{
  Op, publish, subscribe, unpublish, after, step, run, run-IsConsistent, AreOf,
  remove_subscriber_sessions_by_stream_id_lem,
}

abbrev camera : List ℕ
camera = 99 ∷ 97 ∷ 109 ∷ []

-- The first id comes twice.
abbrev random : ℕ → List ℕ
random zero = 49 ∷ []
random (suc zero) = 49 ∷ []
random (suc (suc n)) = (n + 50) ∷ []

abbrev ops : List (Op ℕ)
ops = publish random 5 1000 camera 0 ∷ subscribe random 5 1001 camera 0 ∷ []

-- A publisher under the id "1", and a subscriber under "2".
abbrev watched : StreamRegistry ℕ
watched = run ops empty_registry

watched-IsConsistent : IsConsistent watched
watched-IsConsistent = run-IsConsistent ops

-- The subscriber's id is the first that is free.
two_sessions :
    (has_value (find_publisher_by_session_id (49 ∷ []) watched) ≡ true)
    × (has_value (find_subscriber_by_session_id (50 ∷ []) watched) ≡ true)
unfolding run step after create_publisher_session create_subscriber_session make_unique_session_id
    is_used add_publisher add_subscriber emplace lookup same has_value empty_registry
    find_publisher_by_session_id find_subscriber_by_session_id
two_sessions = (refl, refl)

free_id : is_used (random 3) watched ≡ false
unfolding run step after create_publisher_session create_subscriber_session make_unique_session_id
    is_used add_publisher add_subscriber emplace lookup same has_value empty_registry
free_id = refl

-- A publisher that goes and comes back under another id.
abbrev comings : List (Op ℕ)
comings = publish random 5 1000 camera 7 ∷ unpublish (49 ∷ []) ∷ publish random 5 1000 camera 8 ∷ []

run-IsConsistent_example : IsConsistent (run comings empty_registry)
run-IsConsistent_example = run-IsConsistent comings

create_publisher_session-Publishes_example :
    Publishes (98 ∷ []) watched (create_publisher_session random 5 2000 (98 ∷ []) 3 watched)
create_publisher_session-Publishes_example =
    create_publisher_session-Publishes random 5 3 2000 (98 ∷ []) 3 watched watched-IsConsistent
      (omega arith) free_id

create_subscriber_session-Subscribes_example :
    Subscribes camera watched (create_subscriber_session random 5 2000 camera 3 watched)
create_subscriber_session-Subscribes_example =
    create_subscriber_session-Subscribes random 5 3 2000 camera 3 watched watched-IsConsistent
      (omega arith) free_id

remove_publisher_session-Unpublishes_example :
    Unpublishes (49 ∷ []) watched (remove_publisher_session (49 ∷ []) watched)
remove_publisher_session-Unpublishes_example =
    remove_publisher_session-Unpublishes (49 ∷ []) watched watched-IsConsistent

remove_subscriber_sessions_by_stream_id_lem_example :
    AreOf camera (remove_subscriber_sessions_by_stream_id camera watched).0
    × (length (remove_subscriber_sessions_by_stream_id camera watched).0
          + length
              (remove_subscriber_sessions_by_stream_id camera watched).1.subscribers_by_session_id
        ≡ length watched.subscribers_by_session_id)
    × (find_subscriber_by_session_id
          (50 ∷ [])
          (remove_subscriber_sessions_by_stream_id camera watched).1
        ≡ kept camera (find_subscriber_by_session_id (50 ∷ []) watched))
    × IsConsistent (remove_subscriber_sessions_by_stream_id camera watched).1
remove_subscriber_sessions_by_stream_id_lem_example =
    remove_subscriber_sessions_by_stream_id_lem camera (50 ∷ []) watched watched-IsConsistent

-- A candidate is here no more than whether it marks the end.
abbrev is_end : Bool → Bool
is_end b = b

-- Two candidates, the end, and a candidate that comes too late.
abbrev trickle : List (ℕ × Bool)
trickle = (1, false) ∷ (2, false) ∷ (3, true) ∷ (4, false) ∷ []

add_all-IsTrickled_example :
    IsTrickled is_end
      (add_all is_end trickle
        (record { remote_ice_candidates = []; updated_at_milliseconds = 0 })).remote_ice_candidates
add_all-IsTrickled_example = add_all-IsTrickled is_end trickle 0
