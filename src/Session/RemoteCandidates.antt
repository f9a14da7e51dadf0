-- ===== src/Session/RemoteCandidates.antt =====
-- The remote candidates of a session, of session/publisher_session.cpp and alike of
-- session/subscriber_session.cpp. A candidate is a `C`, of which `end_of_candidates` is read; `now`
-- is the clock's milliseconds.
pub mod Trickled
use simple_webrtc.Base.{
  ℕ, Bool, true, false, ◌&&◌, not, List, [], ◌∷◌, ◌++◌, leb, length, String, if◌then◌else◌,
}

pub record RemoteCandidates (C : Type 0) : Type 0 where
  pub remote_ice_candidates : List C
  pub updated_at_milliseconds : ℕ

-- `std::expected<void, std::string>` beside the state.
pub data Added : Type 0 where
  added : Added
  refused : String → Added

module _ {C : Type 0} (end_of_candidates : C → Bool) where
  -- `!empty() && back().end_of_candidates`.
  unfoldable pub ends_with_end : List C → Bool
  ends_with_end [] = false
  ends_with_end (c ∷ []) = end_of_candidates c
  ends_with_end (c ∷ d ∷ cs) = ends_with_end (d ∷ cs)

  unfoldable pub remote_ice_completed : RemoteCandidates C → Bool
  remote_ice_completed s = ends_with_end s.remote_ice_candidates

  unfoldable pub push_back : ℕ → C → RemoteCandidates C → RemoteCandidates C
  push_back now candidate s = record {
    remote_ice_candidates = s.remote_ice_candidates ++ candidate ∷ [];
    updated_at_milliseconds = now;
  }

  unfoldable pub add_remote_ice_candidate : ℕ → C → RemoteCandidates C → Added × RemoteCandidates C
  add_remote_ice_candidate now candidate s =
      if end_of_candidates candidate
      then (added, push_back now candidate s)
      else if remote_ice_completed s
      then (refused "remote ice candidates already completed", s)
      else if leb 256 (length s.remote_ice_candidates)
      then (refused "too many remote ice candidates", s)
      else (added, push_back now candidate s)
