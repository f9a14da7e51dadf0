-- ===== src/Session/StreamRegistry/Removal.antt =====
-- Removing a publisher from stream_registry.cpp, on every branch.
use mathlib.Core.Path.{subst}
use simple_webrtc.Base.{ℕ, ◌≡◌, refl, List, Option, none, some, arith}
use simple_webrtc.Session.Maps.{same_refl, lookup, erase, lookup-erase}
use simple_webrtc.Session.StreamRegistry.{
  PublisherSession, StreamRegistry, Outcome, success, failure, endless, remove_publisher_session,
  find_publisher_by_stream_id, find_publisher_by_session_id, publisher_session_not_found,
}
use simple_webrtc.Session.StreamRegistry.Consistent.{
  IsConsistent, without_publisher, without_publisher-IsConsistent,
}

module _ {O : Type 0} where
  -- A publisher that is removed is found by neither id, and its stream is free; the subscribers stay.
  pub record IsUnpublished (session_id : List ℕ) (r : StreamRegistry O) (p : PublisherSession O)
      (r' : StreamRegistry O) : Type 0 where
    pub was_found : find_publisher_by_session_id session_id r ≡ some p
    pub by_stream : find_publisher_by_stream_id p.stream_id r' ≡ none
    pub by_session : find_publisher_by_session_id session_id r' ≡ none
    pub watched : r'.subscribers_by_session_id ≡ r.subscribers_by_session_id
    pub consistent : IsConsistent r'

  abbrev pub Unpublishes : List ℕ → StreamRegistry O → Outcome (StreamRegistry O) → Type 0
  Unpublishes session_id r (success r') = (p : PublisherSession O) × IsUnpublished session_id r p r'
  Unpublishes session_id r (failure e) =
      (e ≡ publisher_session_not_found) × (find_publisher_by_session_id session_id r ≡ none)
  Unpublishes session_id r endless = ⊥

  without_publisher-IsUnpublished :
      (p : PublisherSession O) (r : StreamRegistry O)
      → IsConsistent r
      → lookup p.session_id r.publishers_by_session_id ≡ some p
      → IsUnpublished p.session_id r p (without_publisher p r)
  unfolding find_publisher_by_stream_id find_publisher_by_session_id without_publisher
  without_publisher-IsUnpublished p r v e = record {
    was_found = e;
    by_stream = ground (
      arith,
      lookup-erase p.stream_id p.stream_id r.publishers_by_stream_id v.streams,
      same_refl p.stream_id,
    );
    by_session = ground (
      arith,
      lookup-erase p.session_id p.session_id r.publishers_by_session_id v.publishers,
      same_refl p.session_id,
    );
    watched = refl;
    consistent = without_publisher-IsConsistent p r e v;
  }

  -- On a consistent registry, removing a publisher session fails with `publisher_session_not_found`
  -- exactly where no publisher has the id. Otherwise the publisher is found neither by its session id
  -- nor by its stream afterwards, the subscribers stay, and the registry stays consistent.
  pub remove_publisher_session-Unpublishes :
      (session_id : List ℕ) (r : StreamRegistry O)
      → IsConsistent r
      → Unpublishes session_id r (remove_publisher_session session_id r)
  unfolding remove_publisher_session find_publisher_by_session_id without_publisher
  remove_publisher_session-Unpublishes session_id r v =
      by_session (lookup session_id r.publishers_by_session_id) refl
    where
      moved :
          (p : PublisherSession O)
          → p.session_id ≡ session_id
          → lookup session_id r.publishers_by_session_id ≡ some p
          → IsUnpublished session_id r p (record r {
            publishers_by_stream_id = erase p.stream_id r.publishers_by_stream_id;
            publishers_by_session_id = erase session_id r.publishers_by_session_id;
          })
      moved p i =
          subst
            (λ id.
              lookup id r.publishers_by_session_id ≡ some p
              → IsUnpublished id r p (record r {
                publishers_by_stream_id = erase p.stream_id r.publishers_by_stream_id;
                publishers_by_session_id = erase id r.publishers_by_session_id;
              }))
            i (λ e. without_publisher-IsUnpublished p r v e)

      by_session :
          (o : Option (PublisherSession O))
          → lookup session_id r.publishers_by_session_id ≡ o
          → Unpublishes session_id r (remove_publisher_session session_id r)
      by_session (some p) e =
          rw (e, remove_publisher_session) (p, moved p (v.of_publisher session_id p e).0 e)
      by_session none e = rw (e, remove_publisher_session) (refl, e)
