-- ===== src/Session/StreamRegistry/Lifecycle.antt =====
-- Creating sessions in stream_registry.cpp, on every branch.
use simple_webrtc.Base.{
  ℕ, zero, suc, ◌+◌, ◌<◌, ◌≡◌, refl, ap, true, false, List, Option, none, some, arith,
}
use simple_webrtc.Session.Maps.{same_refl, lookup, has_value, lookup-emplace}
use simple_webrtc.Session.StreamRegistry.{
  PublisherSession, SubscriberSession, StreamRegistry, Outcome, success, failure, endless, is_used,
  make_unique_session_id, add_publisher, create_publisher_session, add_subscriber,
  create_subscriber_session, find_publisher_by_stream_id, find_publisher_by_session_id,
  find_subscriber_by_session_id, stream_already_has_publisher, publisher_not_found,
}
use simple_webrtc.Session.StreamRegistry.Consistent.{
  IsConsistent, unused, make_unique_session_id-unused, with_publisher, with_subscriber,
  with_publisher-IsConsistent, with_subscriber-IsConsistent,
}

module _ {O : Type 0} where
  -- The loop ends once a call gives an id that no session has.
  make_unique_session_id-ends :
      (random : ℕ → List ℕ) (fuel call rounds n : ℕ) (r : StreamRegistry O)
      → n ≡ call + rounds
      → rounds < fuel
      → is_used (random n) r ≡ false
      → has_value (make_unique_session_id random fuel call r) ≡ true
  unfolding make_unique_session_id has_value
  make_unique_session_id-ends random zero call rounds n r e h u = absurd (omega (arith, h))
  make_unique_session_id-ends random (suc fuel) call zero n r e h u = ground (arith, e, u)
  make_unique_session_id-ends random (suc fuel) call (suc rounds) n r e h u = ground (
    arith,
    make_unique_session_id-ends random fuel (call + 1) rounds n r (omega (arith, e))
        (omega (arith, h)) u,
  )

  -- A new publisher is found by both of its ids, which were free, and the registry stays consistent.
  pub record IsPublished (stream_id : List ℕ) (r : StreamRegistry O) (p : PublisherSession O)
      (r' : StreamRegistry O) : Type 0 where
    pub stream : p.stream_id ≡ stream_id
    pub was_free : is_used p.session_id r ≡ false
    pub by_stream : find_publisher_by_stream_id stream_id r' ≡ some p
    pub by_session : find_publisher_by_session_id p.session_id r' ≡ some p
    pub watched : r'.subscribers_by_session_id ≡ r.subscribers_by_session_id
    pub consistent : IsConsistent r'

  abbrev pub Publishes :
      List ℕ → StreamRegistry O → Outcome (PublisherSession O × StreamRegistry O) → Type 0
  Publishes stream_id r (success x) =
      (find_publisher_by_stream_id stream_id r ≡ none) × IsPublished stream_id r x.0 x.1
  Publishes stream_id r (failure e) =
      (e ≡ stream_already_has_publisher)
      × (has_value (find_publisher_by_stream_id stream_id r) ≡ true)
  Publishes stream_id r endless = ⊥

  pub add_publisher-Publishes :
      (stream_id : List ℕ) (offer : O) (now : ℕ) (r : StreamRegistry O) (id : List ℕ)
      → IsConsistent r
      → lookup stream_id r.publishers_by_stream_id ≡ none
      → is_used id r ≡ false
      → Publishes stream_id r (add_publisher stream_id offer now r (some id))
  unfolding add_publisher find_publisher_by_stream_id find_publisher_by_session_id with_publisher
  add_publisher-Publishes stream_id offer now r id v n u =
      let p : PublisherSession O = record {
        session_id = id;
        stream_id = stream_id;
        remote_offer_summary = offer;
        created_at_milliseconds = now;
      } in
      (
        n,
        record {
          stream = refl;
          was_free = u;
          by_stream = ground (
            arith,
            lookup-emplace stream_id stream_id p r.publishers_by_stream_id n,
            same_refl stream_id,
          );
          by_session = ground (
            arith,
            lookup-emplace id id p r.publishers_by_session_id (unused id r u).0,
            same_refl id,
          );
          watched = refl;
          consistent = with_publisher-IsConsistent p r u n v;
        },
      )

  pub some_id :
      (random : ℕ → List ℕ) (fuel n : ℕ) (r : StreamRegistry O)
      → n < fuel
      → is_used (random n) r ≡ false
      → (id : List ℕ) × (make_unique_session_id random fuel 0 r ≡ some id) × (is_used id r ≡ false)
  unfolding has_value
  some_id random fuel n r h u =
      found (make_unique_session_id random fuel 0 r) refl
        (make_unique_session_id-ends random fuel 0 n n r (omega arith) h u)
    where
      found :
          (o : Option (List ℕ))
          → make_unique_session_id random fuel 0 r ≡ o
          → has_value o ≡ true
          → (id : List ℕ) × (make_unique_session_id random fuel 0 r ≡ some id)
            × (is_used id r ≡ false)
      found none e t = absurd (cc)
      found (some id) e t = (id, e, make_unique_session_id-unused random fuel 0 r id e)

  -- On a consistent registry, where one of the first `fuel` random ids is that of no session,
  -- creating a publisher session ends. It fails with `stream_already_has_publisher` exactly where the
  -- stream has a publisher. Otherwise the new session has the stream's id and a session id that was
  -- free, it is found by both ids afterwards, no subscriber is touched, and the registry stays
  -- consistent.
  pub create_publisher_session-Publishes :
      (random : ℕ → List ℕ) (fuel n now : ℕ) (stream_id : List ℕ) (offer : O) (r : StreamRegistry O)
      → IsConsistent r
      → n < fuel
      → is_used (random n) r ≡ false
      → Publishes stream_id r (create_publisher_session random fuel now stream_id offer r)
  unfolding create_publisher_session has_value find_publisher_by_stream_id
  create_publisher_session-Publishes random fuel n now stream_id offer r v h u =
      by_stream (lookup stream_id r.publishers_by_stream_id) refl
    where
      by_stream :
          (o : Option (PublisherSession O))
          → lookup stream_id r.publishers_by_stream_id ≡ o
          → Publishes stream_id r (create_publisher_session random fuel now stream_id offer r)
      by_stream (some p) e = rw e (refl, ap has_value e)
      by_stream none e =
          let (id, f, g) = some_id random fuel n r h u in
          rw (e, f) (add_publisher-Publishes stream_id offer now r id v e g)

  -- A new subscriber is found by its session id, which was free, and the registry stays consistent.
  pub record IsSubscribed (stream_id : List ℕ) (r : StreamRegistry O) (q : SubscriberSession O)
      (r' : StreamRegistry O) : Type 0 where
    pub stream : q.stream_id ≡ stream_id
    pub was_free : is_used q.session_id r ≡ false
    pub by_session : find_subscriber_by_session_id q.session_id r' ≡ some q
    pub published : r'.publishers_by_stream_id ≡ r.publishers_by_stream_id
    pub consistent : IsConsistent r'

  abbrev pub Subscribes :
      List ℕ → StreamRegistry O → Outcome (SubscriberSession O × StreamRegistry O) → Type 0
  Subscribes stream_id r (success x) =
      (has_value (find_publisher_by_stream_id stream_id r) ≡ true)
      × IsSubscribed stream_id r x.0 x.1
  Subscribes stream_id r (failure e) =
      (e ≡ publisher_not_found) × (find_publisher_by_stream_id stream_id r ≡ none)
  Subscribes stream_id r endless = ⊥

  pub add_subscriber-Subscribes :
      (stream_id : List ℕ) (offer : O) (now : ℕ) (r : StreamRegistry O) (id : List ℕ)
      → IsConsistent r
      → has_value (find_publisher_by_stream_id stream_id r) ≡ true
      → is_used id r ≡ false
      → Subscribes stream_id r (add_subscriber stream_id offer now r (some id))
  unfolding add_subscriber find_subscriber_by_session_id with_subscriber
  add_subscriber-Subscribes stream_id offer now r id v t u =
      let q : SubscriberSession O = record {
        session_id = id;
        stream_id = stream_id;
        remote_offer_summary = offer;
        created_at_milliseconds = now;
      } in
      (
        t,
        record {
          stream = refl;
          was_free = u;
          by_session = ground (
            arith,
            lookup-emplace id id q r.subscribers_by_session_id (unused id r u).1,
            same_refl id,
          );
          published = refl;
          consistent = with_subscriber-IsConsistent q r u v;
        },
      )

  -- On a consistent registry, where one of the first `fuel` random ids is that of no session,
  -- creating a subscriber session ends. It fails with `publisher_not_found` exactly where the stream
  -- has no publisher. Otherwise the new session has the stream's id and a session id that was free,
  -- it is found by that id afterwards, the published streams stay, and the registry stays consistent.
  pub create_subscriber_session-Subscribes :
      (random : ℕ → List ℕ) (fuel n now : ℕ) (stream_id : List ℕ) (offer : O) (r : StreamRegistry O)
      → IsConsistent r
      → n < fuel
      → is_used (random n) r ≡ false
      → Subscribes stream_id r (create_subscriber_session random fuel now stream_id offer r)
  unfolding create_subscriber_session has_value find_publisher_by_stream_id
  create_subscriber_session-Subscribes random fuel n now stream_id offer r v h u =
      by_stream (lookup stream_id r.publishers_by_stream_id) refl
    where
      by_stream :
          (o : Option (PublisherSession O))
          → lookup stream_id r.publishers_by_stream_id ≡ o
          → Subscribes stream_id r (create_subscriber_session random fuel now stream_id offer r)
      by_stream (some p) e =
          let (id, f, g) = some_id random fuel n r h u in
          rw (e, f) (add_subscriber-Subscribes stream_id offer now r id v (ap has_value e) g)
      by_stream none e = rw e (refl, e)
