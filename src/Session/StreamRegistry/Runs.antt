-- ===== src/Session/StreamRegistry/Runs.antt =====
-- Sequences of calls of stream_registry.cpp, from an empty registry on.
use simple_webrtc.Base.{
  ℕ, ◌+◌, ◌≡◌, refl, ap, true, false, List, [], ◌∷◌, Option, none, some, All, length, arith,
}
use simple_webrtc.Session.Maps.{same, lookup, has_value}
use simple_webrtc.Session.StreamRegistry.{
  PublisherSession, SubscriberSession, StreamRegistry, Outcome, success, failure, endless, is_used,
  make_unique_session_id, add_publisher, create_publisher_session, add_subscriber,
  create_subscriber_session, remove_publisher_session, remove_subscriber_session, split_subscribers,
  remove_subscriber_sessions_by_stream_id, empty_registry, find_publisher_by_stream_id,
  find_subscriber_by_session_id,
}
use simple_webrtc.Session.StreamRegistry.Consistent.{
  IsConsistent, make_unique_session_id-unused, without_subscriber, without_subscriber-IsConsistent,
  remove_by_stream-IsConsistent, kept, lookup-split,
}
use simple_webrtc.Session.StreamRegistry.Lifecycle.{
  add_publisher-Publishes, add_subscriber-Subscribes, Publishes, Subscribes,
}
use simple_webrtc.Session.StreamRegistry.Removal.{Unpublishes, remove_publisher_session-Unpublishes}

-- A call that changes the registry; the random ids and the fuel are those of the call.
pub data Op (O : Type 0) : Type 0 where
  publish : (ℕ → List ℕ) → ℕ → ℕ → List ℕ → O → Op O
  subscribe : (ℕ → List ℕ) → ℕ → ℕ → List ℕ → O → Op O
  unpublish : List ℕ → Op O
  unsubscribe : List ℕ → Op O
  unsubscribe_all : List ℕ → Op O

module _ {O : Type 0} where
  -- The registry behind a call: on an error it is the one before.
  unfoldable pub after :
      {A : Type 0} → (A → StreamRegistry O) → StreamRegistry O → Outcome A → StreamRegistry O
  after registry r (success a) = registry a
  after registry r (failure e) = r
  after registry r endless = r

  unfoldable pub step : Op O → StreamRegistry O → StreamRegistry O
  step (publish random fuel now stream_id offer) r =
      after (λ x. x.1) r (create_publisher_session random fuel now stream_id offer r)
  step (subscribe random fuel now stream_id offer) r =
      after (λ x. x.1) r (create_subscriber_session random fuel now stream_id offer r)
  step (unpublish session_id) r = after (λ x. x) r (remove_publisher_session session_id r)
  step (unsubscribe session_id) r = after (λ x. x) r (remove_subscriber_session session_id r)
  step (unsubscribe_all stream_id) r = (remove_subscriber_sessions_by_stream_id stream_id r).1

  unfoldable pub run : List (Op O) → StreamRegistry O → StreamRegistry O
  run [] r = r
  run (op ∷ ops) r = run ops (step op r)

  after-publish :
      (stream_id : List ℕ) (r : StreamRegistry O)
      (o : Outcome (PublisherSession O × StreamRegistry O))
      → IsConsistent r
      → Publishes stream_id r o
      → IsConsistent (after (λ x. x.1) r o)
  unfolding after
  after-publish stream_id r (success x) v h = h.1.consistent
  after-publish stream_id r (failure e) v h = v
  after-publish stream_id r endless v h = v

  after-subscribe :
      (stream_id : List ℕ) (r : StreamRegistry O)
      (o : Outcome (SubscriberSession O × StreamRegistry O))
      → IsConsistent r
      → Subscribes stream_id r o
      → IsConsistent (after (λ x. x.1) r o)
  unfolding after
  after-subscribe stream_id r (success x) v h = h.1.consistent
  after-subscribe stream_id r (failure e) v h = v
  after-subscribe stream_id r endless v h = v

  after-unpublish :
      (session_id : List ℕ) (r : StreamRegistry O) (o : Outcome (StreamRegistry O))
      → IsConsistent r
      → Unpublishes session_id r o
      → IsConsistent (after (λ x. x) r o)
  unfolding after
  after-unpublish session_id r (success x) v h = h.1.consistent
  after-unpublish session_id r (failure e) v h = v
  after-unpublish session_id r endless v h = v

  -- With an id or without one, where the stream has no publisher.
  add_publisher-after :
      (stream_id : List ℕ) (offer : O) (now : ℕ) (r : StreamRegistry O) (o : Option (List ℕ))
      → IsConsistent r
      → ((id : List ℕ) → o ≡ some id → is_used id r ≡ false)
      → lookup stream_id r.publishers_by_stream_id ≡ none
      → IsConsistent (after (λ x. x.1) r (add_publisher stream_id offer now r o))
  unfolding add_publisher after
  add_publisher-after stream_id offer now r none v f n = v
  add_publisher-after stream_id offer now r (some id) v f n =
      after-publish stream_id r (add_publisher stream_id offer now r (some id)) v
        (add_publisher-Publishes stream_id offer now r id v n (f id refl))

  add_subscriber-after :
      (stream_id : List ℕ) (offer : O) (now : ℕ) (r : StreamRegistry O) (o : Option (List ℕ))
      → IsConsistent r
      → ((id : List ℕ) → o ≡ some id → is_used id r ≡ false)
      → has_value (find_publisher_by_stream_id stream_id r) ≡ true
      → IsConsistent (after (λ x. x.1) r (add_subscriber stream_id offer now r o))
  unfolding add_subscriber after
  add_subscriber-after stream_id offer now r none v f n = v
  add_subscriber-after stream_id offer now r (some id) v f n =
      after-subscribe stream_id r (add_subscriber stream_id offer now r (some id)) v
        (add_subscriber-Subscribes stream_id offer now r id v n (f id refl))

  step-IsConsistent : (op : Op O) (r : StreamRegistry O) → IsConsistent r → IsConsistent (step op r)
  unfolding step create_publisher_session create_subscriber_session remove_subscriber_session after
      has_value without_subscriber find_publisher_by_stream_id
  step-IsConsistent (publish random fuel now stream_id offer) r v =
      by_stream (lookup stream_id r.publishers_by_stream_id) refl
    where
      by_stream :
          (o : Option (PublisherSession O))
          → lookup stream_id r.publishers_by_stream_id ≡ o
          → IsConsistent (step (publish random fuel now stream_id offer) r)
      by_stream (some p) e = rw e v
      by_stream none e = rw e (
          add_publisher-after stream_id offer now r (make_unique_session_id random fuel 0 r) v
            (make_unique_session_id-unused random fuel 0 r) e)
  step-IsConsistent (subscribe random fuel now stream_id offer) r v =
      by_stream (lookup stream_id r.publishers_by_stream_id) refl
    where
      by_stream :
          (o : Option (PublisherSession O))
          → lookup stream_id r.publishers_by_stream_id ≡ o
          → IsConsistent (step (subscribe random fuel now stream_id offer) r)
      by_stream (some p) e = rw e (
          add_subscriber-after stream_id offer now r (make_unique_session_id random fuel 0 r) v
            (make_unique_session_id-unused random fuel 0 r) (ap has_value e))
      by_stream none e = rw e v
  step-IsConsistent (unpublish session_id) r v =
      after-unpublish session_id r (remove_publisher_session session_id r) v
        (remove_publisher_session-Unpublishes session_id r v)
  step-IsConsistent (unsubscribe session_id) r v =
      by_session (lookup session_id r.subscribers_by_session_id) refl
    where
      by_session :
          (o : Option (SubscriberSession O))
          → lookup session_id r.subscribers_by_session_id ≡ o
          → IsConsistent (step (unsubscribe session_id) r)
      by_session (some q) e =
          rw (e, remove_subscriber_session) (without_subscriber-IsConsistent session_id r v)
      by_session none e = rw (e, remove_subscriber_session) v
  step-IsConsistent (unsubscribe_all stream_id) r v = remove_by_stream-IsConsistent stream_id r v

  empty-IsConsistent : IsConsistent {O = O} empty_registry
  unfolding empty_registry lookup
  empty-IsConsistent = record {
    streams = tt;
    publishers = tt;
    subscribers = tt;
    of_stream = λ s p h. absurd (cc);
    of_publisher = λ s p h. absurd (cc);
    of_subscriber = λ s p h. absurd (cc);
  }

  steps-IsConsistent :
      (ops : List (Op O)) (r : StreamRegistry O) → IsConsistent r → IsConsistent (run ops r)
  unfolding run
  steps-IsConsistent [] r v = v
  steps-IsConsistent (op ∷ ops) r v = steps-IsConsistent ops (step op r) (step-IsConsistent op r v)

  -- After any sequence of calls on an empty registry, failed calls among them: no key occurs twice in
  -- a map, a publisher found by its stream is found by its session id and the other way round, every
  -- session stands under its own ids, and no session id is that of a publisher and of a subscriber.
  pub run-IsConsistent : (ops : List (Op O)) → IsConsistent {O = O} (run ops empty_registry)
  run-IsConsistent ops = steps-IsConsistent ops empty_registry empty-IsConsistent

  -- The subscribers of the stream that are handed out.
  abbrev pub AreOf : List ℕ → List (SubscriberSession O) → Type 0
  AreOf stream_id = All (λ q. same q.stream_id stream_id ≡ true)

  split-AreOf :
      (stream_id : List ℕ) (m : List (List ℕ × SubscriberSession O))
      → AreOf stream_id (split_subscribers stream_id m).0
        × (length (split_subscribers stream_id m).0 + length (split_subscribers stream_id m).1
            ≡ length m)
  unfolding split_subscribers
  split-AreOf stream_id [] = (tt, refl)
  split-AreOf stream_id ((id, q) ∷ m) = ground (arith, split-AreOf stream_id m)

  -- On a consistent registry, removing the subscribers of a stream hands out only subscribers of it,
  -- and none is lost: as many are handed out and held afterwards as were held. What is found under a
  -- session id afterwards is what was found before, except a subscriber of the stream. The registry
  -- stays consistent.
  pub remove_subscriber_sessions_by_stream_id_lem :
      (stream_id session_id : List ℕ) (r : StreamRegistry O)
      → IsConsistent r
      → AreOf stream_id (remove_subscriber_sessions_by_stream_id stream_id r).0
        × (length (remove_subscriber_sessions_by_stream_id stream_id r).0
              + length
                  (remove_subscriber_sessions_by_stream_id stream_id r).1.subscribers_by_session_id
            ≡ length r.subscribers_by_session_id)
        × (find_subscriber_by_session_id session_id
              (remove_subscriber_sessions_by_stream_id stream_id r).1
            ≡ kept stream_id (find_subscriber_by_session_id session_id r))
        × IsConsistent (remove_subscriber_sessions_by_stream_id stream_id r).1
  unfolding remove_subscriber_sessions_by_stream_id find_subscriber_by_session_id
  remove_subscriber_sessions_by_stream_id_lem stream_id session_id r v = (
    (split-AreOf stream_id r.subscribers_by_session_id).0,
    (split-AreOf stream_id r.subscribers_by_session_id).1,
    lookup-split stream_id session_id r.subscribers_by_session_id v.subscribers,
    remove_by_stream-IsConsistent stream_id r v,
  )
