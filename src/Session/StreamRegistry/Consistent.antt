-- ===== src/Session/StreamRegistry/Consistent.antt =====
-- The maps of stream_registry.cpp agree with one another, whatever is created and removed.
use simple_webrtc.Base.{
  ℕ, zero, suc, ◌+◌, ◌≡◌, refl, false, List, [], ◌∷◌, if◌then◌else◌, Option, none, some, arith,
}
use simple_webrtc.Session.Maps.{
  same, same_refl, same_sound, lookup, has_value, emplace, erase, HasDistinctKeys, lookup-emplace,
  emplace-HasDistinctKeys, lookup-erase, erase-HasDistinctKeys,
}
use simple_webrtc.Session.StreamRegistry.{
  PublisherSession, SubscriberSession, StreamRegistry, is_used, make_unique_session_id,
  split_subscribers, remove_subscriber_sessions_by_stream_id,
}

module _ {O : Type 0} where
  -- Every session stands under its ids, a publisher in both maps, and no id has two sessions.
  pub record IsConsistent (r : StreamRegistry O) : Type 0 where
    pub streams : HasDistinctKeys r.publishers_by_stream_id
    pub publishers : HasDistinctKeys r.publishers_by_session_id
    pub subscribers : HasDistinctKeys r.subscribers_by_session_id
    pub of_stream :
        (s : List ℕ) (p : PublisherSession O)
        → lookup s r.publishers_by_stream_id ≡ some p
        → (p.stream_id ≡ s) × (lookup p.session_id r.publishers_by_session_id ≡ some p)
    pub of_publisher :
        (i : List ℕ) (p : PublisherSession O)
        → lookup i r.publishers_by_session_id ≡ some p
        → (p.session_id ≡ i)
          × ((lookup p.stream_id r.publishers_by_stream_id ≡ some p)
              × (lookup i r.subscribers_by_session_id ≡ none))
    pub of_subscriber :
        (i : List ℕ) (q : SubscriberSession O)
        → lookup i r.subscribers_by_session_id ≡ some q
        → q.session_id ≡ i

  pub unused :
      (id : List ℕ) (r : StreamRegistry O)
      → is_used id r ≡ false
      → (lookup id r.publishers_by_session_id ≡ none)
        × (lookup id r.subscribers_by_session_id ≡ none)
  unfolding is_used has_value
  unused id r h = ground arith

  -- What `make_unique_session_id` returns is the id of no session.
  pub make_unique_session_id-unused :
      (random : ℕ → List ℕ) (fuel call : ℕ) (r : StreamRegistry O) (id : List ℕ)
      → make_unique_session_id random fuel call r ≡ some id
      → is_used id r ≡ false
  unfolding make_unique_session_id
  make_unique_session_id-unused random zero call r id h = absurd (cc)
  make_unique_session_id-unused random (suc fuel) call r id h =
      ground (arith, h, make_unique_session_id-unused random fuel (call + 1) r id)

  unfoldable pub with_publisher : PublisherSession O → StreamRegistry O → StreamRegistry O
  with_publisher p r = record r {
    publishers_by_session_id = emplace p.session_id p r.publishers_by_session_id;
    publishers_by_stream_id = emplace p.stream_id p r.publishers_by_stream_id;
  }

  pub with_publisher-IsConsistent :
      (p : PublisherSession O) (r : StreamRegistry O)
      → is_used p.session_id r ≡ false
      → lookup p.stream_id r.publishers_by_stream_id ≡ none
      → IsConsistent r
      → IsConsistent (with_publisher p r)
  unfolding with_publisher
  with_publisher-IsConsistent p r u n v = record {
    streams = emplace-HasDistinctKeys p.stream_id p r.publishers_by_stream_id v.streams;
    publishers = emplace-HasDistinctKeys p.session_id p r.publishers_by_session_id v.publishers;
    subscribers = v.subscribers;
    of_stream = λ s q h. ground (
      arith,
      h,
      lookup-emplace p.stream_id s p r.publishers_by_stream_id n,
      lookup-emplace p.session_id q.session_id p r.publishers_by_session_id
          (unused p.session_id r u).0,
      same_sound p.stream_id s,
      same_sound p.session_id q.session_id,
      same_refl p.session_id,
      v.of_stream s q,
      unused p.session_id r u,
    );
    of_publisher = λ i q h. ground (
      arith,
      h,
      lookup-emplace p.session_id i p r.publishers_by_session_id (unused p.session_id r u).0,
      lookup-emplace p.stream_id q.stream_id p r.publishers_by_stream_id n,
      same_sound p.session_id i,
      same_sound p.stream_id q.stream_id,
      same_refl p.stream_id,
      v.of_publisher i q,
      unused p.session_id r u,
    );
    of_subscriber = v.of_subscriber;
  }

  unfoldable pub with_subscriber : SubscriberSession O → StreamRegistry O → StreamRegistry O
  with_subscriber q r = record r {
    subscribers_by_session_id = emplace q.session_id q r.subscribers_by_session_id;
  }

  pub with_subscriber-IsConsistent :
      (q : SubscriberSession O) (r : StreamRegistry O)
      → is_used q.session_id r ≡ false
      → IsConsistent r
      → IsConsistent (with_subscriber q r)
  unfolding with_subscriber
  with_subscriber-IsConsistent q r u v = record {
    streams = v.streams;
    publishers = v.publishers;
    subscribers = emplace-HasDistinctKeys q.session_id q r.subscribers_by_session_id v.subscribers;
    of_stream = v.of_stream;
    of_publisher = λ i p h. ground (
      arith,
      h,
      lookup-emplace q.session_id i q r.subscribers_by_session_id (unused q.session_id r u).1,
      same_sound q.session_id i,
      v.of_publisher i p,
      unused q.session_id r u,
    );
    of_subscriber = λ i p h. ground (
      arith,
      h,
      lookup-emplace q.session_id i q r.subscribers_by_session_id (unused q.session_id r u).1,
      same_sound q.session_id i,
      v.of_subscriber i p,
    );
  }

  unfoldable pub without_publisher : PublisherSession O → StreamRegistry O → StreamRegistry O
  without_publisher p r = record r {
    publishers_by_stream_id = erase p.stream_id r.publishers_by_stream_id;
    publishers_by_session_id = erase p.session_id r.publishers_by_session_id;
  }

  pub without_publisher-IsConsistent :
      (p : PublisherSession O) (r : StreamRegistry O)
      → lookup p.session_id r.publishers_by_session_id ≡ some p
      → IsConsistent r
      → IsConsistent (without_publisher p r)
  unfolding without_publisher
  without_publisher-IsConsistent p r e v = record {
    streams = erase-HasDistinctKeys p.stream_id r.publishers_by_stream_id v.streams;
    publishers = erase-HasDistinctKeys p.session_id r.publishers_by_session_id v.publishers;
    subscribers = v.subscribers;
    of_stream = λ s q h. ground (
      arith,
      h,
      e,
      lookup-erase p.stream_id s r.publishers_by_stream_id v.streams,
      lookup-erase p.session_id q.session_id r.publishers_by_session_id v.publishers,
      same_sound p.stream_id s,
      same_refl p.stream_id,
      same_sound p.session_id q.session_id,
      v.of_stream s q,
      v.of_publisher p.session_id p e,
    );
    of_publisher = λ i q h. ground (
      arith,
      h,
      e,
      lookup-erase p.session_id i r.publishers_by_session_id v.publishers,
      lookup-erase p.stream_id q.stream_id r.publishers_by_stream_id v.streams,
      same_sound p.session_id i,
      same_refl p.session_id,
      same_sound p.stream_id q.stream_id,
      v.of_publisher i q,
      v.of_publisher p.session_id p e,
    );
    of_subscriber = v.of_subscriber;
  }

  unfoldable pub without_subscriber : List ℕ → StreamRegistry O → StreamRegistry O
  without_subscriber id r = record r {
    subscribers_by_session_id = erase id r.subscribers_by_session_id;
  }

  pub without_subscriber-IsConsistent :
      (id : List ℕ) (r : StreamRegistry O) → IsConsistent r → IsConsistent (without_subscriber id r)
  unfolding without_subscriber
  without_subscriber-IsConsistent id r v = record {
    streams = v.streams;
    publishers = v.publishers;
    subscribers = erase-HasDistinctKeys id r.subscribers_by_session_id v.subscribers;
    of_stream = v.of_stream;
    of_publisher = λ i p h.
        ground (
          arith,
          h,
          lookup-erase id i r.subscribers_by_session_id v.subscribers,
          v.of_publisher i p,
        );
    of_subscriber = λ i p h. ground (
      arith,
      h,
      lookup-erase id i r.subscribers_by_session_id v.subscribers,
      v.of_subscriber i p,
    );
  }

  -- What stays under a session id when the subscribers of a stream go.
  unfoldable pub kept : List ℕ → Option (SubscriberSession O) → Option (SubscriberSession O)
  kept stream_id none = none
  kept stream_id (some q) = if same q.stream_id stream_id then none else some q

  pub lookup-split :
      (stream_id j : List ℕ) (m : List (List ℕ × SubscriberSession O))
      → HasDistinctKeys m
      → lookup j (split_subscribers stream_id m).1 ≡ kept stream_id (lookup j m)
  unfolding split_subscribers lookup kept
  lookup-split stream_id j [] h = refl
  lookup-split stream_id j ((i, q) ∷ m) h =
      ground (arith, lookup-split stream_id j m h.1, h.0, same_sound i j)

  split-HasDistinctKeys :
      (stream_id : List ℕ) (m : List (List ℕ × SubscriberSession O))
      → HasDistinctKeys m
      → HasDistinctKeys (split_subscribers stream_id m).1
  unfolding split_subscribers kept
  split-HasDistinctKeys stream_id [] h = tt
  split-HasDistinctKeys stream_id ((i, q) ∷ m) h =
      ground (arith, split-HasDistinctKeys stream_id m h.1, lookup-split stream_id i m h.1, h.0)

  pub remove_by_stream-IsConsistent :
      (stream_id : List ℕ) (r : StreamRegistry O)
      → IsConsistent r
      → IsConsistent (remove_subscriber_sessions_by_stream_id stream_id r).1
  unfolding remove_subscriber_sessions_by_stream_id kept
  remove_by_stream-IsConsistent id r v = record {
    streams = v.streams;
    publishers = v.publishers;
    subscribers = split-HasDistinctKeys id r.subscribers_by_session_id v.subscribers;
    of_stream = v.of_stream;
    of_publisher = λ i p h.
        ground (
          arith,
          h,
          lookup-split id i r.subscribers_by_session_id v.subscribers,
          v.of_publisher i p,
        );
    of_subscriber = λ i p h.
        of_kept i p (lookup i r.subscribers_by_session_id) (v.of_subscriber i)
          (lookup-split id i r.subscribers_by_session_id v.subscribers) h;
  }
    where
      of_kept :
          (i : List ℕ) (p : SubscriberSession O) (found : Option (SubscriberSession O))
          {now : Option (SubscriberSession O)}
          → ((q : SubscriberSession O) → found ≡ some q → q.session_id ≡ i)
          → now ≡ kept id found
          → now ≡ some p
          → p.session_id ≡ i
      of_kept i p none f e h = absurd (cc)
      of_kept i p (some q) f e h = ground (arith, f q refl, e, h)
