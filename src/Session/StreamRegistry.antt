-- ===== src/Session/StreamRegistry.antt =====
-- session/stream_registry.h and session/stream_registry.cpp: the publishers of the streams and the
-- subscribers to them. A session is what its constructor sets, which nothing changes later: the
-- registry reads no other part but the time of the last update, which is a parameter of the
-- snapshots, by session. `O` is the summary of the remote offer, `random` the results of the calls
-- of `random_string(24)` in turn, and `now` the clock's milliseconds.
pub mod Consistent
pub mod Lifecycle
pub mod Removal
pub mod Runs
use simple_webrtc.Base.{
  ℕ, zero, suc, ◌+◌, Bool, true, false, ◌||◌, not, List, [], ◌∷◌, ◌++◌, if◌then◌else◌, Option, none,
  some, String,
}
use simple_webrtc.Session.Maps.{same, lookup, has_value, emplace, erase}

pub data StreamRegistryError : Type 0 where
  stream_already_has_publisher : StreamRegistryError
  publisher_not_found : StreamRegistryError
  publisher_session_not_found : StreamRegistryError
  subscriber_session_not_found : StreamRegistryError

pub data StreamSessionKind : Type 0 where
  publisher : StreamSessionKind
  subscriber : StreamSessionKind

unfoldable pub stream_registry_error_to_string : StreamRegistryError → String
stream_registry_error_to_string stream_already_has_publisher = "stream_already_has_publisher"
stream_registry_error_to_string publisher_not_found = "publisher_not_found"
stream_registry_error_to_string publisher_session_not_found = "publisher_session_not_found"
stream_registry_error_to_string subscriber_session_not_found = "subscriber_session_not_found"

unfoldable pub stream_session_kind_to_string : StreamSessionKind → String
stream_session_kind_to_string publisher = "publisher"
stream_session_kind_to_string subscriber = "subscriber"

pub record PublisherSession (O : Type 0) : Type 0 where
  pub session_id : List ℕ
  pub stream_id : List ℕ
  pub remote_offer_summary : O
  pub created_at_milliseconds : ℕ

pub record SubscriberSession (O : Type 0) : Type 0 where
  pub session_id : List ℕ
  pub stream_id : List ℕ
  pub remote_offer_summary : O
  pub created_at_milliseconds : ℕ

pub record StreamSessionLifecycleSnapshot : Type 0 where
  pub kind : StreamSessionKind
  pub stream_id : List ℕ
  pub session_id : List ℕ
  pub created_at_milliseconds : ℕ
  pub updated_at_milliseconds : ℕ

pub record StreamRegistry (O : Type 0) : Type 0 where
  pub publishers_by_stream_id : List (List ℕ × PublisherSession O)
  pub publishers_by_session_id : List (List ℕ × PublisherSession O)
  pub subscribers_by_session_id : List (List ℕ × SubscriberSession O)

-- `std::expected` of an error; `endless` is the loop for an unused session id out of fuel.
pub data Outcome (A : Type 0) : Type 0 where
  success : A → Outcome A
  failure : StreamRegistryError → Outcome A
  endless : Outcome A

module _ {O : Type 0} where
  unfoldable pub empty_registry : StreamRegistry O
  empty_registry = record {
    publishers_by_stream_id = [];
    publishers_by_session_id = [];
    subscribers_by_session_id = [];
  }

  unfoldable pub is_used : List ℕ → StreamRegistry O → Bool
  is_used session_id r =
      has_value (lookup session_id r.publishers_by_session_id)
      || has_value (lookup session_id r.subscribers_by_session_id)

  -- `for (;;)`, with `fuel` rounds left and `call` calls of `random_string` made.
  unfoldable pub make_unique_session_id : (ℕ → List ℕ) → ℕ → ℕ → StreamRegistry O → Option (List ℕ)
  make_unique_session_id random zero call r = none
  make_unique_session_id random (suc fuel) call r =
      let again = make_unique_session_id random fuel (call + 1) r in
      if is_used (random call) r then again else some (random call)

  -- The part behind the choice of a session id.
  unfoldable pub add_publisher :
      List ℕ
      → O
      → ℕ
      → StreamRegistry O
      → Option (List ℕ)
      → Outcome (PublisherSession O × StreamRegistry O)
  add_publisher stream_id offer now r none = endless
  add_publisher stream_id offer now r (some id) =
      let session : PublisherSession O = record {
        session_id = id;
        stream_id = stream_id;
        remote_offer_summary = offer;
        created_at_milliseconds = now;
      } in
      success (
        session,
        record r {
          publishers_by_session_id = emplace id session r.publishers_by_session_id;
          publishers_by_stream_id = emplace stream_id session r.publishers_by_stream_id;
        },
      )

  unfoldable pub create_publisher_session :
      (ℕ → List ℕ)
      → ℕ
      → ℕ
      → List ℕ
      → O
      → StreamRegistry O
      → Outcome (PublisherSession O × StreamRegistry O)
  create_publisher_session random fuel now stream_id offer r =
      if has_value (lookup stream_id r.publishers_by_stream_id)
      then failure stream_already_has_publisher
      else add_publisher stream_id offer now r (make_unique_session_id random fuel 0 r)

  unfoldable pub add_subscriber :
      List ℕ
      → O
      → ℕ
      → StreamRegistry O
      → Option (List ℕ)
      → Outcome (SubscriberSession O × StreamRegistry O)
  add_subscriber stream_id offer now r none = endless
  add_subscriber stream_id offer now r (some id) =
      let session : SubscriberSession O = record {
        session_id = id;
        stream_id = stream_id;
        remote_offer_summary = offer;
        created_at_milliseconds = now;
      } in
      success (
        session,
        record r { subscribers_by_session_id = emplace id session r.subscribers_by_session_id },
      )

  unfoldable pub create_subscriber_session :
      (ℕ → List ℕ)
      → ℕ
      → ℕ
      → List ℕ
      → O
      → StreamRegistry O
      → Outcome (SubscriberSession O × StreamRegistry O)
  create_subscriber_session random fuel now stream_id offer r =
      if not (has_value (lookup stream_id r.publishers_by_stream_id))
      then failure publisher_not_found
      else add_subscriber stream_id offer now r (make_unique_session_id random fuel 0 r)

  unfoldable pub find_publisher_by_stream_id :
      List ℕ → StreamRegistry O → Option (PublisherSession O)
  find_publisher_by_stream_id stream_id r = lookup stream_id r.publishers_by_stream_id

  unfoldable pub find_publisher_by_session_id :
      List ℕ → StreamRegistry O → Option (PublisherSession O)
  find_publisher_by_session_id session_id r = lookup session_id r.publishers_by_session_id

  unfoldable pub find_subscriber_by_session_id :
      List ℕ → StreamRegistry O → Option (SubscriberSession O)
  find_subscriber_by_session_id session_id r = lookup session_id r.subscribers_by_session_id

  unfoldable pub remove_publisher_session : List ℕ → StreamRegistry O → Outcome (StreamRegistry O)
  remove_publisher_session session_id r = elim (lookup session_id r.publishers_by_session_id) [
    | none ↦ failure publisher_session_not_found
    | some p ↦ success (record r {
      publishers_by_stream_id = erase p.stream_id r.publishers_by_stream_id;
      publishers_by_session_id = erase session_id r.publishers_by_session_id;
    })
  ]

  unfoldable pub remove_subscriber_session : List ℕ → StreamRegistry O → Outcome (StreamRegistry O)
  remove_subscriber_session session_id r = elim (lookup session_id r.subscribers_by_session_id) [
    | none ↦ failure subscriber_session_not_found
    | some q ↦
        success
          (record r { subscribers_by_session_id = erase session_id r.subscribers_by_session_id })
  ]

  -- The loop over the subscribers: those of the stream, and the map of the others.
  unfoldable pub split_subscribers :
      List ℕ
      → List (List ℕ × SubscriberSession O)
      → List (SubscriberSession O) × List (List ℕ × SubscriberSession O)
  split_subscribers stream_id [] = ([], [])
  split_subscribers stream_id ((id, q) ∷ m) =
      let rest = split_subscribers stream_id m in
      if same q.stream_id stream_id then (q ∷ rest.0, rest.1) else (rest.0, (id, q) ∷ rest.1)

  unfoldable pub remove_subscriber_sessions_by_stream_id :
      List ℕ → StreamRegistry O → List (SubscriberSession O) × StreamRegistry O
  remove_subscriber_sessions_by_stream_id stream_id r =
      let split = split_subscribers stream_id r.subscribers_by_session_id in
      (split.0, record r { subscribers_by_session_id = split.1 })

  unfoldable pub publisher_snapshots :
      (List ℕ → ℕ) → List (List ℕ × PublisherSession O) → List StreamSessionLifecycleSnapshot
  publisher_snapshots updated_at [] = []
  publisher_snapshots updated_at ((id, p) ∷ m) =
      record {
        kind = publisher;
        stream_id = p.stream_id;
        session_id = p.session_id;
        created_at_milliseconds = p.created_at_milliseconds;
        updated_at_milliseconds = updated_at p.session_id;
      }
      ∷ publisher_snapshots updated_at m

  unfoldable pub subscriber_snapshots :
      (List ℕ → ℕ) → List (List ℕ × SubscriberSession O) → List StreamSessionLifecycleSnapshot
  subscriber_snapshots updated_at [] = []
  subscriber_snapshots updated_at ((id, q) ∷ m) =
      record {
        kind = subscriber;
        stream_id = q.stream_id;
        session_id = q.session_id;
        created_at_milliseconds = q.created_at_milliseconds;
        updated_at_milliseconds = updated_at q.session_id;
      }
      ∷ subscriber_snapshots updated_at m

  unfoldable pub session_lifecycle_snapshots :
      (List ℕ → ℕ) → StreamRegistry O → List StreamSessionLifecycleSnapshot
  session_lifecycle_snapshots updated_at r =
      publisher_snapshots updated_at r.publishers_by_session_id
      ++ subscriber_snapshots updated_at r.subscribers_by_session_id
