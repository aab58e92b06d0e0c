-- ===== src/WebSockets/Manager.antt =====
-- `ConnectionManager` of apps/api-control-plane/app/ws/manager.py. A socket is a number, a set a list
-- without repeated elements whose order means nothing, and `delivers` says which sockets accept a
-- message; what is sent is returned beside the result.
use gooberberg_terminal.Prelude.{
  ℕ, ◌+◌, ◌-◌, String, Bool, not, ◌&&◌, Option, none, some, List, [], ◌∷◌, ◌++◌, nat_eq, string_eq,
  Eq, ◌==◌, ltb, filter, length, drop, head?, contains, if◌then◌else◌, or_else,
}
use Prim.Native.Nat.{max}
use gooberberg_terminal.Prelude.Int.{ℤ, pos, negsuc}
use gooberberg_terminal.Prelude.Dict.{Dict, lookup, insert, erase}

-- `BroadcastEvent`, without its constant fields.
pub record BroadcastEvent (P : Type 0) : Type 0 where
  pub event_id : ℕ
  pub seq : ℕ
  pub topic : String
  pub timestamp : ℕ
  pub payload : P
  pub version : String

pub data ReplayStatus : Type 0 where
  invalid ok too_old : ReplayStatus

pub record ReplayResult : Type 0 where
  pub status : ReplayStatus
  pub replayed_count : ℕ
  pub oldest_seq : Option ℕ
  pub latest_seq : Option ℕ

pub record ConnectionManager (P : Type 0) : Type 0 where
  pub connections : List ℕ
  pub subscriptions : Dict ℕ (List String)
  pub seq : ℕ
  pub replay_window : ℕ
  pub event_buffer : List (BroadcastEvent P)
  pub connection_ids : Dict ℕ ℕ

-- `s.add(x)` and `s.discard(x)` on a set.
abbrev pub add_to_set : {A : Type 0} ⦃e : Eq A⦄ → A → List A → List A
add_to_set x s = if contains x s then s else s ++ x ∷ []

abbrev pub discard : {A : Type 0} ⦃e : Eq A⦄ → A → List A → List A
discard x s = filter (λ y. not (y == x)) s

-- `s.update(xs)`
unfoldable pub update_set : List String → List String → List String
update_set [] s = s
update_set (x ∷ xs) s = update_set xs (add_to_set x s)

module _ {P : Type 0} where
  -- `__init__`
  unfoldable pub manager_init : ℤ → ConnectionManager P
  manager_init replay_window = record {
    connections = [];
    subscriptions = [];
    seq = 0;
    replay_window = elim replay_window [ pos n ↦ max 1 n | negsuc n ↦ 1 ];
    event_buffer = [];
    connection_ids = [];
  }

  -- `connect`, with the identifier of the connection.
  unfoldable pub connect : ℕ → ℕ → ConnectionManager P → ConnectionManager P
  connect socket fresh_id m = record m {
    connections = add_to_set socket m.connections;
    subscriptions = insert socket [] m.subscriptions;
    connection_ids = insert socket fresh_id m.connection_ids;
  }

  -- `disconnect`
  unfoldable pub disconnect : ℕ → ConnectionManager P → ConnectionManager P
  disconnect socket m = record m {
    connections = discard socket m.connections;
    subscriptions = erase socket m.subscriptions;
    connection_ids = erase socket m.connection_ids;
  }

  -- `self._subscriptions.get(ws, set())`
  unfoldable pub subscriptions_of : ℕ → ConnectionManager P → List String
  subscriptions_of socket m = or_else (lookup socket m.subscriptions) []

  -- `subscribe` and `unsubscribe`, with the new set of topics.
  unfoldable pub subscribe :
      ℕ → List String → ConnectionManager P → List String × ConnectionManager P
  unfolding subscriptions_of update_set
  subscribe socket topics m =
      let all = update_set topics (subscriptions_of socket m) in
      (all, record m { subscriptions = insert socket all m.subscriptions })

  unfoldable pub unsubscribe :
      ℕ → List String → ConnectionManager P → List String × ConnectionManager P
  unfolding subscriptions_of
  unsubscribe socket topics m =
      let all = filter (λ topic. not (contains topic topics)) (subscriptions_of socket m) in
      (all, record m { subscriptions = insert socket all m.subscriptions })

  -- `_send_many`: a socket that does not accept the message is disconnected.
  unfoldable pub send_many : (ℕ → Bool) → List ℕ → ConnectionManager P → ConnectionManager P
  unfolding disconnect
  send_many delivers [] m = m
  send_many delivers (socket ∷ sockets) m =
      send_many delivers sockets (if delivers socket then m else disconnect socket m)

  -- `deque.append` of a queue with a `maxlen`.
  abbrev pub append_bounded :
      ℕ → BroadcastEvent P → List (BroadcastEvent P) → List (BroadcastEvent P)
  append_bounded maxlen event buffer =
      if ltb (length buffer) maxlen then buffer ++ event ∷ [] else drop 1 (buffer ++ event ∷ [])

  abbrev pub is_subscribed : String → ConnectionManager P → ℕ → Bool
  is_subscribed topic m socket = contains topic (subscriptions_of socket m)

  -- `publish_topic`, with the event, the sockets that it is sent to, and the new state.
  unfoldable pub publish_topic :
      (ℕ → Bool)
      → ℕ
      → ℕ
      → String
      → P
      → String
      → ConnectionManager P
      → (BroadcastEvent P × List ℕ) × ConnectionManager P
  unfolding send_many
  publish_topic delivers fresh_id now topic payload version m =
      let event : BroadcastEvent P = record {
        event_id = fresh_id;
        seq = m.seq + 1;
        topic = topic;
        timestamp = now;
        payload = payload;
        version = version;
      } in
      let stored : ConnectionManager P = record m {
        seq = m.seq + 1;
        event_buffer = append_bounded m.replay_window event m.event_buffer;
      } in
      let sockets = filter (is_subscribed topic stored) m.connections in
      ((event, sockets), send_many delivers sockets stored)

  abbrev pub last? : List (BroadcastEvent P) → Option (BroadcastEvent P)
  last? [] = none
  last? (e ∷ es) = some (or_else (last? es) e)

  abbrev pub is_wanted : ℕ → List String → BroadcastEvent P → Bool
  is_wanted last_seq topics e = ltb last_seq e.seq && contains e.topic topics

  -- The rest of `replay_since`, with the oldest and the latest event in the buffer.
  abbrev pub replay_from :
      ℕ
      → List String
      → Option (BroadcastEvent P)
      → Option (BroadcastEvent P)
      → List (BroadcastEvent P)
      → ReplayResult × List (BroadcastEvent P)
  replay_from last_seq topics (some oldest) (some latest) buffer =
      let replayable = filter (is_wanted last_seq topics) buffer in
      if ltb last_seq (oldest.seq - 1)
      then (
        record {
          status = too_old;
          replayed_count = 0;
          oldest_seq = some oldest.seq;
          latest_seq = some latest.seq;
        },
        [],
      )
      else (
        record {
          status = ok;
          replayed_count = length replayable;
          oldest_seq = some oldest.seq;
          latest_seq = some latest.seq;
        },
        replayable,
      )
  replay_from last_seq topics _ _ buffer =
      (record { status = ok; replayed_count = 0; oldest_seq = none; latest_seq = none }, [])

  -- `replay_since`, with the events that are sent to the socket.
  unfoldable pub replay_since :
      ℤ → List String → ConnectionManager P → ReplayResult × List (BroadcastEvent P)
  replay_since (negsuc n) topics m =
      (record { status = invalid; replayed_count = 0; oldest_seq = none; latest_seq = none }, [])
  replay_since (pos last_seq) topics m =
      replay_from last_seq topics (head? m.event_buffer) (last? m.event_buffer) m.event_buffer

  -- `topic_subscriber_count`
  unfoldable pub topic_subscriber_count : String → ConnectionManager P → ℕ
  topic_subscriber_count topic m = length (filter (λ entry. contains topic entry.1) m.subscriptions)

  -- `active_count`
  unfoldable pub active_count : ConnectionManager P → ℕ
  active_count m = length m.connections

  -- `broadcast_json`, as far as it changes the state.
  unfoldable pub broadcast_json : (ℕ → Bool) → ConnectionManager P → ConnectionManager P
  unfolding send_many
  broadcast_json delivers m = send_many delivers m.connections m
