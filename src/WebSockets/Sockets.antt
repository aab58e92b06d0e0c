-- ===== src/WebSockets/Sockets.antt =====
-- Who receives the events of apps/api-control-plane/app/ws/manager.py.
use gooberberg_terminal.Prelude.{
  ℕ, ◌+◌, String, ◌≡◌, refl, ap, Bool, not, ◌&&◌, ◌||◌, List, [], ◌∷◌, arith, nat_eq, string_eq,
  ◌==◌, contains, contains-append, contains-filter, filter, Bool-cases, inl, inr,
}
use gooberberg_terminal.Prelude.Dict.{lookup-insert_self}
use gooberberg_terminal.WebSockets.Manager.{
  BroadcastEvent, ConnectionManager, add_to_set, update_set, disconnect, subscriptions_of,
  subscribe, unsubscribe, send_many, is_subscribed, publish_topic, append_bounded, broadcast_json,
}

contains-update_set :
    (topic : String) (topics s : List String)
    → contains topic (update_set topics s) ≡ (contains topic topics || contains topic s)
unfolding update_set
contains-update_set topic [] s = refl
contains-update_set topic (t ∷ topics) s = ground (
  arith,
  contains-update_set topic topics (add_to_set t s),
  contains-append topic s (t ∷ []),
  string_eq.beq_iff topic t,
)

module _ {P : Type 0} where
  -- After subscribing and unsubscribing, a socket is subscribed exactly to the topics that it had or
  -- asked for and did not give up.
  subscribe-unsubscribe :
      (socket : ℕ) (wanted unwanted : List String) (topic : String) (m : ConnectionManager P)
      → is_subscribed topic (unsubscribe socket unwanted (subscribe socket wanted m).1).1 socket
        ≡ ((contains topic wanted || is_subscribed topic m socket) && not (contains topic unwanted))
  unfolding subscribe unsubscribe subscriptions_of
  subscribe-unsubscribe socket wanted unwanted topic m =
      rw (lookup-insert_self, lookup-insert_self, contains-filter, contains-update_set) refl

  send_many-connections :
      (delivers : ℕ → Bool) (sockets : List ℕ) (s : ℕ) (m : ConnectionManager P)
      → contains s (send_many delivers sockets m).connections
        ≡ (contains s m.connections && not (contains s sockets && not (delivers s)))
  unfolding send_many disconnect
  send_many-connections delivers [] s m = ground arith
  send_many-connections delivers (x ∷ sockets) s m =
      let kept = send_many-connections delivers sockets s m in
      let dropped = send_many-connections delivers sockets s (disconnect x m) in
      let without = contains-filter (λ y. not (y == x)) s m.connections in
      elim (Bool-cases (s == x)) [
        | inl same ↦
            ground (arith, kept, dropped, without, same, ap delivers ((nat_eq.beq_iff s x).0 same))
        | inr other ↦ ground (arith, kept, dropped, without, other)
      ]

  delivered :
      (delivers : ℕ → Bool) (topic : String) (s : ℕ) (m : ConnectionManager P)
      → contains s (send_many delivers (filter (is_subscribed topic m) m.connections) m).connections
        ≡ (contains s m.connections && (delivers s || not (is_subscribed topic m s)))
  delivered delivers topic s m =
      let receivers = contains-filter (is_subscribed topic m) s m.connections in
      let after =
        send_many-connections delivers (filter (is_subscribed topic m) m.connections) s m in
      ground (arith, receivers, after)

  -- An event is sent exactly to the connected sockets that are subscribed to its topic, and exactly
  -- those of them that do not accept it are disconnected.
  pub publish_topic_delivers :
      (delivers : ℕ → Bool) (fresh_id now : ℕ) (topic : String) (payload : P) (version : String)
      (s : ℕ) (m : ConnectionManager P)
      → let ((event, sockets), m') = publish_topic delivers fresh_id now topic payload version m in
        (contains s sockets ≡ (contains s m.connections && is_subscribed topic m s))
        × (contains s m'.connections
            ≡ (contains s m.connections && (delivers s || not (is_subscribed topic m s))))
  unfolding publish_topic subscriptions_of
  publish_topic_delivers delivers fresh_id now topic payload version s m =
      let event : BroadcastEvent P =
        (publish_topic delivers fresh_id now topic payload version m).0.0 in
      let stored : ConnectionManager P = record m {
        seq = m.seq + 1;
        event_buffer = append_bounded m.replay_window event m.event_buffer;
      } in
      (contains-filter (is_subscribed topic m) s m.connections, delivered delivers topic s stored)

  -- After a broadcast exactly the connected sockets that accepted it are connected.
  pub broadcast_json_keeps :
      (delivers : ℕ → Bool) (s : ℕ) (m : ConnectionManager P)
      → contains s (broadcast_json delivers m).connections
        ≡ (contains s m.connections && delivers s)
  unfolding broadcast_json
  broadcast_json_keeps delivers s m =
      ground (arith, send_many-connections delivers m.connections s m)
