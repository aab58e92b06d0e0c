-- ===== src/WebSockets/Examples.antt =====
-- Tests of the connection manager, and its theorems at concrete inputs.
use gooberberg_terminal.Prelude.{
  ℕ, ◌≡◌, refl, Bool, true, false, not, ◌&&◌, ◌||◌, String, List, [], ◌∷◌, ◌++◌, nat_eq, string_eq,
  contains,
}
use gooberberg_terminal.Prelude.Int.{pos}
use gooberberg_terminal.Prelude.Dict.{lookup, insert}
use gooberberg_terminal.WebSockets.Manager.{
  BroadcastEvent, ConnectionManager, too_old, ok, manager_init, connect, subscribe,
  subscriptions_of, update_set, send_many, publish_topic, replay_since, is_subscribed,
}
use gooberberg_terminal.WebSockets.Steps.{Reachable, starts, steps, connects, subscribes, publishes}
use gooberberg_terminal.WebSockets.Replay.{IsFaithful, replay_since-IsFaithful}
use gooberberg_terminal.WebSockets.Sockets.{publish_topic_delivers}

abbrev all_deliver : ℕ → Bool
all_deliver socket = true

abbrev fresh : ConnectionManager ℕ
fresh = manager_init (pos 2)

abbrev listening : ConnectionManager ℕ
listening = (subscribe 1 ("jobs" ∷ []) (connect 1 100 fresh)).1

abbrev send_event :
    ℕ → String → ConnectionManager ℕ → (BroadcastEvent ℕ × List ℕ) × ConnectionManager ℕ
send_event n topic m = publish_topic all_deliver n n topic n "1.0" m

abbrev once : ConnectionManager ℕ
once = (send_event 10 "jobs" listening).1

abbrev twice : ConnectionManager ℕ
twice = (send_event 11 "logs" once).1

abbrev thrice : ConnectionManager ℕ
thrice = (send_event 12 "jobs" twice).1

abbrev events : List (BroadcastEvent ℕ)
events =
    (([] ++ (send_event 10 "jobs" listening).0.0 ∷ []) ++ (send_event 11 "logs" once).0.0 ∷ [])
    ++ (send_event 12 "jobs" twice).0.0 ∷ []

thrice-Reachable : Reachable events thrice
thrice-Reachable =
    steps
      (steps
        (steps (steps (steps (starts (pos 2)) (connects 1 100)) (subscribes 1 ("jobs" ∷ [])))
          (publishes all_deliver 10 10 "jobs" 10 "1.0"))
        (publishes all_deliver 11 11 "logs" 11 "1.0"))
      (publishes all_deliver 12 12 "jobs" 12 "1.0")

-- With a window of two, the first of three events is gone.
replay_test :
    ((replay_since (pos 0) ("jobs" ∷ []) thrice).0.status ≡ too_old)
    × ((replay_since (pos 1) ("jobs" ∷ []) thrice).0.status ≡ ok)
    × ((replay_since (pos 1) ("jobs" ∷ []) thrice).0.replayed_count ≡ 1)
unfolding replay_since publish_topic send_many subscribe subscriptions_of update_set connect
    manager_init lookup insert
replay_test = (refl, refl, refl)

replay_since-IsFaithful_example : IsFaithful events thrice 1 ("jobs" ∷ [])
replay_since-IsFaithful_example =
    replay_since-IsFaithful events thrice 1 ("jobs" ∷ []) thrice-Reachable

publish_topic_delivers_example :
    let ((event, sockets), m') = publish_topic (λ s. false) 13 13 "jobs" 13 "1.0" thrice in
    (contains 1 sockets ≡ (contains 1 thrice.connections && is_subscribed "jobs" thrice 1))
    × (contains 1 m'.connections
        ≡ (contains 1 thrice.connections && (false || not (is_subscribed "jobs" thrice 1))))
publish_topic_delivers_example = publish_topic_delivers (λ s. false) 13 13 "jobs" 13 "1.0" 1 thrice
