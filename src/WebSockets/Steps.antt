-- ===== src/WebSockets/Steps.antt =====
-- The steps of a connection manager of apps/api-control-plane/app/ws/manager.py with the history of what
-- was published.
use gooberberg_terminal.Prelude.{ℕ, String, refl, Bool, List, [], ◌∷◌, ◌++◌}
use gooberberg_terminal.WebSockets.Manager.{
  BroadcastEvent, ConnectionManager, manager_init, disconnect, connect, subscribe, unsubscribe,
  publish_topic,
}
use gooberberg_terminal.Prelude.Int.{ℤ}
use gooberberg_terminal.WebSockets.Window.{
  IsWindow, IsWindow-init, IsWindow-same, publish_topic-IsWindow,
}

-- What may happen to a manager; an event that is published joins the history.
pub data Step {P : Type 0}
    : List (BroadcastEvent P)
      → ConnectionManager P
      → List (BroadcastEvent P)
      → ConnectionManager P
      → Type 0 where
  connects :
      {history : List (BroadcastEvent P)} {m : ConnectionManager P} (socket fresh_id : ℕ)
      → Step history m history (connect socket fresh_id m)
  disconnects :
      {history : List (BroadcastEvent P)} {m : ConnectionManager P} (socket : ℕ)
      → Step history m history (disconnect socket m)
  subscribes :
      {history : List (BroadcastEvent P)} {m : ConnectionManager P} (socket : ℕ)
      (topics : List String)
      → Step history m history (subscribe socket topics m).1
  unsubscribes :
      {history : List (BroadcastEvent P)} {m : ConnectionManager P} (socket : ℕ)
      (topics : List String)
      → Step history m history (unsubscribe socket topics m).1
  publishes :
      {history : List (BroadcastEvent P)} {m : ConnectionManager P} (delivers : ℕ → Bool)
      (fresh_id now : ℕ) (topic : String) (payload : P) (version : String)
      → Step history m
          (history ++ (publish_topic delivers fresh_id now topic payload version m).0.0 ∷ [])
          (publish_topic delivers fresh_id now topic payload version m).1

-- The managers that steps lead to from a new one, with the history of all that was published.
pub data Reachable {P : Type 0} : List (BroadcastEvent P) → ConnectionManager P → Type 0 where
  starts : (replay_window : ℤ) → Reachable [] (manager_init replay_window)
  steps :
      {history : List (BroadcastEvent P)} {m : ConnectionManager P}
      {history' : List (BroadcastEvent P)} {m' : ConnectionManager P}
      → Reachable history m
      → Step history m history' m'
      → Reachable history' m'

module _ {P : Type 0} where
  Step-IsWindow :
      {history : List (BroadcastEvent P)} {m : ConnectionManager P}
      {history' : List (BroadcastEvent P)} {m' : ConnectionManager P}
      → Step history m history' m'
      → IsWindow history m
      → IsWindow history' m'
  unfolding connect disconnect subscribe unsubscribe
  Step-IsWindow (connects socket fresh_id) h = IsWindow-same _ _ _ (refl, refl, refl) h
  Step-IsWindow (disconnects socket) h = IsWindow-same _ _ _ (refl, refl, refl) h
  Step-IsWindow (subscribes socket topics) h = IsWindow-same _ _ _ (refl, refl, refl) h
  Step-IsWindow (unsubscribes socket topics) h = IsWindow-same _ _ _ (refl, refl, refl) h
  Step-IsWindow (publishes delivers fresh_id now topic payload version) h =
      publish_topic-IsWindow delivers fresh_id now topic payload version _ _ h

  -- In every reachable state the buffer is the window on the history.
  pub Reachable-IsWindow :
      {history : List (BroadcastEvent P)} {m : ConnectionManager P}
      → Reachable history m
      → IsWindow history m
  Reachable-IsWindow (starts n) = IsWindow-init n
  Reachable-IsWindow (steps before step) = Step-IsWindow step (Reachable-IsWindow before)
