-- ===== src/WebSockets/Window.antt =====
-- The replay buffer of apps/api-control-plane/app/ws/manager.py against the history of all events.
use gooberberg_terminal.Prelude.{
  ℕ, zero, suc, ◌+◌, ◌-◌, ◌≤◌, ◌<◌, String, ◌≡◌, refl, ◌∙◌, sym, ap, Bool, List, [], ◌∷◌, ◌++◌,
  arith, ltb, filter, length, length-append, length-drop, drop, Bool-cases, inl, inr,
}
use Prim.Native.Nat.{max}
use gooberberg_terminal.WebSockets.Manager.{
  BroadcastEvent, ConnectionManager, append_bounded, manager_init, send_many, disconnect,
  publish_topic, is_subscribed,
}
use gooberberg_terminal.Prelude.Int.{ℤ, pos, negsuc}

module _ {P : Type 0} where
  -- The sequence numbers are `n`, `n + 1` and so on.
  abbrev pub Numbered : ℕ → List (BroadcastEvent P) → Type 0
  Numbered n [] = Unit
  Numbered n (e ∷ es) = (e.seq ≡ n) × Numbered (suc n) es

  Numbered-append :
      (n : ℕ) (es : List (BroadcastEvent P)) (e : BroadcastEvent P)
      → Numbered n es
      → e.seq ≡ n + length es
      → Numbered n (es ++ e ∷ [])
  Numbered-append n [] e h eq = (omega arith, tt)
  Numbered-append n (x ∷ es) e h eq = (h.0, Numbered-append (suc n) es e h.1 (omega arith))

  -- The buffer holds the last events of the history, as many as the window admits, and the events
  -- are numbered from 1 without a gap.
  pub record IsWindow (history : List (BroadcastEvent P)) (m : ConnectionManager P) : Type 0 where
    pub window : 1 ≤ m.replay_window
    pub buffer : m.event_buffer ≡ drop (length history - m.replay_window) history
    pub next : m.seq ≡ length history
    pub numbered : Numbered 1 history

  drop_none : (n : ℕ) → drop {A = BroadcastEvent P} n [] ≡ []
  drop_none zero = refl
  drop_none (suc n) = refl

  pub IsWindow-init : (n : ℤ) → IsWindow [] (manager_init n)
  unfolding manager_init
  IsWindow-init (pos n) = record {
    window = omega arith;
    buffer = sym (drop_none (0 - max 1 n));
    next = refl;
    numbered = tt;
  }
  IsWindow-init (negsuc n) = record {
    window = omega arith;
    buffer = refl;
    next = refl;
    numbered = tt;
  }

  drop-append :
      (n : ℕ) (xs ys : List (BroadcastEvent P))
      → n ≤ length xs
      → drop n (xs ++ ys) ≡ drop n xs ++ ys
  drop-append zero xs ys h = refl
  drop-append (suc n) [] ys h = absurd (omega arith)
  drop-append (suc n) (x ∷ xs) ys h = drop-append n xs ys (omega arith)

  drop_one : (n : ℕ) (xs : List (BroadcastEvent P)) → drop 1 (drop n xs) ≡ drop (suc n) xs
  drop_one zero xs = refl
  drop_one (suc n) [] = refl
  drop_one (suc n) (x ∷ xs) = drop_one n xs

  append_bounded-window :
      (w : ℕ) (e : BroadcastEvent P) (history : List (BroadcastEvent P))
      → 1 ≤ w
      → append_bounded w e (drop (length history - w) history)
        ≡ drop (length (history ++ e ∷ []) - w) (history ++ e ∷ [])
  append_bounded-window w e history h =
      let k = length history - w in
      let all = history ++ e ∷ [] in
      let kept : drop k all ≡ drop k history ++ e ∷ [] =
        drop-append k history (e ∷ []) (omega arith) in
      elim (Bool-cases (ltb (length (drop k history)) w)) [
        | inl short ↦
            let less : length (drop k history) < w = ground (arith, short) in
            let same : k ≡ length all - w =
              omega (arith, length-drop k history, length-append history (e ∷ []), less) in
            rw short (sym kept ∙ ap (λ n. drop n all) same)
        | inr full ↦
            let more : w ≤ length (drop k history) = ground (arith, full) in
            let next : suc k ≡ length all - w =
              omega (arith, length-drop k history, length-append history (e ∷ []), more) in
            rw full (ap (drop 1) (sym kept) ∙ drop_one k all ∙ ap (λ n. drop n all) next)
      ]

  send_many-keeps :
      (delivers : ℕ → Bool) (sockets : List ℕ) (m : ConnectionManager P)
      → let m' = send_many delivers sockets m in
        (m'.seq ≡ m.seq) × (m'.event_buffer ≡ m.event_buffer) × (m'.replay_window ≡ m.replay_window)
  unfolding send_many disconnect
  send_many-keeps delivers [] m = (refl, refl, refl)
  send_many-keeps delivers (s ∷ sockets) m =
      ground (
        arith,
        send_many-keeps delivers sockets m,
        send_many-keeps delivers sockets (disconnect s m),
      )

  pub IsWindow-same :
      (history : List (BroadcastEvent P)) (m m' : ConnectionManager P)
      → (m'.seq ≡ m.seq) × (m'.event_buffer ≡ m.event_buffer) × (m'.replay_window ≡ m.replay_window)
      → IsWindow history m
      → IsWindow history m'
  IsWindow-same history m m' (seq, buffer, window) h = record {
    window = rw window h.window;
    buffer = rw (buffer, window) h.buffer;
    next = rw seq h.next;
    numbered = h.numbered;
  }

  send_many-IsWindow :
      (delivers : ℕ → Bool) (sockets : List ℕ) (m : ConnectionManager P)
      (history : List (BroadcastEvent P))
      → IsWindow history m
      → IsWindow history (send_many delivers sockets m)
  send_many-IsWindow delivers sockets m history h =
      IsWindow-same history m (send_many delivers sockets m) (send_many-keeps delivers sockets m) h

  stored-IsWindow :
      (e : BroadcastEvent P) (m : ConnectionManager P) (history : List (BroadcastEvent P))
      → e.seq ≡ m.seq + 1
      → IsWindow history m
      → IsWindow (history ++ e ∷ []) (record m {
        seq = m.seq + 1;
        event_buffer = append_bounded m.replay_window e m.event_buffer;
      })
  stored-IsWindow e m history seq h = record {
    window = h.window;
    buffer = rw h.buffer (append_bounded-window m.replay_window e history h.window);
    next = omega (arith, length-append history (e ∷ []), h.next);
    numbered = Numbered-append 1 history e h.numbered (omega (arith, seq, h.next));
  }

  -- Whatever sockets fail, publishing an event appends it to the history under the next number, and
  -- the buffer is again the window on it.
  pub publish_topic-IsWindow :
      (delivers : ℕ → Bool) (fresh_id now : ℕ) (topic : String) (payload : P) (version : String)
      (m : ConnectionManager P) (history : List (BroadcastEvent P))
      → IsWindow history m
      → let ((event, sockets), m') = publish_topic delivers fresh_id now topic payload version m in
        IsWindow (history ++ event ∷ []) m'
  unfolding publish_topic
  publish_topic-IsWindow delivers fresh_id now topic payload version m history h =
      let event : BroadcastEvent P =
        (publish_topic delivers fresh_id now topic payload version m).0.0 in
      let stored : ConnectionManager P = record m {
        seq = m.seq + 1;
        event_buffer = append_bounded m.replay_window event m.event_buffer;
      } in
      send_many-IsWindow delivers (filter (is_subscribed topic stored) m.connections) stored
        (history ++ event ∷ []) (stored-IsWindow event m history refl h)
