-- ===== src/WebSockets/Replay.antt =====
-- What a socket is sent when it asks for the events that it missed, of
-- apps/api-control-plane/app/ws/manager.py.
use gooberberg_terminal.Prelude.{
  ℕ, zero, suc, ◌+◌, ◌-◌, ◌≤◌, ◌<◌, String, ◌≡◌, refl, ◌∙◌, sym, ap, Bool, true, ◌⊎◌, some, List,
  [], ◌∷◌, ◌++◌, arith, ltb, any, filter, head?, length, length-drop, take, drop, take-append-drop,
  Bool-cases, inl, inr,
}
use mathlib.Core.Path.{subst}
use gooberberg_terminal.Prelude.Raising.{some_inj}
use gooberberg_terminal.Prelude.Int.{pos}
use gooberberg_terminal.WebSockets.Manager.{
  BroadcastEvent, ConnectionManager, too_old, ok, last?, is_wanted, replay_from, replay_since,
}
use gooberberg_terminal.WebSockets.Window.{Numbered}
use gooberberg_terminal.WebSockets.Steps.{Reachable, Reachable-IsWindow}

module _ {P : Type 0} where
  -- The event came after `last_seq`.
  abbrev pub is_later : ℕ → BroadcastEvent P → Bool
  is_later last_seq e = ltb last_seq e.seq

  -- What a replay must be: either it sends, in order, every event of the whole history that came
  -- after `last_seq` on one of the topics, or it says that it is too late, and then an event after
  -- `last_seq` has left the buffer.
  pub record IsFaithful (history : List (BroadcastEvent P)) (m : ConnectionManager P) (last_seq : ℕ)
      (topics : List String) : Type 0 where
    pub complete :
        (replay_since (pos last_seq) topics m).0.status ≡ ok
        → (replay_since (pos last_seq) topics m).1 ≡ filter (is_wanted last_seq topics) history
    pub late :
        (replay_since (pos last_seq) topics m).0.status ≡ too_old
        → any (is_later last_seq) (take (length history - length m.event_buffer) history) ≡ true
    pub answered :
        ((replay_since (pos last_seq) topics m).0.status ≡ ok)
        ⊎ ((replay_since (pos last_seq) topics m).0.status ≡ too_old)

  filter-append :
      (test : BroadcastEvent P → Bool) (xs ys : List (BroadcastEvent P))
      → filter test (xs ++ ys) ≡ filter test xs ++ filter test ys
  filter-append test [] ys = refl
  filter-append test (x ∷ xs) ys = ground (arith, filter-append test xs ys)

  -- Of the first `k` numbers from `n` on, none is after one that is at least `n + k - 1`.
  nothing_wanted :
      (n k last_seq : ℕ) (topics : List String) (es : List (BroadcastEvent P))
      → Numbered n es
      → n + k ≤ last_seq + 1
      → filter (is_wanted last_seq topics) (take k es) ≡ []
  nothing_wanted n zero last_seq topics es h le = refl
  nothing_wanted n (suc k) last_seq topics [] h le = refl
  nothing_wanted n (suc k) last_seq topics (e ∷ es) h le =
      let rest = nothing_wanted (suc n) k last_seq topics es h.1 (omega arith) in
      ground (arith, rest, h.0)

  -- One of the first `k` numbers from `n` on is after one that is less than `n + k - 1`.
  one_lost :
      (n k last_seq : ℕ) (es : List (BroadcastEvent P))
      → Numbered n es
      → last_seq + 1 < n + k
      → 1 ≤ k
      → k ≤ length es
      → any (is_later last_seq) (take k es) ≡ true
  one_lost n zero last_seq es h lt some_k le = absurd (omega arith)
  one_lost n (suc k) last_seq [] h lt some_k le = absurd (omega arith)
  one_lost n (suc zero) last_seq (e ∷ es) h lt some_k le = ground (arith, h.0)
  one_lost n (suc (suc k)) last_seq (e ∷ es) h lt some_k le =
      ground
        (arith, one_lost (suc n) (suc k) last_seq es h.1 (omega arith) (omega arith) (omega arith))

  -- The oldest event of a buffer that follows `k` events.
  head-drop :
      (n k : ℕ) (es : List (BroadcastEvent P)) (e : BroadcastEvent P)
      → Numbered n es
      → head? (drop k es) ≡ some e
      → e.seq ≡ n + k
  head-drop n zero [] e h eq = cc
  head-drop n zero (x ∷ es) e h eq =
      omega (arith, h.0, ap (λ (i : BroadcastEvent P). i.seq) (some_inj eq))
  head-drop n (suc k) [] e h eq = cc
  head-drop n (suc k) (x ∷ es) e h eq = omega (arith, head-drop (suc n) k es e h.1 eq)

  length_zero : (es : List (BroadcastEvent P)) → length es ≡ 0 → es ≡ []
  length_zero [] h = refl
  length_zero (e ∷ es) h = absurd (omega arith)

  answer :
      (buffer history : List (BroadcastEvent P)) (k w last_seq : ℕ) (topics : List String)
      → 1 ≤ w
      → k ≡ length history - w
      → buffer ≡ drop k history
      → Numbered 1 history
      → let r = replay_from last_seq topics (head? buffer) (last? buffer) buffer in
        (r.0.status ≡ ok → r.1 ≡ filter (is_wanted last_seq topics) history)
        × (r.0.status ≡ too_old → any (is_later last_seq) (take k history) ≡ true)
        × ((r.0.status ≡ ok) ⊎ (r.0.status ≡ too_old))
  answer [] history k w last_seq topics hw hk hb hn =
      let empty : length history ≡ 0 = omega (arith, ap length hb, length-drop k history) in
      (λ e. rw (length_zero history empty) refl, λ e. cc, inl refl)
  answer (e ∷ es) history k w last_seq topics hw hk hb hn =
      let first : e.seq ≡ 1 + k = head-drop 1 k history e hn (sym (ap head? hb)) in
      elim (Bool-cases (ltb last_seq (e.seq - 1))) [
        | inl early ↦
            let less : last_seq < k = ground (arith, early, first) in
            let lost = one_lost 1 k last_seq history hn (omega arith) (omega arith) (omega arith) in
            rw early (λ h. cc, λ h. lost, inr refl)
        | inr timely ↦
            let enough : k ≤ last_seq = ground (arith, timely, first) in
            let wanted = is_wanted last_seq topics in
            let whole = ap (filter wanted) (take-append-drop k history) in
            let parts = filter-append wanted (take k history) (drop k history) in
            let none_before = nothing_wanted 1 k last_seq topics history hn (omega arith) in
            rw timely (
              λ h.
                  ap (filter wanted) hb
                  ∙ sym (ap (λ i. i ++ filter wanted (drop k history)) none_before)
                  ∙ sym parts
                  ∙ whole,
              λ h. cc,
              inl refl,
            )
      ]

  -- In every reachable state a replay from a number of at least 0 is what it must be.
  pub replay_since-IsFaithful :
      (history : List (BroadcastEvent P)) (m : ConnectionManager P) (last_seq : ℕ)
      (topics : List String)
      → Reachable history m
      → IsFaithful history m last_seq topics
  unfolding replay_since
  replay_since-IsFaithful history m last_seq topics reached =
      let win = Reachable-IsWindow reached in
      let k = length history - m.replay_window in
      let gone : k ≡ length history - length m.event_buffer =
        omega (arith, ap length win.buffer, length-drop k history) in
      let (complete, late, answered) =
        answer m.event_buffer history k m.replay_window last_seq topics win.window refl win.buffer
          win.numbered in
      record {
        complete = complete;
        late = λ h. subst (λ n. any (is_later last_seq) (take n history) ≡ true) gone (late h);
        answered = answered;
      }
