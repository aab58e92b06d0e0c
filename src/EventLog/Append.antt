-- ===== src/EventLog/Append.antt =====
-- Idempotent appends and dense offsets of libs/py/gb_core/src/gb_core/event_log.py.
use gooberberg_terminal.Prelude.{
  ℕ, zero, suc, ◌+◌, ◌≤◌, ◌<◌, String, ◌≡◌, refl, ◌∙◌, ap, Option, none, some, List, [], ◌∷◌, ◌++◌,
  arith, string_eq, get_elem?, length, length-append,
}
use gooberberg_terminal.Prelude.Dict.{Dict, lookup, insert, lookup-insert, lookup-insert_self}
use gooberberg_terminal.Prelude.Float.{Float}
use gooberberg_terminal.Prelude.Raising.{Yields, Yields-some, Yields-bind}
use gooberberg_terminal.Prelude.Value.{Fields, Builtins}
use gooberberg_terminal.EventLog.Record.{EventRecord, Clock, make_record}
use gooberberg_terminal.EventLog.Writer.{
  EventLogWriter, EventLogPolicy, store, append_at, append, writer_init,
}

-- The offsets of the records are `n`, `n + 1` and so on.
abbrev pub Numbered : {F : Type 0} → ℕ → List (EventRecord F) → Type 0
Numbered n [] = Unit
Numbered n (r ∷ rs) = (r.offset ≡ n) × Numbered (suc n) rs

Numbered-append :
    {F : Type 0} (n : ℕ) (rs : List (EventRecord F)) (r : EventRecord F)
    → Numbered n rs
    → r.offset ≡ n + length rs
    → Numbered n (rs ++ r ∷ [])
Numbered-append n [] r h e = (omega arith, tt)
Numbered-append n (x ∷ rs) r h e = (h.0, Numbered-append (suc n) rs r h.1 (omega arith))

get_elem?-last {ℓ} :
    {A : Type ℓ} (xs : List A) (x : A) → get_elem? (xs ++ x ∷ []) (length xs) ≡ some x
get_elem?-last [] x = refl
get_elem?-last (y ∷ xs) x = get_elem?-last xs x

get_elem?-some {ℓ} :
    {A : Type ℓ} (xs : List A) (i : ℕ) → i < length xs → (x : A) × (get_elem? xs i ≡ some x)
get_elem?-some [] i h = absurd (omega arith)
get_elem?-some (x ∷ xs) zero h = (x, refl)
get_elem?-some (x ∷ xs) (suc i) h = get_elem?-some xs i (omega arith)

pub get_elem?-none {ℓ} : {A : Type ℓ} (xs : List A) (i : ℕ) → length xs ≤ i → get_elem? xs i ≡ none
get_elem?-none [] i h = refl
get_elem?-none (x ∷ xs) zero h = absurd (omega arith)
get_elem?-none (x ∷ xs) (suc i) h = get_elem?-none xs i (omega arith)

-- No record has been purged: offsets are positions, and every key leads to a record.
pub record IsDense {F : Type 0} (w : EventLogWriter F) : Type 0 where
  pub numbered : Numbered 0 w.records
  pub next : w.next_offset ≡ length w.records
  pub keys :
      (key : String) (o : ℕ) → lookup key w.idempotency_offsets ≡ some o → o < length w.records

new_key :
    (key k : String) (v o n : ℕ) (d : Dict String ℕ)
    → ((j : String) (p : ℕ) → lookup j d ≡ some p → p < n)
    → v ≤ n
    → lookup k (insert key v d) ≡ some o
    → o ≤ n
new_key key k v o n d keys h e = ground (arith, lookup-insert key k v d, keys k o)

module _ {F : Type 0} where
  IsDense-init : (policy : EventLogPolicy) (size : ℕ) → IsDense {F = F} (writer_init policy size)
  unfolding writer_init lookup
  IsDense-init policy size = record { numbered = tt; next = refl; keys = λ key o e. cc }

  store-IsDense :
      (key : String) (o : Option (EventRecord F)) (w : EventLogWriter F)
      → ((r : EventRecord F) → o ≡ some r → r.offset ≡ w.next_offset)
      → IsDense w
      → IsDense (store key o w).1
  unfolding store
  store-IsDense key none w fits h = h
  store-IsDense key (some r) w fits h = record {
    numbered = Numbered-append 0 w.records r h.numbered (omega (arith, fits r refl, h.next));
    next = omega (arith, length-append w.records (r ∷ []), h.next);
    keys = λ k o e. omega (
      arith,
      length-append w.records (r ∷ []),
      new_key key k r.offset o (length w.records) w.idempotency_offsets h.keys
          (omega (arith, fits r refl, h.next)) e,
    );
  }

module _ {F : Type 0} ⦃d : Float F⦄ ⦃b : Builtins F⦄ (clock : Clock) where
  make_record-offset :
      (now offset : ℕ) (payload : Fields F)
      → Yields (λ (r : EventRecord F). r.offset ≡ offset) (make_record clock now offset payload)
  unfolding make_record
  make_record-offset now offset payload = search (Yields-some, Yields-bind)

  append_at-IsDense :
      (now : ℕ) (key : String) (known : Option ℕ) (payload : Fields F) (w : EventLogWriter F)
      → IsDense w
      → IsDense (append_at clock now key known payload w).1
  unfolding append_at
  append_at-IsDense now key none payload w h =
      store-IsDense key _ w (make_record-offset now w.next_offset payload).at h
  append_at-IsDense now key (some o) payload w h = h

  -- Appending to a log from which nothing was purged, whatever comes of it, keeps offsets equal to
  -- positions and every known key leading to a record.
  append-IsDense :
      (now : ℕ) (key : String) (payload : Fields F) (w : EventLogWriter F)
      → IsDense w
      → IsDense (append clock now key payload w).1
  unfolding append
  append-IsDense now key payload w h =
      append_at-IsDense now key (lookup key w.idempotency_offsets) payload w h

  pub append-known :
      (now : ℕ) (key : String) (payload : Fields F) (w : EventLogWriter F) (o : ℕ)
      → lookup key w.idempotency_offsets ≡ some o
      → append clock now key payload w ≡ (get_elem? w.records o, w)
  unfolding append append_at
  append-known now key payload w o e = rw (e, append) refl

  store_again :
      (key : String) (o : Option (EventRecord F)) (w : EventLogWriter F) (r : EventRecord F)
      → ((x : EventRecord F) → o ≡ some x → x.offset ≡ length w.records)
      → (store key o w).0 ≡ some r
      → (lookup key (store key o w).1.idempotency_offsets ≡ some (length w.records))
        × (get_elem? (store key o w).1.records (length w.records) ≡ some r)
  unfolding store
  store_again key none w r fits e = cc
  store_again key (some x) w r fits e = (
    lookup-insert_self key x.offset w.idempotency_offsets ∙ ap some (fits x refl),
    get_elem?-last w.records x ∙ e,
  )

  again :
      (now now' : ℕ) (key : String) (payload payload' : Fields F) (w : EventLogWriter F)
      (r : EventRecord F) (known : Option ℕ)
      → IsDense w
      → lookup key w.idempotency_offsets ≡ known
      → (append_at clock now key known payload w).0 ≡ some r
      → append clock now' key payload' (append_at clock now key known payload w).1
        ≡ (some r, (append_at clock now key known payload w).1)
  unfolding append_at
  again now now' key payload payload' w r (some o) h known e =
      append-known now' key payload' w o known ∙ rw e refl
  again now now' key payload payload' w r none h known e =
      let made = make_record clock now w.next_offset payload in
      let fits = λ (x : EventRecord F) (ex : made ≡ some x).
        (make_record-offset now w.next_offset payload).at x ex ∙ h.next in
      let (found, same) = store_again key made w r fits e in
      append-known now' key payload' (store key made w).1 (length w.records) found ∙ rw same refl

  -- Once an append has returned a record, appending again under its key returns the same record
  -- and changes nothing, whatever the payload and the time, if nothing was purged before.
  pub append_idempotent :
      (now now' : ℕ) (key : String) (payload payload' : Fields F) (w : EventLogWriter F)
      (r : EventRecord F)
      → IsDense w
      → (append clock now key payload w).0 ≡ some r
      → append clock now' key payload' (append clock now key payload w).1
        ≡ (some r, (append clock now key payload w).1)
  unfolding append
  append_idempotent now now' key payload payload' w r h e =
      again now now' key payload payload' w r (lookup key w.idempotency_offsets) h refl e
