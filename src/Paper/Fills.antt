-- ===== src/Paper/Fills.antt =====
-- The loop over the slices in `process_intent` of libs/py/gb_core/src/gb_core/paper_execution.py.
use gooberberg_terminal.Prelude.{
  ℕ, zero, suc, ◌+◌, ◌≤◌, ◌<◌, String, ◌≡◌, refl, true, false, List, [], ◌∷◌, ◌++◌, arith, nat_eq,
  contains, length, length-append, Bool-cases, inl, inr,
}
use mathlib.Core.Path.{subst}
use gooberberg_terminal.Prelude.Float.{Float, nought, ◌<=◌, ◌⊕◌, fmin}
use gooberberg_terminal.Paper.Events.{PaperExecutionConfig, OrderIntentEvent, FillEvent, fill_event}
use gooberberg_terminal.Paper.Slices.{
  Call, FillLoop, emit_fill, fill_slices, run_slices, slice_count, slice_qty_of, fresh_progress,
}

module _ {F : Type 0} ⦃d : Float F⦄ where
  -- The sum of the quantities, in the order of the fills.
  abbrev pub filled_from : F → List (FillEvent F) → F
  filled_from sum [] = sum
  filled_from sum (f ∷ fs) = filled_from (sum ⊕ f.quantity) fs

  filled_from-append :
      (sum : F) (fs : List (FillEvent F)) (f : FillEvent F)
      → filled_from sum (fs ++ f ∷ []) ≡ filled_from sum fs ⊕ f.quantity
  filled_from-append sum [] f = refl
  filled_from-append sum (x ∷ fs) f = filled_from-append (sum ⊕ x.quantity) fs f

module _ {F : Type 0} ⦃d : Float F⦄ (call : Call F) (config : PaperExecutionConfig F)
    (intent : OrderIntentEvent F) (key : String) (ack_at : ℕ) where
  -- The fill that the slice `n` emits: `n + 1` milliseconds after the acknowledgement, under the
  -- key of that slice, and of a quantity that is not 0 or less.
  pub record IsFill (n : ℕ) (f : FillEvent F) : Type 0 where
    pub event :
        f
        ≡ fill_event call.platform config intent call.order_id f.quantity
            (call.platform.after_ms ack_at (d.of_nat (n + 1)))
            (record { idempotency_key = key; index = n })
    pub nonempty : (f.quantity <= nought) ≡ false

  -- The slices `n`, `n + 1` and so on, none left out.
  abbrev pub AreFills : ℕ → List (FillEvent F) → Type 0
  AreFills n [] = Unit
  AreFills n (f ∷ fs) = IsFill n f × AreFills (suc n) fs

  AreFills-append :
      (n m : ℕ) (fs : List (FillEvent F)) (f : FillEvent F)
      → AreFills n fs
      → IsFill m f
      → m ≡ n + length fs
      → AreFills n (fs ++ f ∷ [])
  AreFills-append n m [] f h k e = (subst (λ i. IsFill i f) (omega arith) k, tt)
  AreFills-append n m (x ∷ fs) f h k e = (h.0, AreFills-append (suc n) m fs f h.1 k (omega arith))

  -- What is known of the variables of the loop.
  pub record IsRun (l : FillLoop F) : Type 0 where
    pub fills : AreFills 0 l.fill_events
    pub total : l.progress.emitted_qty ≡ filled_from nought l.fill_events
    pub order_id : l.progress.order_id ≡ call.order_id
    pub keys : (n : ℕ) → contains n l.progress.emitted_fill_keys ≡ true → n < length l.fill_events

  emit_fill-length :
      (qty : F) (idx : ℕ) (l : FillLoop F)
      → length (emit_fill call config intent key ack_at qty idx l).fill_events
        ≡ suc (length l.fill_events)
  unfolding emit_fill
  emit_fill-length qty idx l = omega (arith, length-append l.fill_events)

  emit_fill-IsRun :
      (qty : F) (idx : ℕ) (l : FillLoop F)
      → idx ≡ length l.fill_events
      → (qty <= nought) ≡ false
      → IsRun l
      → IsRun (emit_fill call config intent key ack_at qty idx l)
  unfolding emit_fill fill_event
  emit_fill-IsRun qty idx l here h run = record {
    fills =
        AreFills-append 0 idx l.fill_events _ run.fills
          (record { event = rw run.order_id refl; nonempty = h }) (omega arith);
    total = rw (filled_from-append, run.total) refl;
    order_id = run.order_id;
    keys = λ n e. grind (arith, emit_fill-length qty idx l, run.keys n);
  }

  not_emitted :
      (idx : ℕ) (l : FillLoop F)
      → idx ≡ length l.fill_events
      → IsRun l
      → contains idx l.progress.emitted_fill_keys ≡ false
  not_emitted idx l here run = ground (arith, run.keys idx)

  -- The loop emits the slices one after another, skips none, and sums up what it emits.
  pub fill_slices-IsRun :
      (qty : F) (left idx : ℕ) (l : FillLoop F)
      → idx ≡ length l.fill_events
      → IsRun l
      → let l' = fill_slices call config intent key ack_at qty left idx l in
        IsRun l' × (length l'.fill_events ≤ left + idx)
  unfolding fill_slices
  fill_slices-IsRun qty zero idx l here run = (run, omega arith)
  fill_slices-IsRun qty (suc left) idx l here run =
      let fill_qty = fmin qty l.remaining in
      elim (Bool-cases (fill_qty <= nought)) [
        | inl empty ↦ rw empty (run, omega arith)
        | inr nonempty ↦
            let l' = emit_fill call config intent key ack_at fill_qty idx l in
            let here' : suc idx ≡ length l'.fill_events =
              omega (arith, emit_fill-length fill_qty idx l) in
            let (all, few) =
              fill_slices-IsRun qty left (suc idx) l' here'
                (emit_fill-IsRun fill_qty idx l here nonempty run) in
            rw (nonempty, not_emitted idx l here run) (all, omega arith)
      ]

  -- The loop as `process_intent` runs it, whatever number of slices is left: no key was emitted.
  pub run_slices-IsRun :
      let l = run_slices call config intent key ack_at in
      IsRun l × (length l.fill_events ≤ slice_count config)
  unfolding run_slices
  run_slices-IsRun =
      let (run, few) =
        fill_slices-IsRun (slice_qty_of config intent) (slice_count config) 0
          (record {
            remaining = intent.quantity;
            progress = fresh_progress call.order_id;
            fill_events = [];
          })
          refl (record { fills = tt; total = refl; order_id = refl; keys = λ n e. cc }) in
      (run, omega arith)
