-- ===== src/Risk/Alerts.antt =====
-- What a run of the monitors writes: `evaluate_continuous_monitors` of
-- libs/py/gb_core/src/gb_core/risk.py.
use gooberberg_terminal.Prelude.{
  ℕ, suc, ◌+◌, ◌≡◌, refl, ap, Option, none, some, List, [], ◌∷◌, ◌++◌, arith, length, All,
  All-append, Bool-cases, ◌⊎◌, inl, inr,
}
use mathlib.Core.List.{append_assoc, append-nil}
use gooberberg_terminal.Prelude.Float.{Float, ◌<=◌}
use gooberberg_terminal.Prelude.Value.{Value, obj, Fields, end, field, Builtins}
use gooberberg_terminal.Risk.Schema.{
  Severity, info, warning, critical, PolicyAction, halt, throttle, warn, AlertEvent,
  PolicyActionRecord, RiskConfig,
}
use gooberberg_terminal.Risk.Authority.{Authority}
use gooberberg_terminal.Risk.Monitors.{
  Monitoring, Breach, Source, alert_of, policy_entry, emit, Part, ◌then_do◌, monitor, monitor_items,
  monitor_dict, monitor_all, evaluate_continuous_monitors,
}

-- What a severity asks for.
abbrev pub action_of : Severity → PolicyAction
action_of critical = halt
action_of warning = throttle
action_of info = warn

abbrev pub IsConsistent : Breach → Type 0
IsConsistent b = b.policy_action ≡ action_of b.severity

-- The alerts, and the audit entries, of breaches that are numbered from `n` on.
abbrev pub alerts_from : Source → ℕ → List Breach → List AlertEvent
alerts_from src n [] = []
alerts_from src n (b ∷ bs) = alert_of src n b ∷ alerts_from src (suc n) bs

abbrev pub entries_from : Source → ℕ → List Breach → List PolicyActionRecord
entries_from src n [] = []
entries_from src n (b ∷ bs) = policy_entry src n b ∷ entries_from src (suc n) bs

module _ (src : Source) where
  alerts_from-append :
      (n k : ℕ) (bs : List Breach) (b : Breach)
      → k ≡ n + length bs
      → alerts_from src n bs ++ alert_of src k b ∷ [] ≡ alerts_from src n (bs ++ b ∷ [])
  alerts_from-append n k [] b e = let h : k ≡ n = omega arith in rw h
  alerts_from-append n k (x ∷ bs) b e = rw (alerts_from-append (suc n) k bs b (omega arith))

  entries_from-append :
      (n k : ℕ) (bs : List Breach) (b : Breach)
      → k ≡ n + length bs
      → entries_from src n bs ++ policy_entry src k b ∷ [] ≡ entries_from src n (bs ++ b ∷ [])
  entries_from-append n k [] b e = let h : k ≡ n = omega arith in rw h
  entries_from-append n k (x ∷ bs) b e = rw (entries_from-append (suc n) k bs b (omega arith))

  length-alerts_from : (n : ℕ) (bs : List Breach) → length (alerts_from src n bs) ≡ length bs
  length-alerts_from n [] = refl
  length-alerts_from n (b ∷ bs) = omega (arith, length-alerts_from (suc n) bs)

-- The two trails hold, beyond those of `s`, the records of the breaches.
abbrev pub extended : {F : Type 0} → Source → List Breach → Authority F → Authority F
extended src bs s = record s {
  alert_events = s.alert_events ++ alerts_from src 0 bs;
  policy_action_audit_trail = s.policy_action_audit_trail ++ entries_from src 0 bs;
}

module _ {F : Type 0} (src : Source) (s : Authority F) where
  abbrev Accounts : Monitoring F → Type 0
  Accounts m =
      (bs : List Breach) × All IsConsistent bs
      × (m.alerts ≡ alerts_from src 0 bs)
      × (m.authority ≡ extended src bs s)

  record Keeps (p : Part F) : Type 0 where
    at : (m : Monitoring F) → Accounts m → Accounts (p m).1

  Keeps-then_do : (p q : Part F) → Keeps p → Keeps q → Keeps (p then_do q)
  unfolding ◌then_do◌
  Keeps-then_do p q kp kq = record {
    at = λ m h. elim (Bool-cases (p m).0) [
      | inl went ↦ rw went (kq.at (p m).1 (kp.at m h))
      | inr raised ↦ rw raised (kp.at m h)
    ];
  }

  emit-Accounts :
      (b : Breach) (m : Monitoring F) → IsConsistent b → Accounts m → Accounts (emit src b m)
  unfolding emit
  emit-Accounts b m c (bs, all, ea, es) =
      let k : length m.alerts ≡ 0 + length bs =
        omega (arith, ap (λ (l : List AlertEvent). length l) ea, length-alerts_from src 0 bs) in
      (
        bs ++ b ∷ [],
        All-append IsConsistent bs (b ∷ []) all (c, tt),
        rw (← alerts_from-append src 0 (length m.alerts) bs b k, ea) refl,
        rw
            (
              ← alerts_from-append src 0 (length m.alerts) bs b k,
              ← entries_from-append src 0 (length m.alerts) bs b k,
              es,
            )
            (simp append_assoc),
      )

module _ {F : Type 0} ⦃d : Float F⦄ (src : Source) (s : Authority F) where
  Keeps-monitor :
      (o : Option F) (limit : F) (b : Breach) → IsConsistent b → Keeps src s (monitor src o limit b)
  unfolding monitor
  Keeps-monitor none limit b c = record { at = λ m h. h }
  Keeps-monitor (some x) limit b c = record {
    at = λ m h. elim (Bool-cases (limit <= x)) [
      | inl hit ↦ rw hit (emit-Accounts src s b m c h)
      | inr clear ↦ rw clear h
    ];
  }

module _ {F : Type 0} ⦃d : Float F⦄ ⦃builtins : Builtins F⦄ (src : Source) (s : Authority F) where
  Keeps-monitor_items :
      (read : Option F → Option F) (limit : F) (b : Breach) (items : Fields F)
      → IsConsistent b
      → Keeps src s (monitor_items src read limit b items)
  unfolding monitor_items
  Keeps-monitor_items read limit b end c = record { at = λ m h. h }
  Keeps-monitor_items read limit b (field symbol v rest) c = record {
    at =
        (Keeps-then_do src s _ _ (Keeps-monitor src s _ limit b c)
          (Keeps-monitor_items read limit b rest c)).at;
  }

  Keeps-monitor_dict :
      (read : Option F → Option F) (limit : F) (b : Breach) (v : Value F)
      → IsConsistent b
      → Keeps src s (monitor_dict src read limit b v)
  unfolding monitor_dict
  Keeps-monitor_dict read limit b (obj items) c = record {
    at = (Keeps-monitor_items read limit b items c).at;
  }
  Keeps-monitor_dict read limit b _ c = record { at = λ m h. h }

  ruleset part_rules = (Keeps-then_do, Keeps-monitor, Keeps-monitor_dict)

  Keeps-monitor_all : (c : RiskConfig F) (input : Fields F) → Keeps src s (monitor_all c src input)
  unfolding monitor_all
  Keeps-monitor_all c input = search part_rules depth 20

  -- One list of breaches accounts for all that a run writes, whether it returns or raises: each
  -- breach has the policy action of its severity, the alerts and the audit entries are appended in
  -- step, nothing else changes, and the alerts returned are those recorded.
  pub monitors_record :
      (input : Fields F)
      → let (returned, s') = evaluate_continuous_monitors src input s in
        (bs : List Breach) × All IsConsistent bs
        × (s' ≡ extended src bs s)
        × ((returned ≡ none) ⊎ (returned ≡ some (alerts_from src 0 bs)))
  unfolding evaluate_continuous_monitors
  monitors_record input =
      let start : Monitoring F = record { alerts = []; authority = s } in
      let (bs, all, ea, es) =
        (Keeps-monitor_all s.config input).at start ([], tt, refl, simp append-nil) in
      (
        bs,
        all,
        es,
        elim (Bool-cases (monitor_all s.config src input start).0) [
          | inl went ↦ inr (rw (went, ea) refl)
          | inr raised ↦ inl (rw raised)
        ],
      )
