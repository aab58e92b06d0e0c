-- ===== src/Portfolio/Snapshot.antt =====
-- The data of services/service-portfolio-state/src/service_portfolio_state/main.py and schemas.py, and the
-- reading of numbers.
use gooberberg_terminal.Prelude.{
  ℕ, suc, String, Bool, false, ◌||◌, Option, none, some, List, [], ◌∷◌, ◌++◌, string_eq,
  if◌then◌else◌, ◌==◌,
}
use gooberberg_terminal.Prelude.Dict.{Dict, lookup, insert}
use gooberberg_terminal.Prelude.Float.{Float, nought, fabs, fmax, ◌⊕◌, ◌⊖◌, ◌⊗◌, ◌<=◌}
use gooberberg_terminal.Prelude.Texts.{◌<>◌}
use gooberberg_terminal.Prelude.Value.{Builtins}

-- A hash of Redis, and the entries of a stream with their identifiers: all texts.
abbrev pub Hash : Type 0
Hash = Dict String String

abbrev pub Entry : Type 0
Entry = String × Hash

pub record Position (F : Type 0) : Type 0 where
  pub symbol : String
  pub quantity : F
  pub average_price : F
  pub market_price : F
  pub market_value : F
  pub unrealized_pnl : F
  pub side : String

-- `PortfolioSnapshot`.
pub record PortfolioSnapshot (F : Type 0) : Type 0 where
  pub account_id : String
  pub timestamp : ℕ
  pub equity : F
  pub cash : F
  pub buying_power : F
  pub gross_exposure : F
  pub net_exposure : F
  pub unrealized_pnl : F
  pub realized_pnl : F
  pub positions : List (Position F)
  pub snapshot_version : String
  pub source_offsets : Dict String String
  pub computation_timestamp : ℕ
  pub state_hash : Option String
  pub error_counters : Dict String ℕ

-- The sums of the loop over the positions.
pub record Exposure (F : Type 0) : Type 0 where
  pub gross : F
  pub net : F
  pub unrealized : F
  pub positions : List (Position F)

-- `payload.get("status") in {"new", "open", "working"}`
unfoldable pub is_working : Hash → Bool
unfolding lookup
is_working payload = elim (lookup "status" payload) [
  | none ↦ false
  | some status ↦ status == "new" || status == "open" || status == "working"
]

-- `error_counters[key] += 1` of a `defaultdict`
unfoldable pub count_error : String → Dict String ℕ → Dict String ℕ
unfolding lookup insert
count_error key counters =
    insert key (elim (lookup key counters) [ none ↦ 1 | some n ↦ suc n ]) counters

module _ {F : Type 0} ⦃d : Float F⦄ where
  abbrev pub no_exposure : Exposure F
  no_exposure = record { gross = nought; net = nought; unrealized = nought; positions = [] }

  -- One turn of that loop, from the symbol and its numbers on.
  unfoldable pub add_position : String → F → F → F → Exposure F → Exposure F
  add_position symbol qty avg px e =
      let mv = qty ⊗ px in
      let upnl = (px ⊖ avg) ⊗ qty in
      record {
        gross = e.gross ⊕ fabs mv;
        net = e.net ⊕ mv;
        unrealized = e.unrealized ⊕ upnl;
        positions =
            e.positions
            ++ (record {
              symbol = symbol;
              quantity = qty;
              average_price = avg;
              market_price = px;
              market_value = mv;
              unrealized_pnl = upnl;
              side = if nought <= qty then "long" else "short";
            }
                ∷ []);
      }

  abbrev pub buying_power_of : F → F → F
  buying_power_of cash reserved = fmax ((cash ⊗ d.of_nat 2) ⊖ reserved) nought

module _ {F : Type 0} ⦃d : Float F⦄ ⦃b : Builtins F⦄ where
  -- `float(value)`; `None` and a malformed text raise.
  abbrev pub read_float : Option String → Option F
  read_float none = none
  read_float (some s) = b.parse_float s

  -- `_to_float`
  unfoldable pub to_float_or : F → Option String → F
  to_float_or default value = elim (read_float value) [ none ↦ default | some x ↦ x ]

  -- `_parse_float`, with the counters after it.
  unfoldable pub parse_float : String → F → Option String → Dict String ℕ → F × Dict String ℕ
  unfolding count_error
  parse_float field_name default value counters = elim (read_float value) [
    | none ↦ (default, count_error ("malformed_numeric:" <> field_name) counters)
    | some x ↦ (x, counters)
  ]
