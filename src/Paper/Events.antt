-- ===== src/Paper/Events.antt =====
-- The configuration of libs/py/gb_core/src/gb_core/paper_execution.py, and the events that it emits
-- without the metadata that they copy from the intent (trace, schema, strategy version and
-- configuration hash) and without the validation of pydantic.
use gooberberg_terminal.Prelude.{
  ℕ, zero, suc, ◌+◌, ◌*◌, ◌%◌, String, Bool, Option, none, some, List, [], ◌∷◌, ◌&&◌, if◌then◌else◌,
}
use gooberberg_terminal.Prelude.Int.{ℤ}
use gooberberg_terminal.Prelude.Float.{Float, nought, ◌<=◌, ◌⊕◌, ◌⊖◌, ◌⊗◌, ◌⊘◌, fmax}

pub record PaperExecutionConfig (F : Type 0) : Type 0 where
  pub base_latency_ms : F
  pub jitter_latency_ms : F
  pub slippage_bps : F
  pub queue_ahead_qty : F
  pub max_fill_slices : ℤ
  pub reject_if_missing_limit : Bool

pub data Side : Type 0 where
  buy sell : Side

pub data OrderStatus : Type 0 where
  submitted ack rejected canceled : OrderStatus

pub data FillStatus : Type 0 where
  partial full : FillStatus

pub record OrderIntentEvent (F : Type 0) : Type 0 where
  pub intent_id : ℕ
  pub symbol : String
  pub side : Side
  pub quantity : F
  pub limit_price : Option F

pub record OrderEvent (F : Type 0) : Type 0 where
  pub order_id : ℕ
  pub intent_id : ℕ
  pub status : OrderStatus
  pub event_time : ℕ
  pub symbol : String
  pub side : Side
  pub quantity : F

-- The text `f"{idempotency_key}:fill:{idx}"`.
pub record FillKey : Type 0 where
  pub idempotency_key : String
  pub index : ℕ

-- `fill_key` is the key that `fill_id` is computed from.
pub record FillEvent (F : Type 0) : Type 0 where
  pub order_id : ℕ
  pub fill_id : List ℕ
  pub fill_key : FillKey
  pub symbol : String
  pub side : Side
  pub quantity : F
  pub price : F
  pub event_time : ℕ
  pub fill_status : FillStatus

-- The standard library: `at + timedelta(milliseconds=ms)` on instants, the bytes of `sha256` of an
-- idempotency key and of a fill key.
pub record Platform (F : Type 0) : Type 0 where
  pub after_ms : ℕ → F → ℕ
  pub digest_of : String → List ℕ
  pub fill_digest : FillKey → List ℕ

-- `raw[i] = f(raw[i])`
unfoldable pub update_byte : ℕ → (ℕ → ℕ) → List ℕ → List ℕ
update_byte i f [] = []
update_byte zero f (x ∷ xs) = f x ∷ xs
update_byte (suc i) f (x ∷ xs) = x ∷ update_byte i f xs

-- `uuid5_from_key`, from the first 16 bytes: `b & 0x0F | 0x50` and `b & 0x3F | 0x80`.
unfoldable pub uuid5_from_bytes : List ℕ → List ℕ
unfolding update_byte
uuid5_from_bytes raw = update_byte 8 (λ b. b % 64 + 128) (update_byte 6 (λ b. b % 16 + 80) raw)

-- `int.from_bytes(digest[:2], "big")`
abbrev pub first_two : List ℕ → ℕ
first_two [] = 0
first_two (x ∷ []) = x
first_two (x ∷ y ∷ rest) = x * 256 + y

module _ {F : Type 0} ⦃d : Float F⦄ where
  -- `x or default` on a price: a price of zero is false.
  unfoldable pub price_or : Option F → F → F
  price_or none default = default
  price_or (some x) default = if x <= nought && nought <= x then default else x

  -- `_price_with_slippage`
  unfoldable pub price_with_slippage : PaperExecutionConfig F → OrderIntentEvent F → F
  unfolding price_or
  price_with_slippage config intent =
      let ref = price_or intent.limit_price (d.of_nat 100) in
      let slip = ref ⊗ (config.slippage_bps ⊘ d.of_nat 10_000) in
      elim intent.side [ buy ↦ ref ⊕ slip | sell ↦ fmax (ref ⊖ slip) (d.of_nat 1 ⊘ d.of_nat 100) ]

  -- `_latency_ms`, from the first two bytes of the digest.
  unfoldable pub latency_ms : Platform F → PaperExecutionConfig F → String → F
  latency_ms platform config key =
      if config.jitter_latency_ms <= nought
      then config.base_latency_ms
      else config.base_latency_ms
        ⊕ d.of_nat (first_two (platform.digest_of key)) ⊘ d.of_nat 65535 ⊗ config.jitter_latency_ms

  -- `_order_event`
  unfoldable pub order_event : OrderIntentEvent F → ℕ → OrderStatus → ℕ → OrderEvent F
  order_event intent order_id status at = record {
    order_id = order_id;
    intent_id = intent.intent_id;
    status = status;
    event_time = at;
    symbol = intent.symbol;
    side = intent.side;
    quantity = intent.quantity;
  }

  -- `_fill_event`
  unfoldable pub fill_event :
      Platform F → PaperExecutionConfig F → OrderIntentEvent F → ℕ → F → ℕ → FillKey → FillEvent F
  unfolding uuid5_from_bytes price_with_slippage
  fill_event platform config intent order_id qty at key = record {
    order_id = order_id;
    fill_id = uuid5_from_bytes (platform.fill_digest key);
    fill_key = key;
    symbol = intent.symbol;
    side = intent.side;
    quantity = qty;
    price = price_with_slippage config intent;
    event_time = at;
    fill_status = if intent.quantity <= qty then full else partial;
  }
