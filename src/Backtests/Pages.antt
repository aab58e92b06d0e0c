-- ===== src/Backtests/Pages.antt =====
-- `_paginate`, apps/api-control-plane/app/api/routers/backtest_runs.py.
use gooberberg_terminal.Prelude.{
  ℕ, ◌+◌, Option, none, some, List, ltb, length, take, drop, if◌then◌else◌,
}
use gooberberg_terminal.Prelude.Int.{ℤ, pos_part}

pub record Page (A : Type 0) : Type 0 where
  pub items : List A
  pub offset : ℕ
  pub limit : ℕ
  pub next_offset : Option ℕ

-- `min(max(limit, 1), 200)`
abbrev pub safe_limit : ℤ → ℕ
safe_limit limit =
    let n = pos_part limit in
    let raised = if ltb 1 n then n else 1 in if ltb 200 raised then 200 else raised

unfoldable pub paginate : {A : Type 0} → List A → ℤ → ℤ → Page A
paginate items offset limit =
    let first = pos_part offset in
    let size = safe_limit limit in
    record {
      items = take size (drop first items);
      offset = first;
      limit = size;
      next_offset = if ltb (first + size) (length items) then some (first + size) else none;
    }
