-- ===== src/Backtests/Paging.antt =====
-- The pages of a list, apps/api-control-plane/app/api/routers/backtest_runs.py.
use gooberberg_terminal.Prelude.{ℕ, zero, suc, none, some, List, [], ◌++◌}
use gooberberg_terminal.Prelude.Int.{ℤ, pos}
use gooberberg_terminal.Backtests.Pages.{paginate}

-- The items of all pages, followed by `next_offset` for at most `fuel` pages.
abbrev pub follow : {A : Type 0} → ℕ → List A → ℕ → ℤ → List A
follow zero items offset limit = []
follow (suc fuel) items offset limit =
    let page = paginate items (pos offset) limit in
    page.items ++ elim page.next_offset [ none ↦ [] | some next ↦ follow fuel items next limit ]
