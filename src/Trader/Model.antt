-- ===== src/Trader/Model.antt =====
-- internal/trader/fills.go (`Fill`) and reconstruct.go (`CompletedTrade`). Markets are numbers, times
-- nanoseconds; `F` is the type of a float64.
use go_be_arbitrage.Prelude.{ℕ, Bool, Option}

pub record Fill (F : Type 0) : Type 0 where
  pub tid : ℕ
  pub market : ℕ
  pub filled_at : ℕ
  pub buy : Bool
  pub quantity : F
  pub price : F
  pub closed_pnl : F
  pub fee : F

pub record CompletedTrade (F : Type 0) : Type 0 where
  pub market : ℕ
  pub long : Bool
  pub open_time : ℕ
  pub close_time : ℕ
  pub volume : F
  pub pnl : F
  pub fees : F
  pub fills : ℕ
  pub entry_price : Option F
  pub exit_price : Option F
  pub size : Option F
