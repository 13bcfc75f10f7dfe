-- ===== src/KisIngestion/MarketSession.antt =====
-- services/kis_ingestion/src/kis_ingestion/market_session.py. A time of day counts the microseconds
-- since midnight; a weekday counts from Monday.
pub mod Windows
use Prim.Native.String.{String}
use invest_view.Common.{ℕ, ◌+◌, ◌*◌, Bool, true, false, ◌&&◌, if◌then◌else◌, ltb, leb}

-- `MarketSessionPort`
pub record MarketSessionPort : Type 0 where
  pub tick_tr_id : String
  pub hoga_tr_id : String
  pub market_name : String

abbrev pub krx_session_adapter : MarketSessionPort
krx_session_adapter = record {
  tick_tr_id = "H0STCNT0";
  hoga_tr_id = "H0STASP0";
  market_name = "KRX";
}

abbrev pub nxt_session_adapter : MarketSessionPort
nxt_session_adapter = record {
  tick_tr_id = "H0NXCNT0";
  hoga_tr_id = "H0NXASP0";
  market_name = "NXT";
}

pub record MarketSessionRouter : Type 0 where
  pub active : MarketSessionPort

-- `switch`, with the ids of the ticks before and after.
unfoldable pub switch :
    MarketSessionPort → MarketSessionRouter → (String × String) × MarketSessionRouter
switch new_adapter router =
    ((router.active.tick_tr_id, new_adapter.tick_tr_id), record { active = new_adapter })

-- `time(hour, minute)`
abbrev pub time : ℕ → ℕ → ℕ
time hour minute = (hour * 60 + minute) * 60000000

unfoldable pub between : ℕ → ℕ → ℕ → Bool
between from now to = leb from now && ltb now to

unfoldable pub is_trading_window : ℕ → ℕ → Bool
unfolding between
is_trading_window weekday now = ltb weekday 5 && between (time 8 0) now (time 20 0)

unfoldable pub determine_initial_market : ℕ → MarketSessionPort
unfolding between
determine_initial_market now =
    if between (time 8 0) now (time 9 0)
    then nxt_session_adapter
    else if between (time 9 0) now (time 15 30)
    then krx_session_adapter
    else if between (time 15 30) now (time 20 0)
    then nxt_session_adapter
    else krx_session_adapter
