-- ===== src/KisIngestion/MarketSession/Windows.antt =====
-- The sessions divide the trading window, and their ids name their markets.
use invest_view.Common.{ℕ, ◌≡◌, ◌<◌, ◌⊎◌, inl, inr, refl, some, if◌then◌else◌, arith, sym, subst}
use invest_view.KisIngestion.MarketSession.{
  krx_session_adapter, nxt_session_adapter, time, between, is_trading_window,
  determine_initial_market,
}
use invest_view.KisIngestion.Connection.Iterate.{market_of}

determine_initial_market_cases :
    (now : ℕ)
    → (determine_initial_market now ≡ krx_session_adapter)
      ⊎ (determine_initial_market now ≡ nxt_session_adapter)
unfolding determine_initial_market
determine_initial_market_cases now = ground (arith)

-- The connection takes the ticks of a session for ticks of its market.
determine_initial_market-market_of :
    (now : ℕ)
    → market_of (determine_initial_market now).tick_tr_id
      ≡ some (determine_initial_market now).market_name
unfolding market_of
determine_initial_market-market_of now = elim (determine_initial_market_cases now) [
  | inl e ↦ subst (λ p. market_of p.tick_tr_id ≡ some p.market_name) (sym e) refl
  | inr e ↦ subst (λ p. market_of p.tick_tr_id ≡ some p.market_name) (sym e) refl
]

-- On a weekday KRX is the market from nine to half past three and out of the trading window.
determine_initial_market_lem :
    (weekday now : ℕ)
    → weekday < 5
    → determine_initial_market now ≡ (
        if between (time 9 0) now (time 15 30)
        then krx_session_adapter
        else if is_trading_window weekday now
        then nxt_session_adapter
        else krx_session_adapter)
unfolding determine_initial_market is_trading_window between
determine_initial_market_lem weekday now le = ground (arith)
