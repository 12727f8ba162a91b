-- ===== src/Trades/Tests.antt =====
-- Runs of the trade engine, with whole numbers for `double`.
use hfttoolset.Base.{ℕ, ℤ, pos, ◌≡◌, ◌+ℤ◌, List, [], ◌∷◌}
use hfttoolset.Types.{blank, sell, Side, Trade}
use hfttoolset.Doubles.{whole}
use hfttoolset.Trades.{TraderSymbolKey, new_trade_engine}
use hfttoolset.Trades.Ledger.{process_trades, net_of, flow, net_of-process_trades}
use hfttoolset.Trades.Balance.{total_net, total_net-process_trades}

abbrev trade : ℕ → ℕ → Side → ℤ → ℤ → Trade
trade buyer seller side p q = record {
  trade_id = 1;
  resting_id = 2;
  incoming_id = 3;
  resting_trader = buyer;
  incoming_trader = seller;
  symbol = blank;
  aggressor_side = side;
  price = p;
  qty = q;
  match_timestamp_ns = 4;
}

abbrev two_trades : List Trade
two_trades = trade 1 2 sell (pos 10) (pos 5) ∷ trade 3 1 sell (pos 11) (pos 2) ∷ []

abbrev key : TraderSymbolKey
key = record { trader_id = 1; symbol = blank }

net_of-process_trades_example :
    net_of whole (process_trades whole two_trades (new_trade_engine whole)) key
    ≡ net_of whole (new_trade_engine whole) key +ℤ flow whole key two_trades
net_of-process_trades_example = net_of-process_trades whole two_trades (new_trade_engine whole) key

total_net-process_trades_example :
    total_net whole blank (process_trades whole two_trades (new_trade_engine whole)).positions
    ≡ total_net whole blank (new_trade_engine whole).positions
total_net-process_trades_example =
    total_net-process_trades whole blank two_trades (new_trade_engine whole)
