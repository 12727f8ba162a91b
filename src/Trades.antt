-- ===== src/Trades.antt =====
-- src/market/trade_engine.h and src/market/trade_engine.cpp: the positions that trades leave. The
-- arithmetic of `double` is a parameter. Callbacks are taken as registered; an operation returns
-- their calls in order.
pub mod Ledger
pub mod Balance
mod Tests
use hfttoolset.Base.{
  ℕ, ℤ, pos, ltb_ℤ, leb_ℤ, min_ℤ, ◌+ℤ◌, ◌-ℤ◌, List, [], ◌∷◌, Option, none, some, if◌then◌else◌, ite,
  ◌+◌, ◌%◌, ◌^◌, ℕ_discrete,
}
use hfttoolset.Doubles.{Doubles}
use hfttoolset.Base.Assoc.{Assoc, find, insert}
use hfttoolset.Types.{Side, buy, sell, Symbol, blank, symbol_discrete, Trade}

pub record Position (D : Doubles) : Type 0 where
  pub symbol : Symbol
  pub net_qty : ℤ
  pub buy_qty : ℤ
  pub sell_qty : ℤ
  pub avg_buy_price : D.Double
  pub avg_sell_price : D.Double
  pub realized_pnl : D.Double
  pub unrealized_pnl : D.Double

pub record TraderSymbolKey : Type 0 where
  pub trader_id : ℕ
  pub symbol : Symbol

unfoldable pub key_discrete : Discrete TraderSymbolKey
key_discrete = hlevel (ℕ_discrete, symbol_discrete)

-- The callbacks are not members: a call of one is an output.
pub record TradeEngine (D : Doubles) : Type 0 where
  pub positions : Assoc TraderSymbolKey (Position D)
  pub total_trades : ℕ
  pub total_volume : ℤ
  pub total_notional : D.Double

pub data Output (D : Doubles) : Type 0 where
  position_out : ℕ → Position D → Output D
  trade_out : Trade → Output D

abbrev pub passive_side : Side → Side
passive_side buy = sell
passive_side sell = buy

module _ (D : Doubles) where
  abbrev pub new_trade_engine : TradeEngine D
  new_trade_engine = record {
    positions = [];
    total_trades = 0;
    total_volume = pos 0;
    total_notional = D.zero_double;
  }

  -- `Position{}`.
  abbrev pub no_position : Position D
  no_position = record {
    symbol = blank;
    net_qty = pos 0;
    buy_qty = pos 0;
    sell_qty = pos 0;
    avg_buy_price = D.zero_double;
    avg_sell_price = D.zero_double;
    realized_pnl = D.zero_double;
    unrealized_pnl = D.zero_double;
  }

  -- `( old_price * old_qty + price * qty ) / ( old_qty + qty )`
  abbrev pub average : D.Double → ℤ → ℤ → ℤ → D.Double
  average old_price old_qty price qty =
      D.div (D.add (D.mul old_price (D.of_int old_qty)) (D.mul (D.of_int price) (D.of_int qty)))
        (D.of_int (old_qty +ℤ qty))

  -- The branches of `update_position`: what closes a position is realized, then the average of
  -- the side is updated, then the net quantity.
  unfoldable pub close_short : ℤ → ℤ → Position D → Position D
  close_short qty price p =
      let close_qty = min_ℤ qty (pos 0 -ℤ p.net_qty) in
      let gain = D.mul (D.of_int close_qty) (D.sub p.avg_sell_price (D.of_int price)) in
      if ltb_ℤ p.net_qty (pos 0) then record p { realized_pnl = D.add p.realized_pnl gain } else p

  unfoldable pub average_buy : ℤ → ℤ → Position D → Position D
  average_buy qty price p =
      if leb_ℤ (pos 0) p.net_qty
      then record p {
        buy_qty = p.buy_qty +ℤ qty;
        avg_buy_price = average p.avg_buy_price p.buy_qty price qty;
      }
      else p

  unfoldable pub close_long : ℤ → ℤ → Position D → Position D
  close_long qty price p =
      let close_qty = min_ℤ qty p.net_qty in
      let gain = D.mul (D.of_int close_qty) (D.sub (D.of_int price) p.avg_buy_price) in
      if ltb_ℤ (pos 0) p.net_qty then record p { realized_pnl = D.add p.realized_pnl gain } else p

  unfoldable pub average_sell : ℤ → ℤ → Position D → Position D
  average_sell qty price p =
      if leb_ℤ p.net_qty (pos 0)
      then record p {
        sell_qty = p.sell_qty +ℤ qty;
        avg_sell_price = average p.avg_sell_price p.sell_qty price qty;
      }
      else p

  unfoldable pub dealt : Side → ℤ → ℤ → Position D → Position D
  dealt buy qty price p =
      let p' = average_buy qty price (close_short qty price p) in
      record p' { net_qty = p'.net_qty +ℤ qty }
  dealt sell qty price p =
      let p' = average_sell qty price (close_long qty price p) in
      record p' { net_qty = p'.net_qty -ℤ qty }

  -- `positions_[key]`
  abbrev pub or_new : Option (Position D) → Position D
  or_new none = no_position
  or_new (some p) = p

  unfoldable pub new_position : TraderSymbolKey → Side → ℤ → ℤ → TradeEngine D → Position D
  new_position key side qty price e =
      let p = or_new (find key_discrete key e.positions) in
      dealt side qty price (record p { symbol = key.symbol })

  unfoldable pub update_position : TraderSymbolKey → Side → ℤ → ℤ → TradeEngine D → TradeEngine D
  update_position key side qty price e = record e {
    positions = insert key_discrete key (new_position key side qty price e) e.positions;
  }

  abbrev pub incoming_key : Trade → TraderSymbolKey
  incoming_key t = record { trader_id = t.incoming_trader; symbol = t.symbol }

  abbrev pub resting_key : Trade → TraderSymbolKey
  resting_key t = record { trader_id = t.resting_trader; symbol = t.symbol }

  unfoldable pub count_trade : Trade → TradeEngine D → TradeEngine D
  count_trade t e = record e {
    total_trades = (e.total_trades + 1) % 2 ^ 64;
    total_volume = e.total_volume +ℤ t.qty;
    total_notional = D.add e.total_notional (D.mul (D.of_int t.qty) (D.of_int t.price));
  }

  unfoldable pub process_trade : Trade → TradeEngine D → TradeEngine D × List (Output D)
  process_trade t e =
      let e0 = count_trade t e in
      let e1 = update_position (incoming_key t) t.aggressor_side t.qty t.price e0 in
      let e2 = update_position (resting_key t) (passive_side t.aggressor_side) t.qty t.price e1 in
      (
        e2,
        position_out t.incoming_trader
              (new_position (incoming_key t) t.aggressor_side t.qty t.price e0)
            ∷ position_out t.resting_trader
                (new_position (resting_key t) (passive_side t.aggressor_side) t.qty t.price e1)
            ∷ trade_out t
            ∷ [],
      )

  unfoldable pub get_position : TradeEngine D → ℕ → Symbol → Option (Position D)
  get_position e trader_id symbol =
      find key_discrete (record { trader_id = trader_id; symbol = symbol }) e.positions

  -- The order of the result, which the map leaves open, is that of the list.
  unfoldable pub positions_of : ℕ → Assoc TraderSymbolKey (Position D) → List (Position D)
  positions_of trader_id [] = []
  positions_of trader_id ((key, p) ∷ m) =
      let rest = positions_of trader_id m in
      ite (ℕ_discrete key.trader_id trader_id) (p ∷ rest) rest

  abbrev pub get_positions : TradeEngine D → ℕ → List (Position D)
  get_positions e trader_id = positions_of trader_id e.positions

  unfoldable pub marked : ℤ → Position D → Position D
  marked current_price p =
      let long = D.mul (D.of_int p.net_qty) (D.sub (D.of_int current_price) p.avg_buy_price) in
      let short =
        D.mul (D.of_int (pos 0 -ℤ p.net_qty)) (D.sub p.avg_sell_price (D.of_int current_price)) in
      if ltb_ℤ (pos 0) p.net_qty
      then record p { unrealized_pnl = long }
      else if ltb_ℤ p.net_qty (pos 0)
      then record p { unrealized_pnl = short }
      else record p { unrealized_pnl = D.zero_double }

  unfoldable pub mark_all :
      Symbol → ℤ → Assoc TraderSymbolKey (Position D) → Assoc TraderSymbolKey (Position D)
  mark_all symbol current_price [] = []
  mark_all symbol current_price ((key, p) ∷ m) =
      (key, ite (symbol_discrete key.symbol symbol) (marked current_price p) p)
      ∷ mark_all symbol current_price m

  unfoldable pub mark_to_market : Symbol → ℤ → TradeEngine D → TradeEngine D
  mark_to_market symbol current_price e = record e {
    positions = mark_all symbol current_price e.positions;
  }
