-- ===== src/L3/Match.antt =====
-- src/orderbook/l3_order_book.cpp: `match_against` and `match_incoming`.
pub mod Round
pub mod Walk
pub mod Run
pub mod Fills
pub mod Index
pub mod Levels
pub mod Update
use hfttoolset.Base.{
  ℕ, ℤ, pos, ltb_ℤ, eqb_ℤ, leb_ℤ, min_ℤ, ◌+ℤ◌, ◌-ℤ◌, Bool, true, false, ◌&&◌, List, [], ◌∷◌, ◌++◌,
  Option, none, some, if◌then◌else◌, ℕ_discrete,
}
use hfttoolset.Base.Assoc.{erase}
use hfttoolset.Types.{
  Side, buy, sell, OrderType, limit, market, TimeInForce, fok, Order, Trade, Symbol,
}
use hfttoolset.L3.State.{
  L3Order, OrderQueue, PriceLevels, Tally, Book, levels, with_levels, opposite, inc64, count_down,
}

-- What the loops of `match_against` change, but for the levels.
pub record Matching : Type 0 where
  pub tally : Tally
  pub remaining : ℤ
  pub trades : List Trade

abbrev pub available : L3Order → ℤ
available o = o.visible_qty +ℤ o.hidden_qty

abbrev pub is_limit : OrderType → Bool
is_limit limit = true
is_limit market = false

-- A buyer does not pay more than the price of the order, a seller does not take less.
abbrev pub worse : Side → ℤ → ℤ → Bool
worse buy mine price = ltb_ℤ mine price
worse sell mine price = ltb_ℤ price mine

-- The test that stops a limit order at `price`; a market order goes on.
unfoldable pub beyond_limit : Order → ℤ → Bool
beyond_limit o price = is_limit o.type && worse o.side o.price price

-- A fill of `n` is taken from the displayed quantity first.
unfoldable pub reduce : ℤ → L3Order → L3Order
reduce n o =
    let filled = o.filled_qty +ℤ n in
    if leb_ℤ n o.visible_qty
    then record o { filled_qty = filled; visible_qty = o.visible_qty -ℤ n }
    else record o {
      filled_qty = filled;
      visible_qty = pos 0;
      hidden_qty = o.hidden_qty -ℤ (n -ℤ o.visible_qty);
    }

-- Iceberg replenishment.
unfoldable pub replenish : L3Order → L3Order
replenish o =
    let shown = min_ℤ o.hidden_qty (pos 100) in
    if eqb_ℤ o.visible_qty (pos 0) && ltb_ℤ (pos 0) o.hidden_qty && o.is_iceberg
    then record o { visible_qty = shown; hidden_qty = o.hidden_qty -ℤ shown }
    else o

-- An order that is not used up stays in its place in the queue, a queue in its place in the map.
abbrev pub keep_order : Option L3Order → OrderQueue → OrderQueue
keep_order none os = os
keep_order (some o) os = o ∷ os

abbrev pub keep_level : ℤ → OrderQueue → PriceLevels → PriceLevels
keep_level p [] ls = ls
keep_level p (o ∷ os) ls = (p, o ∷ os) ∷ ls

-- `order_index_.erase( resting.id )` and the count of its side.
unfoldable pub forget : L3Order → Tally → Tally
unfolding count_down
forget o t = count_down o.side (record t { order_index = erase ℕ_discrete o.id t.order_index })

module _ (symbol : Symbol) (incoming : Order) (ts : ℕ) where
  unfoldable pub trade_with : ℤ → L3Order → ℤ → Tally → Trade
  trade_with price resting n t = record {
    trade_id = t.next_trade_id;
    resting_id = resting.id;
    incoming_id = incoming.id;
    resting_trader = resting.trader_id;
    incoming_trader = incoming.trader_id;
    symbol = symbol;
    aggressor_side = incoming.side;
    price = price;
    qty = n;
    match_timestamp_ns = ts;
  }

  -- The counters and the trade list after a fill of `n`.
  unfoldable pub record_fill : ℤ → L3Order → ℤ → Matching → Matching
  record_fill price resting n m = record {
    tally = record t {
      trade_count = inc64 t.trade_count;
      next_trade_id = inc64 t.next_trade_id;
      total_volume = t.total_volume +ℤ n;
      last_trade_price = price;
    };
    remaining = m.remaining -ℤ n;
    trades = m.trades ++ trade_with price resting n t ∷ [];
  }
    where
      t : Tally
      t = m.tally

  -- One round of the inner loop; `none` if the resting order is used up.
  unfoldable pub match_order : ℤ → L3Order → Matching → Option L3Order × Matching
  match_order price resting m =
      let n = min_ℤ m.remaining (available resting) in
      let m' = record_fill price resting n m in
      let rest = replenish (reduce n resting) in
      if eqb_ℤ (available rest) (pos 0)
      then (none, record m' { tally = forget rest m'.tally })
      else (some rest, m')

  -- The inner loop.
  unfoldable pub match_queue : ℤ → OrderQueue → Matching → OrderQueue × Matching
  match_queue price [] m = ([], m)
  match_queue price (o ∷ os) m =
      let (left, m') = match_order price o m in
      let (os', m'') = match_queue price os m' in
      if ltb_ℤ (pos 0) m.remaining then (keep_order left os', m'') else (o ∷ os, m)

  -- The outer loop.
  unfoldable pub match_against : PriceLevels → Matching → PriceLevels × Matching
  match_against [] m = ([], m)
  match_against ((price, os) ∷ ls) m =
      let (os', m') = match_queue price os m in
      let (ls', m'') = match_against ls m' in
      if ltb_ℤ (pos 0) m.remaining
      then if beyond_limit incoming price
        then ((price, os) ∷ ls, m)
        else (keep_level price os' ls', m'')
      else ((price, os) ∷ ls, m)

-- The FOK check: `available` is summed up to the limit, and no further than needed.
unfoldable pub queue_total : ℤ → OrderQueue → ℤ
queue_total acc [] = acc
queue_total acc (o ∷ os) = queue_total (acc +ℤ available o) os

unfoldable pub fok_available : Order → ℤ → PriceLevels → ℤ
fok_available order acc [] = acc
fok_available order acc ((price, os) ∷ ls) =
    let total = queue_total acc os in
    let rest = fok_available order total ls in
    if beyond_limit order price then acc else if leb_ℤ order.quantity total then total else rest

abbrev pub is_fok : TimeInForce → Bool
is_fok fok = true
is_fok _ = false

unfoldable pub fok_blocked : Book → Order → Bool
fok_blocked b order =
    is_fok order.tif
    && ltb_ℤ (fok_available order (pos 0) (levels (opposite order.side) b)) order.quantity

-- The book after matching, with the trades and the quantity left.
pub record MatchResult : Type 0 where
  pub book : Book
  pub trades : List Trade
  pub remaining_qty : ℤ
  pub fully_filled : Bool

unfoldable pub match_incoming : Book → Order → ℕ → MatchResult
match_incoming b order ts =
    let s = opposite order.side in
    let start : Matching = record { tally = b.tally; remaining = order.quantity; trades = [] } in
    let (ls, m) = match_against b.symbol order ts (levels s b) start in
    if fok_blocked b order
    then record { book = b; trades = []; remaining_qty = order.quantity; fully_filled = false }
    else record {
      book = record (with_levels s ls b) { tally = m.tally };
      trades = m.trades;
      remaining_qty = m.remaining;
      fully_filled = eqb_ℤ m.remaining (pos 0);
    }
