-- ===== src/L3/Book.antt =====
-- src/orderbook/l3_order_book.cpp: `add_order`, with the reports on a new order; `Book.Change` has
-- the cancel and the replacement. The callbacks are called in the order of the events that an
-- operation returns.
pub mod Change
use hfttoolset.Base.{
  ℕ, ℤ, pos, ltb_ℤ, eqb_ℤ, ◌+ℤ◌, ◌-ℤ◌, Bool, true, false, ◌&&◌, ◌||◌, not, List, [], ◌∷◌, ◌++◌, map,
  Option, none, some, if◌then◌else◌, length, ◌%◌, ◌^◌, ℕ_discrete,
}
use hfttoolset.Base.Assoc.{find, insert, erase}
use hfttoolset.Types.{
  Side, OrderStatus, new, partially_filled, filled, canceled, rejected, duplicate_order_id,
  insufficient_liquidity, limit, TimeInForce, day, ioc, fok, gtc, Order, ReplaceRequest, Trade,
  TopOfBook, ExecutionReport, empty_order, empty_report,
}
use hfttoolset.L3.State.{
  L3Order, OrderLocation, OrderQueue, PriceLevels, Book, find_level, set_level, erase_level,
  erase_order, levels, with_levels, count_up, count_down, renumber,
}
use hfttoolset.L3.Match.{is_limit, MatchResult, match_incoming}
use hfttoolset.L3.Query.{top_of_book, orders_at_price, deref}

-- A call of the trade callback, or of the top-of-book callback.
pub data BookEvent : Type 0 where
  traded : Trade → BookEvent
  quoted : TopOfBook → BookEvent

pub record Outcome : Type 0 where
  pub report : ExecutionReport
  pub book : Book
  pub events : List BookEvent

-- `publish_tob`.
unfoldable pub publish_tob : Book → ℕ → List BookEvent
publish_tob b ts = quoted (top_of_book b ts) ∷ []

-- `add_resting_order`.
unfoldable pub resting_order : Order → ℤ → ℕ → ℕ → L3Order
resting_order order remaining ts queue_pos = record {
  id = order.id;
  trader_id = order.trader_id;
  side = order.side;
  price = order.price;
  visible_qty = remaining;
  hidden_qty = pos 0;
  filled_qty = order.quantity -ℤ remaining;
  entry_time = ts;
  queue_pos = queue_pos;
  is_iceberg = false;
  cl_ord_id = order.cl_ord_id;
}

unfoldable pub add_resting_order : Book → Order → ℤ → ℕ → Book
add_resting_order b order remaining ts =
    let queue = orders_at_price b order.side order.price in
    let l3 = resting_order order remaining ts (length queue % 2 ^ 32) in
    let loc : OrderLocation = record { side = order.side; price = order.price; it = order.id } in
    let ls = set_level order.side order.price (queue ++ l3 ∷ []) (levels order.side b) in
    let index = insert ℕ_discrete order.id loc b.order_index in
    record (with_levels order.side ls b) {
      tally = count_up order.side (record b.tally { order_index = index });
    }

abbrev pub rests : TimeInForce → Bool
rests day = true
rests gtc = true
rests _ = false

-- `trades.back()`, where there is one.
unfoldable pub last_trade : ExecutionReport → List Trade → ExecutionReport
last_trade rpt [] = rpt
last_trade rpt (t ∷ []) = record rpt { last_qty = t.qty; last_price = t.price }
last_trade rpt (t ∷ u ∷ ts) = last_trade rpt (u ∷ ts)

-- The fields that every report on a new order has.
unfoldable pub report_on : Order → ℕ → ExecutionReport
report_on order ts = record empty_report {
  order_id = order.id;
  trader_id = order.trader_id;
  symbol = order.symbol;
  side = order.side;
  type = order.type;
  price = order.price;
  order_qty = order.quantity;
  transact_time = ts;
  cl_ord_id = order.cl_ord_id;
}

-- The status after matching.
unfoldable pub matched_report : Order → ℕ → MatchResult → ExecutionReport
matched_report order ts r =
    let done = order.quantity -ℤ r.remaining_qty in
    let rpt = record (report_on order ts) { filled_qty = done; leaves_qty = r.remaining_qty } in
    if eqb_ℤ r.remaining_qty (pos 0)
    then record rpt { status = filled }
    else if ltb_ℤ (pos 0) done
    then last_trade (record rpt { status = partially_filled }) r.trades
    else record rpt { status = new }

-- The report on a limit order with a quantity left, by its time in force.
unfoldable pub remainder_report : TimeInForce → ExecutionReport → ExecutionReport
remainder_report day rpt = rpt
remainder_report gtc rpt = rpt
remainder_report ioc rpt = record rpt {
  status = if ltb_ℤ (pos 0) rpt.filled_qty then partially_filled else canceled;
  leaves_qty = pos 0;
}
remainder_report fok rpt = record rpt {
  status = rejected;
  reject_reason = insufficient_liquidity;
  filled_qty = pos 0;
  leaves_qty = pos 0;
}

abbrev pub is_new : OrderStatus → Bool
is_new new = true
is_new _ = false

abbrev pub is_empty {ℓ} : {A : Type ℓ} → List A → Bool
is_empty [] = true
is_empty (x ∷ xs) = false

abbrev pub is_some {ℓ} : {A : Type ℓ} → Option A → Bool
is_some none = false
is_some (some a) = true

-- `add_order` from the matching on.
unfoldable pub settle : Order → ℕ → MatchResult → Outcome
settle order ts r =
    let left = ltb_ℤ (pos 0) r.remaining_qty && is_limit order.type in
    let rpt = matched_report order ts r in
    let rpt' = if left then remainder_report order.tif rpt else rpt in
    let b =
      if left && rests order.tif
      then add_resting_order r.book order r.remaining_qty ts
      else r.book in
    let quotes = if not (is_empty r.trades) || is_new rpt'.status then publish_tob b ts else [] in
    record { report = rpt'; book = b; events = map traded r.trades ++ quotes }

unfoldable pub add_order : Book → Order → ℕ → Outcome
add_order b order ts =
    let matched = settle order ts (match_incoming b order ts) in
    let refused = record (report_on order ts) {
      status = rejected;
      reject_reason = duplicate_order_id;
    } in
    if is_some (find ℕ_discrete order.id b.order_index)
    then record { report = refused; book = b; events = [] }
    else matched
