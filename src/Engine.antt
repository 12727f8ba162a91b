-- ===== src/Engine.antt =====
-- src/market/matching_engine.h and src/market/matching_engine.cpp: the engine that puts one L3 book,
-- its feeds and the risk engine together for every symbol. Its callbacks are taken as registered;
-- an operation returns their calls in order. `ts` and `pub_ts` are what the clock shows at the
-- start of an operation and when market data is published.
pub mod Requests
pub mod Books
pub mod Sound
pub mod Changes
pub mod Reach
pub mod Route
pub mod Holds
pub mod Publish
pub mod Fills
pub mod Rejected
mod Tests
use hfttoolset.Base.{
  ℕ, ℤ, pos, ltb_ℤ, Bool, true, false, List, [], ◌∷◌, ◌++◌, map, Option, none, some, if◌then◌else◌,
  ite, ◌+◌, ◌%◌, ◌^◌, ℕ_discrete,
}
use hfttoolset.Base.Assoc.{Assoc, find, insert, erase}
use hfttoolset.Types.{
  Symbol, blank, symbol_discrete, OrderStatus, filled, rejected, canceled, RejectReason, nothing,
  unknown_symbol, Order, CancelRequest, ReplaceRequest, Trade, TopOfBook, empty_tob, DepthSnapshot,
  ExecutionReport, empty_report, empty_snapshot,
}
use hfttoolset.L3.State.{Book, new_book}
use hfttoolset.L3.Book.{BookEvent, traded, quoted, Outcome, add_order, is_some}
use hfttoolset.L3.Book.Change.{cancel_order, replace_order}
use hfttoolset.Feed.{L1Feed, update, record_trade, snapshot, set_depth}
use hfttoolset.Risk.{RiskEngine, check_order, on_fill}

-- `book`, `l2` (its depth) and `l1`.
pub record SymbolState : Type 0 where
  pub book : Book
  pub depth : ℕ
  pub l1 : L1Feed

pub record MatchingEngine : Type 0 where
  pub symbols : Assoc Symbol SymbolState
  pub order_symbol_index : Assoc ℕ Symbol
  pub risk : Option RiskEngine
  pub orders_processed : ℕ
  pub trades_generated : ℕ
  pub cancels_processed : ℕ
  pub rejects : ℕ

abbrev pub new_matching_engine : MatchingEngine
new_matching_engine = record {
  symbols = [];
  order_symbol_index = [];
  risk = none;
  orders_processed = 0;
  trades_generated = 0;
  cancels_processed = 0;
  rejects = 0;
}

-- A call of one of the four callbacks.
pub data Output : Type 0 where
  executed : ExecutionReport → Output
  trade_out : Trade → Output
  l1_out : TopOfBook → Output
  l2_out : DepthSnapshot → Output

-- What an operation returns: its report, the engine after it, and the calls of callbacks.
pub record Processed : Type 0 where
  pub report : ExecutionReport
  pub engine : MatchingEngine
  pub outputs : List Output

abbrev pub state_of_symbol : MatchingEngine → Symbol → Option SymbolState
state_of_symbol e s = find symbol_discrete s e.symbols

unfoldable pub put_state : Symbol → SymbolState → MatchingEngine → MatchingEngine
put_state s st e = record e { symbols = insert symbol_discrete s st e.symbols }

abbrev pub new_feed : L1Feed
new_feed = record {
  last_tob = empty_tob;
  callback = false;
  recent_trades = [];
  spread_history = [];
}

-- `add_symbol`, with what the map holds.
unfoldable pub added_to : Option SymbolState → Symbol → MatchingEngine → MatchingEngine
added_to (some st) s e = e
added_to none s e =
    put_state s (record { book = new_book s; depth = set_depth 10; l1 = new_feed }) e

unfoldable pub add_symbol : Symbol → MatchingEngine → MatchingEngine
add_symbol s e = added_to (state_of_symbol e s) s e

-- The two callbacks that `add_symbol` gives to a book.
unfoldable pub record_in_l1 : Trade → Option SymbolState → MatchingEngine → MatchingEngine
record_in_l1 t none e = e
record_in_l1 t (some st) e =
    put_state t.symbol (record st { l1 = record_trade t.price t.qty st.l1 }) e

unfoldable pub handle_event : BookEvent → MatchingEngine → MatchingEngine
handle_event (quoted tob) e = e
handle_event (traded t) e =
    let e' = record e { trades_generated = (e.trades_generated + 1) % 2 ^ 64 } in
    record_in_l1 t (state_of_symbol e' t.symbol) e'

abbrev pub output_of : BookEvent → Output
output_of (traded t) = trade_out t
output_of (quoted tob) = l1_out tob

unfoldable pub handle_events : List BookEvent → MatchingEngine → MatchingEngine
handle_events [] e = e
handle_events (v ∷ vs) e = handle_events vs (handle_event v e)

-- What an operation of the book of `s` does to the engine, its callbacks included.
unfoldable pub apply_outcome : Symbol → SymbolState → Outcome → MatchingEngine → MatchingEngine
apply_outcome s st c e = handle_events c.events (put_state s (record st { book = c.book }) e)

-- `publish_market_data`
unfoldable pub publish_to : ℕ → Symbol → Option SymbolState → MatchingEngine → MatchingEngine
publish_to ts s none e = e
publish_to ts s (some st) e = put_state s (record st { l1 = (update st.book ts st.l1).0 }) e

unfoldable pub published : ℕ → Option SymbolState → List Output
published ts none = []
published ts (some st) = l2_out (snapshot st.book st.depth ts) ∷ []

unfoldable pub finish : ℕ → Symbol → ExecutionReport → List BookEvent → MatchingEngine → Processed
finish pub_ts s rpt events e = record {
  report = rpt;
  engine = publish_to pub_ts s (state_of_symbol e s) e;
  outputs = map output_of events ++ executed rpt ∷ published pub_ts (state_of_symbol e s);
}

-- The report on a refused order.
unfoldable pub refusal : Order → RejectReason → ℕ → ExecutionReport
refusal order r ts = record empty_report {
  order_id = order.id;
  trader_id = order.trader_id;
  symbol = order.symbol;
  status = rejected;
  reject_reason = r;
  transact_time = ts;
}

unfoldable pub refuse : Order → RejectReason → ℕ → MatchingEngine → Processed
refuse order r ts e = record {
  report = refusal order r ts;
  engine = record e { rejects = (e.rejects + 1) % 2 ^ 64 };
  outputs = executed (refusal order r ts) ∷ [];
}

-- Neither rejected nor filled.
abbrev pub is_open : OrderStatus → Bool
is_open rejected = false
is_open filled = false
is_open _ = true

unfoldable pub track : Order → ExecutionReport → MatchingEngine → MatchingEngine
track order rpt e =
    if is_open rpt.status
    then record e {
      order_symbol_index = insert ℕ_discrete order.id order.symbol e.order_symbol_index;
    }
    else e

unfoldable pub fill_risk : Order → ExecutionReport → Option RiskEngine → Option RiskEngine
fill_risk order rpt none = none
fill_risk order rpt (some r) = some (
    if ltb_ℤ (pos 0) rpt.filled_qty
    then on_fill order.trader_id order.symbol order.side rpt.filled_qty r
    else r)

-- From the submission to the book on.
unfoldable pub submit : Order → ℕ → ℕ → SymbolState → MatchingEngine → Processed
submit order ts pub_ts st e =
    let c = add_order st.book order ts in
    let e1 = track order c.report (apply_outcome order.symbol st c e) in
    let e2 = record e1 { risk = fill_risk order c.report e1.risk } in
    finish pub_ts order.symbol c.report c.events e2

unfoldable pub check_risk : Order → Option RiskEngine → RejectReason × Option RiskEngine
check_risk order none = (nothing, none)
check_risk order (some r) = let (reason, r') = check_order r order in (reason, some r')

unfoldable pub after_risk : RejectReason → Order → ℕ → ℕ → SymbolState → MatchingEngine → Processed
after_risk nothing order ts pub_ts st e = submit order ts pub_ts st e
after_risk r order ts pub_ts st e = refuse order r ts e

unfoldable pub new_order_for : Option SymbolState → Order → ℕ → ℕ → MatchingEngine → Processed
new_order_for none order ts pub_ts e = refuse order unknown_symbol ts e
new_order_for (some st) order ts pub_ts e =
    let (reason, risk) = check_risk order e.risk in
    after_risk reason order ts pub_ts st (record e { risk = risk })

unfoldable pub process_new_order : Order → ℕ → ℕ → MatchingEngine → Processed
process_new_order order ts pub_ts e =
    new_order_for (state_of_symbol e order.symbol) order ts pub_ts
      (record e { orders_processed = (e.orders_processed + 1) % 2 ^ 64 })

-- The queries. The order of `symbols`, which the map leaves open, is that of the list.
abbrev pub symbols : MatchingEngine → List Symbol
symbols e = map (λ p. p.0) e.symbols

unfoldable pub has_symbol : MatchingEngine → Symbol → Bool
has_symbol e s = is_some (state_of_symbol e s)

unfoldable pub tob_in : Option SymbolState → TopOfBook
tob_in none = empty_tob
tob_in (some st) = st.l1.last_tob

unfoldable pub get_top_of_book : MatchingEngine → Symbol → TopOfBook
get_top_of_book e s = tob_in (state_of_symbol e s)

unfoldable pub depth_in : ℕ → Option SymbolState → DepthSnapshot
depth_in ts none = empty_snapshot
depth_in ts (some st) = snapshot st.book st.depth ts

unfoldable pub get_depth : MatchingEngine → Symbol → ℕ → DepthSnapshot
get_depth e s ts = depth_in ts (state_of_symbol e s)

unfoldable pub book_in : Option SymbolState → Option Book
book_in none = none
book_in (some st) = some st.book

unfoldable pub get_book : MatchingEngine → Symbol → Option Book
get_book e s = book_in (state_of_symbol e s)
