-- ===== src/Types.antt =====
-- src/common/types.h: the enumerations and structures that every module shares. Prices and
-- quantities are signed, ids and timestamps are unsigned; a char array is the list of its bytes.
mod Ticker
pub mod Text
mod Tests
pub use Ticker.{Symbol, blank, to_text}
unfoldable pub use Ticker.{symbol_discrete, of_text}
use hfttoolset.Base.{ℕ, ℤ, pos, Bool, false, List, replicate}

pub data OrderStatus : Type 0 where
  new partially_filled filled canceled rejected pending_cancel pending_replace : OrderStatus

-- `nothing` is `None`.
pub data RejectReason : Type 0 where
  nothing unknown_symbol invalid_price invalid_quantity position_limit rate_limit : RejectReason
  self_trade_prevention kill_switch_active duplicate_order_id : RejectReason
  insufficient_liquidity : RejectReason

pub data Side : Type 0 where
  buy sell : Side

pub data OrderType : Type 0 where
  limit market : OrderType

pub data TimeInForce : Type 0 where
  day ioc fok gtc : TimeInForce

pub record Order : Type 0 where
  pub id : ℕ
  pub trader_id : ℕ
  pub symbol : Symbol
  pub side : Side
  pub type : OrderType
  pub tif : TimeInForce
  pub price : ℤ
  pub quantity : ℤ
  pub filled_qty : ℤ
  pub status : OrderStatus
  pub submit_time : ℕ
  pub accept_time : ℕ
  pub queue_position : ℕ
  pub cl_ord_id : List ℕ

pub record CancelRequest : Type 0 where
  pub order_id : ℕ
  pub trader_id : ℕ
  pub symbol : Symbol
  pub submit_time : ℕ
  pub cl_ord_id : List ℕ

pub record ReplaceRequest : Type 0 where
  pub order_id : ℕ
  pub trader_id : ℕ
  pub symbol : Symbol
  pub new_price : ℤ
  pub new_qty : ℤ
  pub submit_time : ℕ
  pub cl_ord_id : List ℕ
  pub orig_cl_ord_id : List ℕ

-- The symbol is the text of a std::string.
pub record NewOrder : Type 0 where
  pub id : ℕ
  pub trader : ℕ
  pub symbol : List ℕ
  pub side : Side
  pub type : OrderType
  pub tif : TimeInForce
  pub price : ℤ
  pub qty : ℤ

pub record CancelOrder : Type 0 where
  pub id : ℕ

pub record BookOrder : Type 0 where
  pub id : ℕ
  pub trader : ℕ
  pub qty : ℤ
  pub price : ℤ
  pub side : Side
  pub type : OrderType
  pub ts_ns : ℕ

-- `BookOrder( o, ts_ns )`.
abbrev pub book_order : NewOrder → ℕ → BookOrder
book_order o ts = record {
  id = o.id;
  trader = o.trader;
  qty = o.qty;
  price = o.price;
  side = o.side;
  type = o.type;
  ts_ns = ts;
}

pub record Trade : Type 0 where
  pub trade_id : ℕ
  pub resting_id : ℕ
  pub incoming_id : ℕ
  pub resting_trader : ℕ
  pub incoming_trader : ℕ
  pub symbol : Symbol
  pub aggressor_side : Side
  pub price : ℤ
  pub qty : ℤ
  pub match_timestamp_ns : ℕ

pub record BookLevel : Type 0 where
  pub price : ℤ
  pub qty : ℤ
  pub order_count : ℕ

pub record TopOfBook : Type 0 where
  pub symbol : Symbol
  pub best_bid : BookLevel
  pub best_ask : BookLevel
  pub mid_price : ℤ
  pub micro_price : ℤ
  pub spread : ℤ
  pub timestamp : ℕ
  pub valid : Bool

pub record ExecutionReport : Type 0 where
  pub order_id : ℕ
  pub trader_id : ℕ
  pub symbol : Symbol
  pub side : Side
  pub type : OrderType
  pub status : OrderStatus
  pub price : ℤ
  pub order_qty : ℤ
  pub filled_qty : ℤ
  pub last_qty : ℤ
  pub last_price : ℤ
  pub leaves_qty : ℤ
  pub transact_time : ℕ
  pub reject_reason : RejectReason
  pub cl_ord_id : List ℕ
  pub exec_id : List ℕ

-- `char[20] = {}`.
abbrev pub no_text : List ℕ
no_text = replicate 20 0

abbrev pub no_level : BookLevel
no_level = record { price = pos 0; qty = pos 0; order_count = 0 }

-- `TopOfBook{}`.
abbrev pub empty_tob : TopOfBook
empty_tob = record {
  symbol = blank;
  best_bid = no_level;
  best_ask = no_level;
  mid_price = pos 0;
  micro_price = pos 0;
  spread = pos 0;
  timestamp = 0;
  valid = false;
}

-- `ExecutionReport{}`.
abbrev pub empty_report : ExecutionReport
empty_report = record {
  order_id = 0;
  trader_id = 0;
  symbol = blank;
  side = buy;
  type = limit;
  status = new;
  price = pos 0;
  order_qty = pos 0;
  filled_qty = pos 0;
  last_qty = pos 0;
  last_price = pos 0;
  leaves_qty = pos 0;
  transact_time = 0;
  reject_reason = nothing;
  cl_ord_id = no_text;
  exec_id = no_text;
}

-- `Order{}`.
abbrev pub empty_order : Order
empty_order = record {
  id = 0;
  trader_id = 0;
  symbol = blank;
  side = buy;
  type = limit;
  tif = day;
  price = pos 0;
  quantity = pos 0;
  filled_qty = pos 0;
  status = new;
  submit_time = 0;
  accept_time = 0;
  queue_position = 0;
  cl_ord_id = no_text;
}

abbrev pub max_depth_levels : ℕ
max_depth_levels = 20

pub record DepthSnapshot : Type 0 where
  pub symbol : Symbol
  pub bids : List BookLevel
  pub asks : List BookLevel
  pub bid_levels : ℕ
  pub ask_levels : ℕ
  pub timestamp : ℕ

-- `DepthSnapshot{}`.
abbrev pub empty_snapshot : DepthSnapshot
empty_snapshot = record {
  symbol = blank;
  bids = replicate max_depth_levels no_level;
  asks = replicate max_depth_levels no_level;
  bid_levels = 0;
  ask_levels = 0;
  timestamp = 0;
}

pub data EventType : Type 0 where
  new_order cancel_order replace_order execution_rpt trade_event l1_update l2_update : EventType
  l3_update sim_tick shutdown : EventType

-- The union of `EngineEvent`, by its active member.
pub data EventContent : Type 0 where
  order_content : Order → EventContent
  cancel_content : CancelRequest → EventContent
  replace_content : ReplaceRequest → EventContent
  report_content : ExecutionReport → EventContent
  trade_content : Trade → EventContent
  tob_content : TopOfBook → EventContent
  depth_content : DepthSnapshot → EventContent

pub record EngineEvent : Type 0 where
  pub type : EventType
  pub content : EventContent
  pub event_time : ℕ

-- `EngineEvent()`; its copies are those of the bytes.
abbrev pub empty_event : EngineEvent
empty_event = record { type = new_order; content = order_content empty_order; event_time = 0 }
