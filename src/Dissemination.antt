-- ===== src/Dissemination.antt =====
-- src/market/market_data_engine.h and src/market/market_data_engine.cpp: the engine that throttles
-- market data and passes it through a ring to the subscribers. `size` is the size of the ring, 16384
-- in the source; `now` is what the clock shows; a handler is named by a number, and a call of it is
-- an output. Handlers are taken not to call the engine back.
pub mod Drain
pub mod Queue
pub mod Spacing
pub mod Session
mod Tests
use hfttoolset.Base.{
  ℕ, Bool, true, false, List, [], ◌∷◌, ◌++◌, map, Option, none, some, if◌then◌else◌, ltb, ◌==◌, ◌+◌,
  ◌-◌, ◌%◌, ◌^◌, suc, zero,
}
use hfttoolset.Base.Assoc.{Assoc, find, insert}
use hfttoolset.Types.{Symbol, symbol_discrete, TopOfBook, DepthSnapshot, Trade, blank, empty_tob}
use hfttoolset.Ring.{RingBuffer, empty_ring, push, pop}

pub data MdUpdateType : Type 0 where
  snapshot_full incremental_refresh trade_report : MdUpdateType

-- The union, by its active member.
pub data Content : Type 0 where
  tob : TopOfBook → Content
  depth : DepthSnapshot → Content
  trade : Trade → Content

pub record MarketDataMessage : Type 0 where
  pub type : MdUpdateType
  pub symbol : Symbol
  pub timestamp : ℕ
  pub content : Content

-- `MarketDataMessage()`; the symbol is the blank one.
abbrev pub no_message : MarketDataMessage
no_message = record { type = snapshot_full; symbol = blank; timestamp = 0; content = tob empty_tob }

pub record MarketDataEngine : Type 0 where
  pub throttle_ns : ℕ
  pub l2_depth : ℕ
  pub last_publish_time : Assoc Symbol ℕ
  pub md_queue : RingBuffer MarketDataMessage
  pub l1_handlers : List ℕ
  pub l2_handlers : List ℕ
  pub trade_handlers : List ℕ
  pub messages_published : ℕ
  pub messages_throttled : ℕ

-- A call of a handler.
pub data Output : Type 0 where
  l1_out : ℕ → TopOfBook → Output
  l2_out : ℕ → DepthSnapshot → Output
  trade_out : ℕ → Trade → Output

abbrev pub new_market_data_engine : ℕ → MarketDataEngine
new_market_data_engine size = record {
  throttle_ns = 0;
  l2_depth = 10;
  last_publish_time = [];
  md_queue = empty_ring size no_message;
  l1_handlers = [];
  l2_handlers = [];
  trade_handlers = [];
  messages_published = 0;
  messages_throttled = 0;
}

abbrev pub set_throttle_interval_ns : ℕ → MarketDataEngine → MarketDataEngine
set_throttle_interval_ns ns e = record e { throttle_ns = ns }

abbrev pub set_l2_depth : ℕ → MarketDataEngine → MarketDataEngine
set_l2_depth d e = record e { l2_depth = d }

abbrev pub subscribe_l1 : ℕ → MarketDataEngine → MarketDataEngine
subscribe_l1 handler e = record e { l1_handlers = e.l1_handlers ++ handler ∷ [] }

abbrev pub subscribe_l2 : ℕ → MarketDataEngine → MarketDataEngine
subscribe_l2 handler e = record e { l2_handlers = e.l2_handlers ++ handler ∷ [] }

abbrev pub subscribe_trades : ℕ → MarketDataEngine → MarketDataEngine
subscribe_trades handler e = record e { trade_handlers = e.trade_handlers ++ handler ∷ [] }

-- `should_throttle`, with what the map holds for the symbol. The difference is of unsigned numbers.
unfoldable pub note_time : Symbol → ℕ → MarketDataEngine → MarketDataEngine
note_time s now e = record e {
  last_publish_time = insert symbol_discrete s now e.last_publish_time;
}

abbrev pub elapsed : ℕ → ℕ → ℕ
elapsed now last = (now + (2 ^ 64 - last)) % 2 ^ 64

unfoldable pub throttle_after : Option ℕ → Symbol → ℕ → MarketDataEngine → Bool × MarketDataEngine
throttle_after none s now e = (false, note_time s now e)
throttle_after (some last) s now e =
    if ltb (elapsed now last) e.throttle_ns then (true, e) else (false, note_time s now e)

unfoldable pub should_throttle : Symbol → ℕ → MarketDataEngine → Bool × MarketDataEngine
should_throttle s now e =
    if e.throttle_ns == 0
    then (false, e)
    else throttle_after (find symbol_discrete s e.last_publish_time) s now e

-- The result of the push is thrown away.
unfoldable pub enqueue : ℕ → MarketDataMessage → MarketDataEngine → MarketDataEngine
enqueue size msg e = record e { md_queue = (push size msg e.md_queue).1 }

unfoldable pub unless_throttled : ℕ → MarketDataMessage → Bool × MarketDataEngine → MarketDataEngine
unless_throttled size msg (true, e) = record e {
  messages_throttled = (e.messages_throttled + 1) % 2 ^ 64;
}
unless_throttled size msg (false, e) = enqueue size msg e

abbrev pub tob_message : TopOfBook → ℕ → MarketDataMessage
tob_message t now = record {
  type = incremental_refresh;
  symbol = t.symbol;
  timestamp = now;
  content = tob t;
}

unfoldable pub on_tob_update : ℕ → TopOfBook → ℕ → MarketDataEngine → MarketDataEngine
on_tob_update size t now e =
    unless_throttled size (tob_message t now) (should_throttle t.symbol now e)

abbrev pub depth_message : DepthSnapshot → ℕ → MarketDataMessage
depth_message d now = record {
  type = snapshot_full;
  symbol = d.symbol;
  timestamp = now;
  content = depth d;
}

unfoldable pub on_depth_update : ℕ → DepthSnapshot → ℕ → MarketDataEngine → MarketDataEngine
on_depth_update size d now e =
    unless_throttled size (depth_message d now) (should_throttle d.symbol now e)

abbrev pub trade_message : Trade → ℕ → MarketDataMessage
trade_message t now = record {
  type = trade_report;
  symbol = t.symbol;
  timestamp = now;
  content = trade t;
}

unfoldable pub on_trade : ℕ → Trade → ℕ → MarketDataEngine → MarketDataEngine
on_trade size t now e = enqueue size (trade_message t now) e

-- The switch of `process_pending`: the calls of a message. `none`: a member of the union that is
-- not the active one is read.
unfoldable pub deliver : MdUpdateType → Content → MarketDataEngine → Option (List Output)
deliver incremental_refresh (tob t) e = some (map (λ h. l1_out h t) e.l1_handlers)
deliver snapshot_full (depth d) e = some (map (λ h. l2_out h d) e.l2_handlers)
deliver trade_report (trade t) e = some (map (λ h. trade_out h t) e.trade_handlers)
deliver _ _ e = none

-- A message popped: what it gives, before what comes after it.
abbrev pub call_before :
    Option (List Output)
    → Option (List Output × MarketDataEngine)
    → Option (List Output × MarketDataEngine)
call_before (some calls) (some (later, e)) = some (calls ++ later, e)
call_before _ _ = none

-- The body of the loop of `process_pending`, with what comes after it.
unfoldable pub process_popped :
    Option MarketDataMessage
    → (MarketDataEngine → Option (List Output × MarketDataEngine))
    → MarketDataEngine
    → Option (List Output × MarketDataEngine)
process_popped none next e = some ([], e)
process_popped (some msg) next e =
    let e' = record e { messages_published = (e.messages_published + 1) % 2 ^ 64 } in
    call_before (deliver msg.type msg.content e') (next e')

-- The loop, on fuel: `none` is also that the fuel ran out.
unfoldable pub process_pending : ℕ → ℕ → MarketDataEngine → Option (List Output × MarketDataEngine)
process_pending size zero e = none
process_pending size (suc fuel) e =
    let (opt, queue) = pop size e.md_queue in
    process_popped opt (λ e'. process_pending size fuel e') (record e { md_queue = queue })
