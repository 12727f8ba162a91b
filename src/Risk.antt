-- ===== src/Risk.antt =====
-- src/risk/risk_engine.h and src/risk/risk_engine.cpp: the checks before a trade. `operator[]` of a
-- map makes an entry where there is none, also where it is only read.
pub mod Checks
pub mod Positions
pub mod Kept
mod Tests
use hfttoolset.Base.{
  ℕ, ℤ, pos, negsuc, suc, ltb_ℤ, leb_ℤ, ◌+ℤ◌, ◌-ℤ◌, Bool, true, false, ◌&&◌, List, [], ◌∷◌, ◌++◌,
  Option, none, some, if◌then◌else◌, length, ltb, leb, ◌+◌, ◌-◌, ◌*◌, ◌%◌, ◌^◌, ℕ_discrete,
}
use hfttoolset.Base.Assoc.{Assoc, find, insert}
use hfttoolset.Types.{
  Side, buy, sell, Symbol, symbol_discrete, Order, OrderType, limit, market, RejectReason, nothing,
  invalid_price, invalid_quantity, position_limit, rate_limit, kill_switch_active,
}

pub record TraderRiskLimits : Type 0 where
  pub max_position_per_symbol : ℤ
  pub max_net_position : ℤ
  pub max_order_rate : ℕ
  pub rate_window_ms : ℕ
  pub self_trade_prevention : Bool

abbrev pub default_risk_limits : TraderRiskLimits
default_risk_limits = record {
  max_position_per_symbol = pos 10000;
  max_net_position = pos 100000;
  max_order_rate = 1000;
  rate_window_ms = 1000;
  self_trade_prevention = true;
}

pub record TraderRiskState : Type 0 where
  pub positions : Assoc Symbol ℤ
  pub order_timestamps : List ℕ
  pub net_position : ℤ
  pub killed : Bool

abbrev pub new_state : TraderRiskState
new_state = record { positions = []; order_timestamps = []; net_position = pos 0; killed = false }

pub record RiskEngine : Type 0 where
  pub default_limits : TraderRiskLimits
  pub trader_limits : Assoc ℕ TraderRiskLimits
  pub trader_states : Assoc ℕ TraderRiskState
  pub global_kill : Bool
  pub orders_checked : ℕ
  pub orders_rejected : ℕ

abbrev pub new_engine : RiskEngine
new_engine = record {
  default_limits = default_risk_limits;
  trader_limits = [];
  trader_states = [];
  global_kill = false;
  orders_checked = 0;
  orders_rejected = 0;
}

abbrev pub or_else {ℓ} : {A : Type ℓ} → Option A → A → A
or_else none a = a
or_else (some b) a = b

-- `get_limits`
unfoldable pub limits_of : RiskEngine → ℕ → TraderRiskLimits
limits_of e trader = or_else (find ℕ_discrete trader e.trader_limits) e.default_limits

unfoldable pub set_trader_limits : ℕ → TraderRiskLimits → RiskEngine → RiskEngine
set_trader_limits trader l e = record e {
  trader_limits = insert ℕ_discrete trader l e.trader_limits;
}

unfoldable pub set_default_limits : TraderRiskLimits → RiskEngine → RiskEngine
set_default_limits l e = record e { default_limits = l }

-- `get_state`, and a write through the reference that it returns.
unfoldable pub state_of : RiskEngine → ℕ → TraderRiskState
state_of e trader = or_else (find ℕ_discrete trader e.trader_states) new_state

unfoldable pub with_state : ℕ → TraderRiskState → RiskEngine → RiskEngine
with_state trader s e = record e { trader_states = insert ℕ_discrete trader s e.trader_states }

-- `q` bought, or sold.
abbrev pub moved : Side → ℤ → ℤ → ℤ
moved buy p q = p +ℤ q
moved sell p q = p -ℤ q

abbrev pub position_in : TraderRiskState → Symbol → ℤ
position_in s symbol = or_else (find symbol_discrete symbol s.positions) (pos 0)

unfoldable pub get_position : RiskEngine → ℕ → Symbol → ℤ
get_position e trader symbol = position_in (state_of e trader) symbol

unfoldable pub fill_state : Symbol → Side → ℤ → TraderRiskState → TraderRiskState
fill_state symbol side qty s = record s {
  positions = insert symbol_discrete symbol (moved side (position_in s symbol) qty) s.positions;
  net_position = moved side s.net_position qty;
}

unfoldable pub on_fill : ℕ → Symbol → Side → ℤ → RiskEngine → RiskEngine
on_fill trader symbol side qty e =
    with_state trader (fill_state symbol side qty (state_of e trader)) e

unfoldable pub set_killed : Bool → ℕ → RiskEngine → RiskEngine
set_killed k trader e = with_state trader (record (state_of e trader) { killed = k }) e

-- `kill_trader`, `unkill_trader`, `kill_all`
abbrev pub kill_trader : ℕ → RiskEngine → RiskEngine
kill_trader = set_killed true

abbrev pub unkill_trader : ℕ → RiskEngine → RiskEngine
unkill_trader = set_killed false

unfoldable pub kill_all : RiskEngine → RiskEngine
kill_all e = record e { global_kill = true }

unfoldable pub unkill_states : Assoc ℕ TraderRiskState → Assoc ℕ TraderRiskState
unkill_states [] = []
unkill_states ((t, s) ∷ m) = (t, record s { killed = false }) ∷ unkill_states m

unfoldable pub unkill_all : RiskEngine → RiskEngine
unkill_all e = record e { global_kill = false; trader_states = unkill_states e.trader_states }

unfoldable pub is_killed : RiskEngine → ℕ → Bool
is_killed e trader = if e.global_kill then true else (state_of e trader).killed

unfoldable pub check_kill_switch : RiskEngine → ℕ → RejectReason
check_kill_switch e trader =
    if e.global_kill
    then kill_switch_active
    else if is_killed e trader
    then kill_switch_active
    else nothing

abbrev pub is_limit_type : OrderType → Bool
is_limit_type limit = true
is_limit_type market = false

unfoldable pub check_price_validity : Order → RejectReason
check_price_validity order =
    if is_limit_type order.type && leb_ℤ order.price (pos 0) then invalid_price else nothing

unfoldable pub check_quantity_validity : Order → RejectReason
check_quantity_validity order = if leb_ℤ order.quantity (pos 0) then invalid_quantity else nothing

abbrev pub abs_ℤ : ℤ → ℤ
abs_ℤ (pos n) = pos n
abs_ℤ (negsuc n) = pos (suc n)

unfoldable pub check_position_limit : RiskEngine → ℕ → Order → RejectReason × RiskEngine
check_position_limit e trader order =
    let l = limits_of e trader in
    let s = state_of e trader in
    let e' = with_state trader s e in
    let projected_pos = moved order.side (position_in s order.symbol) order.quantity in
    let projected_net = moved order.side s.net_position order.quantity in
    if ltb_ℤ l.max_position_per_symbol (abs_ℤ projected_pos)
    then (position_limit, e')
    else if ltb_ℤ l.max_net_position (abs_ℤ projected_net)
    then (position_limit, e')
    else (nothing, e')

-- The loop that removes expired timestamps; the difference is of unsigned numbers.
unfoldable pub expire : ℕ → ℕ → List ℕ → List ℕ
expire now window [] = []
expire now window (t ∷ ts) =
    let rest = expire now window ts in
    if ltb window ((now + (2 ^ 64 - t)) % 2 ^ 64) then rest else t ∷ ts

unfoldable pub check_rate_limit : RiskEngine → ℕ → ℕ → RejectReason × RiskEngine
check_rate_limit e trader now =
    let l = limits_of e trader in
    let s = state_of e trader in
    let kept = expire now (l.rate_window_ms * 1000000) s.order_timestamps in
    let e' = with_state trader (record s { order_timestamps = kept }) e in
    if leb l.max_order_rate (length kept)
    then (rate_limit, e')
    else (nothing, with_state trader (record s { order_timestamps = kept ++ now ∷ [] }) e)

-- One of the early returns of `check_order`, or what comes after it.
unfoldable pub guard :
    RejectReason → RiskEngine → RejectReason × RiskEngine → RejectReason × RiskEngine
guard nothing e after = after
guard r e after = (r, record e { orders_rejected = (e.orders_rejected + 1) % 2 ^ 64 })

unfoldable pub check_order : RiskEngine → Order → RejectReason × RiskEngine
check_order e order =
    let e0 = record e { orders_checked = (e.orders_checked + 1) % 2 ^ 64 } in
    let (r1, e1) = check_position_limit e0 order.trader_id order in
    let (r2, e2) = check_rate_limit e1 order.trader_id order.submit_time in
    guard (check_kill_switch e0 order.trader_id) e0 (
      guard (check_price_validity order) e0
        (guard (check_quantity_validity order) e0 (guard r1 e1 (guard r2 e2 (nothing, e2)))))
