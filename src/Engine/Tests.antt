-- ===== src/Engine/Tests.antt =====
-- Runs of the engine on concrete orders.
use hfttoolset.Engine.Requests.{process_cancel}
use hfttoolset.Base.{ℕ, ℤ, pos, ◌≡◌, refl, [], ◌∷◌, some, true, ℕ_discrete, ◌+ℤ◌, ◌-ℤ◌}
use hfttoolset.Base.Assoc.{find, insert}
use hfttoolset.Types.{
  Symbol, blank, of_text, symbol_discrete, Side, buy, sell, Order, day, empty_order, nothing,
  CancelRequest, no_text,
}
use hfttoolset.L3.State.{new_book, count_up}
use hfttoolset.L3.Book.{
  add_order, settle, add_resting_order, matched_report, remainder_report, report_on,
}
use hfttoolset.L3.Match.{match_against, match_incoming, fok_blocked}
use hfttoolset.L3.Resting.{new_location}
use hfttoolset.Risk.{
  RiskEngine, new_engine, check_order, is_killed, state_of, limits_of, check_kill_switch,
  check_price_validity, check_quantity_validity, check_position_limit, check_rate_limit, guard,
  with_state, expire,
}
use hfttoolset.Feed.{set_depth}
use hfttoolset.Engine.{
  SymbolState, MatchingEngine, Processed, new_matching_engine, new_feed, state_of_symbol, put_state,
  add_symbol, added_to, process_new_order, is_open, check_risk,
}
use hfttoolset.Engine.Books.{IsSound}
use hfttoolset.Engine.Publish.{verdict, IsShown, process_new_order-IsShown}
use hfttoolset.Engine.Fills.{traded_in, IsMoved, process_new_order-IsMoved}
use hfttoolset.L3.Add.{add_order-IsValid}
use hfttoolset.L3.Reach.{new_book-IsValid}
use hfttoolset.Engine.Route.{IsCanceled, process_cancel-blank}
use hfttoolset.Engine.Reach.{
  Request, submit_new, serve, Reaches, constructed, symbol_added, risk_set, served, set_risk_engine,
  Reaches-IsSound, IsIsolated, serve-IsIsolated,
}

abbrev ab : Symbol
ab = of_text (65 ∷ 66 ∷ [])

abbrev cd : Symbol
cd = of_text (67 ∷ 68 ∷ [])

abbrev order : ℕ → Symbol → Side → ℤ → ℤ → Order
order i s side p q = record empty_order {
  id = i;
  symbol = s;
  side = side;
  tif = day;
  price = p;
  quantity = q;
}

-- Two symbols and a risk engine, then a seller.
abbrev opened : MatchingEngine
opened = set_risk_engine (some new_engine) (add_symbol cd (add_symbol ab new_matching_engine))

abbrev offered : Order
offered = order 1 ab sell (pos 10) (pos 5)

abbrev quoted_engine : MatchingEngine
quoted_engine = (process_new_order offered 3 4 opened).engine

opened-Reaches : Reaches opened
opened-Reaches = risk_set (some new_engine) (symbol_added cd (symbol_added ab constructed))

quoted_engine-Reaches : Reaches quoted_engine
unfolding serve
quoted_engine-Reaches = served (submit_new offered 3 4) opened-Reaches refl

Reaches-IsSound_example :
    IsSound quoted_engine × ((q : Request) → (p : Processed) × (serve q quoted_engine ≡ some p))
Reaches-IsSound_example = Reaches-IsSound quoted_engine quoted_engine-Reaches

abbrev taker : Order
taker = order 2 ab buy (pos 11) (pos 3)

serve-IsIsolated_example :
    (p : Processed) × (serve (submit_new taker 5 6) quoted_engine ≡ some p)
    × IsIsolated (some ab) quoted_engine p
serve-IsIsolated_example =
    serve-IsIsolated (submit_new taker 5 6) quoted_engine
      (Reaches-IsSound quoted_engine quoted_engine-Reaches).0

abbrev fresh_state : SymbolState
fresh_state = record { book = new_book ab; depth = set_depth 10; l1 = new_feed }

listed : state_of_symbol opened ab ≡ some fresh_state
unfolding add_symbol added_to put_state insert find symbol_discrete of_text ℕ_discrete new_book
    set_depth
listed = refl

passes : verdict opened offered ≡ nothing
unfolding add_symbol added_to put_state insert find symbol_discrete of_text ℕ_discrete check_order
    check_kill_switch check_price_validity check_quantity_validity check_position_limit
    check_rate_limit guard is_killed state_of limits_of with_state expire ◌+ℤ◌ ◌-ℤ◌ check_risk
passes = refl

process_new_order-IsShown_example :
    let c = add_order fresh_state.book offered 3 in
    IsShown ab c.book fresh_state.depth 4 c.report c.events (process_new_order offered 3 4 opened)
process_new_order-IsShown_example =
    process_new_order-IsShown offered 3 4 fresh_state opened listed passes

-- For a symbol that the engine does not have.
abbrev stray : Order
stray = order 9 blank buy (pos 11) (pos 3)

rested :
    find ℕ_discrete 1 (add_order fresh_state.book offered 3).book.order_index
    ≡ some (new_location offered)
unfolding add_order settle match_incoming match_against new_book find fok_blocked add_resting_order
    count_up insert ℕ_discrete
rested = refl

accepted : is_open (add_order fresh_state.book offered 3).report.status ≡ true
unfolding add_order settle match_incoming match_against new_book find fok_blocked add_resting_order
    count_up insert ℕ_discrete matched_report remainder_report report_on ◌+ℤ◌ ◌-ℤ◌
accepted = refl

abbrev anywhere : CancelRequest
anywhere = record {
  order_id = 1;
  trader_id = 0;
  symbol = blank;
  submit_time = 7;
  cl_ord_id = no_text;
}

process_cancel-blank_example :
    (p : Processed) × (process_cancel anywhere 7 8 (process_new_order offered 3 4 opened).engine
      ≡ some p)
    × IsCanceled ab 1 p
process_cancel-blank_example =
    process_cancel-blank offered 3 4 fresh_state opened (new_location offered) anywhere 7 8
      (Reaches-IsSound opened opened-Reaches).0 listed passes accepted rested refl refl

-- A buyer of three meets the seller of five.
abbrev ask_state : SymbolState
ask_state = record fresh_state { book = (add_order fresh_state.book offered 3).book }

abbrev with_ask : MatchingEngine
with_ask = record new_matching_engine { symbols = (ab, ask_state) ∷ []; risk = some new_engine }

ask_listed : state_of_symbol with_ask ab ≡ some ask_state
unfolding find symbol_discrete of_text ℕ_discrete
ask_listed = refl

taker_passes : verdict with_ask taker ≡ nothing
unfolding add_symbol added_to put_state insert find symbol_discrete of_text ℕ_discrete check_order
    check_kill_switch check_price_validity check_quantity_validity check_position_limit
    check_rate_limit guard is_killed state_of limits_of with_state expire ◌+ℤ◌ ◌-ℤ◌ check_risk
taker_passes = refl

process_new_order-IsMoved_example :
    let p = process_new_order taker 5 6 with_ask in
    (p.report.filled_qty ≡ traded_in p.outputs)
    × ((r' : RiskEngine) × (p.engine.risk ≡ some r')
        × IsMoved taker (traded_in p.outputs) new_engine r')
process_new_order-IsMoved_example =
    process_new_order-IsMoved taker 5 6 ask_state new_engine with_ask ask_listed refl taker_passes
      (add_order-IsValid (new_book ab) offered 3 (new_book-IsValid ab))
