-- ===== src/Engine/Requests.antt =====
-- src/market/matching_engine.cpp: `process_cancel` and `process_replace`.
use hfttoolset.Base.{ℕ, [], Option, none, some, ite, ◌+◌, ◌%◌, ◌^◌, ℕ_discrete}
use hfttoolset.Base.Assoc.{find, erase}
use hfttoolset.Types.{
  Symbol, blank, symbol_discrete, OrderStatus, rejected, canceled, RejectReason, nothing,
  unknown_symbol, CancelRequest, ReplaceRequest, empty_report,
}
use hfttoolset.L3.Book.{Outcome}
use hfttoolset.L3.Book.Change.{cancel_order, replace_order}
use hfttoolset.Engine.{
  SymbolState, MatchingEngine, Processed, state_of_symbol, apply_outcome, finish,
}

-- The report on a cancel or a replacement that reaches no book; no callback is called.
unfoldable pub unrouted : ℕ → RejectReason → ℕ → MatchingEngine → Processed
unrouted id r ts e = record {
  report = record empty_report {
    order_id = id;
    status = rejected;
    reject_reason = r;
    transact_time = ts;
  };
  engine = e;
  outputs = [];
}

-- The symbol of a cancel: its own, or for the blank symbol that of the index.
unfoldable pub route : MatchingEngine → CancelRequest → Option Symbol
route e r =
    ite (symbol_discrete r.symbol blank) (find ℕ_discrete r.order_id e.order_symbol_index)
      (some r.symbol)

unfoldable pub untrack : ℕ → OrderStatus → MatchingEngine → MatchingEngine
untrack id canceled e = record e {
  cancels_processed = (e.cancels_processed + 1) % 2 ^ 64;
  order_symbol_index = erase ℕ_discrete id e.order_symbol_index;
}
untrack id _ e = e

-- What follows the cancel of the book; `none`: it dereferences a dangling iterator.
unfoldable pub canceled_in :
    Symbol → SymbolState → ℕ → ℕ → MatchingEngine → Option Outcome → Option Processed
canceled_in s st id pub_ts e none = none
canceled_in s st id pub_ts e (some c) =
    some (finish pub_ts s c.report c.events (untrack id c.report.status (apply_outcome s st c e)))

unfoldable pub cancel_for :
    Option SymbolState → Symbol → ℕ → ℕ → ℕ → MatchingEngine → Option Processed
cancel_for none s id ts pub_ts e = some (unrouted id unknown_symbol ts e)
cancel_for (some st) s id ts pub_ts e = canceled_in s st id pub_ts e (cancel_order st.book id ts)

unfoldable pub cancel_routed : Option Symbol → ℕ → ℕ → ℕ → MatchingEngine → Option Processed
cancel_routed none id ts pub_ts e = some (unrouted id nothing ts e)
cancel_routed (some s) id ts pub_ts e = cancel_for (state_of_symbol e s) s id ts pub_ts e

unfoldable pub process_cancel : CancelRequest → ℕ → ℕ → MatchingEngine → Option Processed
process_cancel r ts pub_ts e = cancel_routed (route e r) r.order_id ts pub_ts e

unfoldable pub replaced_in :
    Symbol → SymbolState → ℕ → MatchingEngine → Option Outcome → Option Processed
replaced_in s st pub_ts e none = none
replaced_in s st pub_ts e (some c) =
    some (finish pub_ts s c.report c.events (apply_outcome s st c e))

unfoldable pub replace_for :
    Option SymbolState → ReplaceRequest → ℕ → ℕ → MatchingEngine → Option Processed
replace_for none r ts pub_ts e = some (unrouted r.order_id unknown_symbol ts e)
replace_for (some st) r ts pub_ts e = replaced_in r.symbol st pub_ts e (replace_order st.book r ts)

unfoldable pub process_replace : ReplaceRequest → ℕ → ℕ → MatchingEngine → Option Processed
process_replace r ts pub_ts e = replace_for (state_of_symbol e r.symbol) r ts pub_ts e
