-- ===== src/Engine/Rejected.antt =====
-- When the engine rejects an order, and what it leaves then.
use hfttoolset.Base.{pos, ◌≡◌, List, [], ◌∷◌, Option, none, some}
use hfttoolset.Types.{Symbol, Order, Trade, rejected, RejectReason, nothing, ExecutionReport}
use hfttoolset.L3.Rejected.{book_verdict}
use hfttoolset.Risk.{RiskEngine}
use hfttoolset.Risk.Kept.{SamePositions}
use hfttoolset.Engine.{
  SymbolState, MatchingEngine, Processed, Output, executed, trade_out, state_of_symbol, get_book,
}
use hfttoolset.Engine.Publish.{verdict}

-- Why an order is rejected: for an unknown symbol, by the risk engine, or else by the book.
abbrev pub or_book : RejectReason → Option SymbolState → Order → RejectReason
or_book nothing none order = nothing
or_book nothing (some st) order = book_verdict st.book order
or_book r a order = r

abbrev pub full_verdict : MatchingEngine → Order → RejectReason
full_verdict e order = or_book (verdict e order) (state_of_symbol e order.symbol) order

-- The trades and the reports that are called back.
abbrev pub trades_in : List Output → List Trade
trades_in [] = []
trades_in (trade_out t ∷ os) = t ∷ trades_in os
trades_in (_ ∷ os) = trades_in os

abbrev pub reports_in : List Output → List ExecutionReport
reports_in [] = []
reports_in (executed r ∷ os) = r ∷ reports_in os
reports_in (_ ∷ os) = reports_in os

-- No position has moved.
abbrev pub IsKept : Option RiskEngine → Option RiskEngine → Type 0
IsKept none none = Unit
IsKept none (some r') = ⊥
IsKept (some r) none = ⊥
IsKept (some r) (some r') = SamePositions r r'

-- The report rejects the order for this reason with nothing filled. It alone is called back, and no
-- trade. Every symbol has the book that it had; the routing of cancels and the positions stay.
abbrev pub IsTurnedDown : Order → RejectReason → MatchingEngine → Processed → Type 0
IsTurnedDown order r e p =
    (p.report.status ≡ rejected)
    × (p.report.reject_reason ≡ r)
    × (p.report.order_id ≡ order.id)
    × (p.report.filled_qty ≡ pos 0)
    × (reports_in p.outputs ≡ p.report ∷ [])
    × (trades_in p.outputs ≡ [])
    × ((s : Symbol) → get_book p.engine s ≡ get_book e s)
    × (p.engine.order_symbol_index ≡ e.order_symbol_index)
    × IsKept e.risk p.engine.risk
