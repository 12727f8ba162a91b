-- ===== src/Engine/Fills.antt =====
-- The engine, the book and the risk engine together: what an order trades is what the callbacks say,
-- what the report says, and what the risk engine books.
use hfttoolset.Base.{
  ℕ, ℤ, pos, ltb_ℤ, ◌≤ℤ◌, ◌+ℤ◌, ◌≡◌, refl, sym, subst, ap, ◌∙◌, List, [], ◌∷◌, ◌++◌, map, Option,
  none, some, ite, inl, inr, Bool-cases, arith, int_laws, parts_of_eq, ℕ_discrete,
}
use hfttoolset.Types.{
  Side, buy, sell, Symbol, symbol_discrete, Order, Trade, nothing, ExecutionReport,
}
use hfttoolset.L3.Valid.{IsValid}
use hfttoolset.L3.Book.{BookEvent, traded, quoted, add_order}
use hfttoolset.Risk.{RiskEngine, check_order, get_position, moved}
use hfttoolset.Risk.Checks.{check_order-passes}
use hfttoolset.Risk.Positions.{get_position-on_fill}
use hfttoolset.Risk.Kept.{SamePositions, check_order-SamePositions}
use hfttoolset.Engine.{
  SymbolState, MatchingEngine, Output, trade_out, output_of, state_of_symbol, put_state,
  record_in_l1, handle_event, handle_events, apply_outcome, publish_to, published, finish, track,
  is_open, fill_risk, submit, check_risk, process_new_order,
}
use hfttoolset.Engine.Publish.{verdict, verdict_for, passed, process_new_order-passed}
use hfttoolset.L3.Reported.{events_qty, add_order-IsReported}

-- The quantities of the trades that are called back.
abbrev pub traded_in : List Output → ℤ
traded_in [] = pos 0
traded_in (trade_out t ∷ os) = t.qty +ℤ traded_in os
traded_in (_ ∷ os) = traded_in os

traded_in-events :
    (es : List BookEvent) (os : List Output)
    → traded_in os ≡ pos 0
    → traded_in (map output_of es ++ os) ≡ events_qty es
traded_in-events [] os h = h
traded_in-events (traded t ∷ es) os h = ap (λ n. t.qty +ℤ n) (traded_in-events es os h)
traded_in-events (quoted q ∷ es) os h = traded_in-events es os h

-- What the risk engine keeps through the other steps of the engine.
risk-record_in_l1 :
    (t : Trade) (a : Option SymbolState) (e : MatchingEngine) → (record_in_l1 t a e).risk ≡ e.risk
unfolding record_in_l1 put_state
risk-record_in_l1 t none e = refl
risk-record_in_l1 t (some st) e = refl

risk-handle_events : (es : List BookEvent) (e : MatchingEngine) → (handle_events es e).risk ≡ e.risk
unfolding handle_events handle_event
risk-handle_events [] e = refl
risk-handle_events (traded t ∷ es) e = risk-handle_events es _ ∙ risk-record_in_l1 t _ _
risk-handle_events (quoted q ∷ es) e = risk-handle_events es e

risk-track :
    (order : Order) (rpt : ExecutionReport) (e : MatchingEngine) → (track order rpt e).risk ≡ e.risk
unfolding track
risk-track order rpt e = elim (Bool-cases (is_open rpt.status)) [
  | inl h ↦ rw h refl
  | inr h ↦ rw h refl
]

risk-publish_to :
    (ts : ℕ) (s : Symbol) (a : Option SymbolState) (e : MatchingEngine)
    → (publish_to ts s a e).risk ≡ e.risk
unfolding publish_to put_state
risk-publish_to ts s none e = refl
risk-publish_to ts s (some st) e = refl

no_trades_published : (ts : ℕ) (a : Option SymbolState) → traded_in (published ts a) ≡ pos 0
unfolding published
no_trades_published ts none = refl
no_trades_published ts (some st) = refl

pub risk-submit :
    (order : Order) (ts pub_ts : ℕ) (st : SymbolState) (e : MatchingEngine)
    → (submit order ts pub_ts st e).engine.risk
      ≡ fill_risk order (add_order st.book order ts).report e.risk
unfolding submit finish apply_outcome put_state
risk-submit order ts pub_ts st e =
    let c = add_order st.book order ts in
    risk-publish_to pub_ts order.symbol _ _
    ∙ ap (fill_risk order c.report) (risk-track order c.report _ ∙ risk-handle_events c.events _)

traded-submit :
    (order : Order) (ts pub_ts : ℕ) (st : SymbolState) (e : MatchingEngine)
    → traded_in (submit order ts pub_ts st e).outputs
      ≡ events_qty (add_order st.book order ts).events
unfolding submit finish
traded-submit order ts pub_ts st e =
    traded_in-events (add_order st.book order ts).events _ (no_trades_published pub_ts _)

report-submit :
    (order : Order) (ts pub_ts : ℕ) (st : SymbolState) (e : MatchingEngine)
    → (submit order ts pub_ts st e).report ≡ (add_order st.book order ts).report
unfolding submit finish
report-submit order ts pub_ts st e = refl

-- The positions of `r'` are those of `r` but for `n` bought or sold by the order's trader.
abbrev pub IsMoved : Order → ℤ → RiskEngine → RiskEngine → Type 0
IsMoved order n r r' =
    (t : ℕ) (symbol : Symbol)
    → get_position r' t symbol
      ≡ ite (ℕ_discrete order.trader_id t)
          (ite (symbol_discrete order.symbol symbol)
            (moved order.side (get_position r order.trader_id order.symbol) n)
            (get_position r t symbol))
          (get_position r t symbol)

moved_zero : (s : Side) (p n : ℤ) → n ≡ pos 0 → moved s p n ≡ p
moved_zero buy p n h = omega (int_laws, parts_of_eq _ _ h)
moved_zero sell p n h = omega (int_laws, parts_of_eq _ _ h)

no_move-IsMoved : (order : Order) (n : ℤ) (r : RiskEngine) → n ≡ pos 0 → IsMoved order n r r
no_move-IsMoved order n r h t symbol =
    elim (ℕ_discrete order.trader_id t)
      as (λ d.
        get_position r t symbol
        ≡ ite d
            (ite (symbol_discrete order.symbol symbol)
              (moved order.side (get_position r order.trader_id order.symbol) n)
              (get_position r t symbol))
            (get_position r t symbol)) [
              | no x ↦ refl
              | yes p ↦
                  elim (symbol_discrete order.symbol symbol)
                    as (λ d.
                      get_position r t symbol
                      ≡ ite d (moved order.side (get_position r order.trader_id order.symbol) n)
                          (get_position r t symbol)) [
                            | no x ↦ refl
                            | yes k ↦ sym (
                                moved_zero order.side (get_position r order.trader_id order.symbol)
                                  n h
                                ∙ ap (λ u. get_position r u order.symbol) p
                                ∙ ap (get_position r t) k)
                          ]
            ]

fill-IsMoved :
    (order : Order) (rpt : ExecutionReport) (r : RiskEngine)
    → pos 0 ≤ℤ rpt.filled_qty
    → (r' : RiskEngine) × (fill_risk order rpt (some r) ≡ some r')
      × IsMoved order rpt.filled_qty r r'
unfolding fill_risk
fill-IsMoved order rpt r h = elim (Bool-cases (ltb_ℤ (pos 0) rpt.filled_qty)) [
  | inl e ↦ rw e (
    _,
    refl,
    λ t symbol.
        get_position-on_fill r order.trader_id t order.symbol symbol order.side rpt.filled_qty,
  )
  | inr e ↦
      let zero_filled : rpt.filled_qty ≡ pos 0 = ground (arith, h, e) in
      rw e (r, refl, no_move-IsMoved order rpt.filled_qty r zero_filled)
]

IsMoved-SamePositions :
    (order : Order) (n : ℤ) (r r1 r' : RiskEngine)
    → SamePositions r r1
    → IsMoved order n r1 r'
    → IsMoved order n r r'
IsMoved-SamePositions order n r r1 r' k m t symbol = m t symbol ∙ λ i.
    ite (ℕ_discrete order.trader_id t)
      (ite (symbol_discrete order.symbol symbol)
        (moved order.side (k order.trader_id order.symbol i) n) (k t symbol i))
      (k t symbol i)

-- An order that passes the checks of the engine's risk engine, on a symbol with a well-formed book:
-- the report says as filled what the trades that are called back add up to, and the risk engine
-- afterwards has the position of the order's trader in the order's symbol moved by that, up for a
-- buyer and down for a seller, and every other position as it was.
pub process_new_order-IsMoved :
    (order : Order) (ts pub_ts : ℕ) (st : SymbolState) (r : RiskEngine) (e : MatchingEngine)
    → state_of_symbol e order.symbol ≡ some st
    → e.risk ≡ some r
    → verdict e order ≡ nothing
    → IsValid st.book
    → let p = process_new_order order ts pub_ts e in
      (p.report.filled_qty ≡ traded_in p.outputs)
      × ((r' : RiskEngine) × (p.engine.risk ≡ some r') × IsMoved order (traded_in p.outputs) r r')
unfolding check_risk
process_new_order-IsMoved order ts pub_ts st r e h k passes v =
    let r1 = (check_order r order).1 in
    let e1 = passed order e in
    let checked =
      sym (ap (λ a. verdict_for a order e.risk) h ∙ ap (λ a. verdict_for (some st) order a) k)
      ∙ passes in
    let q = (check_order-passes r order checked).2 in
    let (filled, no_less) = add_order-IsReported st.book order ts v (omega (arith, q)) in
    let (r', booked, m) = fill-IsMoved order (add_order st.book order ts).report r1 no_less in
    let said = filled ∙ sym (traded-submit order ts pub_ts st e1) in
    rw (process_new_order-passed order ts pub_ts st e h passes) (
      ap (λ x. x.filled_qty) (report-submit order ts pub_ts st e1) ∙ said,
      (
        r',
        risk-submit order ts pub_ts st e1
            ∙ ap (λ a. fill_risk order (add_order st.book order ts).report (check_risk order a).1) k
            ∙ booked,
        subst (λ n. IsMoved order n r r') said
            (IsMoved-SamePositions order (add_order st.book order ts).report.filled_qty r r1 r'
              (check_order-SamePositions r order) m),
      ),
    )
