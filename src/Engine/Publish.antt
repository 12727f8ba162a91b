-- ===== src/Engine/Publish.antt =====
-- What the engine publishes of an order: the book's report, its events, and the book after it.
use hfttoolset.Base.{
  ℕ, ◌≡◌, refl, sym, ap, ap₂, ◌∙◌, subst, List, [], ◌∷◌, ◌++◌, map, Option, none, some, if_pos, ◌+◌,
  ◌%◌, ◌^◌,
}
use hfttoolset.Base.Assoc.{find}
use hfttoolset.Types.{
  Symbol, symbol_discrete, Order, RejectReason, nothing, unknown_symbol, ExecutionReport,
}
use hfttoolset.L3.State.{Book}
use hfttoolset.L3.Query.{top_of_book}
use hfttoolset.L3.Book.{BookEvent, add_order}
use hfttoolset.Feed.{update, snapshot}
use hfttoolset.Risk.{RiskEngine}
use hfttoolset.Engine.{
  SymbolState, MatchingEngine, Processed, executed, l2_out, output_of, state_of_symbol,
  apply_outcome, publish_to, published, finish, track, fill_risk, submit, check_risk, after_risk,
  new_order_for, process_new_order, book_in, tob_in, depth_in, get_book, get_top_of_book, get_depth,
}
use hfttoolset.Engine.Books.{state-put_state}
use hfttoolset.Engine.Sound.{symbols-track}
use hfttoolset.Engine.Holds.{Holds, apply_outcome-Holds}

-- What is seen of a book through the engine and its calls of callbacks.
abbrev pub IsShown : Symbol → Book → ℕ → ℕ → ExecutionReport → List BookEvent → Processed → Type 0
IsShown s b d pub_ts rpt xs p =
    (p.report ≡ rpt)
    × (p.outputs ≡ map output_of xs ++ executed rpt ∷ l2_out (snapshot b d pub_ts) ∷ [])
    × (get_book p.engine s ≡ some b)
    × (get_top_of_book p.engine s ≡ top_of_book b pub_ts)
    × ((t : ℕ) → get_depth p.engine s t ≡ snapshot b d t)

publish-shown :
    (s : Symbol) (pub_ts : ℕ) (st : SymbolState) (e : MatchingEngine)
    → let e' = publish_to pub_ts s (some st) e in
      (get_book e' s ≡ some st.book)
      × (get_top_of_book e' s ≡ top_of_book st.book pub_ts)
      × ((t : ℕ) → get_depth e' s t ≡ snapshot st.book st.depth t)
unfolding publish_to get_book get_top_of_book get_depth book_in tob_in depth_in update
publish-shown s pub_ts st e =
    let st' : SymbolState = record st { l1 = (update st.book pub_ts st.l1).0 } in
    let h = state-put_state s s st' e ∙ if_pos (symbol_discrete s s) refl _ _ in
    (ap book_in h, ap tob_in h, λ t. ap (depth_in t) h)

pub finish-IsShown :
    (s : Symbol) (b : Book) (d pub_ts : ℕ) (rpt : ExecutionReport) (xs : List BookEvent)
    (e : MatchingEngine)
    → Holds s b d e
    → IsShown s b d pub_ts rpt xs (finish pub_ts s rpt xs e)
unfolding finish published
finish-IsShown s b d pub_ts rpt xs e (st, h, k, m) =
    let shown = publish-shown s pub_ts st e in
    let e' = λ (a : Option SymbolState). publish_to pub_ts s a e in
    (
      refl,
      ap (λ a. map output_of xs ++ executed rpt ∷ published pub_ts a) h
          ∙ ap₂ (λ x y. map output_of xs ++ executed rpt ∷ l2_out (snapshot x y pub_ts) ∷ []) k m,
      ap (λ a. get_book (e' a) s) h ∙ shown.0 ∙ ap some k,
      ap (λ a. get_top_of_book (e' a) s) h ∙ shown.1 ∙ ap (λ x. top_of_book x pub_ts) k,
      λ t. ap (λ a. get_depth (e' a) s t) h ∙ shown.2 t ∙ ap₂ (λ x y. snapshot x y t) k m,
    )

pub symbols-Holds :
    (s : Symbol) (b : Book) (d : ℕ) (e e' : MatchingEngine)
    → e'.symbols ≡ e.symbols
    → Holds s b d e
    → Holds s b d e'
symbols-Holds s b d e e' h (st, k, m, n) = (st, ap (λ x. find symbol_discrete s x) h ∙ k, m, n)

submit-IsShown :
    (order : Order) (ts pub_ts : ℕ) (st : SymbolState) (e : MatchingEngine)
    → let c = add_order st.book order ts in
      IsShown order.symbol c.book st.depth pub_ts c.report c.events (submit order ts pub_ts st e)
unfolding submit
submit-IsShown order ts pub_ts st e =
    let s = order.symbol in
    let c = add_order st.book order ts in
    let e0 = apply_outcome s st c e in
    let e1 = track order c.report e0 in
    let e2 = record e1 { risk = fill_risk order c.report e1.risk } in
    finish-IsShown s c.book st.depth pub_ts c.report c.events e2 (
      symbols-Holds s c.book st.depth e0 e2 (symbols-track order c.report e0)
        (apply_outcome-Holds s st c e))

-- Why the engine refuses an order, before any book sees it.
abbrev pub verdict_for : Option SymbolState → Order → Option RiskEngine → RejectReason
verdict_for none order risk = unknown_symbol
verdict_for (some st) order risk = (check_risk order risk).0

abbrev pub verdict : MatchingEngine → Order → RejectReason
verdict e order = verdict_for (state_of_symbol e order.symbol) order e.risk

-- The engine that an order which passes finds at the submission.
abbrev pub passed : Order → MatchingEngine → MatchingEngine
passed order e = record e {
  orders_processed = (e.orders_processed + 1) % 2 ^ 64;
  risk = (check_risk order e.risk).1;
}

pub process_new_order-passed :
    (order : Order) (ts pub_ts : ℕ) (st : SymbolState) (e : MatchingEngine)
    → state_of_symbol e order.symbol ≡ some st
    → verdict e order ≡ nothing
    → process_new_order order ts pub_ts e ≡ submit order ts pub_ts st (passed order e)
unfolding process_new_order new_order_for after_risk
process_new_order-passed order ts pub_ts st e h k =
    ap
      (λ a.
        new_order_for a order ts pub_ts
          (record e { orders_processed = (e.orders_processed + 1) % 2 ^ 64 }))
      h
    ∙ ap (λ x. after_risk x order ts pub_ts st (passed order e))
        (sym (ap (λ a. verdict_for a order e.risk) h) ∙ k)

-- An order for a symbol of the engine that the risk engine, if any, lets pass: the engine reports
-- what `add_order` of the symbol's book reports, calls back each of the book's events in order,
-- then the report, then the depth, and the book, the best quotes and the depth that it then shows
-- are those of the book after `add_order`.
pub process_new_order-IsShown :
    (order : Order) (ts pub_ts : ℕ) (st : SymbolState) (e : MatchingEngine)
    → state_of_symbol e order.symbol ≡ some st
    → verdict e order ≡ nothing
    → let c = add_order st.book order ts in
      IsShown order.symbol c.book st.depth pub_ts c.report c.events
        (process_new_order order ts pub_ts e)
process_new_order-IsShown order ts pub_ts st e h k =
    let c = add_order st.book order ts in
    subst (IsShown order.symbol c.book st.depth pub_ts c.report c.events)
      (sym (process_new_order-passed order ts pub_ts st e h k))
      (submit-IsShown order ts pub_ts st (passed order e))
