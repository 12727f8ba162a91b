-- ===== src/Engine/Route.antt =====
-- A cancel with the blank symbol.
use hfttoolset.Engine.Holds.{apply_outcome-Holds}
use hfttoolset.Engine.Requests.{
  route, untrack, canceled_in, cancel_for, cancel_routed, process_cancel,
}
use hfttoolset.Base.{
  ℕ, ◌≡◌, refl, sym, ap, ap₂, ◌∙◌, subst, true, List, [], ◌∷◌, Option, none, some, if_pos,
  ℕ_discrete, some_inj,
}
use hfttoolset.Base.Assoc.{find, find-insert_self, find-erase_self}
use hfttoolset.Types.{
  Symbol, blank, symbol_discrete, Order, OrderStatus, canceled, nothing, CancelRequest, Trade,
  ExecutionReport,
}
use hfttoolset.L3.State.{Book, OrderLocation}
use hfttoolset.L3.Book.{BookEvent, traded, quoted, add_order}
use hfttoolset.L3.Resting.{cancel_order-removes}
use hfttoolset.L3.Valid.{IsValid}
use hfttoolset.L3.Add.{add_order-IsValid}
use hfttoolset.Engine.{
  SymbolState, MatchingEngine, Processed, state_of_symbol, put_state, record_in_l1, handle_event,
  handle_events, apply_outcome, publish_to, finish, is_open, track, fill_risk, submit,
  process_new_order, get_book, book_in,
}
use hfttoolset.Engine.Books.{IsSound}
use hfttoolset.Engine.Publish.{
  finish-IsShown, symbols-Holds, verdict, passed, process_new_order-passed,
  process_new_order-IsShown,
}
use hfttoolset.Engine.Sound.{symbols-untrack}

index_of : MatchingEngine → ℕ → Option Symbol
index_of e id = find ℕ_discrete id e.order_symbol_index

index-record_in_l1 :
    (t : Trade) (a : Option SymbolState) (e : MatchingEngine)
    → (record_in_l1 t a e).order_symbol_index ≡ e.order_symbol_index
unfolding record_in_l1 put_state
index-record_in_l1 t none e = refl
index-record_in_l1 t (some st) e = refl

index-handle_event :
    (x : BookEvent) (e : MatchingEngine)
    → (handle_event x e).order_symbol_index ≡ e.order_symbol_index
unfolding handle_event
index-handle_event (quoted tob) e = refl
index-handle_event (traded t) e = index-record_in_l1 t _ _

pub index-handle_events :
    (xs : List BookEvent) (e : MatchingEngine)
    → (handle_events xs e).order_symbol_index ≡ e.order_symbol_index
unfolding handle_events
index-handle_events [] e = refl
index-handle_events (x ∷ xs) e = index-handle_events xs (handle_event x e) ∙ index-handle_event x e

index-publish_to :
    (ts : ℕ) (s : Symbol) (a : Option SymbolState) (e : MatchingEngine)
    → (publish_to ts s a e).order_symbol_index ≡ e.order_symbol_index
unfolding publish_to put_state
index-publish_to ts s none e = refl
index-publish_to ts s (some st) e = refl

pub index-finish :
    (ts : ℕ) (s : Symbol) (rpt : ExecutionReport) (xs : List BookEvent) (e : MatchingEngine)
    → (finish ts s rpt xs e).engine.order_symbol_index ≡ e.order_symbol_index
unfolding finish
index-finish ts s rpt xs e = index-publish_to ts s _ e

index-track :
    (order : Order) (rpt : ExecutionReport) (e : MatchingEngine)
    → is_open rpt.status ≡ true
    → find ℕ_discrete order.id (track order rpt e).order_symbol_index ≡ some order.symbol
unfolding track
index-track order rpt e h =
    rw h (find-insert_self ℕ_discrete order.id order.symbol e.order_symbol_index)

index-submit :
    (order : Order) (ts pub_ts : ℕ) (st : SymbolState) (e : MatchingEngine)
    → is_open (add_order st.book order ts).report.status ≡ true
    → find ℕ_discrete order.id (submit order ts pub_ts st e).engine.order_symbol_index
      ≡ some order.symbol
unfolding submit
index-submit order ts pub_ts st e h =
    let c = add_order st.book order ts in
    let e1 = track order c.report (apply_outcome order.symbol st c e) in
    ap (find ℕ_discrete order.id) (
      index-finish pub_ts order.symbol c.report c.events
        (record e1 { risk = fill_risk order c.report e1.risk }))
    ∙ index-track order c.report (apply_outcome order.symbol st c e) h

-- The symbol is in the engine, with this book.
state_of-get_book :
    (a : Option SymbolState) (b : Book)
    → book_in a ≡ some b
    → (st : SymbolState) × (a ≡ some st) × (st.book ≡ b)
unfolding book_in
state_of-get_book none b h = cc
state_of-get_book (some st) b h = (st, refl, some_inj h)

route-blank :
    (e : MatchingEngine) (r : CancelRequest) (s : Symbol)
    → r.symbol ≡ blank
    → find ℕ_discrete r.order_id e.order_symbol_index ≡ some s
    → route e r ≡ some s
unfolding route
route-blank e r s h k = if_pos (symbol_discrete r.symbol blank) h _ _ ∙ k

-- A cancel that reaches the book of `s` and finds its id there.
abbrev pub IsCanceled : Symbol → ℕ → Processed → Type 0
IsCanceled s id p =
    (p.report.status ≡ canceled)
    × (find ℕ_discrete id p.engine.order_symbol_index ≡ none)
    × (b : Book) × (get_book p.engine s ≡ some b)
    × (find ℕ_discrete id b.order_index ≡ none)

index-untrack :
    (id : ℕ) (t : OrderStatus) (e : MatchingEngine)
    → t ≡ canceled
    → find ℕ_discrete id (untrack id t e).order_symbol_index ≡ none
unfolding untrack
index-untrack id canceled e h = find-erase_self ℕ_discrete id e.order_symbol_index
index-untrack id _ e h = cc

cancel_for-IsCanceled :
    (st : SymbolState) (s : Symbol) (id ts pub_ts : ℕ) (e : MatchingEngine) (loc : OrderLocation)
    → IsValid st.book
    → find ℕ_discrete id st.book.order_index ≡ some loc
    → (p : Processed) × (cancel_for (some st) s id ts pub_ts e ≡ some p) × IsCanceled s id p
unfolding cancel_for canceled_in finish
cancel_for-IsCanceled st s id ts pub_ts e loc v h =
    let (c, k, w, f) = cancel_order-removes st.book id ts loc v h in
    let e1 = apply_outcome s st c e in
    let e2 = untrack id c.report.status e1 in
    let shown = finish-IsShown s c.book st.depth pub_ts c.report c.events e2 (
      symbols-Holds s c.book st.depth e1 e2 (symbols-untrack id c.report.status e1)
        (apply_outcome-Holds s st c e)) in
    (
      finish pub_ts s c.report c.events e2,
      ap (canceled_in s st id pub_ts e) k,
      (
        w,
        ap (find ℕ_discrete id) (index-finish pub_ts s c.report c.events e2)
            ∙ index-untrack id c.report.status e1 w,
        c.book,
        shown.2,
        f id ∙ if_pos (ℕ_discrete id id) refl _ _,
      ),
    )

cancel_routed-IsCanceled :
    (e : MatchingEngine) (s : Symbol) (b : Book) (id ts pub_ts : ℕ) (loc : OrderLocation)
    → get_book e s ≡ some b
    → IsValid b
    → find ℕ_discrete id b.order_index ≡ some loc
    → (p : Processed) × (cancel_routed (some s) id ts pub_ts e ≡ some p) × IsCanceled s id p
unfolding cancel_routed get_book
cancel_routed-IsCanceled e s b id ts pub_ts loc h v k =
    let (st, h', same) = state_of-get_book (state_of_symbol e s) b h in
    let (p, done, w) =
      cancel_for-IsCanceled st s id ts pub_ts e loc (subst IsValid (sym same) v)
        (ap (λ x. find ℕ_discrete id x.order_index) same ∙ k) in
    (p, ap (λ a. cancel_for a s id ts pub_ts e) h' ∙ done, w)

-- After an order that rests in the book of its symbol, a cancel of its id with the blank symbol
-- reaches that book: the report is Canceled, and neither the book nor the routing knows the id.
pub process_cancel-blank :
    (order : Order) (ts pub_ts : ℕ) (st : SymbolState) (e : MatchingEngine) (loc : OrderLocation)
    (r : CancelRequest) (ts' pub_ts' : ℕ)
    → IsSound e
    → state_of_symbol e order.symbol ≡ some st
    → verdict e order ≡ nothing
    → is_open (add_order st.book order ts).report.status ≡ true
    → find ℕ_discrete order.id (add_order st.book order ts).book.order_index ≡ some loc
    → r.symbol ≡ blank
    → r.order_id ≡ order.id
    → (p : Processed) × (process_cancel r ts' pub_ts' (process_new_order order ts pub_ts e).engine
        ≡ some p)
      × IsCanceled order.symbol order.id p
unfolding process_cancel
process_cancel-blank order ts pub_ts st e loc r ts' pub_ts' v h k accepted held blanked same =
    let p = process_new_order order ts pub_ts e in
    let c = add_order st.book order ts in
    let shown = process_new_order-IsShown order ts pub_ts st e h k in
    let indexed : find ℕ_discrete r.order_id p.engine.order_symbol_index ≡ some order.symbol =
      ap (λ i. find ℕ_discrete i p.engine.order_symbol_index) same
      ∙ ap (λ q. find ℕ_discrete order.id q.engine.order_symbol_index)
          (process_new_order-passed order ts pub_ts st e h k)
      ∙ index-submit order ts pub_ts st (passed order e) accepted in
    let (done, d, w) =
      cancel_routed-IsCanceled p.engine order.symbol c.book order.id ts' pub_ts' loc shown.2
        (add_order-IsValid st.book order ts (v order.symbol st h).0) held in
    (
      done,
      ap₂ (λ a i. cancel_routed a i ts' pub_ts' p.engine)
            (route-blank p.engine r order.symbol blanked indexed) same
          ∙ d,
      w,
    )
