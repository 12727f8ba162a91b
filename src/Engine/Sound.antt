-- ===== src/Engine/Sound.antt =====
-- What the operations of the engine do to the symbol states: that of their symbol stays sound, the
-- others stay as they are.
use hfttoolset.Engine.Requests.{untrack}
use hfttoolset.Base.{
  ℕ, ◌≡◌, refl, sym, ap, ◌∙◌, ◌+◌, ◌%◌, ◌^◌, subst, inl, inr, Bool-cases, List, Option, none, some,
}
use hfttoolset.Base.Assoc.{find}
use hfttoolset.L3.Valid.{IsValid}
use hfttoolset.Types.{
  Symbol, Order, OrderStatus, canceled, RejectReason, nothing, ExecutionReport, symbol_discrete,
}
use hfttoolset.L3.Book.{BookEvent, Outcome, add_order}
use hfttoolset.L3.Add.{add_order-IsValid}
use hfttoolset.L3.Reach.{new_book-IsValid}
use hfttoolset.L3.Symbols.{Stays, add_order-Stays}
use hfttoolset.Feed.{set_depth}
use hfttoolset.L3.State.{new_book}
use hfttoolset.Engine.{
  SymbolState, MatchingEngine, state_of_symbol, new_feed, add_symbol, added_to, apply_outcome,
  finish, refuse, publish_to, is_open, track, fill_risk, submit, check_risk, after_risk,
  new_order_for, process_new_order,
}
use hfttoolset.Engine.Books.{
  IsStateOf, IsSound, SameElsewhere, put_state-IsSound, put_state-SameElsewhere,
  apply_outcome-IsSound, apply_outcome-SameElsewhere, publish_to-IsSound, publish_to-SameElsewhere,
}

-- From `e` to `e'`, by an operation on `s`.
abbrev pub IsLocal : Symbol → MatchingEngine → MatchingEngine → Type 0
IsLocal s e e' = IsSound e' × SameElsewhere s e e'

symbols-IsSound : (e e' : MatchingEngine) → e'.symbols ≡ e.symbols → IsSound e → IsSound e'
symbols-IsSound e e' h v z zt k = v z zt (sym (ap (λ m. find symbol_discrete z m) h) ∙ k)

symbols-SameElsewhere :
    (s : Symbol) (e e' : MatchingEngine) → e'.symbols ≡ e.symbols → SameElsewhere s e e'
symbols-SameElsewhere s e e' h z n = ap (λ m. find symbol_discrete z m) h

after :
    (s : Symbol) (a b c : MatchingEngine)
    → SameElsewhere s a b
    → SameElsewhere s b c
    → SameElsewhere s a c
after s a b c f g z n = g z n ∙ f z n

pub symbols-track :
    (order : Order) (rpt : ExecutionReport) (e : MatchingEngine)
    → (track order rpt e).symbols ≡ e.symbols
unfolding track
symbols-track order rpt e = elim (Bool-cases (is_open rpt.status)) [
  | inl h ↦ rw h refl
  | inr h ↦ rw h refl
]

pub symbols-untrack :
    (id : ℕ) (t : OrderStatus) (e : MatchingEngine) → (untrack id t e).symbols ≡ e.symbols
unfolding untrack
symbols-untrack id canceled e = refl
symbols-untrack id _ e = refl

pub finish-IsLocal :
    (s : Symbol) (ts : ℕ) (rpt : ExecutionReport) (xs : List BookEvent) (a e : MatchingEngine)
    → IsLocal s a e
    → IsLocal s a (finish ts s rpt xs e).engine
unfolding finish
finish-IsLocal s ts rpt xs a e (v, f) = (
  publish_to-IsSound ts s (state_of_symbol e s) e refl v,
  after s a e (publish_to ts s (state_of_symbol e s) e) f
      (publish_to-SameElsewhere ts s (state_of_symbol e s) e),
)

-- What an outcome on the book of `s` does to the engine, then anything to the other members.
pub outcome-IsLocal :
    (s : Symbol) (st : SymbolState) (c : Outcome) (e e' : MatchingEngine)
    → IsSound e
    → IsValid c.book
    → Stays s c
    → e'.symbols ≡ (apply_outcome s st c e).symbols
    → IsLocal s e e'
outcome-IsLocal s st c e e' v w k h =
    let moved = apply_outcome s st c e in
    (
      symbols-IsSound moved e' h (apply_outcome-IsSound s st c e v (w, k.0)),
      after s e moved e' (apply_outcome-SameElsewhere s st c e k.1)
          (symbols-SameElsewhere s moved e' h),
    )

submit-IsLocal :
    (order : Order) (ts pub_ts : ℕ) (st : SymbolState) (e : MatchingEngine)
    → IsSound e
    → IsStateOf order.symbol st
    → IsLocal order.symbol e (submit order ts pub_ts st e).engine
unfolding submit
submit-IsLocal order ts pub_ts st e v (w, k) =
    let c = add_order st.book order ts in
    let e1 = track order c.report (apply_outcome order.symbol st c e) in
    let e2 = record e1 { risk = fill_risk order c.report e1.risk } in
    finish-IsLocal order.symbol pub_ts c.report c.events e e2 (
      outcome-IsLocal order.symbol st c e e2 v (add_order-IsValid st.book order ts w)
        (subst (λ s. Stays s c) k (add_order-Stays st.book order ts))
        (symbols-track order c.report (apply_outcome order.symbol st c e)))

after_risk-IsLocal :
    (r : RejectReason) (order : Order) (ts pub_ts : ℕ) (st : SymbolState) (e : MatchingEngine)
    → IsSound e
    → IsStateOf order.symbol st
    → IsLocal order.symbol e (after_risk r order ts pub_ts st e).engine
unfolding after_risk refuse
after_risk-IsLocal nothing order ts pub_ts st e v w = submit-IsLocal order ts pub_ts st e v w
after_risk-IsLocal _ order ts pub_ts st e v w = (v, λ z n. refl)

new_order_for-IsLocal :
    (a : Option SymbolState) (order : Order) (ts pub_ts : ℕ) (e : MatchingEngine)
    → IsSound e
    → state_of_symbol e order.symbol ≡ a
    → IsLocal order.symbol e (new_order_for a order ts pub_ts e).engine
unfolding new_order_for refuse
new_order_for-IsLocal none order ts pub_ts e v h = (v, λ z n. refl)
new_order_for-IsLocal (some st) order ts pub_ts e v h =
    after_risk-IsLocal (check_risk order e.risk).0 order ts pub_ts st
      (record e { risk = (check_risk order e.risk).1 }) v (v order.symbol st h)

-- A new order leaves a sound engine sound, and the state of every other symbol as it was.
pub process_new_order-IsLocal :
    (order : Order) (ts pub_ts : ℕ) (e : MatchingEngine)
    → IsSound e
    → IsLocal order.symbol e (process_new_order order ts pub_ts e).engine
unfolding process_new_order
process_new_order-IsLocal order ts pub_ts e v =
    new_order_for-IsLocal (state_of_symbol e order.symbol) order ts pub_ts
      (record e { orders_processed = (e.orders_processed + 1) % 2 ^ 64 }) v refl

symbol-new_book : (s : Symbol) → (new_book s).symbol ≡ s
unfolding new_book
symbol-new_book s = refl

added_to-IsLocal :
    (a : Option SymbolState) (s : Symbol) (e : MatchingEngine)
    → IsSound e
    → IsLocal s e (added_to a s e)
unfolding added_to
added_to-IsLocal (some st) s e v = (v, λ z n. refl)
added_to-IsLocal none s e v =
    let st : SymbolState = record { book = new_book s; depth = set_depth 10; l1 = new_feed } in
    (
      put_state-IsSound s st e v (new_book-IsValid s, symbol-new_book s),
      put_state-SameElsewhere s st e,
    )

-- `add_symbol` leaves a sound engine sound, and every other symbol's state as it was.
pub add_symbol-IsLocal :
    (s : Symbol) (e : MatchingEngine) → IsSound e → IsLocal s e (add_symbol s e)
unfolding add_symbol
add_symbol-IsLocal s e v = added_to-IsLocal (state_of_symbol e s) s e v
