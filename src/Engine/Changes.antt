-- ===== src/Engine/Changes.antt =====
-- The cancel and the replacement of the engine on the symbol states.
use hfttoolset.Engine.Requests.{
  unrouted, route, untrack, canceled_in, cancel_for, cancel_routed, process_cancel, replaced_in,
  replace_for, process_replace,
}
use hfttoolset.Base.{ℕ, ◌≡◌, refl, sym, ap, subst, Option, none, some}
use hfttoolset.Types.{Symbol, CancelRequest, ReplaceRequest, unknown_symbol}
use hfttoolset.L3.Book.Change.{cancel_order, replace_order}
use hfttoolset.L3.Cancelled.{cancel_order-IsValid}
use hfttoolset.L3.Reach.{replace_order-IsValid}
use hfttoolset.L3.Symbols.{Stays, cancel_order-Stays, replace_order-Stays}
use hfttoolset.Engine.{
  SymbolState, MatchingEngine, Processed, state_of_symbol, apply_outcome, finish,
}
use hfttoolset.Engine.Books.{IsStateOf, IsSound}
use hfttoolset.Engine.Sound.{IsLocal, finish-IsLocal, outcome-IsLocal, symbols-untrack}

-- An operation on `s` that dereferences no dangling iterator, with its effect.
abbrev pub IsDone : Symbol → MatchingEngine → Option Processed → Type 0
IsDone s e a = (p : Processed) × (a ≡ some p) × IsLocal s e p.engine

canceled_in-IsDone :
    (s : Symbol) (st : SymbolState) (id ts pub_ts : ℕ) (e : MatchingEngine)
    → IsSound e
    → IsStateOf s st
    → IsDone s e (canceled_in s st id pub_ts e (cancel_order st.book id ts))
unfolding canceled_in
canceled_in-IsDone s st id ts pub_ts e v (w, k) =
    let (c, h, w') = cancel_order-IsValid st.book id ts w in
    let e1 = apply_outcome s st c e in
    let e2 = untrack id c.report.status e1 in
    (
      finish pub_ts s c.report c.events e2,
      ap (canceled_in s st id pub_ts e) h,
      finish-IsLocal s pub_ts c.report c.events e e2 (
          outcome-IsLocal s st c e e2 v w'
            (subst (λ z. Stays z c) k (cancel_order-Stays st.book id ts c h))
            (symbols-untrack id c.report.status e1)),
    )

cancel_for-IsDone :
    (a : Option SymbolState) (s : Symbol) (id ts pub_ts : ℕ) (e : MatchingEngine)
    → IsSound e
    → state_of_symbol e s ≡ a
    → IsDone s e (cancel_for a s id ts pub_ts e)
unfolding cancel_for unrouted
cancel_for-IsDone none s id ts pub_ts e v h =
    (unrouted id unknown_symbol ts e, refl, (v, λ z n. refl))
cancel_for-IsDone (some st) s id ts pub_ts e v h =
    canceled_in-IsDone s st id ts pub_ts e v (v s st h)

-- On a sound engine a cancel that is routed dereferences no dangling iterator, leaves the engine
-- sound, and leaves the state of every symbol as it was but the one that it is routed to.
pub process_cancel-IsDone :
    (r : CancelRequest) (s : Symbol) (ts pub_ts : ℕ) (e : MatchingEngine)
    → IsSound e
    → route e r ≡ some s
    → IsDone s e (process_cancel r ts pub_ts e)
unfolding process_cancel cancel_routed
process_cancel-IsDone r s ts pub_ts e v h =
    subst (λ a. IsDone s e (cancel_routed a r.order_id ts pub_ts e)) (sym h)
      (cancel_for-IsDone (state_of_symbol e s) s r.order_id ts pub_ts e v refl)

replaced_in-IsDone :
    (st : SymbolState) (r : ReplaceRequest) (ts pub_ts : ℕ) (e : MatchingEngine)
    → IsSound e
    → IsStateOf r.symbol st
    → IsDone r.symbol e (replaced_in r.symbol st pub_ts e (replace_order st.book r ts))
unfolding replaced_in
replaced_in-IsDone st r ts pub_ts e v (w, k) =
    let (c, h, w') = replace_order-IsValid st.book r ts w in
    let e1 = apply_outcome r.symbol st c e in
    (
      finish pub_ts r.symbol c.report c.events e1,
      ap (replaced_in r.symbol st pub_ts e) h,
      finish-IsLocal r.symbol pub_ts c.report c.events e e1 (
          outcome-IsLocal r.symbol st c e e1 v w'
            (subst (λ z. Stays z c) k (replace_order-Stays st.book r ts c h)) refl),
    )

replace_for-IsDone :
    (a : Option SymbolState) (r : ReplaceRequest) (ts pub_ts : ℕ) (e : MatchingEngine)
    → IsSound e
    → state_of_symbol e r.symbol ≡ a
    → IsDone r.symbol e (replace_for a r ts pub_ts e)
unfolding replace_for unrouted
replace_for-IsDone none r ts pub_ts e v h =
    (unrouted r.order_id unknown_symbol ts e, refl, (v, λ z n. refl))
replace_for-IsDone (some st) r ts pub_ts e v h =
    replaced_in-IsDone st r ts pub_ts e v (v r.symbol st h)

-- On a sound engine a replacement dereferences no dangling iterator, leaves the engine sound, and
-- leaves the state of every other symbol as it was.
pub process_replace-IsDone :
    (r : ReplaceRequest) (ts pub_ts : ℕ) (e : MatchingEngine)
    → IsSound e
    → IsDone r.symbol e (process_replace r ts pub_ts e)
unfolding process_replace
process_replace-IsDone r ts pub_ts e v =
    replace_for-IsDone (state_of_symbol e r.symbol) r ts pub_ts e v refl
