-- ===== src/L3/Report.antt =====
-- What the report on a new order says of the quantity filled.
use hfttoolset.Base.{
  ℕ, ℤ, pos, ltb_ℤ, eqb_ℤ, min_ℤ, ◌≤ℤ◌, ◌-ℤ◌, ◌≡◌, refl, sym, ap, ◌∙◌, ◌&&◌, inl, inr, false, none,
  [], ◌∷◌, List, Bool-cases, int_laws, arith, ℕ_discrete, not_ltb_ℤ, le_of_not_ltb_ℤ, min_ℤ_least,
}
use hfttoolset.Base.Assoc.{find}
use hfttoolset.Types.{Order, TimeInForce, day, ioc, fok, gtc, ExecutionReport, Trade}
use hfttoolset.L3.State.{Book}
use hfttoolset.L3.Match.{MatchResult, is_limit, is_fok, match_incoming, fok_blocked}
use hfttoolset.L3.Book.{last_trade, matched_report, remainder_report, settle, add_order}
use hfttoolset.L3.Valid.{IsValid}
use hfttoolset.L3.Match.Fills.{open_total}
use hfttoolset.L3.Priority.{near, traded_qty-match_incoming}
use hfttoolset.L3.Fok.{fok_blocked_lem}

last_trade-filled :
    (r : ExecutionReport) (ts : List Trade) → (last_trade r ts).filled_qty ≡ r.filled_qty
unfolding last_trade
last_trade-filled r [] = refl
last_trade-filled r (t ∷ []) = refl
last_trade-filled r (t ∷ u ∷ ts) = last_trade-filled r (u ∷ ts)

pub matched-filled :
    (order : Order) (ts : ℕ) (r : MatchResult)
    → (matched_report order ts r).filled_qty ≡ order.quantity -ℤ r.remaining_qty
unfolding matched_report
matched-filled order ts r = elim (Bool-cases (eqb_ℤ r.remaining_qty (pos 0))) [
  | inl e ↦ rw e refl
  | inr e ↦ elim (Bool-cases (ltb_ℤ (pos 0) (order.quantity -ℤ r.remaining_qty))) [
    | inl f ↦ rw (e, f) (last_trade-filled _ r.trades)
    | inr f ↦ rw (e, f) refl
  ]
]

remainder-filled :
    (t : TimeInForce) (r : ExecutionReport)
    → is_fok t ≡ false
    → (remainder_report t r).filled_qty ≡ r.filled_qty
unfolding remainder_report
remainder-filled day r h = refl
remainder-filled gtc r h = refl
remainder-filled ioc r h = refl
remainder-filled fok r h = cc

settle-filled :
    (order : Order) (ts : ℕ) (r : MatchResult)
    → ((ltb_ℤ (pos 0) r.remaining_qty && is_limit order.type) && is_fok order.tif) ≡ false
    → (settle order ts r).report.filled_qty ≡ order.quantity -ℤ r.remaining_qty
unfolding settle
settle-filled order ts r h =
    elim (Bool-cases (ltb_ℤ (pos 0) r.remaining_qty && is_limit order.type)) [
      | inr e ↦ rw e (matched-filled order ts r)
      | inl e ↦ rw e (
          remainder-filled order.tif (matched_report order ts r) (ground (arith, e, h))
          ∙ matched-filled order ts r)
    ]

cancels : (a b : ℤ) → a -ℤ (a -ℤ b) ≡ b
cancels a b = omega int_laws

spent : (q a : ℤ) → q ≤ℤ a → ltb_ℤ (pos 0) (q -ℤ min_ℤ q a) ≡ false
spent q a h =
    ap (λ n. ltb_ℤ (pos 0) (q -ℤ n)) (min_ℤ_least q a h)
    ∙ not_ltb_ℤ (pos 0) (q -ℤ q) (omega int_laws)

-- A fill-or-kill order that passes the check has nothing left.
nothing_left :
    (b : Book) (order : Order) (ts : ℕ)
    → IsValid b
    → pos 0 ≤ℤ order.quantity
    → fok_blocked b order ≡ false
    → ((ltb_ℤ (pos 0) (match_incoming b order ts).remaining_qty && is_limit order.type)
        && is_fok order.tif)
      ≡ false
nothing_left b order ts v g e =
    let total = open_total (near b order) in
    let left = (traded_qty-match_incoming b order ts v e g).1 in
    let check : (is_fok order.tif && ltb_ℤ total order.quantity) ≡ false =
      sym (fok_blocked_lem b order v) ∙ e in
    elim (Bool-cases (is_fok order.tif)) [
      | inr f ↦ rw f (ground arith)
      | inl f ↦
          let le : order.quantity ≤ℤ total = le_of_not_ltb_ℤ total order.quantity (rw f at check) in
          let none_left = ap (λ n. ltb_ℤ (pos 0) n) left ∙ spent order.quantity total le in
          ap (λ n. (n && is_limit order.type) && is_fok order.tif) none_left
    ]

-- On a well-formed book, the report on an order with an id that is not in the index, of no negative
-- quantity, that the fill-or-kill check lets pass, has as filled the minimum of what the order wants
-- and what the orders that it crosses offer.
pub filled-add_order :
    (b : Book) (order : Order) (ts : ℕ)
    → IsValid b
    → find ℕ_discrete order.id b.order_index ≡ none
    → pos 0 ≤ℤ order.quantity
    → fok_blocked b order ≡ false
    → (add_order b order ts).report.filled_qty ≡ min_ℤ order.quantity (open_total (near b order))
unfolding add_order
filled-add_order b order ts v fresh g e =
    let r = match_incoming b order ts in
    rw fresh (
      settle-filled order ts r (nothing_left b order ts v g e)
      ∙ ap (λ n. order.quantity -ℤ n) (traded_qty-match_incoming b order ts v e g).1
      ∙ cancels order.quantity (min_ℤ order.quantity (open_total (near b order))))
