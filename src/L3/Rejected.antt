-- ===== src/L3/Rejected.antt =====
-- When `add_order` rejects an order, and what it leaves then.
use hfttoolset.Base.{
  ℕ, pos, ltb_ℤ, eqb_ℤ, ◌≤ℤ◌, ◌-ℤ◌, ◌≡◌, ◌≢◌, Bool, true, false, ◌&&◌, if◌then◌else◌, [], inl, inr,
  Bool-cases, refl, ◌∙◌, arith, ℕ_discrete,
}
use hfttoolset.Base.Assoc.{find}
use hfttoolset.Types.{
  Order, TimeInForce, fok, rejected, RejectReason, nothing, duplicate_order_id,
  insufficient_liquidity,
}
use hfttoolset.L3.State.{Book}
use hfttoolset.L3.Match.{is_limit, is_fok, fok_blocked, MatchResult}
use hfttoolset.L3.Valid.{IsValid}
use hfttoolset.L3.Book.{
  Outcome, is_some, last_trade, report_on, matched_report, remainder_report, settle, add_order,
}
use hfttoolset.L3.Match.Fills.{open_total, open_total_pos}
use hfttoolset.L3.Match.Update.{IsOpen-crossing}
use hfttoolset.L3.State.{levels, opposite}
use hfttoolset.L3.Priority.{near}
use hfttoolset.L3.Fok.{fok_blocked_lem}
use hfttoolset.L3.Add.{match_incoming_blocked}

-- A fill-or-kill limit order that wants more than the orders that it crosses offer.
abbrev pub wants_too_much : Book → Order → Bool
wants_too_much b order =
    is_limit order.type && is_fok order.tif && ltb_ℤ (open_total (near b order)) order.quantity

-- Why a book rejects an order.
abbrev pub book_verdict : Book → Order → RejectReason
book_verdict b order =
    if is_some (find ℕ_discrete order.id b.order_index)
    then duplicate_order_id
    else if wants_too_much b order
    then insufficient_liquidity
    else nothing

-- The report rejects the order for this reason with nothing filled, the book is as it was, and no
-- callback is called.
abbrev pub IsRejected : Order → ℕ → RejectReason → Book → Outcome → Type 0
IsRejected order ts r b c =
    (c.report.status ≡ rejected)
    × (c.report.reject_reason ≡ r)
    × (c.report.order_id ≡ order.id)
    × (c.report.filled_qty ≡ pos 0)
    × (c.book ≡ b)
    × (c.events ≡ [])

abbrev blocked_result : Book → Order → MatchResult
blocked_result b order = record {
  book = b;
  trades = [];
  remaining_qty = order.quantity;
  fully_filled = false;
}

fok_of : (t : TimeInForce) → is_fok t ≡ true → t ≡ fok
fok_of fok h = refl
fok_of _ h = cc

order_id-matched_report :
    (order : Order) (ts : ℕ) (r : MatchResult)
    → r.trades ≡ []
    → (matched_report order ts r).order_id ≡ order.id
unfolding matched_report report_on last_trade
order_id-matched_report order ts r h = elim (Bool-cases (eqb_ℤ r.remaining_qty (pos 0))) [
  | inl e ↦ rw e refl
  | inr e ↦ elim (Bool-cases (ltb_ℤ (pos 0) (order.quantity -ℤ r.remaining_qty))) [
    | inl f ↦ rw (e, f, h) refl
    | inr f ↦ rw (e, f) refl
  ]
]

settle-IsRejected :
    (order : Order) (ts : ℕ) (b : Book)
    → order.tif ≡ fok
    → ltb_ℤ (pos 0) order.quantity ≡ true
    → is_limit order.type ≡ true
    → IsRejected order ts insufficient_liquidity b (settle order ts (blocked_result b order))
unfolding settle remainder_report
settle-IsRejected order ts b f q l =
    rw (f, q, l)
      (
        refl,
        refl,
        order_id-matched_report (record order { tif = fok }) ts (blocked_result b order) refl,
        refl,
        refl,
        refl,
      )

-- On a well-formed book, an order that the book has a reason to reject is rejected for it.
pub add_order-IsRejected :
    (b : Book) (order : Order) (ts : ℕ)
    → IsValid b
    → book_verdict b order ≢ nothing
    → IsRejected order ts (book_verdict b order) b (add_order b order ts)
unfolding add_order report_on
add_order-IsRejected b order ts v n =
    elim (Bool-cases (is_some (find ℕ_discrete order.id b.order_index))) [
      | inl e ↦ rw e (refl, refl, refl, refl, refl, refl)
      | inr e ↦ elim (Bool-cases (wants_too_much b order)) [
        | inr f ↦
            let accepted : book_verdict b order ≡ nothing = rw (e, f) refl in absurd (n accepted)
        | inl f ↦
            let s = opposite order.side in
            let total = open_total (near b order) in
            let offered : pos 0 ≤ℤ total =
              open_total_pos s (near b order) (IsOpen-crossing s order (levels s b) (v.level s)) in
            let l : is_limit order.type ≡ true = ground (arith, f) in
            let k : is_fok order.tif ≡ true = ground (arith, f) in
            let w : ltb_ℤ total order.quantity ≡ true = ground (arith, f) in
            let blocked : fok_blocked b order ≡ true = fok_blocked_lem b order v ∙ rw (k, w) refl in
            let q : ltb_ℤ (pos 0) order.quantity ≡ true = ground (arith, w, offered) in
            rw (e, f, match_incoming_blocked b order ts blocked)
              (settle-IsRejected order ts b (fok_of order.tif k) q l)
      ]
    ]
