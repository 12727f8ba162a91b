-- ===== src/L3/Reported.antt =====
-- What an order trades is what the report on it says.
use hfttoolset.Base.{
  ℕ, ℤ, pos, ltb_ℤ, min_ℤ, ◌≤ℤ◌, ◌+ℤ◌, ◌-ℤ◌, ◌≡◌, refl, sym, subst, ap, ◌∙◌, List, [], ◌∷◌, ◌++◌,
  map, true, false, inl, inr, Bool, Bool-cases, if◌then◌else◌, arith, int_laws, ℕ_discrete, ◌&&◌,
}
use hfttoolset.Base.Assoc.{find}
use hfttoolset.Types.{Order, Trade, ExecutionReport, TimeInForce, day, ioc, fok, gtc}
use hfttoolset.L3.State.{Book, levels, opposite}
use hfttoolset.L3.Match.{MatchResult, match_incoming, fok_blocked, is_limit, is_fok}
use hfttoolset.L3.Match.Fills.{traded_qty, open_total, open_total_pos}
use hfttoolset.L3.Valid.{IsValid}
use hfttoolset.L3.Book.{
  BookEvent, traded, quoted, Outcome, report_on, is_some, settle, add_order, publish_tob,
  remainder_report,
}
use hfttoolset.L3.Add.{match_incoming_blocked, not_some}
use hfttoolset.L3.Priority.{near, traded_qty-match_incoming}
use hfttoolset.L3.Report.{filled-add_order, matched-filled}
use hfttoolset.L3.Match.Update.{IsOpen-crossing}

-- The quantities of the trades of the events.
abbrev pub events_qty : List BookEvent → ℤ
events_qty [] = pos 0
events_qty (traded t ∷ es) = t.qty +ℤ events_qty es
events_qty (quoted q ∷ es) = events_qty es

events_qty-append :
    (xs ys : List BookEvent) → events_qty ys ≡ pos 0 → events_qty (xs ++ ys) ≡ events_qty xs
events_qty-append [] ys h = h
events_qty-append (traded t ∷ xs) ys h = ap (λ n. t.qty +ℤ n) (events_qty-append xs ys h)
events_qty-append (quoted q ∷ xs) ys h = events_qty-append xs ys h

events_qty-traded : (ts : List Trade) → events_qty (map traded ts) ≡ traded_qty ts
unfolding traded_qty
events_qty-traded [] = refl
events_qty-traded (t ∷ ts) = ap (λ n. t.qty +ℤ n) (events_qty-traded ts)

quotes_qty :
    (t : Bool) (b : Book) (ts : ℕ) → events_qty (if t then publish_tob b ts else []) ≡ pos 0
unfolding publish_tob
quotes_qty true b ts = refl
quotes_qty false b ts = refl

settle_qty :
    (order : Order) (ts : ℕ) (r : MatchResult)
    → events_qty (settle order ts r).events ≡ traded_qty r.trades
unfolding settle
settle_qty order ts r =
    events_qty-append (map traded r.trades) _ (quotes_qty _ _ ts) ∙ events_qty-traded r.trades

remainder_fok :
    (t : TimeInForce) (rpt : ExecutionReport)
    → is_fok t ≡ true
    → (remainder_report t rpt).filled_qty ≡ pos 0
unfolding remainder_report
remainder_fok day rpt h = cc
remainder_fok ioc rpt h = cc
remainder_fok fok rpt h = refl
remainder_fok gtc rpt h = cc

blocked_is_fok : (b : Book) (order : Order) → fok_blocked b order ≡ true → is_fok order.tif ≡ true
unfolding fok_blocked
blocked_is_fok b order h = ground (arith, h)

nothing_done : (n : ℤ) → n -ℤ n ≡ pos 0
nothing_done n = omega int_laws

-- A blocked order reports nothing as filled.
settle_blocked :
    (order : Order) (ts : ℕ) (b : Book)
    → is_fok order.tif ≡ true
    → (settle order ts (record {
      book = b;
      trades = [];
      remaining_qty = order.quantity;
      fully_filled = false;
    })).report.filled_qty
      ≡ pos 0
unfolding settle
settle_blocked order ts b h =
    elim (Bool-cases (ltb_ℤ (pos 0) order.quantity && is_limit order.type)) [
      | inl e ↦ rw e (remainder_fok order.tif _ h)
      | inr e ↦ rw e (matched-filled order ts _ ∙ nothing_done order.quantity)
    ]

abbrev pub IsReported : Outcome → Type 0
IsReported c = (c.report.filled_qty ≡ events_qty c.events) × (pos 0 ≤ℤ c.report.filled_qty)

min_pos : (a b : ℤ) → pos 0 ≤ℤ a → pos 0 ≤ℤ b → pos 0 ≤ℤ min_ℤ a b
min_pos a b h k = ground (arith, h, k)

pub add_order-IsReported :
    (b : Book) (order : Order) (ts : ℕ)
    → IsValid b
    → pos 0 ≤ℤ order.quantity
    → IsReported (add_order b order ts)
unfolding add_order report_on traded_qty
add_order-IsReported b order ts v q =
    elim (Bool-cases (is_some (find ℕ_discrete order.id b.order_index))) [
      | inl e ↦ rw e (refl, omega arith)
      | inr e ↦ elim (Bool-cases (fok_blocked b order)) [
        | inl f ↦
            let none_done = settle_blocked order ts b (blocked_is_fok b order f) in
            rw (e, match_incoming_blocked b order ts f)
              (
                none_done ∙ sym (settle_qty order ts _),
                subst (λ n. pos 0 ≤ℤ n) (sym none_done) (omega arith),
              )
        | inr f ↦
            let s = opposite order.side in
            let total = open_total (near b order) in
            let filled : (settle order ts (match_incoming b order ts)).report.filled_qty
                ≡ min_ℤ order.quantity total =
              rw e at (filled-add_order b order ts v (not_some _ e) q f) in
            let done =
              settle_qty order ts (match_incoming b order ts)
              ∙ (traded_qty-match_incoming b order ts v f q).0 in
            let offered =
              open_total_pos s (near b order) (IsOpen-crossing s order (levels s b) (v.level s)) in
            rw e (
              filled ∙ sym done,
              subst (λ n. pos 0 ≤ℤ n) (sym filled) (min_pos order.quantity total q offered),
            )
      ]
    ]
