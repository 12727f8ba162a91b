-- ===== src/L3/Match/Fills.antt =====
-- What is traded: price-time priority against an independent description, and conservation of
-- quantity.
use mathlib.Core.List.{append-nil, append_assoc, map-append}
use hfttoolset.Base.{
  ℕ, ℤ, pos, ltb_ℤ, min_ℤ, ◌≤ℤ◌, ◌+ℤ◌, ◌-ℤ◌, ◌≡◌, ◌∙◌, ◌⊎◌, inl, inr, All, refl, sym, List, [], ◌∷◌,
  ◌++◌, map, if◌then◌else◌, min_ℤ_right, +ℤ_assoc, min_ℤ_left, not_ltb_ℤ, ltb_ℤ_lt, int_laws,
  parts_of_eq, arith,
}
use hfttoolset.Types.{Side, Symbol, Order, Trade}
use hfttoolset.L3.State.{OrderQueue}
use hfttoolset.L3.Match.{queue_total, Matching, available, record_fill, trade_with}
use hfttoolset.L3.Match.Run.{Run, IsOpen, stop, done, used, took, after_used, after_took}

-- Who trades, at which price, how much.
pub record Fill : Type 0 where
  pub resting_id : ℕ
  pub price : ℤ
  pub qty : ℤ

abbrev pub fill_of : Trade → Fill
fill_of t = record { resting_id = t.resting_id; price = t.price; qty = t.qty }

-- A quantity is spent on the orders in turn, each to its full quantity or to what is left.
pub allot : ℤ → OrderQueue → List Fill
allot n [] = []
allot n (o ∷ os) =
    let part = min_ℤ n (available o) in
    let fill : Fill = record { resting_id = o.id; price = o.price; qty = part } in
    if ltb_ℤ (pos 0) n then fill ∷ allot (n -ℤ part) os else []

unfoldable pub traded_qty : List Trade → ℤ
traded_qty [] = pos 0
traded_qty (t ∷ ts) = t.qty +ℤ traded_qty ts

pub traded_qty_nil : traded_qty [] ≡ pos 0
unfolding traded_qty
traded_qty_nil = refl

unfoldable pub open_total : OrderQueue → ℤ
open_total [] = pos 0
open_total (o ∷ os) = available o +ℤ open_total os

pub traded_qty-snoc :
    (ts : List Trade) (t : Trade) → traded_qty (ts ++ t ∷ []) ≡ traded_qty ts +ℤ t.qty
unfolding traded_qty
traded_qty-snoc [] t = omega int_laws
traded_qty-snoc (u ∷ ts) t = omega (int_laws, parts_of_eq _ _ (traded_qty-snoc ts t))

pub open_total_nil : (n : ℤ) → n +ℤ open_total [] ≡ n
unfolding open_total
open_total_nil n = omega int_laws

pub open_total-append :
    (xs ys : OrderQueue) → open_total (xs ++ ys) ≡ open_total xs +ℤ open_total ys
unfolding open_total
open_total-append [] ys = omega int_laws
open_total-append (o ∷ xs) ys = omega (int_laws, parts_of_eq _ _ (open_total-append xs ys))

pub queue_total_lem : (acc : ℤ) (os : OrderQueue) → queue_total acc os ≡ acc +ℤ open_total os
unfolding queue_total open_total
queue_total_lem acc [] = omega int_laws
queue_total_lem acc (o ∷ os) =
    queue_total_lem (acc +ℤ available o) os ∙ +ℤ_assoc acc (available o) (open_total os)

pub open_total_pos : (s : Side) (os : OrderQueue) → All (IsOpen s) os → pos 0 ≤ℤ open_total os
unfolding open_total
open_total_pos s [] v = omega arith
open_total_pos s (o ∷ os) v = omega (int_laws, v.0.open_qty, open_total_pos _ os v.1)

allot_nothing : (n : ℤ) (os : OrderQueue) → n ≤ℤ pos 0 → allot n os ≡ []
unfolding allot
allot_nothing n [] h = refl
allot_nothing n (o ∷ os) h = rw (not_ltb_ℤ (pos 0) n h)

module _ {symbol : Symbol} {inc : Order} {ts : ℕ} {s : Side} where
  -- The walk trades as allotted.
  pub fills-Run :
      {os os' : OrderQueue} {m m' : Matching}
      → Run symbol inc ts s os m os' m'
      → map fill_of m'.trades ≡ map fill_of m.trades ++ allot m.remaining os
  unfolding allot after_used after_took record_fill trade_with
  fills-Run {os} {m = m} (stop h) =
      rw (allot_nothing m.remaining os h) (sym (append-nil (map fill_of m.trades)))
  fills-Run {m = m} done = sym (append-nil (map fill_of m.trades))
  fills-Run {m = m} (used {o} {os} h v le r) =
      rw
        (
          fills-Run r,
          map-append,
          ltb_ℤ_lt (pos 0) m.remaining h,
          min_ℤ_right m.remaining (available o) le,
        )
        (append_assoc (map fill_of m.trades) _ _)
  fills-Run {m = m} (took {o} {os = os} h v lt w rest) = rw (
    map-append,
    ltb_ℤ_lt (pos 0) m.remaining h,
    min_ℤ_left m.remaining (available o) lt,
    allot_nothing (m.remaining -ℤ m.remaining) os (omega int_laws),
  )

  -- What is traded is what is no longer wanted, and what is no longer offered.
  pub wanted-Run :
      {os os' : OrderQueue} {m m' : Matching}
      → Run symbol inc ts s os m os' m'
      → m'.remaining +ℤ traded_qty m'.trades ≡ m.remaining +ℤ traded_qty m.trades
  unfolding after_used after_took record_fill trade_with
  wanted-Run (stop h) = refl
  wanted-Run done = refl
  wanted-Run {m = m} (used {o} h v le r) = omega (
    int_laws,
    parts_of_eq _ _ (wanted-Run r),
    parts_of_eq _ _
        (traded_qty-snoc m.trades (trade_with symbol inc ts o.price o (available o) m.tally)),
  )
  wanted-Run {m = m} (took {o} h v lt w rest) = omega (
    int_laws,
    parts_of_eq _ _
        (traded_qty-snoc m.trades (trade_with symbol inc ts o.price o m.remaining m.tally)),
  )

  pub offered-Run :
      {os os' : OrderQueue} {m m' : Matching}
      → Run symbol inc ts s os m os' m'
      → open_total os' +ℤ traded_qty m'.trades ≡ open_total os +ℤ traded_qty m.trades
  unfolding after_used after_took record_fill trade_with open_total
  offered-Run (stop h) = refl
  offered-Run done = refl
  offered-Run {m = m} (used {o} h v le r) = omega (
    int_laws,
    parts_of_eq _ _ (offered-Run r),
    parts_of_eq _ _
        (traded_qty-snoc m.trades (trade_with symbol inc ts o.price o (available o) m.tally)),
  )
  offered-Run {m = m} (took {o} h v lt w rest) = omega (
    int_laws,
    parts_of_eq _ _ rest.left,
    parts_of_eq _ _
        (traded_qty-snoc m.trades (trade_with symbol inc ts o.price o m.remaining m.tally)),
  )

  -- A walk ends when nothing is wanted or nothing is offered.
  pub ends-Run :
      {os os' : OrderQueue} {m m' : Matching}
      → Run symbol inc ts s os m os' m'
      → pos 0 ≤ℤ m.remaining
      → All (IsOpen s) os
      → (pos 0 ≤ℤ m'.remaining)
        × (pos 0 ≤ℤ open_total os')
        × ((m'.remaining ≤ℤ pos 0) ⊎ (open_total os' ≤ℤ pos 0))
  unfolding after_used after_took record_fill open_total
  ends-Run {os} (stop h) g v = (g, open_total_pos _ os v, inl h)
  ends-Run done g v = (g, omega arith, inr (omega arith))
  ends-Run {m = m} (used {o} h w le r) g v = ends-Run r (omega int_laws) v.1
  ends-Run {m = m} (took {o} {r} {os} h w lt u rest) g v =
      (omega int_laws, omega (int_laws, u.open_qty, open_total_pos _ os v.1), inl (omega int_laws))
