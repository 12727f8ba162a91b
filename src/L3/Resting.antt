-- ===== src/L3/Resting.antt =====
-- Which orders rest after `add_order`, and what a cancel takes away.
use hfttoolset.Base.{
  ℕ, ℤ, pos, ltb_ℤ, ◌≡◌, refl, ap, ◌∙◌, ◌&&◌, none, some, Option, if◌then◌else◌, ite, Bool-cases,
  inl, inr, arith, ℕ_discrete,
}
use hfttoolset.Base.Assoc.{find, insert, erase, find-insert_self, find-erase}
use hfttoolset.Types.{Side, buy, sell, Order, canceled}
use hfttoolset.L3.State.{OrderLocation, Book, Tally, count_up, count_down}
use hfttoolset.L3.Match.{is_limit, MatchResult, match_incoming, fok_blocked}
use hfttoolset.L3.Book.{Outcome, rests, settle, add_order, add_resting_order}
use hfttoolset.L3.Book.Change.{cancel_order, cancel_report, cancel_at}
use hfttoolset.L3.Valid.{IsValid}
use hfttoolset.L3.Add.{book-settle, traded-fresh, match_incoming_open, match_incoming_blocked}
use hfttoolset.L3.Cancel.{indexed-IsHeld, deref-IsHeld}
use hfttoolset.L3.Cancelled.{taken_out, cancel_order-known}

abbrev pub new_location : Order → OrderLocation
new_location order = record { side = order.side; price = order.price; it = order.id }

index-count_up : (s : Side) (b : Book) → (count_up s b.tally).order_index ≡ b.order_index
unfolding count_up
index-count_up s b = ground arith

index-count_down :
    (s : Side) (t : Tally) (i : ℕ)
    → erase ℕ_discrete i (count_down s t).order_index ≡ erase ℕ_discrete i t.order_index
unfolding count_down
index-count_down buy t i = refl
index-count_down sell t i = refl

settle_index : Order → MatchResult → Option OrderLocation
settle_index order r =
    if (ltb_ℤ (pos 0) r.remaining_qty && is_limit order.type) && rests order.tif
    then some (new_location order)
    else none

resting_index :
    (b : Book) (order : Order) (n : ℤ) (ts : ℕ)
    → find ℕ_discrete order.id (add_resting_order b order n ts).order_index
      ≡ some (new_location order)
unfolding add_resting_order count_up
resting_index b order n ts =
    elim order.side
      as (λ s.
        find ℕ_discrete order.id
          (count_up s (record b.tally {
            order_index = insert ℕ_discrete order.id (new_location order) b.order_index;
          })).order_index
        ≡ some (new_location order)) [
          | buy ↦ find-insert_self ℕ_discrete order.id (new_location order) b.order_index
          | sell ↦ find-insert_self ℕ_discrete order.id (new_location order) b.order_index
        ]

match_incoming-fresh :
    (b : Book) (order : Order) (ts : ℕ)
    → IsValid b
    → find ℕ_discrete order.id b.order_index ≡ none
    → find ℕ_discrete order.id (match_incoming b order ts).book.order_index ≡ none
match_incoming-fresh b order ts v e = elim (Bool-cases (fok_blocked b order)) [
  | inl h ↦ rw (match_incoming_blocked b order ts h) e
  | inr h ↦ rw (match_incoming_open b order ts h) (traded-fresh b order ts order.id v e)
]

settle-index :
    (b : Book) (order : Order) (ts : ℕ) (r : MatchResult)
    → find ℕ_discrete order.id r.book.order_index ≡ none
    → find ℕ_discrete order.id (settle order ts r).book.order_index ≡ settle_index order r
unfolding settle_index
settle-index b order ts r e =
    elim (Bool-cases ((ltb_ℤ (pos 0) r.remaining_qty && is_limit order.type) && rests order.tif)) [
      | inl h ↦ rw (book-settle order ts r, h) (resting_index r.book order r.remaining_qty ts)
      | inr h ↦ rw (book-settle order ts r, h) e
    ]

-- After `add_order` on a well-formed book, with an id that is not in the index, the id is in the
-- index exactly if the order is a limit order, DAY or GTC, and a quantity is left after
-- matching; its location then has the side and the price of the order.
pub add_order-rests :
    (b : Book) (order : Order) (ts : ℕ)
    → IsValid b
    → find ℕ_discrete order.id b.order_index ≡ none
    → let r = match_incoming b order ts in
      find ℕ_discrete order.id (add_order b order ts).book.order_index ≡ (
        if (ltb_ℤ (pos 0) r.remaining_qty && is_limit order.type) && rests order.tif
        then some (new_location order)
        else none)
unfolding add_order settle_index
add_order-rests b order ts v e =
    rw e (settle-index b order ts (match_incoming b order ts) (match_incoming-fresh b order ts v e))

-- On a well-formed book, cancelling an id of the index reports Canceled and takes that id out of
-- the index; every other id keeps its location.
pub cancel_order-removes :
    (b : Book) (i ts : ℕ) (loc : OrderLocation)
    → IsValid b
    → find ℕ_discrete i b.order_index ≡ some loc
    → (c : Outcome) × (cancel_order b i ts ≡ some c)
      × (c.report.status ≡ canceled)
      × ((j : ℕ)
          → find ℕ_discrete j c.book.order_index
            ≡ ite (ℕ_discrete i j) none (find ℕ_discrete j b.order_index))
unfolding cancel_at cancel_report
cancel_order-removes b i ts loc v e =
    let (o, h) = indexed-IsHeld b i loc v e in
    (
      taken_out b loc o i ts,
      cancel_order-known b i ts loc o e (deref-IsHeld b v i loc o h),
      refl,
      λ j.
          ap (find ℕ_discrete j) (index-count_down loc.side b.tally i)
          ∙ find-erase ℕ_discrete i j b.order_index,
    )
