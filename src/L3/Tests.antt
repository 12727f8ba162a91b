-- ===== src/L3/Tests.antt =====
-- Runs of the book on concrete orders.
use hfttoolset.Base.{
  ℕ, ℤ, pos, ◌≡◌, true, false, ◌≤ℤ◌, ◌<ℤ◌, ◌&&◌, ◌⊎◌, ◌-ℤ◌, ◌+ℤ◌, min_ℤ, ltb_ℤ, ite, if◌then◌else◌,
  arith, refl, [], map, some, none, ℕ_discrete,
}
use hfttoolset.Base.Assoc.{find, insert}
use hfttoolset.Types.{
  Side, buy, sell, Order, TimeInForce, day, fok, gtc, empty_order, canceled, blank,
}
use hfttoolset.L3.State.{Book, new_book, find_level, set_level, count_up}
use hfttoolset.L3.Match.{beyond_limit, match_against, fok_blocked, match_incoming}
use hfttoolset.L3.Query.{
  best, best_bid, best_ask, book_level, visible_total, order_count, top_of_book, orders_at_price,
}
use hfttoolset.L3.Book.{add_order, settle, add_resting_order, resting_order, Outcome}
use hfttoolset.L3.Book.Change.{cancel_order}
use hfttoolset.L3.Valid.{IsValid}
use hfttoolset.L3.Match.Fills.{fill_of, allot, traded_qty, open_total}
use hfttoolset.L3.Add.{add_order-IsValid}
use hfttoolset.L3.Priority.{near, trades-match_incoming, traded_qty-match_incoming}
use hfttoolset.L3.Fok.{match_incoming-fok}
use hfttoolset.L3.Quotes.{top_of_book-quotes, IsBest}
use hfttoolset.L3.Resting.{cancel_order-removes, add_order-rests, new_location}
use hfttoolset.L3.Report.{filled-add_order}
use hfttoolset.L3.Reach.{new_book-IsValid, Reaches-IsValid, constructed, called, add, call, Call}

abbrev order : ℕ → Side → TimeInForce → ℤ → ℤ → Order
order i s t p q = record empty_order { id = i; side = s; tif = t; price = p; quantity = q }

abbrev one_ask : Book
one_ask = (add_order (new_book blank) (order 1 sell day (pos 10) (pos 5)) 1).book

abbrev two_asks : Book
two_asks = (add_order one_ask (order 2 sell day (pos 11) (pos 7)) 2).book

abbrev both_sides : Book
both_sides = (add_order two_asks (order 3 buy gtc (pos 9) (pos 4)) 3).book

one_ask-IsValid : IsValid one_ask
one_ask-IsValid =
    add_order-IsValid (new_book blank) (order 1 sell day (pos 10) (pos 5)) 1
      (new_book-IsValid blank)

two_asks-IsValid : IsValid two_asks
two_asks-IsValid = add_order-IsValid one_ask (order 2 sell day (pos 11) (pos 7)) 2 one_ask-IsValid

both_sides-IsValid : IsValid both_sides
both_sides-IsValid = add_order-IsValid two_asks (order 3 buy gtc (pos 9) (pos 4)) 3 two_asks-IsValid

-- A buyer of eight at eleven.
abbrev taker : Order
taker = order 4 buy day (pos 11) (pos 8)

abbrev killer : Order
killer = order 5 buy fok (pos 10) (pos 8)

Reaches-IsValid_example : IsValid one_ask × ((k : Call) → (c : Outcome) × (call k one_ask ≡ some c))
unfolding call
Reaches-IsValid_example =
    Reaches-IsValid blank one_ask
      (called (add (order 1 sell day (pos 10) (pos 5)) 1) constructed refl)

passes : fok_blocked both_sides taker ≡ false
unfolding fok_blocked
passes = refl

trades-match_incoming_example :
    map fill_of (match_incoming both_sides taker 4).trades ≡ allot (pos 8) (near both_sides taker)
trades-match_incoming_example = trades-match_incoming both_sides taker 4 both_sides-IsValid passes

traded_qty-match_incoming_example :
    let r = match_incoming both_sides taker 4 in
    (traded_qty r.trades ≡ min_ℤ (pos 8) (open_total (near both_sides taker)))
    × (r.remaining_qty ≡ pos 8 -ℤ min_ℤ (pos 8) (open_total (near both_sides taker)))
traded_qty-match_incoming_example =
    traded_qty-match_incoming both_sides taker 4 both_sides-IsValid passes (omega arith)

match_incoming-fok_example :
    ((match_incoming both_sides killer 5).remaining_qty ≡ pos 0)
    ⊎ (match_incoming both_sides killer 5
        ≡ record { book = both_sides; trades = []; remaining_qty = pos 8; fully_filled = false })
match_incoming-fok_example =
    match_incoming-fok both_sides killer 5 both_sides-IsValid refl (omega arith)

known :
    find ℕ_discrete 1 one_ask.order_index ≡ some (new_location (order 1 sell day (pos 10) (pos 5)))
unfolding add_order settle match_incoming match_against new_book find fok_blocked add_resting_order
    count_up insert ℕ_discrete
known = refl

cancel_order-removes_example :
    (c : Outcome) × (cancel_order one_ask 1 5 ≡ some c)
    × (c.report.status ≡ canceled)
    × ((j : ℕ)
        → find ℕ_discrete j c.book.order_index
          ≡ ite (ℕ_discrete 1 j) none (find ℕ_discrete j one_ask.order_index))
cancel_order-removes_example =
    cancel_order-removes one_ask 1 5 (new_location (order 1 sell day (pos 10) (pos 5)))
      one_ask-IsValid known

fresh : find ℕ_discrete 2 one_ask.order_index ≡ none
unfolding add_order settle match_incoming match_against new_book find fok_blocked add_resting_order
    count_up insert ℕ_discrete
fresh = refl

abbrev dearer : Order
dearer = order 2 sell day (pos 11) (pos 7)

add_order-rests_example :
    let r = match_incoming one_ask dearer 2 in
    find ℕ_discrete 2 (add_order one_ask dearer 2).book.order_index
    ≡ (if (ltb_ℤ (pos 0) r.remaining_qty && true) && true then some (new_location dearer) else none)
add_order-rests_example = add_order-rests one_ask dearer 2 one_ask-IsValid fresh

abbrev bid_below_ask : Book
bid_below_ask = (add_order one_ask (order 3 buy gtc (pos 9) (pos 4)) 3).book

bid : best_bid bid_below_ask ≡ some (record { price = pos 9; qty = pos 4; order_count = 1 })
unfolding add_order settle match_incoming match_against new_book find fok_blocked add_resting_order
    count_up insert best book_level ℕ_discrete set_level beyond_limit visible_total order_count
    orders_at_price find_level ◌+ℤ◌ resting_order
bid = refl

ask : best_ask bid_below_ask ≡ some (record { price = pos 10; qty = pos 5; order_count = 1 })
unfolding add_order settle match_incoming match_against new_book find fok_blocked add_resting_order
    count_up insert best book_level ℕ_discrete set_level beyond_limit visible_total order_count
    orders_at_price find_level ◌+ℤ◌ resting_order
ask = refl

top_of_book-quotes_example :
    IsBest buy (pos 9) bid_below_ask.bids
    × IsBest sell (pos 10) bid_below_ask.asks
    × (pos 0 <ℤ (top_of_book bid_below_ask 4).spread)
    × (pos 9 ≤ℤ (top_of_book bid_below_ask 4).mid_price)
    × ((top_of_book bid_below_ask 4).mid_price ≤ℤ pos 10)
top_of_book-quotes_example =
    top_of_book-quotes bid_below_ask 4 (record { price = pos 9; qty = pos 4; order_count = 1 })
      (record { price = pos 10; qty = pos 5; order_count = 1 })
      (add_order-IsValid one_ask (order 3 buy gtc (pos 9) (pos 4)) 3 one_ask-IsValid) bid ask

filled-add_order_example :
    (add_order one_ask dearer 2).report.filled_qty
    ≡ min_ℤ (pos 7) (open_total (near one_ask dearer))
unfolding fok_blocked
filled-add_order_example =
    filled-add_order one_ask dearer 2 one_ask-IsValid fresh (omega arith) refl
