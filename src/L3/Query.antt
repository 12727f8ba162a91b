-- ===== src/L3/Query.antt =====
-- src/orderbook/l3_order_book.cpp: the query methods.
use hfttoolset.Base.{
  ℕ, ℤ, pos, negsuc, sub_ℕ, pos_part, ltb_ℤ, ◌+ℤ◌, ◌-ℤ◌, ◌*ℤ◌, true, List, [], ◌∷◌, Option, none,
  some, if◌then◌else◌, ◌==◌, ◌+◌, ◌-◌, ◌%◌, ◌^◌, ◌/◌, ℕ_discrete, suc, zero,
}
use hfttoolset.Base.Assoc.{find}
use hfttoolset.Types.{Side, BookLevel, TopOfBook, empty_tob}
use hfttoolset.L3.State.{
  L3Order, OrderQueue, PriceLevels, OrderLocation, Book, find_level, find_order, levels,
}

-- The `/` of C++ rounds towards zero; it is used at a positive divisor.
unfoldable pub quot : ℤ → ℤ → ℤ
quot (pos a) d = pos (a / pos_part d)
quot (negsuc a) d = sub_ℕ 0 (suc a / pos_part d)

unfoldable pub visible_total : ℤ → OrderQueue → ℤ
visible_total acc [] = acc
visible_total acc (o ∷ os) = visible_total (acc +ℤ o.visible_qty) os

unfoldable pub order_count : ℕ → OrderQueue → ℕ
order_count n [] = n
order_count n (o ∷ os) = order_count ((n + 1) % 2 ^ 32) os

unfoldable pub book_level : ℤ × OrderQueue → BookLevel
book_level (p, os) = record {
  price = p;
  qty = visible_total (pos 0) os;
  order_count = order_count 0 os;
}

-- `best_bid`, `best_ask`.
unfoldable pub best : PriceLevels → Option BookLevel
best [] = none
best (l ∷ ls) = some (book_level l)

abbrev pub best_bid : Book → Option BookLevel
best_bid b = best b.bids

abbrev pub best_ask : Book → Option BookLevel
best_ask b = best b.asks

-- The microprice, the mid price weighted by the sizes.
unfoldable pub micro_price : BookLevel → BookLevel → ℤ → ℤ
micro_price bb ba mid =
    let total = bb.qty +ℤ ba.qty in
    if ltb_ℤ (pos 0) total then quot (bb.price *ℤ ba.qty +ℤ ba.price *ℤ bb.qty) total else mid

unfoldable pub fill_tob : TopOfBook → Option BookLevel → Option BookLevel → TopOfBook
fill_tob tob none none = tob
fill_tob tob (some bb) none = record tob { valid = true; best_bid = bb; mid_price = bb.price }
fill_tob tob none (some ba) = record tob { valid = true; best_ask = ba; mid_price = ba.price }
fill_tob tob (some bb) (some ba) =
    let mid = quot (bb.price +ℤ ba.price) (pos 2) in
    record tob {
      valid = true;
      best_bid = bb;
      best_ask = ba;
      mid_price = mid;
      spread = ba.price -ℤ bb.price;
      micro_price = micro_price bb ba mid;
    }

unfoldable pub top_of_book : Book → ℕ → TopOfBook
top_of_book b ts =
    fill_tob (record empty_tob { symbol = b.symbol; timestamp = ts }) (best b.bids) (best b.asks)

-- `bid_depth`, `ask_depth`: the first `n` levels.
unfoldable pub depth : ℕ → PriceLevels → List BookLevel
depth n [] = []
depth zero (l ∷ ls) = []
depth (suc n) (l ∷ ls) = book_level l ∷ depth n ls

abbrev pub bid_depth : Book → ℕ → List BookLevel
bid_depth b n = depth n b.bids

abbrev pub ask_depth : Book → ℕ → List BookLevel
ask_depth b n = depth n b.asks

unfoldable pub orders_at_price : Book → Side → ℤ → OrderQueue
orders_at_price b s p = elim (find_level p (levels s b)) [ none ↦ [] | some os ↦ os ]

-- The order at a location. `none`: the iterator does not point into the queue of the location.
unfoldable pub deref : Book → OrderLocation → Option L3Order
deref b loc = elim (find_level loc.price (levels loc.side b)) [
  | none ↦ none
  | some os ↦ find_order loc.it os
]

-- The outer `none` is undefined behaviour, a dangling iterator.
unfoldable pub queue_position : Book → ℕ → Option ℕ
queue_position b id = elim (find ℕ_discrete id b.order_index) [
  | none ↦ some (2 ^ 32 - 1)
  | some loc ↦ elim (deref b loc) [ none ↦ none | some o ↦ some o.queue_pos ]
]

unfoldable pub ahead_in_queue : ℕ → ℤ → OrderQueue → ℤ
ahead_in_queue id acc [] = acc
ahead_in_queue id acc (o ∷ os) =
    let rest = ahead_in_queue id (acc +ℤ o.visible_qty) os in if o.id == id then acc else rest

unfoldable pub quantity_ahead : Book → ℕ → ℤ
quantity_ahead b id = elim (find ℕ_discrete id b.order_index) [
  | none ↦ pos 0
  | some loc ↦ ahead_in_queue id (pos 0) (orders_at_price b loc.side loc.price)
]
