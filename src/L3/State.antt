-- ===== src/L3/State.antt =====
-- src/orderbook/l3_order_book.h: orders, price levels (std::map) and the members of the book.
use hfttoolset.Base.{
  ℕ, ℤ, pos, ltb_ℤ, eqb_ℤ, Bool, List, [], ◌∷◌, Option, none, some, if◌then◌else◌, ◌==◌, ◌%◌, ◌+◌,
  ◌-◌, ◌^◌,
}
use hfttoolset.Base.Assoc.{Assoc}
use hfttoolset.Types.{Side, buy, sell, Symbol}

pub record L3Order : Type 0 where
  pub id : ℕ
  pub trader_id : ℕ
  pub side : Side
  pub price : ℤ
  pub visible_qty : ℤ
  pub hidden_qty : ℤ
  pub filled_qty : ℤ
  pub entry_time : ℕ
  pub queue_pos : ℕ
  pub is_iceberg : Bool
  pub cl_ord_id : List ℕ

-- The list iterator `it` is modelled by the id of the order that its node holds.
pub record OrderLocation : Type 0 where
  pub side : Side
  pub price : ℤ
  pub it : ℕ

abbrev pub OrderQueue : Type 0
OrderQueue = List L3Order

-- A std::map from prices, as the list of its entries in the order of its comparator.
abbrev pub PriceLevels : Type 0
PriceLevels = List (ℤ × OrderQueue)

-- The comparator: std::greater for bids, std::less for asks.
abbrev pub before : Side → ℤ → ℤ → Bool
before buy a b = ltb_ℤ b a
before sell a b = ltb_ℤ a b

-- levels.find( price )
unfoldable pub find_level : ℤ → PriceLevels → Option OrderQueue
find_level p [] = none
find_level p ((q, os) ∷ ls) = if eqb_ℤ q p then some os else find_level p ls

-- levels[price] = queue
unfoldable pub set_level : Side → ℤ → OrderQueue → PriceLevels → PriceLevels
set_level s p os [] = (p, os) ∷ []
set_level s p os ((q, qs) ∷ ls) =
    if eqb_ℤ q p
    then (q, os) ∷ ls
    else if before s p q
    then (p, os) ∷ (q, qs) ∷ ls
    else (q, qs) ∷ set_level s p os ls

-- levels.erase( level_it )
unfoldable pub erase_level : ℤ → PriceLevels → PriceLevels
erase_level p [] = []
erase_level p ((q, os) ∷ ls) = if eqb_ℤ q p then ls else (q, os) ∷ erase_level p ls

-- *it, and queue.erase( it )
unfoldable pub find_order : ℕ → OrderQueue → Option L3Order
find_order i [] = none
find_order i (o ∷ os) = if o.id == i then some o else find_order i os

unfoldable pub erase_order : ℕ → OrderQueue → OrderQueue
erase_order i [] = []
erase_order i (o ∷ os) = if o.id == i then os else o ∷ erase_order i os

-- The members of the book but its symbol and its levels: the index and the counters.
pub record Tally : Type 0 where
  pub order_index : Assoc ℕ OrderLocation
  pub trade_count : ℕ
  pub next_trade_id : ℕ
  pub total_volume : ℤ
  pub last_trade_price : ℤ
  pub bid_order_count : ℕ
  pub ask_order_count : ℕ

pub record Book : Type 0 where
  pub symbol : Symbol
  pub bids : PriceLevels
  pub asks : PriceLevels
  pub tally : Tally
  pub open tally use *

-- The constructor.
unfoldable pub new_book : Symbol → Book
new_book s = record {
  symbol = s;
  bids = [];
  asks = [];
  tally = record {
    order_index = [];
    trade_count = 0;
    next_trade_id = 1;
    total_volume = pos 0;
    last_trade_price = pos 0;
    bid_order_count = 0;
    ask_order_count = 0;
  };
}

-- The levels on which a side rests.
abbrev pub levels : Side → Book → PriceLevels
levels buy b = b.bids
levels sell b = b.asks

abbrev pub with_levels : Side → PriceLevels → Book → Book
with_levels buy ls b = record b { bids = ls }
with_levels sell ls b = record b { asks = ls }

abbrev pub opposite : Side → Side
opposite buy = sell
opposite sell = buy

-- `++`, `--` on a 64-bit counter.
abbrev pub inc64 : ℕ → ℕ
inc64 n = (n + 1) % 2 ^ 64

abbrev pub dec64 : ℕ → ℕ
dec64 n = (n + (2 ^ 64 - 1)) % 2 ^ 64

unfoldable pub count_down : Side → Tally → Tally
count_down buy t = record t { bid_order_count = dec64 t.bid_order_count }
count_down sell t = record t { ask_order_count = dec64 t.ask_order_count }

unfoldable pub count_up : Side → Tally → Tally
count_up buy t = record t { bid_order_count = inc64 t.bid_order_count }
count_up sell t = record t { ask_order_count = inc64 t.ask_order_count }

-- `update_queue_positions`, on one queue: the positions are counted anew from the front.
unfoldable pub renumber : ℕ → OrderQueue → OrderQueue
renumber n [] = []
renumber n (o ∷ os) = record o { queue_pos = n } ∷ renumber ((n + 1) % 2 ^ 32) os
