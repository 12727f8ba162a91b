-- ===== src/Market.antt =====
-- src/market/order_book.h and src/market/order_book.cpp: the simple order book of the trade engine.
-- It has no check of duplicate ids, so a list iterator is a number that its node has for itself.
pub mod Conserved
pub mod Spending
pub mod Priority
mod Tests
use hfttoolset.Base.{
  ℕ, ℤ, pos, ltb_ℤ, eqb_ℤ, min_ℤ, ◌+ℤ◌, ◌-ℤ◌, Bool, true, false, not, ◌&&◌, List, [], ◌∷◌, ◌++◌,
  Option, none, some, if◌then◌else◌, ◌==◌, ◌+◌, suc, zero, ℕ_discrete,
}
use hfttoolset.Base.Assoc.{Assoc, find, insert, erase}
use hfttoolset.Types.{
  Side, buy, sell, Symbol, OrderType, limit, market, BookOrder, Trade, BookLevel,
}

abbrev pub Queue : Type 0
Queue = List (ℕ × BookOrder)

abbrev pub Levels : Type 0
Levels = List (ℤ × Queue)

pub record NodeLocation : Type 0 where
  pub side : Side
  pub price : ℤ
  pub it : ℕ

-- `next_node` is the number of the next node; the source has addresses.
pub record SimpleBook : Type 0 where
  pub symbol : Symbol
  pub bids : Levels
  pub asks : Levels
  pub order_index : Assoc ℕ NodeLocation
  pub next_node : ℕ

-- The comparators, std::greater for bids and std::less for asks.
abbrev pub comes_before : Side → ℤ → ℤ → Bool
comes_before buy a b = ltb_ℤ b a
comes_before sell a b = ltb_ℤ a b

abbrev pub levels_of : Side → SimpleBook → Levels
levels_of buy b = b.bids
levels_of sell b = b.asks

abbrev pub with_levels_of : Side → Levels → SimpleBook → SimpleBook
with_levels_of buy ls b = record b { bids = ls }
with_levels_of sell ls b = record b { asks = ls }

-- levels[price], a new empty queue where there is none.
unfoldable pub queue_at : ℤ → Levels → Queue
queue_at p [] = []
queue_at p ((q, os) ∷ ls) = if eqb_ℤ q p then os else queue_at p ls

unfoldable pub put_queue : Side → ℤ → Queue → Levels → Levels
put_queue s p os [] = (p, os) ∷ []
put_queue s p os ((q, qs) ∷ ls) =
    if eqb_ℤ q p
    then (q, os) ∷ ls
    else if comes_before s p q
    then (p, os) ∷ (q, qs) ∷ ls
    else (q, qs) ∷ put_queue s p os ls

unfoldable pub erase_queue : ℤ → Levels → Levels
erase_queue p [] = []
erase_queue p ((q, os) ∷ ls) = if eqb_ℤ q p then ls else (q, os) ∷ erase_queue p ls

-- queue.erase( it ); `none` if the node is not in the queue.
unfoldable pub erase_node : ℕ → Queue → Option Queue
erase_node n [] = none
erase_node n ((k, o) ∷ os) =
    let rest = erase_node n os in
    if k == n then some os else elim rest [ none ↦ none | some os' ↦ some ((k, o) ∷ os') ]

-- `addOrder`
unfoldable pub add_to_book : BookOrder → SimpleBook → SimpleBook
add_to_book ord b =
    let queue = queue_at ord.price (levels_of ord.side b) ++ (b.next_node, ord) ∷ [] in
    let loc : NodeLocation = record { side = ord.side; price = ord.price; it = b.next_node } in
    record (with_levels_of ord.side (put_queue ord.side ord.price queue (levels_of ord.side b)) b) {
      order_index = insert ℕ_discrete ord.id loc b.order_index;
      next_node = b.next_node + 1;
    }

-- The queue goes back into its level, or the level goes if the queue is empty.
unfoldable pub settle_queue : Side → ℤ → Queue → Levels → Levels
settle_queue s p [] ls = erase_queue p ls
settle_queue s p (o ∷ os) ls = put_queue s p (o ∷ os) ls

unfoldable pub cancel_located : ℕ → NodeLocation → Option Queue → SimpleBook → Option SimpleBook
cancel_located id loc none b = none
cancel_located id loc (some os) b =
    some
      (record (with_levels_of loc.side (settle_queue loc.side loc.price os (levels_of loc.side b))
        b) { order_index = erase ℕ_discrete id b.order_index })

-- `cancelOrder`; `none` is undefined behaviour, a dangling iterator.
unfoldable pub cancel_in_book : ℕ → SimpleBook → Option (Bool × SimpleBook)
cancel_in_book id b = elim (find ℕ_discrete id b.order_index) [
  | none ↦ some (false, b)
  | some loc ↦
      elim (cancel_located id loc (erase_node loc.it (queue_at loc.price (levels_of loc.side b)))
        b) [ none ↦ none | some b' ↦ some (true, b') ]
]

-- What the loops of `matchIncoming` change, but for the levels.
pub record Fills : Type 0 where
  pub index : Assoc ℕ NodeLocation
  pub left : ℤ
  pub trades : List Trade

-- A limit order stops at a worse price.
unfoldable pub stops_at : BookOrder → ℤ → Bool
stops_at inc price = elim inc.type [
  | market ↦ false
  | limit ↦ elim inc.side [ buy ↦ ltb_ℤ inc.price price | sell ↦ ltb_ℤ price inc.price ]
]

-- An empty queue is erased and the loop goes on; a queue that is left stays and ends it.
abbrev pub next_level : ℤ → Queue → Levels × Fills → Levels → Fills → Levels × Fills
next_level price [] rest ls m = rest
next_level price (o ∷ os) rest ls m = ((price, o ∷ os) ∷ ls, m)

module _ (symbol : Symbol) (inc : BookOrder) (ts : ℕ) where
  unfoldable pub fill_front : ℤ → BookOrder → ℤ → Fills → Fills
  fill_front price resting n m = record m {
    left = m.left -ℤ n;
    trades =
        m.trades
        ++ record {
          trade_id = 0;
          resting_id = resting.id;
          incoming_id = inc.id;
          resting_trader = 0;
          incoming_trader = 0;
          symbol = symbol;
          aggressor_side = inc.side;
          price = price;
          qty = n;
          match_timestamp_ns = ts;
        }
          ∷ [];
  }

  -- The inner loop. A front order that is not used up took all that was left, so the loop ends.
  unfoldable pub fill_queue : ℤ → Queue → Fills → Queue × Fills
  fill_queue price [] m = ([], m)
  fill_queue price ((k, o) ∷ os) m =
      let n = min_ℤ m.left o.qty in
      let m' = fill_front price o n m in
      let rest = fill_queue price os (record m' { index = erase ℕ_discrete o.id m'.index }) in
      if ltb_ℤ (pos 0) m.left
      then if eqb_ℤ (o.qty -ℤ n) (pos 0)
        then rest
        else ((k, record o { qty = o.qty -ℤ n }) ∷ os, m')
      else ((k, o) ∷ os, m)

  -- The outer loop. Where a queue is left, nothing is wanted any more, so the loop ends.
  unfoldable pub fill_levels_of : Levels → Fills → Levels × Fills
  fill_levels_of [] m = ([], m)
  fill_levels_of ((price, os) ∷ ls) m =
      let (os', m') = fill_queue price os m in
      let rest = fill_levels_of ls m' in
      if ltb_ℤ (pos 0) m.left && not (stops_at inc price)
      then next_level price os' rest ls m'
      else ((price, os) ∷ ls, m)

abbrev pub other_side : Side → Side
other_side buy = sell
other_side sell = buy

-- `matchIncoming`: the book, the trades and the quantity that is left.
unfoldable pub match_in_book : BookOrder → ℕ → SimpleBook → SimpleBook × List Trade × ℤ
match_in_book inc ts b =
    let s = other_side inc.side in
    let start : Fills = record { index = b.order_index; left = inc.qty; trades = [] } in
    let (ls, m) = fill_levels_of b.symbol inc ts (levels_of s b) start in
    (record (with_levels_of s ls b) { order_index = m.index }, m.trades, m.left)

unfoldable pub total_qty : ℤ → Queue → ℤ
total_qty acc [] = acc
total_qty acc ((k, o) ∷ os) = total_qty (acc +ℤ o.qty) os

abbrev pub level_of : ℤ × Queue → BookLevel
level_of (p, os) = record { price = p; qty = total_qty (pos 0) os; order_count = 0 }

-- `bestBid`, `bestAsk`
unfoldable pub best_of : Levels → Option BookLevel
best_of [] = none
best_of (l ∷ ls) = some (level_of l)

-- `bids`, `asks`: the first `depth` levels.
unfoldable pub depth_of : ℕ → Levels → List BookLevel
depth_of n [] = []
depth_of zero (l ∷ ls) = []
depth_of (suc n) (l ∷ ls) = level_of l ∷ depth_of n ls
