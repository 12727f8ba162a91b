-- ===== src/L3/Book/Change.antt =====
-- src/orderbook/l3_order_book.cpp: `cancel_order` and `replace_order`.
use hfttoolset.Base.{ℕ, ℤ, pos, ◌+ℤ◌, [], ◌∷◌, ◌++◌, Option, none, some, ℕ_discrete}
use hfttoolset.Base.Assoc.{find, erase}
use hfttoolset.Types.{
  Side, OrderStatus, canceled, rejected, limit, day, Order, ReplaceRequest, ExecutionReport,
  empty_order, empty_report,
}
use hfttoolset.L3.State.{
  L3Order, OrderLocation, OrderQueue, PriceLevels, Book, find_level, set_level, erase_level,
  erase_order, levels, with_levels, count_down, renumber,
}
use hfttoolset.L3.Query.{deref}
use hfttoolset.L3.Book.{Outcome, publish_tob, add_order}

-- The queue without the order, and the level without the queue if that leaves it empty.
unfoldable pub remove_from_level : ℤ → ℕ → Option OrderQueue → Side → PriceLevels → PriceLevels
remove_from_level p id none s ls = ls
remove_from_level p id (some os) s ls = elim (erase_order id os) [
  | [] ↦ erase_level p ls
  | o ∷ rest ↦ set_level s p (renumber 0 (o ∷ rest)) ls
]

unfoldable pub cancel_report : Book → L3Order → ℕ → ℕ → ExecutionReport
cancel_report b o id ts = record empty_report {
  order_id = id;
  transact_time = ts;
  trader_id = o.trader_id;
  symbol = b.symbol;
  side = o.side;
  price = o.price;
  order_qty = o.visible_qty +ℤ o.hidden_qty +ℤ o.filled_qty;
  filled_qty = o.filled_qty;
  leaves_qty = pos 0;
  status = canceled;
  cl_ord_id = o.cl_ord_id;
}

unfoldable pub cancel_at : Book → ℕ → OrderLocation → Book
cancel_at b id loc =
    let ls = levels loc.side b in
    let ls' = remove_from_level loc.price loc.it (find_level loc.price ls) loc.side ls in
    let counted = count_down loc.side b.tally in
    record (with_levels loc.side ls' b) {
      tally = record counted { order_index = erase ℕ_discrete id counted.order_index };
    }

-- `none`: the index holds a dangling iterator, which is undefined behaviour.
unfoldable pub cancel_found : Book → ℕ → ℕ → OrderLocation → Option L3Order → Option Outcome
cancel_found b id ts loc none = none
cancel_found b id ts loc (some o) =
    let b' = cancel_at b id loc in
    some (record { report = cancel_report b o id ts; book = b'; events = publish_tob b' ts })

unfoldable pub cancel_indexed : Book → ℕ → ℕ → Option OrderLocation → Option Outcome
cancel_indexed b id ts none = some (record {
  report = record empty_report { order_id = id; transact_time = ts; status = rejected };
  book = b;
  events = [];
})
cancel_indexed b id ts (some loc) = cancel_found b id ts loc (deref b loc)

unfoldable pub cancel_order : Book → ℕ → ℕ → Option Outcome
cancel_order b id ts = cancel_indexed b id ts (find ℕ_discrete id b.order_index)

unfoldable pub replacement : ReplaceRequest → Side → ℕ → Order
replacement req side ts = record empty_order {
  id = req.order_id;
  trader_id = req.trader_id;
  symbol = req.symbol;
  side = side;
  type = limit;
  tif = day;
  price = req.new_price;
  quantity = req.new_qty;
  submit_time = ts;
  cl_ord_id = req.cl_ord_id;
}

-- What follows the cancel, by its status; the events of the cancel come first.
unfoldable pub replace_status : OrderStatus → Outcome → Outcome → Outcome
replace_status canceled c added = record added { events = c.events ++ added.events }
replace_status _ c added = record c { report = record c.report { status = rejected } }

unfoldable pub replace_after : ReplaceRequest → ℕ → Option Outcome → Option Outcome
replace_after req ts none = none
replace_after req ts (some c) =
    let added = add_order c.book (replacement req c.report.side ts) ts in
    some (replace_status c.report.status c added)

unfoldable pub replace_order : Book → ReplaceRequest → ℕ → Option Outcome
replace_order b req ts = replace_after req ts (cancel_order b req.order_id ts)
