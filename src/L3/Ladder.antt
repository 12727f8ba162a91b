-- ===== src/L3/Ladder.antt =====
-- What the L3 book promises, without price levels, queues, an index or counters: each side is one
-- list of open orders, best price first and oldest first.
pub mod Sweep
pub mod Place
pub mod Without
pub mod View
pub mod Matched
pub mod Rested
pub mod Refine
pub mod Cancels
pub mod Replaced
pub mod Calls
mod Tests
use hfttoolset.Base.{
  ℕ, ℤ, pos, ltb_ℤ, leb_ℤ, ◌+ℤ◌, ◌-ℤ◌, Bool, true, false, ◌&&◌, ◌||◌, not, List, [], ◌∷◌, ◌++◌,
  Option, none, some, if◌then◌else◌, ◌==◌,
}
use hfttoolset.Types.{Side, buy, sell, Order, ReplaceRequest}
use hfttoolset.L3.State.{before, opposite}
use hfttoolset.L3.Match.{is_limit, worse, is_fok}
use hfttoolset.L3.Match.Fills.{Fill}
use hfttoolset.L3.Book.{rests}
use hfttoolset.L3.Book.Change.{replacement}
use hfttoolset.L3.Reach.{Call, add, cancel, replace}

pub record Entry : Type 0 where
  pub id : ℕ
  pub trader_id : ℕ
  pub price : ℤ
  pub open_qty : ℤ

abbrev pub Ladder : Type 0
Ladder = Side → List Entry

-- The order would not trade at the price.
abbrev pub too_dear : Order → ℤ → Bool
too_dear order p = is_limit order.type && worse order.side order.price p

-- What an incoming order leaves of the other side, what it still wants and what it traded.
pub record Swept : Type 0 where
  pub left : List Entry
  pub wanted : ℤ
  pub fills : List Fill

abbrev pub fill_at : Entry → ℤ → Fill
fill_at e n = record { resting_id = e.id; price = e.price; qty = n }

-- From the front on, as long as a quantity is wanted and the price is not too dear.
unfoldable pub sweep : Order → ℤ → List Entry → Swept
sweep order n [] = record { left = []; wanted = n; fills = [] }
sweep order n (e ∷ es) =
    let rest = sweep order (n -ℤ e.open_qty) es in
    if leb_ℤ n (pos 0) || too_dear order e.price
    then record { left = e ∷ es; wanted = n; fills = [] }
    else if leb_ℤ e.open_qty n
    then record rest { fills = fill_at e e.open_qty ∷ rest.fills }
    else record {
      left = record e { open_qty = e.open_qty -ℤ n } ∷ es;
      wanted = pos 0;
      fills = fill_at e n ∷ [];
    }

-- What the entries that an order reaches offer.
unfoldable pub offered : Order → List Entry → ℤ
offered order [] = pos 0
offered order (e ∷ es) =
    let rest = offered order es in if too_dear order e.price then pos 0 else e.open_qty +ℤ rest

-- Behind every entry of the same or a better price.
unfoldable pub place : Side → Entry → List Entry → List Entry
place s x [] = x ∷ []
place s x (e ∷ es) = if before s x.price e.price then x ∷ e ∷ es else e ∷ place s x es

unfoldable pub has : ℕ → List Entry → Bool
has i [] = false
has i (e ∷ es) = (e.id == i) || has i es

unfoldable pub without : ℕ → List Entry → List Entry
without i [] = []
without i (e ∷ es) = if e.id == i then without i es else e ∷ without i es

abbrev pub both_sides : List Entry → List Entry → Ladder
both_sides bids asks buy = bids
both_sides bids asks sell = asks

-- One side and the other, seen from side `s`.
abbrev pub sides : Side → List Entry → List Entry → Ladder
sides buy own other = both_sides own other
sides sell own other = both_sides other own

abbrev pub entry_of : Order → ℤ → Entry
entry_of order n = record {
  id = order.id;
  trader_id = order.trader_id;
  price = order.price;
  open_qty = n;
}

-- A ladder with the fills that led to it.
abbrev pub Answer : Type 0
Answer = Ladder × List Fill

abbrev pub settled : Order → List Entry → Swept → Answer
settled order own r =
    let rest = place order.side (entry_of order r.wanted) own in
    let stays = (ltb_ℤ (pos 0) r.wanted && is_limit order.type) && rests order.tif in
    (sides order.side (if stays then rest else own) r.left, r.fills)

-- A known id, and a fill-or-kill order that would not be filled, change nothing.
unfoldable pub spec_add : Order → Ladder → Answer
spec_add order l =
    let own = l order.side in
    let other = l (opposite order.side) in
    if has order.id own || has order.id other
    then (l, [])
    else if is_fok order.tif && ltb_ℤ (offered order other) order.quantity
    then (l, [])
    else settled order own (sweep order order.quantity other)

unfoldable pub spec_cancel : ℕ → Ladder → Ladder
spec_cancel i l s = without i (l s)

-- A replacement is a cancel and a new order on the same side, if the id is known.
abbrev pub add_again : ReplaceRequest → ℕ → Ladder → Side → Answer
add_again req ts l s = spec_add (replacement req s ts) (spec_cancel req.order_id l)

unfoldable pub spec_replace : ReplaceRequest → ℕ → Ladder → Answer
spec_replace req ts l =
    if has req.order_id (l buy)
    then add_again req ts l buy
    else if has req.order_id (l sell)
    then add_again req ts l sell
    else (l, [])

unfoldable pub spec_call : Call → Ladder → Answer
spec_call (add order ts) l = spec_add order l
spec_call (cancel id ts) l = (spec_cancel id l, [])
spec_call (replace req ts) l = spec_replace req ts l

-- The ladder after a sequence of calls, with the fills of them all.
abbrev pub join : List Fill → Answer → Answer
join fs (l, gs) = (l, fs ++ gs)

unfoldable pub spec_calls : List Call → Ladder → Answer
spec_calls [] l = (l, [])
spec_calls (k ∷ ks) l = join (spec_call k l).1 (spec_calls ks (spec_call k l).0)

abbrev pub empty_ladder : Ladder
empty_ladder s = []
