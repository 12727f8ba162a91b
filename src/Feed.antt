-- ===== src/Feed.antt =====
-- src/orderbook/l1_feed.h, src/orderbook/l1_feed.cpp, src/orderbook/l2_aggregator.h and
-- src/orderbook/l2_aggregator.cpp: the views of a book that feeds publish.
pub mod History
pub mod Depth
pub mod Averages
mod Tests
use hfttoolset.Base.{
  ℕ, ℤ, pos, ltb_ℤ, Bool, ◌&&◌, List, [], ◌∷◌, ◌++◌, if◌then◌else◌, length, ltb, min, take, get_or,
  replicate, set, ◌%◌, ◌^◌, suc,
}
use hfttoolset.Types.{BookLevel, TopOfBook, DepthSnapshot, no_level, max_depth_levels, empty_tob}
use hfttoolset.L3.State.{Book}
use hfttoolset.L3.Query.{top_of_book, bid_depth, ask_depth}

abbrev pub max_trade_history : ℕ
max_trade_history = 1000

abbrev pub max_spread_history : ℕ
max_spread_history = 500

pub record TradeRecord : Type 0 where
  pub price : ℤ
  pub quantity : ℤ

-- The members of `L1Feed` but the book. `callback`: one is registered.
pub record L1Feed : Type 0 where
  pub last_tob : TopOfBook
  pub callback : Bool
  pub recent_trades : List TradeRecord
  pub spread_history : List ℤ

abbrev pub pop_front {ℓ} : {A : Type ℓ} → List A → List A
pop_front [] = []
pop_front (x ∷ xs) = xs

-- push_back, and pop_front where the deque is longer than `most`.
unfoldable pub record_in {ℓ} : {A : Type ℓ} → ℕ → A → List A → List A
record_in most x xs =
    let longer = xs ++ x ∷ [] in if ltb most (length longer) then pop_front longer else longer

-- `update`, with what the callback is given.
unfoldable pub update : Book → ℕ → L1Feed → L1Feed × TopOfBook × List TopOfBook
update b ts f =
    let tob = top_of_book b ts in
    let spreads =
      if tob.valid && ltb_ℤ (pos 0) tob.spread
      then record_in max_spread_history tob.spread f.spread_history
      else f.spread_history in
    (
      record f { last_tob = tob; spread_history = spreads },
      tob,
      if f.callback then tob ∷ [] else [],
    )

unfoldable pub record_trade : ℤ → ℤ → L1Feed → L1Feed
record_trade price qty f = record f {
  recent_trades =
      record_in max_trade_history (record { price = price; quantity = qty }) f.recent_trades;
}

abbrev pub max_l2_depth : ℕ
max_l2_depth = 20

-- The constructor and `set_depth`: the member `depth_`.
unfoldable pub set_depth : ℕ → ℕ
set_depth depth = min depth max_l2_depth

-- The loops of `snapshot`: the levels from index `i` on are written over the array.
unfoldable pub fill_levels : ℕ → List BookLevel → List BookLevel → List BookLevel
fill_levels i [] array = array
fill_levels i (l ∷ ls) array =
    let rest = fill_levels (suc i) ls (set array i l) in
    if ltb i max_depth_levels then rest else array

unfoldable pub snapshot : Book → ℕ → ℕ → DepthSnapshot
snapshot b depth ts =
    let bids = bid_depth b depth in
    let asks = ask_depth b depth in
    record {
      symbol = b.symbol;
      bids = fill_levels 0 bids (replicate max_depth_levels no_level);
      asks = fill_levels 0 asks (replicate max_depth_levels no_level);
      bid_levels = length bids % 2 ^ 32;
      ask_levels = length asks % 2 ^ 32;
      timestamp = ts;
    }
