-- ===== src/Feed/Tests.antt =====
-- Runs of the feeds.
use hfttoolset.Base.{pos, false, ◌≡◌, refl, [], ◌∷◌, take, ◌-◌, List}
use hfttoolset.Types.{empty_tob, blank, empty_order}
use hfttoolset.L3.State.{Book, new_book}
use hfttoolset.L3.Query.{bid_depth, ask_depth}
use hfttoolset.L3.Book.{add_order}
use hfttoolset.Feed.{L1Feed, TradeRecord, snapshot, set_depth}
use hfttoolset.Feed.History.{record_trades, record_trades-latest, drop}
use hfttoolset.Feed.Depth.{snapshot-depth}

abbrev new_feed : L1Feed
new_feed = record {
  last_tob = empty_tob;
  callback = false;
  recent_trades = [];
  spread_history = [];
}

abbrev two_trades : List TradeRecord
two_trades =
    record { price = pos 10; quantity = pos 2 } ∷ record { price = pos 11; quantity = pos 1 } ∷ []

record_trades-latest_example :
    (record_trades two_trades new_feed).recent_trades ≡ drop (2 - 1000) two_trades
record_trades-latest_example = record_trades-latest two_trades new_feed refl

abbrev one_bid : Book
one_bid =
    (add_order (new_book blank) (record empty_order { id = 1; price = pos 10; quantity = pos 5 })
      1).book

snapshot-depth_example :
    let s = snapshot one_bid (set_depth 30) 2 in
    (take s.bid_levels s.bids ≡ bid_depth one_bid (set_depth 30))
    × (take s.ask_levels s.asks ≡ ask_depth one_bid (set_depth 30))
snapshot-depth_example = snapshot-depth one_bid 30 2
