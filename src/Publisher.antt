-- ===== src/Publisher.antt =====
-- src/market/market_data_publisher.h and src/market/market_data_publisher.cpp: the publisher that
-- passes data to one handler of each kind. A handler is named by a number; a call of it is an output.
use hfttoolset.Base.{ℕ, List, [], ◌∷◌, Option, none, some}
use hfttoolset.Types.{TopOfBook, Trade, BookLevel}

pub record MarketDataPublisher : Type 0 where
  pub tob_handler : Option ℕ
  pub trade_handler : Option ℕ
  pub depth_handler : Option ℕ

abbrev pub new_publisher : MarketDataPublisher
new_publisher = record { tob_handler = none; trade_handler = none; depth_handler = none }

-- The symbol of a depth is the text of a std::string.
pub data Publication : Type 0 where
  top_of_book_out : ℕ → TopOfBook → Publication
  trade_out : ℕ → Trade → Publication
  depth_out : ℕ → List ℕ → List BookLevel → List BookLevel → Publication

abbrev pub on_top_of_book : ℕ → MarketDataPublisher → MarketDataPublisher
on_top_of_book cb p = record p { tob_handler = some cb }

abbrev pub on_trade_handler : ℕ → MarketDataPublisher → MarketDataPublisher
on_trade_handler cb p = record p { trade_handler = some cb }

abbrev pub on_depth_snapshot : ℕ → MarketDataPublisher → MarketDataPublisher
on_depth_snapshot cb p = record p { depth_handler = some cb }

abbrev pub tob_calls : Option ℕ → TopOfBook → List Publication
tob_calls none tob = []
tob_calls (some h) tob = top_of_book_out h tob ∷ []

unfoldable pub publish_top_of_book : TopOfBook → MarketDataPublisher → List Publication
publish_top_of_book tob p = tob_calls p.tob_handler tob

abbrev pub trade_calls : Option ℕ → Trade → List Publication
trade_calls none t = []
trade_calls (some h) t = trade_out h t ∷ []

unfoldable pub publish_trade : Trade → MarketDataPublisher → List Publication
publish_trade t p = trade_calls p.trade_handler t

abbrev pub depth_calls : Option ℕ → List ℕ → List BookLevel → List BookLevel → List Publication
depth_calls none sym bids asks = []
depth_calls (some h) sym bids asks = depth_out h sym bids asks ∷ []

unfoldable pub publish_depth :
    List ℕ → List BookLevel → List BookLevel → MarketDataPublisher → List Publication
publish_depth sym bids asks p = depth_calls p.depth_handler sym bids asks
