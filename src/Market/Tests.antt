-- ===== src/Market/Tests.antt =====
-- Runs of the simple book.
use hfttoolset.Base.{pos, ◌+ℤ◌, ◌-ℤ◌, min_ℤ, ◌≡◌, refl, arith, map, [], ◌∷◌}
use hfttoolset.Types.{buy, sell, limit, blank, BookOrder}
use hfttoolset.Market.{SimpleBook, match_in_book, add_to_book, levels_of, put_queue, queue_at}
use hfttoolset.Market.Spending.{crossed, spend, offered}
use hfttoolset.Market.Conserved.{held, match_in_book-matched}
use hfttoolset.L3.Match.Fills.{fill_of, traded_qty}

abbrev no_orders : SimpleBook
no_orders = record { symbol = blank; bids = []; asks = []; order_index = []; next_node = 0 }

abbrev offer : BookOrder
offer = record {
  id = 1;
  trader = 1;
  qty = pos 5;
  price = pos 10;
  side = sell;
  type = limit;
  ts_ns = 1;
}

abbrev wish : BookOrder
wish = record {
  id = 2;
  trader = 2;
  qty = pos 8;
  price = pos 10;
  side = buy;
  type = limit;
  ts_ns = 2;
}

-- A better offer of two, behind the offer of five in time.
abbrev better : BookOrder
better = record offer { id = 3; qty = pos 2; price = pos 9 }

abbrev two_offers : SimpleBook
two_offers = record no_orders {
  asks = (pos 9, (1, better) ∷ []) ∷ (pos 10, (0, offer) ∷ []) ∷ [];
  next_node = 2;
}

two_added :
    levels_of sell (add_to_book better (add_to_book offer no_orders)) ≡ levels_of sell two_offers
unfolding add_to_book put_queue queue_at
two_added = refl

match_in_book-matched_example :
    let (b', trades, left) = match_in_book wish 2 two_offers in
    (map fill_of trades ≡ spend (pos 8) (crossed wish two_offers.asks))
    × (left ≡ pos 8 -ℤ min_ℤ (pos 8) (offered (crossed wish two_offers.asks)))
    × (held b'.asks +ℤ traded_qty trades ≡ held two_offers.asks)
match_in_book-matched_example =
    match_in_book-matched two_offers wish 2 ((refl, tt), (tt, tt)) (omega arith)
      (omega arith, (omega arith, tt))
