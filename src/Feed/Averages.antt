-- ===== src/Feed/Averages.antt =====
-- src/orderbook/l1_feed.cpp: `vwap` and `rolling_spread`, over the arithmetic of `double`.
use hfttoolset.Base.{ℕ, ℤ, pos, List, [], ◌∷◌, ◌++◌, if◌then◌else◌, length, take, min}
use hfttoolset.Doubles.{Doubles}
use hfttoolset.Feed.{L1Feed, TradeRecord}

module _ (D : Doubles) where
  -- The loop of `vwap`, with `sum_pv` and `sum_v`.
  unfoldable pub sum_trades : List TradeRecord → D.Double → D.Double → D.Double × D.Double
  sum_trades [] sum_pv sum_v = (sum_pv, sum_v)
  sum_trades (t ∷ ts) sum_pv sum_v =
      sum_trades ts (D.add sum_pv (D.mul (D.of_int t.price) (D.of_int t.quantity)))
        (D.add sum_v (D.of_int t.quantity))

  abbrev pub average_of : D.Double × D.Double → D.Double
  average_of (sum_pv, sum_v) = if D.is_positive sum_v then D.div sum_pv sum_v else D.zero_double

  unfoldable pub vwap_of : List TradeRecord → D.Double
  vwap_of [] = D.zero_double
  vwap_of (t ∷ ts) = average_of (sum_trades (t ∷ ts) D.zero_double D.zero_double)

  unfoldable pub vwap : L1Feed → D.Double
  vwap f = vwap_of f.recent_trades

  -- The latest first.
  abbrev pub latest_first : List ℤ → List ℤ
  latest_first [] = []
  latest_first (x ∷ xs) = latest_first xs ++ x ∷ []

  unfoldable pub sum_spreads : List ℤ → D.Double → D.Double
  sum_spreads [] sum = sum
  sum_spreads (x ∷ xs) sum = sum_spreads xs (D.add sum (D.of_int x))

  unfoldable pub rolling_of : ℕ → List ℤ → D.Double
  rolling_of window [] = D.zero_double
  rolling_of window (x ∷ xs) =
      let n = min window (length (x ∷ xs)) in
      D.div (sum_spreads (take n (latest_first (x ∷ xs))) D.zero_double) (D.of_int (pos n))

  unfoldable pub rolling_spread : ℕ → L1Feed → D.Double
  rolling_spread window f = rolling_of window f.spread_history
