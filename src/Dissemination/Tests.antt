-- ===== src/Dissemination/Tests.antt =====
-- Runs of the engine with a ring of four.
use hfttoolset.Base.{ℕ, List, [], ◌∷◌, some, ◌≡◌, arith, false}
use hfttoolset.Base.Assoc.{find}
use hfttoolset.Types.{Symbol, blank, symbol_discrete, TopOfBook, DepthSnapshot, empty_tob, Trade}
use hfttoolset.Ring.{capacity}
use hfttoolset.Ring.Refine.{empty_ring-Represents}
use hfttoolset.Dissemination.{
  Output, MarketDataEngine, MarketDataMessage, new_market_data_engine, set_throttle_interval_ns,
  subscribe_l1, tob_message, depth_message, trade_message, on_tob_update, on_depth_update, on_trade,
  should_throttle, throttle_after, process_pending,
}
use hfttoolset.Dissemination.Queue.{IsQueued, with_message, updates-IsQueued}
use hfttoolset.Dissemination.Drain.{all_calls, IsDrained, process_pending-drains}
use hfttoolset.Dissemination.Session.{
  l1_subscribed, quotes_updated, processed, session, HoldsTagged, session-HoldsTagged,
}
use hfttoolset.Dissemination.Spacing.{
  times_of, published_times, spaced_out, IsSpaced, published_times-spaced_out,
}

-- A subscriber of the best quotes, and a throttle of ten.
abbrev fresh : MarketDataEngine
fresh = set_throttle_interval_ns 10 (subscribe_l1 1 (new_market_data_engine 4))

fresh-IsQueued : IsQueued 4 fresh []
fresh-IsQueued = (empty_ring-Represents 4 _ (omega arith), tt)

updates-IsQueued_example :
    ((t : TopOfBook)
      → IsQueued 4
          (on_tob_update 4 t 5 fresh)
          (with_message 4 (should_throttle t.symbol 5 fresh).0 (tob_message t 5) []))
    × ((d : DepthSnapshot)
        → IsQueued 4
            (on_depth_update 4 d 5 fresh)
            (with_message 4 (should_throttle d.symbol 5 fresh).0 (depth_message d 5) []))
    × ((t : Trade)
        → IsQueued 4 (on_trade 4 t 5 fresh) (with_message 4 false (trade_message t 5) []))
updates-IsQueued_example = updates-IsQueued 4 5 fresh [] fresh-IsQueued

abbrev updated : MarketDataEngine
updated = on_tob_update 4 empty_tob 5 fresh

abbrev message : MarketDataMessage
message = tob_message empty_tob 5

updated-IsQueued : IsQueued 4 updated (message ∷ [])
unfolding should_throttle throttle_after find capacity
updated-IsQueued = (updates-IsQueued 4 5 fresh [] fresh-IsQueued).0 empty_tob

process_pending-drains_example :
    (e' : MarketDataEngine) × (process_pending 4 2 updated
      ≡ some (all_calls (message ∷ []) updated, e'))
    × IsDrained 4 (message ∷ []) updated e'
process_pending-drains_example =
    process_pending-drains 4 (message ∷ []) 2 updated updated-IsQueued (omega arith)

abbrev updates : List (Symbol × ℕ)
updates = (blank, 5) ∷ (blank, 12) ∷ (blank, 15) ∷ []

published_times-spaced_out_example :
    let last = find symbol_discrete blank fresh.last_publish_time in
    (published_times blank updates fresh ≡ spaced_out 10 last (times_of blank updates))
    × IsSpaced 10 last (published_times blank updates fresh)
published_times-spaced_out_example = published_times-spaced_out blank updates fresh

-- A subscriber, two updates, and the processing of them.
session-HoldsTagged_example :
    (os : List Output) × (e : MarketDataEngine) × (session 4
        (l1_subscribed 1 ∷ quotes_updated empty_tob 5 ∷ quotes_updated empty_tob 6 ∷ processed ∷ [])
        (new_market_data_engine 4)
      ≡ some (os, e))
    × HoldsTagged 4 e
session-HoldsTagged_example =
    session-HoldsTagged 4
      (l1_subscribed 1 ∷ quotes_updated empty_tob 5 ∷ quotes_updated empty_tob 6 ∷ processed ∷ [])
      (omega arith)
