-- ===== src/Dissemination/Session.antt =====
-- Any sequence of calls of the engine from its constructor: `none` would be that a member of the
-- union that is not the active one is read, or that the loop of `process_pending` does not end.
use hfttoolset.Base.{ℕ, List, [], ◌∷◌, ◌++◌, ◌≡◌, refl, ap, ◌∙◌, Option, none, some, ◌<◌}
use hfttoolset.Types.{TopOfBook, DepthSnapshot, Trade}
use hfttoolset.Ring.Refine.{empty_ring-Represents}
use hfttoolset.Dissemination.{
  MarketDataMessage, MarketDataEngine, Output, new_market_data_engine, set_throttle_interval_ns,
  set_l2_depth, subscribe_l1, subscribe_l2, subscribe_trades, on_tob_update, on_depth_update,
  on_trade, process_pending, call_before, no_message,
}
use hfttoolset.Dissemination.Queue.{IsQueued, updates-IsQueued}
use hfttoolset.Dissemination.Drain.{process_pending-drains, all_calls}

-- The public operations that change the engine.
pub data Call : Type 0 where
  quotes_updated : TopOfBook → ℕ → Call
  depth_updated : DepthSnapshot → ℕ → Call
  traded : Trade → ℕ → Call
  l1_subscribed l2_subscribed trades_subscribed : ℕ → Call
  throttle_set : ℕ → Call
  l2_depth_set : ℕ → Call
  processed : Call

abbrev no_calls : MarketDataEngine → Option (List Output × MarketDataEngine)
no_calls e = some ([], e)

-- The loop of `process_pending` is given a round for each place of the ring.
unfoldable pub call : ℕ → Call → MarketDataEngine → Option (List Output × MarketDataEngine)
call size (quotes_updated t now) e = no_calls (on_tob_update size t now e)
call size (depth_updated d now) e = no_calls (on_depth_update size d now e)
call size (traded t now) e = no_calls (on_trade size t now e)
call size (l1_subscribed h) e = no_calls (subscribe_l1 h e)
call size (l2_subscribed h) e = no_calls (subscribe_l2 h e)
call size (trades_subscribed h) e = no_calls (subscribe_trades h e)
call size (throttle_set ns) e = no_calls (set_throttle_interval_ns ns e)
call size (l2_depth_set d) e = no_calls (set_l2_depth d e)
call size processed e = process_pending size size e

abbrev and_then :
    (MarketDataEngine → Option (List Output × MarketDataEngine))
    → Option (List Output × MarketDataEngine)
    → Option (List Output × MarketDataEngine)
and_then f none = none
and_then f (some (os, e)) = call_before (some os) (f e)

unfoldable pub session : ℕ → List Call → MarketDataEngine → Option (List Output × MarketDataEngine)
session size [] e = no_calls e
session size (k ∷ ks) e = and_then (session size ks) (call size k e)

-- The ring holds messages whose tags are those of their contents.
abbrev pub HoldsTagged : ℕ → MarketDataEngine → Type 0
HoldsTagged size e = (xs : List MarketDataMessage) × IsQueued size e xs

abbrev Returns : ℕ → Option (List Output × MarketDataEngine) → Type 0
Returns size r =
    (os : List Output) × (e : MarketDataEngine) × (r ≡ some (os, e)) × HoldsTagged size e

call-Returns :
    (size : ℕ) (k : Call) (e : MarketDataEngine) → HoldsTagged size e → Returns size (call size k e)
unfolding call
call-Returns size (quotes_updated t now) e (xs, v) =
    ([], _, refl, (_, (updates-IsQueued size now e xs v).0 t))
call-Returns size (depth_updated d now) e (xs, v) =
    ([], _, refl, (_, (updates-IsQueued size now e xs v).1 d))
call-Returns size (traded t now) e (xs, v) =
    ([], _, refl, (_, (updates-IsQueued size now e xs v).2 t))
call-Returns size (l1_subscribed h) e (xs, v) = ([], _, refl, (xs, v))
call-Returns size (l2_subscribed h) e (xs, v) = ([], _, refl, (xs, v))
call-Returns size (trades_subscribed h) e (xs, v) = ([], _, refl, (xs, v))
call-Returns size (throttle_set ns) e (xs, v) = ([], _, refl, (xs, v))
call-Returns size (l2_depth_set d) e (xs, v) = ([], _, refl, (xs, v))
call-Returns size processed e (xs, v) =
    let (e', r, d) = process_pending-drains size xs size e v v.0.fits in
    (all_calls xs e, e', r, ([], (d.0, tt)))

session-Returns :
    (size : ℕ) (ks : List Call) (e : MarketDataEngine)
    → HoldsTagged size e
    → Returns size (session size ks e)
unfolding session
session-Returns size [] e v = ([], e, refl, v)
session-Returns size (k ∷ ks) e v =
    let (os, e', r, w) = call-Returns size k e v in
    let (os', e'', r', u) = session-Returns size ks e' w in
    (os ++ os', e'', ap (and_then (session size ks)) r ∙ ap (call_before (some os)) r', u)

-- Whatever operations are called on a new engine, in whatever order: each returns, so that no
-- member of a queued message but the active one is ever read and no loop runs on, and the ring
-- holds messages whose tags are those of their contents.
pub session-HoldsTagged :
    (size : ℕ) (ks : List Call)
    → 0 < size
    → (os : List Output) × (e : MarketDataEngine) × (session size ks (new_market_data_engine size)
        ≡ some (os, e))
      × HoldsTagged size e
session-HoldsTagged size ks h =
    session-Returns size ks (new_market_data_engine size)
      ([], (empty_ring-Represents size no_message h, tt))
