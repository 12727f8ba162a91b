-- ===== src/Dissemination/Drain.antt =====
-- `process_pending`: the queue is drained, in order.
use hfttoolset.Base.{
  ℕ, suc, zero, List, [], ◌∷◌, ◌++◌, map, length, ◌≡◌, refl, ap, ap₂, ◌∙◌, some, ◌<◌, arith, ◌+◌,
  ◌%◌, ◌^◌,
}
use hfttoolset.Ring.{RingBuffer, pop}
use hfttoolset.Ring.Refine.{Represents, pop-Represents}
use hfttoolset.Dissemination.{
  MdUpdateType, snapshot_full, incremental_refresh, trade_report, Content, tob, depth, trade,
  MarketDataMessage, MarketDataEngine, Output, l1_out, l2_out, trade_out, deliver, call_before,
  process_popped, process_pending,
}
use hfttoolset.Dissemination.Queue.{IsTagged, IsQueued}

-- The calls that a message is for: every subscriber of its kind, in the order of subscription.
abbrev pub calls_of : Content → MarketDataEngine → List Output
calls_of (tob t) e = map (λ h. l1_out h t) e.l1_handlers
calls_of (depth d) e = map (λ h. l2_out h d) e.l2_handlers
calls_of (trade t) e = map (λ h. trade_out h t) e.trade_handlers

abbrev pub all_calls : List MarketDataMessage → MarketDataEngine → List Output
all_calls [] e = []
all_calls (m ∷ ms) e = calls_of m.content e ++ all_calls ms e

deliver-IsTagged :
    (k : MdUpdateType) (c : Content) (m : MarketDataMessage) (e : MarketDataEngine)
    → IsTagged (record m { type = k; content = c })
    → deliver k c e ≡ some (calls_of c e)
unfolding deliver
deliver-IsTagged incremental_refresh (tob t) m e h = refl
deliver-IsTagged snapshot_full (depth d) m e h = refl
deliver-IsTagged trade_report (trade t) m e h = refl
deliver-IsTagged _ _ m e h = absurd h

-- The engine after it: the queue is empty, what it held is counted, all else stays.
abbrev pub IsDrained : ℕ → List MarketDataMessage → MarketDataEngine → MarketDataEngine → Type 0
IsDrained size xs e e' =
    Represents size e'.md_queue []
    × (e'.messages_published % 2 ^ 64 ≡ (e.messages_published + length xs) % 2 ^ 64)
    × (record e' { md_queue = e.md_queue; messages_published = e.messages_published } ≡ e)

-- The engine with another queue and another count of messages.
abbrev with_queue : RingBuffer MarketDataMessage → ℕ → MarketDataEngine → MarketDataEngine
with_queue q n e = record e { md_queue = q; messages_published = n }

calls_of-with_queue :
    (c : Content) (q : RingBuffer MarketDataMessage) (n : ℕ) (e : MarketDataEngine)
    → calls_of c (with_queue q n e) ≡ calls_of c e
calls_of-with_queue (tob t) q n e = refl
calls_of-with_queue (depth d) q n e = refl
calls_of-with_queue (trade t) q n e = refl

all_calls-with_queue :
    (ms : List MarketDataMessage) (q : RingBuffer MarketDataMessage) (n : ℕ) (e : MarketDataEngine)
    → all_calls ms (with_queue q n e) ≡ all_calls ms e
all_calls-with_queue [] q n e = refl
all_calls-with_queue (m ∷ ms) q n e =
    ap₂ (λ x y. x ++ y) (calls_of-with_queue m.content q n e) (all_calls-with_queue ms q n e)

counted :
    (n k r : ℕ) → r % 2 ^ 64 ≡ ((n + 1) % 2 ^ 64 + k) % 2 ^ 64 → r % 2 ^ 64 ≡ (n + suc k) % 2 ^ 64
counted n k r h = omega (arith, h)

-- On an engine whose ring holds a queue, `process_pending` returns after one round of its loop
-- for each message and one more, having called for each message in order every subscriber of its
-- kind; the ring is then empty, the messages are counted, and all else is as it was.
pub process_pending-drains :
    (size : ℕ) (xs : List MarketDataMessage) (fuel : ℕ) (e : MarketDataEngine)
    → IsQueued size e xs
    → length xs < fuel
    → (e' : MarketDataEngine) × (process_pending size fuel e ≡ some (all_calls xs e, e'))
      × IsDrained size xs e e'
unfolding process_pending process_popped
process_pending-drains size xs zero e v h = absurd (omega (arith, h))
process_pending-drains size [] (suc fuel) e (v, w) h =
    let (p, v') = pop-Represents size e.md_queue [] v in
    let e0 = record e { md_queue = (pop size e.md_queue).1 } in
    (
      e0,
      ap (λ o. process_popped o (λ e'. process_pending size fuel e') e0) p,
      (v', omega arith, refl),
    )
process_pending-drains size (m ∷ ms) (suc fuel) e (v, w) h =
    let (p, v') = pop-Represents size e.md_queue (m ∷ ms) v in
    let q = (pop size e.md_queue).1 in
    let n = (e.messages_published + 1) % 2 ^ 64 in
    let (e', k, d) =
      process_pending-drains size ms fuel (with_queue q n e) (v', w.1) (omega (arith, h)) in
    (
      e',
      ap (λ o. process_popped o (λ x. process_pending size fuel x) (record e { md_queue = q })) p
          ∙ ap₂ call_before (deliver-IsTagged m.type m.content m (with_queue q n e) w.0) k
          ∙ ap (λ x. some (calls_of m.content (with_queue q n e) ++ x, e'))
              (all_calls-with_queue ms q n e)
          ∙ ap (λ x. some (x ++ all_calls ms e, e')) (calls_of-with_queue m.content q n e),
      (
        d.0,
        counted e.messages_published (length ms) e'.messages_published d.1,
        ap (λ x. with_queue e.md_queue e.messages_published x) d.2,
      ),
    )
