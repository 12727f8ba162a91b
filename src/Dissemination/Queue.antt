-- ===== src/Dissemination/Queue.antt =====
-- What the updates put into the queue.
use hfttoolset.Base.{
  ℕ, Bool, true, false, List, [], ◌∷◌, ◌++◌, if◌then◌else◌, ltb, length, ◌≡◌, refl, sym, subst, inl,
  inr, Bool-cases, All, All-append, Option, none, some, arith, ◌==◌,
}
use hfttoolset.Base.Assoc.{find}
use hfttoolset.Types.{Symbol, symbol_discrete, TopOfBook, DepthSnapshot, Trade}
use hfttoolset.Ring.{capacity}
use hfttoolset.Ring.Refine.{Represents, push-Represents}
use hfttoolset.Dissemination.{
  MdUpdateType, snapshot_full, incremental_refresh, trade_report, Content, tob, depth, trade,
  MarketDataMessage, MarketDataEngine, note_time, throttle_after, should_throttle, enqueue,
  unless_throttled, tob_message, depth_message, trade_message, on_tob_update, on_depth_update,
  on_trade,
}

-- The tag is that of the active member.
abbrev IsTag : MdUpdateType → Content → Type 0
IsTag incremental_refresh (tob t) = Unit
IsTag snapshot_full (depth d) = Unit
IsTag trade_report (trade t) = Unit
IsTag _ _ = ⊥

abbrev pub IsTagged : MarketDataMessage → Type 0
IsTagged m = IsTag m.type m.content

-- The ring holds the messages, each with the tag of its content.
abbrev pub IsQueued : ℕ → MarketDataEngine → List MarketDataMessage → Type 0
IsQueued size e xs = Represents size e.md_queue xs × All IsTagged xs

-- A bounded queue that drops what does not fit, and what is throttled.
abbrev pub with_message :
    ℕ → Bool → MarketDataMessage → List MarketDataMessage → List MarketDataMessage
with_message size throttled m xs =
    if throttled then xs else if ltb (length xs) (capacity size) then xs ++ m ∷ [] else xs

enqueue-IsQueued :
    (size : ℕ) (m : MarketDataMessage) (e : MarketDataEngine) (xs : List MarketDataMessage)
    → IsTagged m
    → IsQueued size e xs
    → IsQueued size (enqueue size m e) (with_message size false m xs)
unfolding enqueue
enqueue-IsQueued size m e xs t (v, w) = (
  (push-Represents size e.md_queue xs v m).1,
  elim (Bool-cases (ltb (length xs) (capacity size))) [
    | inl h ↦ rw h (All-append IsTagged xs (m ∷ []) w (t, tt))
    | inr h ↦ rw h w
  ],
)

unless_throttled-IsQueued :
    (size : ℕ) (m : MarketDataMessage) (d : Bool) (e : MarketDataEngine)
    (xs : List MarketDataMessage)
    → IsTagged m
    → IsQueued size e xs
    → IsQueued size (unless_throttled size m (d, e)) (with_message size d m xs)
unfolding unless_throttled
unless_throttled-IsQueued size m true e xs t v = v
unless_throttled-IsQueued size m false e xs t v = enqueue-IsQueued size m e xs t v

queue-throttle_after :
    (a : Option ℕ) (s : Symbol) (now : ℕ) (e : MarketDataEngine)
    → (throttle_after a s now e).1.md_queue ≡ e.md_queue
unfolding throttle_after note_time
queue-throttle_after none s now e = refl
queue-throttle_after (some last) s now e = ground arith

queue-should_throttle :
    (s : Symbol) (now : ℕ) (e : MarketDataEngine)
    → (should_throttle s now e).1.md_queue ≡ e.md_queue
unfolding should_throttle
queue-should_throttle s now e = elim (Bool-cases (e.throttle_ns == 0)) [
  | inl h ↦ rw h refl
  | inr h ↦ rw h (queue-throttle_after (find symbol_discrete s e.last_publish_time) s now e)
]

throttled-IsQueued :
    (size : ℕ) (m : MarketDataMessage) (s : Symbol) (now : ℕ) (e : MarketDataEngine)
    (xs : List MarketDataMessage)
    → IsTagged m
    → IsQueued size e xs
    → IsQueued size
        (unless_throttled size m (should_throttle s now e))
        (with_message size (should_throttle s now e).0 m xs)
throttled-IsQueued size m s now e xs t (v, w) =
    unless_throttled-IsQueued size m (should_throttle s now e).0 (should_throttle s now e).1 xs t
      (subst (λ r. Represents size r xs) (sym (queue-should_throttle s now e)) v, w)

-- On an engine whose ring holds a queue, an update of the best quotes or of the depth that is not
-- throttled, and any trade, puts its message at the back of the queue if there is room, and is
-- dropped otherwise; a throttled update leaves the queue.
pub updates-IsQueued :
    (size : ℕ) (now : ℕ) (e : MarketDataEngine) (xs : List MarketDataMessage)
    → IsQueued size e xs
    → ((t : TopOfBook)
        → IsQueued size
            (on_tob_update size t now e)
            (with_message size (should_throttle t.symbol now e).0 (tob_message t now) xs))
      × ((d : DepthSnapshot)
          → IsQueued size
              (on_depth_update size d now e)
              (with_message size (should_throttle d.symbol now e).0 (depth_message d now) xs))
      × ((t : Trade)
          → IsQueued size
              (on_trade size t now e)
              (with_message size false (trade_message t now) xs))
unfolding on_tob_update on_depth_update on_trade
updates-IsQueued size now e xs v = (
  λ t. throttled-IsQueued size (tob_message t now) t.symbol now e xs tt v,
  λ d. throttled-IsQueued size (depth_message d now) d.symbol now e xs tt v,
  λ t. enqueue-IsQueued size (trade_message t now) e xs tt v,
)
