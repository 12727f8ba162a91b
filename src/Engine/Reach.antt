-- ===== src/Engine/Reach.antt =====
-- Sequences of calls of the engine, from the constructor on.
use hfttoolset.Engine.Requests.{process_cancel, process_replace, route, unrouted, cancel_routed}
use hfttoolset.Base.{ℕ, ◌≡◌, ◌≢◌, refl, sym, ap, ◌∙◌, subst, Option, none, some, some_inj}
use hfttoolset.Types.{Symbol, nothing, Order, CancelRequest, ReplaceRequest}
use hfttoolset.Risk.{RiskEngine}
use hfttoolset.Base.Assoc.{find}
use hfttoolset.Engine.{
  MatchingEngine, Processed, new_matching_engine, add_symbol, process_new_order, state_of_symbol,
}
use hfttoolset.Engine.Books.{IsSound}
use hfttoolset.Engine.Sound.{IsLocal, process_new_order-IsLocal, add_symbol-IsLocal}
use hfttoolset.Engine.Changes.{process_cancel-IsDone, process_replace-IsDone}

-- An operation, with what the clock shows at its start and at the publication.
pub data Request : Type 0 where
  submit_new : Order → ℕ → ℕ → Request
  submit_cancel : CancelRequest → ℕ → ℕ → Request
  submit_replace : ReplaceRequest → ℕ → ℕ → Request

-- `none`: a dangling iterator is dereferenced. Overflow of a signed integer is not represented.
unfoldable pub serve : Request → MatchingEngine → Option Processed
serve (submit_new order ts pub_ts) e = some (process_new_order order ts pub_ts e)
serve (submit_cancel r ts pub_ts) e = process_cancel r ts pub_ts e
serve (submit_replace r ts pub_ts) e = process_replace r ts pub_ts e

abbrev pub set_risk_engine : Option RiskEngine → MatchingEngine → MatchingEngine
set_risk_engine r e = record e { risk = r }

-- The engines that the calls reach.
pub data Reaches : MatchingEngine → Type 0 where
  constructed : Reaches new_matching_engine
  symbol_added : {e : MatchingEngine} (s : Symbol) → Reaches e → Reaches (add_symbol s e)
  risk_set :
      {e : MatchingEngine} (r : Option RiskEngine) → Reaches e → Reaches (set_risk_engine r e)
  served :
      {e : MatchingEngine} {p : Processed} (q : Request)
      → Reaches e
      → serve q e ≡ some p
      → Reaches p.engine

new_matching_engine-IsSound : IsSound new_matching_engine
unfolding find
new_matching_engine-IsSound s st h = cc

-- The symbol whose book a request may touch: for a cancel, the one that it is routed to.
abbrev pub target : MatchingEngine → Request → Option Symbol
target e (submit_new order ts pub_ts) = some order.symbol
target e (submit_cancel r ts pub_ts) = route e r
target e (submit_replace r ts pub_ts) = some r.symbol

-- A request that is done leaves the engine sound, and every symbol but its target as it was.
abbrev pub IsIsolated : Option Symbol → MatchingEngine → Processed → Type 0
IsIsolated a e p =
    IsSound p.engine
    × ((z : Symbol) → a ≢ some z → state_of_symbol p.engine z ≡ state_of_symbol e z)

local-IsIsolated :
    (s : Symbol) (e : MatchingEngine) (p : Processed)
    → IsLocal s e p.engine
    → IsIsolated (some s) e p
local-IsIsolated s e p (v, f) = (v, λ z n. f z (λ h. n (ap some h)))

routed-IsIsolated :
    (a : Option Symbol) (r : CancelRequest) (ts pub_ts : ℕ) (e : MatchingEngine)
    → IsSound e
    → route e r ≡ a
    → (p : Processed) × (process_cancel r ts pub_ts e ≡ some p) × IsIsolated a e p
unfolding process_cancel cancel_routed unrouted
routed-IsIsolated none r ts pub_ts e v h = (
  unrouted r.order_id nothing ts e,
  ap (λ b. cancel_routed b r.order_id ts pub_ts e) h,
  (v, λ z n. refl),
)
routed-IsIsolated (some s) r ts pub_ts e v h =
    let (p, k, w) = process_cancel-IsDone r s ts pub_ts e v h in (p, k, local-IsIsolated s e p w)

-- On a sound engine no request dereferences a dangling iterator, and a request leaves the engine sound and
-- the state of every symbol as it was but that of the symbol it is for, which for a cancel is
-- the one it is routed to.
pub serve-IsIsolated :
    (q : Request) (e : MatchingEngine)
    → IsSound e
    → (p : Processed) × (serve q e ≡ some p) × IsIsolated (target e q) e p
unfolding serve
serve-IsIsolated (submit_new order ts pub_ts) e v =
    let p = process_new_order order ts pub_ts e in
    (p, refl, local-IsIsolated order.symbol e p (process_new_order-IsLocal order ts pub_ts e v))
serve-IsIsolated (submit_cancel r ts pub_ts) e v =
    routed-IsIsolated (route e r) r ts pub_ts e v refl
serve-IsIsolated (submit_replace r ts pub_ts) e v =
    let (p, k, w) = process_replace-IsDone r ts pub_ts e v in
    (p, k, local-IsIsolated r.symbol e p w)

reached-IsSound : (e : MatchingEngine) → Reaches e → IsSound e
reached-IsSound _ constructed = new_matching_engine-IsSound
reached-IsSound _ (symbol_added {e = e'} s r) = (add_symbol-IsLocal s e' (reached-IsSound e' r)).0
reached-IsSound _ (risk_set {e = e'} k r) = reached-IsSound e' r
reached-IsSound _ (served {e = e'} {p = p} q r h) =
    let (p', k, w) = serve-IsIsolated q e' (reached-IsSound e' r) in
    subst (λ x. IsSound x.engine) (some_inj (sym k ∙ h)) w.0

-- In an engine that calls reach from the constructor, every symbol has a well-formed book of its
-- own, and no further request dereferences a dangling iterator.
pub Reaches-IsSound :
    (e : MatchingEngine)
    → Reaches e
    → IsSound e × ((q : Request) → (p : Processed) × (serve q e ≡ some p))
Reaches-IsSound e r =
    let v = reached-IsSound e r in (v, λ q. let (p, h, w) = serve-IsIsolated q e v in (p, h))
