-- ===== src/Risk/Kept.antt =====
-- `check_order` moves no position.
use hfttoolset.Base.{
  ℕ, ltb_ℤ, leb, ◌≡◌, refl, ap, ◌∙◌, ite, inl, inr, Bool-cases, ℕ_discrete, length, ◌*◌,
}
use hfttoolset.Types.{Symbol, Order, RejectReason, nothing}
use hfttoolset.Risk.{
  RiskEngine, TraderRiskState, state_of, with_state, position_in, get_position, limits_of, abs_ℤ,
  moved, check_position_limit, check_rate_limit, check_kill_switch, check_price_validity,
  check_quantity_validity, guard, check_order, expire,
}
use hfttoolset.Risk.Positions.{state-with_state}
use hfttoolset.Risk.Checks.{counted}

abbrev pub SamePositions : RiskEngine → RiskEngine → Type 0
SamePositions e e' = (t : ℕ) (symbol : Symbol) → get_position e' t symbol ≡ get_position e t symbol

and_then : (a b c : RiskEngine) → SamePositions a b → SamePositions b c → SamePositions a c
and_then a b c h k t symbol = k t symbol ∙ h t symbol

with_state-SamePositions :
    (t : ℕ) (s : TraderRiskState) (e : RiskEngine)
    → s.positions ≡ (state_of e t).positions
    → SamePositions e (with_state t s e)
unfolding get_position
with_state-SamePositions t s e h u symbol =
    ap (λ r. position_in r symbol) (state-with_state t u s e)
    ∙ elim (ℕ_discrete t u)
        as (λ d. position_in (ite d s (state_of e u)) symbol ≡ position_in (state_of e u) symbol) [
          | yes p ↦
              ap (λ m. position_in (record s { positions = m }) symbol) h
              ∙ ap (λ v. position_in (state_of e v) symbol) p
          | no n ↦ refl
        ]

position_limit-SamePositions :
    (e : RiskEngine) (t : ℕ) (order : Order) → SamePositions e (check_position_limit e t order).1
unfolding check_position_limit
position_limit-SamePositions e t order =
    let s = state_of e t in
    let l = limits_of e t in
    let same = with_state-SamePositions t s e refl in
    elim (Bool-cases (
      ltb_ℤ l.max_position_per_symbol
        (abs_ℤ (moved order.side (position_in s order.symbol) order.quantity)))) [
          | inl a ↦ rw a same
          | inr a ↦
              elim (Bool-cases (
                ltb_ℤ l.max_net_position
                  (abs_ℤ (moved order.side s.net_position order.quantity)))) [
                    | inl b ↦ rw (a, b) same
                    | inr b ↦ rw (a, b) same
                  ]
        ]

rate_limit-SamePositions :
    (e : RiskEngine) (t now : ℕ) → SamePositions e (check_rate_limit e t now).1
unfolding check_rate_limit
rate_limit-SamePositions e t now =
    let s = state_of e t in
    let l = limits_of e t in
    elim (Bool-cases (
      leb l.max_order_rate (length (expire now (l.rate_window_ms * 1000000) s.order_timestamps)))) [
        | inl a ↦ rw a (with_state-SamePositions t _ e refl)
        | inr a ↦ rw a (with_state-SamePositions t _ e refl)
      ]

guard-SamePositions :
    (r : RejectReason) (a e : RiskEngine) (after : RejectReason × RiskEngine)
    → SamePositions a e
    → SamePositions a after.1
    → SamePositions a (guard r e after).1
unfolding guard get_position state_of
guard-SamePositions nothing a e after h k = k
guard-SamePositions _ a e after h k = h

counted-SamePositions : (e : RiskEngine) → SamePositions e (counted e)
unfolding get_position state_of
counted-SamePositions e t symbol = refl

pub check_order-SamePositions :
    (e : RiskEngine) (order : Order) → SamePositions e (check_order e order).1
unfolding check_order
check_order-SamePositions e order =
    let t = order.trader_id in
    let e0 = counted e in
    let (r1, e1) = check_position_limit e0 t order in
    let (r2, e2) = check_rate_limit e1 t order.submit_time in
    let h0 = counted-SamePositions e in
    let h1 = and_then e e0 e1 h0 (position_limit-SamePositions e0 t order) in
    let h2 = and_then e e1 e2 h1 (rate_limit-SamePositions e1 t order.submit_time) in
    guard-SamePositions (check_kill_switch e0 t) e e0 _ h0 (
      guard-SamePositions (check_price_validity order) e e0 _ h0 (
        guard-SamePositions (check_quantity_validity order) e e0 _ h0
          (guard-SamePositions r1 e e1 _ h1 (guard-SamePositions r2 e e2 (nothing, e2) h2 h2))))
