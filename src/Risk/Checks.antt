-- ===== src/Risk/Checks.antt =====
-- The checks of `check_order`, one after the other.
use hfttoolset.Base.{
  ℕ, ℤ, pos, ltb_ℤ, leb_ℤ, ◌≤ℤ◌, ◌<ℤ◌, ◌≡◌, refl, sym, ap, subst, ◌∙◌, ◌⊎◌, inl, inr, false, ◌&&◌,
  [], ◌∷◌, ◌++◌, length, length-append, leb, ◌+◌, ◌*◌, ◌≤◌, ◌<◌, ◌%◌, ◌^◌, arith, if◌then◌else◌,
  Bool-cases, ℕ_discrete, le_of_not_ltb_ℤ, List,
}
use hfttoolset.Base.Assoc.{find-insert_self}
use hfttoolset.Types.{
  Order, OrderType, limit, market, RejectReason, nothing, position_limit, rate_limit,
}
use hfttoolset.Risk.{
  RiskEngine, TraderRiskState, or_else, new_state, limits_of, state_of, with_state, moved,
  position_in, get_position, is_killed, check_kill_switch, is_limit_type, check_price_validity,
  check_quantity_validity, abs_ℤ, check_position_limit, expire, check_rate_limit, guard,
  check_order,
}

guard-nothing :
    (r : RejectReason) (e : RiskEngine) (after : RejectReason × RiskEngine)
    → (guard r e after).0 ≡ nothing
    → (r ≡ nothing) × (guard r e after ≡ after)
unfolding guard
guard-nothing nothing e after h = (refl, refl)
guard-nothing _ e after h = cc

kill_passes : (e : RiskEngine) (t : ℕ) → check_kill_switch e t ≡ nothing → is_killed e t ≡ false
unfolding check_kill_switch is_killed
kill_passes e t h = ground (arith, h)

price_test :
    (t : OrderType) (p : ℤ)
    → (is_limit_type t && leb_ℤ p (pos 0)) ≡ false
    → (t ≡ market) ⊎ (pos 0 <ℤ p)
price_test market p h = inl refl
price_test limit p h = inr (ground arith)

price_passes :
    (order : Order)
    → check_price_validity order ≡ nothing
    → (order.type ≡ market) ⊎ (pos 0 <ℤ order.price)
unfolding check_price_validity
price_passes order h = price_test order.type order.price (ground (arith, h))

quantity_passes :
    (order : Order) → check_quantity_validity order ≡ nothing → pos 0 <ℤ order.quantity
unfolding check_quantity_validity
quantity_passes order h = ground (arith, h)

state_of-with_state :
    (t : ℕ) (s : TraderRiskState) (e : RiskEngine) → state_of (with_state t s e) t ≡ s
unfolding state_of with_state
state_of-with_state t s e =
    ap (λ o. or_else o new_state) (find-insert_self ℕ_discrete t s e.trader_states)

abbrev position_answer : ℤ → ℤ → ℤ → ℤ → RiskEngine → RejectReason × RiskEngine
position_answer m n a b e =
    if ltb_ℤ m a
    then (position_limit, e)
    else if ltb_ℤ n b
    then (position_limit, e)
    else (nothing, e)

within_both :
    (m n a b : ℤ) (e : RiskEngine) → (position_answer m n a b e).0 ≡ nothing → (a ≤ℤ m) × (b ≤ℤ n)
within_both m n a b e h = elim (Bool-cases (ltb_ℤ m a)) [
  | inl p ↦ cc (rw p at h)
  | inr p ↦ elim (Bool-cases (ltb_ℤ n b)) [
    | inl q ↦ cc (rw (p, q) at h)
    | inr q ↦ (le_of_not_ltb_ℤ m a p, le_of_not_ltb_ℤ n b q)
  ]
]

-- The projected positions are within the limits.
abbrev pub IsWithin : RiskEngine → Order → Type 0
IsWithin e order =
    let t = order.trader_id in
    (abs_ℤ (moved order.side (get_position e t order.symbol) order.quantity)
      ≤ℤ (limits_of e t).max_position_per_symbol)
    × (abs_ℤ (moved order.side (state_of e t).net_position order.quantity)
        ≤ℤ (limits_of e t).max_net_position)

position_passes :
    (e : RiskEngine) (order : Order)
    → (check_position_limit e order.trader_id order).0 ≡ nothing
    → IsWithin e order
unfolding check_position_limit get_position
position_passes e order h =
    let l = limits_of e order.trader_id in
    let s = state_of e order.trader_id in
    within_both l.max_position_per_symbol l.max_net_position
      (abs_ℤ (moved order.side (position_in s order.symbol) order.quantity))
      (abs_ℤ (moved order.side s.net_position order.quantity)) (with_state order.trader_id s e) h

abbrev rate_answer : ℕ → ℕ → RiskEngine → RiskEngine → RejectReason × RiskEngine
rate_answer most n e e' = if leb most n then (rate_limit, e) else (nothing, e')

rate_test :
    (most : ℕ) (kept : List ℕ) (now : ℕ) (e e' : RiskEngine)
    → (rate_answer most (length kept) e e').0 ≡ nothing
    → ((rate_answer most (length kept) e e').1 ≡ e') × (length (kept ++ now ∷ []) ≤ most)
rate_test most kept now e e' h = elim (Bool-cases (leb most (length kept))) [
  | inl p ↦ cc (rw p at h)
  | inr p ↦ (rw p, omega (arith, not_leb most (length kept) p, length-append kept (now ∷ [])))
]
  where
    not_leb : (a b : ℕ) → leb a b ≡ false → b < a
    not_leb a b h = ground arith

rate_passes :
    (e : RiskEngine) (t now : ℕ)
    → (check_rate_limit e t now).0 ≡ nothing
    → length (state_of (check_rate_limit e t now).1 t).order_timestamps
      ≤ (limits_of e t).max_order_rate
unfolding check_rate_limit
rate_passes e t now h =
    let s = state_of e t in
    let kept = expire now ((limits_of e t).rate_window_ms * 1000000) s.order_timestamps in
    let more = with_state t (record s { order_timestamps = kept ++ now ∷ [] }) e in
    let same = with_state t (record s { order_timestamps = kept }) e in
    let (f, g) = rate_test (limits_of e t).max_order_rate kept now same more h in
    subst (λ d. length (state_of d t).order_timestamps ≤ (limits_of e t).max_order_rate) (sym f)
      (subst (λ x. length x.order_timestamps ≤ (limits_of e t).max_order_rate)
        (sym (state_of-with_state t (record s { order_timestamps = kept ++ now ∷ [] }) e)) g)

limits-check_position_limit :
    (e : RiskEngine) (t : ℕ) (order : Order)
    → limits_of (check_position_limit e t order).1 t ≡ limits_of e t
unfolding check_position_limit limits_of with_state
limits-check_position_limit e t order = ground arith

-- What has come before in `check_order`.
abbrev pub counted : RiskEngine → RiskEngine
counted e = record e { orders_checked = (e.orders_checked + 1) % 2 ^ 64 }

-- An order that passes is of a trader who is not killed, is a market order or has a positive price,
-- has a positive quantity, and keeps both positions within their limits; afterwards no more orders
-- of the trader than the rate limit are remembered.
pub check_order-passes :
    (e : RiskEngine) (order : Order)
    → (check_order e order).0 ≡ nothing
    → (is_killed e order.trader_id ≡ false)
      × ((order.type ≡ market) ⊎ (pos 0 <ℤ order.price))
      × (pos 0 <ℤ order.quantity)
      × IsWithin e order
      × (length (state_of (check_order e order).1 order.trader_id).order_timestamps
          ≤ (limits_of e order.trader_id).max_order_rate)
unfolding check_order is_killed get_position limits_of state_of
check_order-passes e order h =
    let t = order.trader_id in
    let e0 = counted e in
    let (r1, e1) = check_position_limit e0 t order in
    let (r2, e2) = check_rate_limit e1 t order.submit_time in
    let c5 = guard r2 e2 (nothing, e2) in
    let c4 = guard r1 e1 c5 in
    let c3 = guard (check_quantity_validity order) e0 c4 in
    let c2 = guard (check_price_validity order) e0 c3 in
    let (k, f1) = guard-nothing (check_kill_switch e0 t) e0 c2 h in
    let (p, f2) = guard-nothing (check_price_validity order) e0 c3 (ap (λ c. c.0) (sym f1) ∙ h) in
    let (q, f3) =
      guard-nothing (check_quantity_validity order) e0 c4 (ap (λ c. c.0) (sym (f1 ∙ f2)) ∙ h) in
    let (w, f4) = guard-nothing r1 e1 c5 (ap (λ c. c.0) (sym (f1 ∙ f2 ∙ f3)) ∙ h) in
    let (l, f5) = guard-nothing r2 e2 (nothing, e2) (ap (λ c. c.0) (sym (f1 ∙ f2 ∙ f3 ∙ f4)) ∙ h) in
    (
      kill_passes e0 t k,
      price_passes order p,
      quantity_passes order q,
      position_passes e0 order w,
      subst (λ c. length (state_of c.1 t).order_timestamps ≤ (limits_of e t).max_order_rate)
          (sym (f1 ∙ f2 ∙ f3 ∙ f4 ∙ f5))
          (subst (λ y. length (state_of e2 t).order_timestamps ≤ y.max_order_rate)
            (limits-check_position_limit e0 t order) (rate_passes e1 t order.submit_time l)),
    )
