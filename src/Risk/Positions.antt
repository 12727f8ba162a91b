-- ===== src/Risk/Positions.antt =====
-- Positions after fills, and the kill switches.
use hfttoolset.Base.{
  add_swap, add_left, ℕ, ℤ, pos, ◌+ℤ◌, ◌≡◌, refl, sym, subst, ap, ap₂, ◌∙◌, true, false, [], ◌∷◌,
  ite, if_pos, if_neg, arith, int_laws, parts_of_eq, ℕ_discrete,
}
use hfttoolset.Base.Assoc.{Assoc, find, insert, find-insert}
use hfttoolset.Types.{
  Side, buy, sell, Symbol, symbol_discrete, Order, RejectReason, kill_switch_active,
}
use hfttoolset.Risk.{
  RiskEngine, TraderRiskState, or_else, new_state, state_of, with_state, moved, position_in,
  get_position, fill_state, on_fill, set_killed, kill_trader, kill_all, unkill_states, unkill_all,
  is_killed, check_kill_switch, guard, check_order,
}

pub state-with_state :
    (t u : ℕ) (s : TraderRiskState) (e : RiskEngine)
    → state_of (with_state t s e) u ≡ ite (ℕ_discrete t u) s (state_of e u)
unfolding state_of with_state
state-with_state t u s e =
    ap (λ o. or_else o new_state) (find-insert ℕ_discrete t u s e.trader_states) ∙ ground arith

position-fill_state :
    (symbol other : Symbol) (side : Side) (qty : ℤ) (s : TraderRiskState)
    → position_in (fill_state symbol side qty s) other
      ≡ ite
          (symbol_discrete symbol other)
          (moved side (position_in s symbol) qty)
          (position_in s other)
unfolding fill_state
position-fill_state symbol other side qty s =
    ap (λ o. or_else o (pos 0))
      (find-insert symbol_discrete symbol other (moved side (position_in s symbol) qty) s.positions)
    ∙ ground arith

-- A fill moves the position of its trader in its symbol by the quantity, up for a buyer and down for
-- a seller, and no other position.
pub get_position-on_fill :
    (e : RiskEngine) (t u : ℕ) (symbol other : Symbol) (side : Side) (qty : ℤ)
    → get_position (on_fill t symbol side qty e) u other
      ≡ ite
          (ℕ_discrete t u)
          (ite
            (symbol_discrete symbol other)
            (moved side (get_position e t symbol) qty)
            (get_position e u other))
          (get_position e u other)
unfolding get_position on_fill
get_position-on_fill e t u symbol other side qty =
    ap (λ s. position_in s other)
      (state-with_state t u (fill_state symbol side qty (state_of e t)) e)
    ∙ ground (arith, position-fill_state symbol other side qty (state_of e t))

-- The sum of the positions of a trader over all symbols.
unfoldable pub total : Assoc Symbol ℤ → ℤ
total [] = pos 0
total ((s, q) ∷ m) = q +ℤ total m

abbrev entry : Symbol → Assoc Symbol ℤ → ℤ
entry symbol m = or_else (find symbol_discrete symbol m) (pos 0)

nothing_else : (q : ℤ) → q +ℤ pos 0 +ℤ pos 0 ≡ pos 0 +ℤ q
nothing_else q = omega int_laws

total-insert :
    (symbol : Symbol) (q : ℤ) (m : Assoc Symbol ℤ)
    → total (insert symbol_discrete symbol q m) +ℤ entry symbol m ≡ total m +ℤ q
unfolding total insert find
total-insert symbol q [] = nothing_else q
total-insert symbol q ((s, r) ∷ m) = elim (symbol_discrete s symbol) [
  | yes e ↦
      ap₂ (λ l x. total l +ℤ or_else x (pos 0)) (if_pos (symbol_discrete s symbol) e _ _)
        (if_pos (symbol_discrete s symbol) e _ _)
      ∙ add_swap q (total m) r
  | no n ↦
      ap₂ (λ l x. total l +ℤ or_else x (pos 0)) (if_neg (symbol_discrete s symbol) n _ _)
        (if_neg (symbol_discrete s symbol) n _ _)
      ∙ add_left r _ (entry symbol m) (total m) q (total-insert symbol q m)
]

moved_total :
    (side : Side) (a p t n q : ℤ) → a +ℤ p ≡ t +ℤ moved side p q → n ≡ t → moved side n q ≡ a
moved_total buy a p t n q h e = omega (int_laws, parts_of_eq _ _ h, parts_of_eq _ _ e)
moved_total sell a p t n q h e = omega (int_laws, parts_of_eq _ _ h, parts_of_eq _ _ e)

net-fill_state :
    (symbol : Symbol) (side : Side) (qty : ℤ) (s : TraderRiskState)
    → s.net_position ≡ total s.positions
    → (fill_state symbol side qty s).net_position ≡ total (fill_state symbol side qty s).positions
unfolding fill_state
net-fill_state symbol side qty s h =
    moved_total side _ (position_in s symbol) (total s.positions) s.net_position qty
      (total-insert symbol (moved side (position_in s symbol) qty) s.positions) h

-- Every trader's net position is the sum of the positions.
abbrev pub IsNetted : RiskEngine → Type 0
IsNetted e = (t : ℕ) → (state_of e t).net_position ≡ total (state_of e t).positions

-- If the net position of every trader is the sum of the trader's positions, it is so after a
-- fill.
pub on_fill-IsNetted :
    (e : RiskEngine) (t : ℕ) (symbol : Symbol) (side : Side) (qty : ℤ)
    → IsNetted e
    → IsNetted (on_fill t symbol side qty e)
unfolding on_fill
on_fill-IsNetted e t symbol side qty h u = elim (ℕ_discrete t u) [
  | yes p ↦
      state_net u (if_pos (ℕ_discrete t u) p _ _)
        (net-fill_state symbol side qty (state_of e t) (h t))
  | no n ↦ state_net u (if_neg (ℕ_discrete t u) n _ _) (h u)
]
  where
    state_net :
        (u : ℕ) {s : TraderRiskState}
        → ite (ℕ_discrete t u) (fill_state symbol side qty (state_of e t)) (state_of e u) ≡ s
        → s.net_position ≡ total s.positions
        → (state_of (with_state t (fill_state symbol side qty (state_of e t)) e) u).net_position
          ≡ total
              (state_of (with_state t (fill_state symbol side qty (state_of e t)) e) u).positions
    state_net u f g =
        subst (λ s. s.net_position ≡ total s.positions)
          (sym (state-with_state t u (fill_state symbol side qty (state_of e t)) e ∙ f)) g

-- `kill_all` stops every trader, and `unkill_all` and it undo every kill.
is_killed-unkill_states :
    (m : Assoc ℕ TraderRiskState) (t : ℕ)
    → (or_else (find ℕ_discrete t (unkill_states m)) new_state).killed ≡ false
unfolding unkill_states find
is_killed-unkill_states [] t = refl
is_killed-unkill_states ((u, s) ∷ m) t = ground (arith, is_killed-unkill_states m t)

guard-kill :
    (r : RejectReason) (e : RiskEngine) (after : RejectReason × RiskEngine)
    → r ≡ kill_switch_active
    → (guard r e after).0 ≡ kill_switch_active
unfolding guard
guard-kill r e after h = ap (λ s. (guard s e after).0) h

stopped :
    (e : RiskEngine) (order : Order)
    → is_killed e order.trader_id ≡ true
    → (check_order e order).0 ≡ kill_switch_active
unfolding check_order check_kill_switch is_killed state_of
stopped e order h = guard-kill _ _ _ (ground (arith, h))

killed-kill_trader : (e : RiskEngine) (t : ℕ) → is_killed (kill_trader t e) t ≡ true
unfolding set_killed is_killed
killed-kill_trader e t =
    ground (arith, state-with_state t t (record (state_of e t) { killed = true }) e)

-- A killed trader's order, and under the global switch any order, is refused with the reason that
-- the kill switch is active; after `unkill_all` no trader is killed.
pub kill_switches :
    (e : RiskEngine) (order : Order) (t : ℕ)
    → ((check_order (kill_trader order.trader_id e) order).0 ≡ kill_switch_active)
      × ((check_order (kill_all e) order).0 ≡ kill_switch_active)
      × (is_killed (unkill_all e) t ≡ false)
unfolding kill_all unkill_all is_killed state_of
kill_switches e order t = (
  stopped (kill_trader order.trader_id e) order (killed-kill_trader e order.trader_id),
  stopped (kill_all e) order refl,
  is_killed-unkill_states e.trader_states t,
)
