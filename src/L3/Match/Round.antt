-- ===== src/L3/Match/Round.antt =====
-- One round of the inner loop, at an order that rests: it is used up, or it takes the whole
-- quantity that was left.
use hfttoolset.Base.{
  ℕ, ℤ, pos, ◌≤ℤ◌, ◌<ℤ◌, ◌-ℤ◌, ◌+ℤ◌, ◌≡◌, ◌⊎◌, inl, inr, refl, arith, int_laws, parts_of_eq, none,
  some, Bool-cases, leb_ℤ, ltb_ℤ, true, false, leb→le, ap, eqb_ℤ, ◌&&◌, min_ℤ, min_ℤ_bounds,
  min_ℤ_right, min_ℤ_left, le-or-lt, eqb_ℤ_refl, eqb_ℤ_ne, ◌∙◌, pos_part, neg_part,
}
use hfttoolset.Types.{Side, Symbol, Order}
use hfttoolset.L3.State.{L3Order, Tally}
use hfttoolset.L3.Match.{Matching, available, reduce, replenish, forget, record_fill, match_order}
use hfttoolset.L3.Valid.{IsResting}

-- What is left of `o` after a fill of `n`.
pub record IsRest (o : L3Order) (n : ℤ) (r : L3Order) : Type 0 where
  pub same_id : r.id ≡ o.id
  pub same_trader : r.trader_id ≡ o.trader_id
  pub same_side : r.side ≡ o.side
  pub same_price : r.price ≡ o.price
  pub shown : pos 0 ≤ℤ r.visible_qty
  pub hidden : pos 0 ≤ℤ r.hidden_qty
  pub left : available r ≡ available o -ℤ n

shown_first :
    {s : Side} {p : ℤ} (o : L3Order) (n : ℤ)
    → IsResting s p o
    → leb_ℤ n o.visible_qty ≡ true
    → IsRest o n (record o { filled_qty = o.filled_qty +ℤ n; visible_qty = o.visible_qty -ℤ n })
shown_first o n v e = record {
  same_id = refl;
  same_trader = refl;
  same_side = refl;
  same_price = refl;
  shown = omega (int_laws, leb→le _ _ e);
  hidden = v.hidden;
  left = omega int_laws;
}

hidden_too :
    {s : Side} {p : ℤ} (o : L3Order) (n : ℤ)
    → IsResting s p o
    → n ≤ℤ available o
    → leb_ℤ n o.visible_qty ≡ false
    → IsRest o n (record o {
      filled_qty = o.filled_qty +ℤ n;
      visible_qty = pos 0;
      hidden_qty = o.hidden_qty -ℤ (n -ℤ o.visible_qty);
    })
hidden_too o n v k e = record {
  same_id = refl;
  same_trader = refl;
  same_side = refl;
  same_price = refl;
  shown = omega arith;
  hidden = omega int_laws;
  left = omega int_laws;
}

reduce-IsRest :
    {s : Side} {p : ℤ} (o : L3Order) (n : ℤ)
    → IsResting s p o
    → n ≤ℤ available o
    → IsRest o n (reduce n o)
unfolding reduce
reduce-IsRest o n v k = elim (Bool-cases (leb_ℤ n o.visible_qty)) [
  | inl e ↦ rw e (shown_first o n v e)
  | inr e ↦ rw e (hidden_too o n v k e)
]

replenished :
    {o r : L3Order} {n : ℤ} (k : ℤ)
    → IsRest o n r
    → pos 0 ≤ℤ k
    → k ≤ℤ r.hidden_qty
    → r.visible_qty ≡ pos 0
    → IsRest o n (record r { visible_qty = k; hidden_qty = r.hidden_qty -ℤ k })
replenished {o} {r} {n} k v h l e = record {
  same_id = v.same_id;
  same_trader = v.same_trader;
  same_side = v.same_side;
  same_price = v.same_price;
  shown = h;
  hidden = omega int_laws;
  left =
      omega (
        int_laws,
        ap pos_part e,
        ap neg_part e,
        parts_of_eq (available r) (available o -ℤ n) v.left,
      );
}

replenish-IsRest : {o : L3Order} {n : ℤ} (r : L3Order) → IsRest o n r → IsRest o n (replenish r)
unfolding replenish
replenish-IsRest r v =
    elim (Bool-cases (eqb_ℤ r.visible_qty (pos 0) && ltb_ℤ (pos 0) r.hidden_qty && r.is_iceberg)) [
      | inl e ↦ rw e (
          replenished (min_ℤ r.hidden_qty (pos 100)) v (ground arith)
            (min_ℤ_bounds r.hidden_qty (pos 100)).0 (ground arith))
      | inr e ↦ rw e v
    ]

-- What is left after a fill rests as before, in quantity and hidden quantity.
pub fill-IsRest :
    {s : Side} {p : ℤ} (o : L3Order) (n : ℤ)
    → IsResting s p o
    → n ≤ℤ available o
    → IsRest o n (replenish (reduce n o))
fill-IsRest o n v k = replenish-IsRest (reduce n o) (reduce-IsRest o n v k)

forget_congr : (o r : L3Order) (t : Tally) → r.id ≡ o.id → r.side ≡ o.side → forget r t ≡ forget o t
unfolding forget
forget_congr o r t e f = rw (e, f)

nothing_left : (a n r : ℤ) → n ≡ a → r ≡ a -ℤ n → r ≡ pos 0
nothing_left a n r e f = omega int_laws

something_left : (a n r : ℤ) → n <ℤ a → r ≡ a -ℤ n → pos 0 <ℤ r
something_left a n r e f = omega int_laws

still-IsResting :
    {s : Side} {p : ℤ} {o r : L3Order} {n : ℤ}
    → IsResting s p o
    → n <ℤ available o
    → IsRest o n r
    → IsResting s p r
still-IsResting {o} {r} {n} v lt rest = record {
  on_side = rest.same_side ∙ v.on_side;
  at_price = rest.same_price ∙ v.at_price;
  shown = rest.shown;
  hidden = rest.hidden;
  open_qty = something_left (available o) n (available r) lt rest.left;
}

module _ (symbol : Symbol) (incoming : Order) (ts : ℕ) where
  -- The fill of a round.
  abbrev pub round_fill : ℤ → L3Order → Matching → Matching
  round_fill price o m = record_fill symbol incoming ts price o (min_ℤ m.remaining (available o)) m

  abbrev pub UsedUp : ℤ → L3Order → Matching → Type 0
  UsedUp price o m =
      (available o ≤ℤ m.remaining)
      × (match_order symbol incoming ts price o m
          ≡ (none, record (round_fill price o m) { tally = forget o (round_fill price o m).tally }))

  abbrev pub TookAll : Side → ℤ → L3Order → Matching → Type 0
  TookAll s price o m =
      (r : L3Order) × (m.remaining <ℤ available o)
      × IsResting s price r
      × IsRest o m.remaining r
      × (match_order symbol incoming ts price o m ≡ (some r, round_fill price o m))

  used_up :
      (s : Side) (price : ℤ) (o : L3Order) (m : Matching)
      → IsResting s price o
      → available o ≤ℤ m.remaining
      → match_order symbol incoming ts price o m
        ≡ (none, record (round_fill price o m) { tally = forget o (round_fill price o m).tally })
  unfolding match_order
  used_up s price o m v le =
      let n = min_ℤ m.remaining (available o) in
      let rest = replenish (reduce n o) in
      let r = fill-IsRest o n v (min_ℤ_bounds m.remaining (available o)).1 in
      let gone =
        nothing_left (available o) n (available rest) (min_ℤ_right m.remaining (available o) le)
          r.left in
      rw (eqb_ℤ_refl (available rest) (pos 0) gone)
        (rw (forget_congr o rest (round_fill price o m).tally r.same_id r.same_side))

  took_all :
      (s : Side) (price : ℤ) (o : L3Order) (m : Matching)
      → IsResting s price o
      → m.remaining <ℤ available o
      → IsRest o m.remaining (replenish (reduce m.remaining o))
      → match_order symbol incoming ts price o m
        ≡ (some (replenish (reduce m.remaining o)), round_fill price o m)
  unfolding match_order
  took_all s price o m v lt r = rw (min_ℤ_left m.remaining (available o) lt) (
      rw (
        eqb_ℤ_ne (pos 0) (available (replenish (reduce m.remaining o)))
          (something_left _ _ _ lt r.left)))

  pub match_order-cases :
      (s : Side) (price : ℤ) (o : L3Order) (m : Matching)
      → IsResting s price o
      → pos 0 <ℤ m.remaining
      → UsedUp price o m ⊎ TookAll s price o m
  unfolding match_order
  match_order-cases s price o m v h = elim (le-or-lt (available o) m.remaining) [
    | inl le ↦ inl (le, used_up s price o m v le)
    | inr lt ↦
        let r = fill-IsRest o m.remaining v (omega arith) in
        inr (
          replenish (reduce m.remaining o),
          lt,
          still-IsResting v lt r,
          r,
          took_all s price o m v lt r,
        )
  ]
