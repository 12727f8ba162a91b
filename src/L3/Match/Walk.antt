-- ===== src/L3/Match/Walk.antt =====
-- The two loops of `match_against`, and one loop over the orders within the limit in price-time
-- priority.
use mathlib.Core.List.{append_assoc}
use hfttoolset.Base.{
  ℕ, ℤ, pos, ltb_ℤ, ◌≤ℤ◌, ◌≡◌, refl, sym, ap, ◌∙◌, inl, inr, [], ◌∷◌, ◌++◌, All, if◌then◌else◌,
  Option, none, some, Bool-cases, not_ltb_ℤ, ltb_ℤ_lt, ◌<ℤ◌, le_of_not_ltb_ℤ, ltb_ℤ_lt, ◌<ℤ◌,
}
use hfttoolset.Types.{Side, Symbol, Order}
use hfttoolset.L3.State.{L3Order, OrderQueue, PriceLevels}
use hfttoolset.L3.Match.{
  Matching, beyond_limit, keep_order, keep_level, match_order, match_queue, match_against,
}
use hfttoolset.L3.Valid.{IsResting, IsLevel, flat}

-- The orders that the incoming order may trade with, and the levels beyond its limit.
unfoldable pub crossing : Order → PriceLevels → OrderQueue
crossing inc [] = []
crossing inc ((p, os) ∷ ls) = if beyond_limit inc p then [] else os ++ crossing inc ls

unfoldable pub out_of_reach : Order → PriceLevels → PriceLevels
out_of_reach inc [] = []
out_of_reach inc ((p, os) ∷ ls) = if beyond_limit inc p then (p, os) ∷ ls else out_of_reach inc ls

pub flat-crossing :
    (inc : Order) (ls : PriceLevels) → crossing inc ls ++ flat (out_of_reach inc ls) ≡ flat ls
unfolding crossing out_of_reach
flat-crossing inc [] = refl
flat-crossing inc ((p, os) ∷ ls) = elim (Bool-cases (beyond_limit inc p)) [
  | inl e ↦ rw e
  | inr e ↦ rw e (append_assoc os _ _ ∙ ap (◌++◌ os) (flat-crossing inc ls))
]

flat-keep_level :
    (p : ℤ) (os : OrderQueue) (ls : PriceLevels) → flat (keep_level p os ls) ≡ os ++ flat ls
flat-keep_level p [] ls = refl
flat-keep_level p (o ∷ os) ls = refl

keep_order-append :
    (r : Option L3Order) (xs ys : OrderQueue) → keep_order r xs ++ ys ≡ keep_order r (xs ++ ys)
keep_order-append none xs ys = refl
keep_order-append (some o) xs ys = refl

module _ (symbol : Symbol) (inc : Order) (ts : ℕ) where
  unfoldable pub walk : OrderQueue → Matching → OrderQueue × Matching
  walk [] m = ([], m)
  walk (o ∷ os) m =
      let (left, m') = match_order symbol inc ts o.price o m in
      let (os', m'') = walk os m' in
      if ltb_ℤ (pos 0) m.remaining then (keep_order left os', m'') else (o ∷ os, m)

  pub walk_stop : (os : OrderQueue) (m : Matching) → m.remaining ≤ℤ pos 0 → walk os m ≡ (os, m)
  unfolding walk
  walk_stop [] m h = refl
  walk_stop (o ∷ os) m h = rw (not_ltb_ℤ (pos 0) m.remaining h)

  pub walk_nil : (m : Matching) → walk [] m ≡ ([], m)
  unfolding walk
  walk_nil m = refl

  pub walk_next :
      (o : L3Order) (os : OrderQueue) (m : Matching)
      → pos 0 <ℤ m.remaining
      → let (left, m') = match_order symbol inc ts o.price o m in
        let (os', m'') = walk os m' in walk (o ∷ os) m ≡ (keep_order left os', m'')
  unfolding walk
  walk_next o os m h = rw (ltb_ℤ_lt (pos 0) m.remaining h)

  pub match_queue-walk :
      (s : Side) (p : ℤ) (os : OrderQueue) (m : Matching)
      → All (IsResting s p) os
      → match_queue symbol inc ts p os m ≡ walk os m
  unfolding walk match_queue
  match_queue-walk s p [] m v = refl
  match_queue-walk s p (o ∷ os) m v =
      rw (match_queue-walk s p os (match_order symbol inc ts p o m).1 v.1) (rw (← v.0.at_price))

  walk-append :
      (xs ys : OrderQueue) (m : Matching)
      → walk (xs ++ ys) m ≡ ((walk xs m).0 ++ (walk ys (walk xs m).1).0, (walk ys (walk xs m).1).1)
  unfolding walk
  walk-append [] ys m = refl
  walk-append (o ∷ os) ys m = elim (Bool-cases (ltb_ℤ (pos 0) m.remaining)) [
    | inl e ↦
        simp (e, walk-append os ys (match_order symbol inc ts o.price o m).1, keep_order-append)
    | inr e ↦ rw (e, walk_stop ys m (le_of_not_ltb_ℤ (pos 0) m.remaining e))
  ]

  pub match_against-walk :
      (s : Side) (ls : PriceLevels) (m : Matching)
      → All (IsLevel s) ls
      → let (ls', m') = match_against symbol inc ts ls m in
        let (os, m'') = walk (crossing inc ls) m in
        (flat ls' ≡ os ++ flat (out_of_reach inc ls)) × (m' ≡ m'')
  unfolding match_against crossing out_of_reach walk
  match_against-walk s [] m v = (refl, refl)
  match_against-walk s ((p, os) ∷ ls) m v = elim (Bool-cases (ltb_ℤ (pos 0) m.remaining)) [
    | inr e ↦
        rw (e, walk_stop (crossing inc ((p, os) ∷ ls)) m (le_of_not_ltb_ℤ (pos 0) m.remaining e))
          (sym (flat-crossing inc ((p, os) ∷ ls)), refl)
    | inl e ↦ elim (Bool-cases (beyond_limit inc p)) [
      | inl b ↦ rw (e, b) (refl, refl)
      | inr b ↦
          let ih = match_against-walk s ls (walk os m).1 v.1 in
          rw
            (
              e,
              b,
              match_queue-walk s p os m v.0.1,
              flat-keep_level,
              walk-append os (crossing inc ls) m,
            )
            (ap (◌++◌ (walk os m).0) ih.0 ∙ sym (append_assoc (walk os m).0 _ _), ih.1)
    ]
  ]
