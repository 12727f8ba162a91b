-- ===== src/L3/Ladder/Place.antt =====
-- `add_resting_order` on the levels of a side is the placing of the specification.
use mathlib.Core.List.{append_assoc, map-append}
use hfttoolset.Base.{
  ℤ, eqb_ℤ, ◌≡◌, refl, sym, ap, subst, ◌∙◌, inl, inr, true, false, All, [], ◌∷◌, ◌++◌, map,
  Bool-cases, List, arith, eqb_ℤ_eq,
}
use hfttoolset.Types.{Side, buy, sell}
use hfttoolset.L3.State.{L3Order, OrderQueue, PriceLevels, before, find_level, set_level}
use hfttoolset.L3.Valid.{IsResting, IsLevel, IsSorted, flat}
use hfttoolset.L3.Insert.{
  queue_or_nil, find_level-none, find_level_here, find_level_next, find_level_nil, All-after,
}
use hfttoolset.L3.Ladder.{Entry, place}
use hfttoolset.L3.Ladder.Sweep.{entry}

abbrev NotBefore : Side → ℤ → L3Order → Type 0
NotBefore s p o = before s p o.price ≡ false

not_before_self : (s : Side) (p q : ℤ) → q ≡ p → before s p q ≡ false
not_before_self buy p q h = ground arith
not_before_self sell p q h = ground arith

-- Placed behind orders that are no worse.
place-append :
    (s : Side) (x : Entry) (os : OrderQueue) (es : List Entry)
    → All (NotBefore s x.price) os
    → place s x (map entry os ++ es) ≡ map entry os ++ place s x es
unfolding place
place-append s x [] es h = refl
place-append s x (o ∷ os) es h = rw h.0 (ap (λ l. entry o ∷ l) (place-append s x os es h.1))

-- Placed in front of worse levels.
place_first :
    (s : Side) (x : Entry) (ls : PriceLevels)
    → All (IsLevel s) ls
    → All (λ l. before s x.price l.0 ≡ true) ls
    → place s x (map entry (flat ls)) ≡ x ∷ map entry (flat ls)
unfolding place
place_first s x [] v h = refl
place_first s x ((q, []) ∷ ls) v h = absurd (v.0.0 refl)
place_first s x ((q, o ∷ os) ∷ ls) v h = rw (ap (before s x.price) v.0.1.0.at_price ∙ h.0) refl

NotBefore-queue :
    (s : Side) (p q : ℤ) (os : OrderQueue)
    → before s p q ≡ false
    → All (IsResting s q) os
    → All (NotBefore s p) os
NotBefore-queue s p q [] h v = tt
NotBefore-queue s p q (o ∷ os) h v =
    (ap (before s p) v.0.at_price ∙ h, NotBefore-queue s p q os h v.1)

flat_cons :
    (s : Side) (x : Entry) (q : ℤ) (os : OrderQueue) (ls : PriceLevels)
    → All (IsResting s q) os
    → before s x.price q ≡ false
    → place s x (map entry (flat ((q, os) ∷ ls))) ≡ map entry os ++ place s x (map entry (flat ls))
flat_cons s x q os ls v h =
    ap (place s x) (map-append entry os (flat ls))
    ∙ place-append s x os (map entry (flat ls)) (NotBefore-queue s x.price q os h v)

-- At its own level.
place_here :
    (s : Side) (o : L3Order) (q : ℤ) (os : OrderQueue) (ls : PriceLevels)
    → q ≡ o.price
    → All (IsLevel s) ((q, os) ∷ ls)
    → IsSorted s ((q, os) ∷ ls)
    → map entry ((os ++ o ∷ []) ++ flat ls) ≡ place s (entry o) (map entry (flat ((q, os) ∷ ls)))
place_here s o q os ls e v a =
    ap (map entry) (append_assoc os (o ∷ []) (flat ls))
    ∙ map-append entry os (o ∷ flat ls)
    ∙ ap (λ es. map entry os ++ es)
        (sym
          (place_first s (entry o) ls v.1 (subst (λ p. All (λ l. before s p l.0 ≡ true) ls) e a.0)))
    ∙ sym (flat_cons s (entry o) q os ls v.0.1 (not_before_self s o.price q e))

place-set_level_at :
    (s : Side) (o : L3Order) (qs : OrderQueue) (ls : PriceLevels)
    → qs ≡ queue_or_nil (find_level o.price ls)
    → All (IsLevel s) ls
    → IsSorted s ls
    → map entry (flat (set_level s o.price (qs ++ o ∷ []) ls))
      ≡ place s (entry o) (map entry (flat ls))
unfolding set_level place
place-set_level_at s o qs [] h v a = rw (h, find_level_nil o.price) refl
place-set_level_at s o qs ((q, os) ∷ ls) h v a = elim (Bool-cases (eqb_ℤ q o.price)) [
  | inl e ↦
      rw (h, find_level_here o.price q os ls e, e)
        (place_here s o q os ls (eqb_ℤ_eq q o.price e) v a)
  | inr e ↦
      let next = h ∙ ap queue_or_nil (find_level_next o.price q os ls e) in
      elim (Bool-cases (before s o.price q)) [
        | inl f ↦
            let worse = All-after s o.price q ls f a.0 in
            rw (e, f, next, find_level-none s o.price ls worse)
              (sym (place_first s (entry o) ((q, os) ∷ ls) v (f, worse)))
        | inr f ↦
            rw (e, f)
              (map-append entry os _
                ∙ ap (λ es. map entry os ++ es) (place-set_level_at s o qs ls next v.1 a.1)
                ∙ sym (flat_cons s (entry o) q os ls v.0.1 f))
      ]
]

-- A new order at the back of its price level is behind every order of the same or a better price.
pub place-set_level :
    (s : Side) (o : L3Order) (ls : PriceLevels)
    → All (IsLevel s) ls
    → IsSorted s ls
    → map entry (flat (set_level s o.price (queue_or_nil (find_level o.price ls) ++ o ∷ []) ls))
      ≡ place s (entry o) (map entry (flat ls))
place-set_level s o ls = place-set_level_at s o _ ls refl
