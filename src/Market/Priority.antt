-- ===== src/Market/Priority.antt =====
-- `matchIncoming` against an independent description of price-time priority.
use mathlib.Core.List.{append-nil, append_assoc, map-append}
use hfttoolset.Base.{
  ℕ, ℤ, pos, ltb_ℤ, eqb_ℤ, min_ℤ, ◌≤ℤ◌, ◌-ℤ◌, ◌≡◌, refl, sym, ap, ◌∙◌, subst, inl, inr, true, false,
  not, ◌&&◌, List, [], ◌∷◌, ◌++◌, map, All, Bool-cases, int_laws, parts_of_eq, arith, ℕ_discrete,
  not_ltb_ℤ, min_ℤ_right, min_ℤ_least, eqb_ℤ_refl, le-or-lt, ap₂,
}
use hfttoolset.Base.Assoc.{erase}
use hfttoolset.Types.{Symbol, BookOrder}
use hfttoolset.Market.{
  Queue, Levels, SimpleBook, Fills, stops_at, next_level, fill_front, fill_queue, fill_levels_of,
  match_in_book, levels_of, other_side,
}
use hfttoolset.L3.Match.Fills.{fill_of}
use hfttoolset.Market.Spending.{
  Offer, offers_at, takes, crossed, spend, offered, unspent, IsOrdered, spend_nothing,
  unspent_nothing, spend-append, unspent-append, unspent_lem, takes_lem, none_crossed,
}

-- What the loops leave wanted and have traded, if they spend the quantity on these offers.
abbrev IsSpent : List Offer → Fills → Fills → Type 0
IsSpent os m m' =
    (map fill_of m'.trades ≡ map fill_of m.trades ++ spend m.left os)
    × (m'.left ≡ unspent m.left os)

nothing-IsSpent : (os : List Offer) (m : Fills) → ltb_ℤ (pos 0) m.left ≡ false → IsSpent os m m
nothing-IsSpent os m h =
    rw (spend_nothing m.left os h, unspent_nothing m.left os h)
      (sym (append-nil (map fill_of m.trades)), refl)

then-IsSpent :
    (xs ys : List Offer) (a b c : Fills) → IsSpent xs a b → IsSpent ys b c → IsSpent (xs ++ ys) a c
then-IsSpent xs ys a b c (h, k) (f, g) = (
  f
      ∙ ap₂ (λ l n. l ++ spend n ys) h k
      ∙ append_assoc (map fill_of a.trades) (spend a.left xs) (spend (unspent a.left xs) ys)
      ∙ ap (λ l. map fill_of a.trades ++ l) (sym (spend-append a.left xs ys)),
  g ∙ ap (λ n. unspent n ys) k ∙ sym (unspent-append a.left xs ys),
)

took_all : (n q : ℤ) → eqb_ℤ (q -ℤ min_ℤ n q) (pos 0) ≡ false → min_ℤ n q ≡ n
took_all n q h = elim (le-or-lt n q) [
  | inl g ↦ min_ℤ_least n q g
  | inr g ↦
      let same = min_ℤ_right n q (omega (arith, g)) in
      let none : eqb_ℤ (q -ℤ min_ℤ n q) (pos 0) ≡ true =
        rw same (eqb_ℤ_refl (q -ℤ q) (pos 0) (omega int_laws)) in
      cc
]

none_left : (n m : ℤ) → m ≡ n → ltb_ℤ (pos 0) (n -ℤ m) ≡ false
none_left n m h = not_ltb_ℤ (pos 0) (n -ℤ m) (omega (int_laws, parts_of_eq _ _ h))

-- A queue that is not used up leaves nothing wanted.
abbrev IsWanted : Queue → Fills → Type 0
IsWanted [] m = Unit
IsWanted (o ∷ os) m = ltb_ℤ (pos 0) m.left ≡ false

module _ (symbol : Symbol) (inc : BookOrder) (ts : ℕ) where
  front-IsSpent :
      (p : ℤ) (k : ℕ) (o : BookOrder) (m : Fills)
      → ltb_ℤ (pos 0) m.left ≡ true
      → IsSpent ((p, o) ∷ []) m (fill_front symbol inc ts p o (min_ℤ m.left o.qty) m)
  unfolding fill_front
  front-IsSpent p k o m h = rw (h, map-append) (refl, refl)

  next-IsSpent :
      (p : ℤ) (os : Queue) (ls : Levels) (xs : List Offer) (a m : Fills) (rest : Levels × Fills)
      → IsSpent xs m rest.1
      → IsWanted os m
      → IsSpent xs m (next_level p os rest ls m).1
  next-IsSpent p [] ls xs a m rest h w = h
  next-IsSpent p (o ∷ os) ls xs a m rest h w = nothing-IsSpent xs m w

  -- The three ways that the inner loop goes on at an order.
  module _ (p : ℤ) (k : ℕ) (o : BookOrder) (os : Queue) (m : Fills) where
    abbrev pub part : ℤ
    part = min_ℤ m.left o.qty

    abbrev pub after_front : Fills
    after_front = fill_front symbol inc ts p o part m

    abbrev pub without_front : Fills
    without_front = record after_front { index = erase ℕ_discrete o.id after_front.index }

    pub queue_stops :
        ltb_ℤ (pos 0) m.left ≡ false → fill_queue symbol inc ts p ((k, o) ∷ os) m ≡ ((k, o) ∷ os, m)
    unfolding fill_queue
    queue_stops e = rw e refl

    pub queue_pops :
        ltb_ℤ (pos 0) m.left ≡ true
        → eqb_ℤ (o.qty -ℤ part) (pos 0) ≡ true
        → fill_queue symbol inc ts p ((k, o) ∷ os) m ≡ fill_queue symbol inc ts p os without_front
    unfolding fill_queue
    queue_pops e f = rw (e, f) refl

    pub queue_keeps :
        ltb_ℤ (pos 0) m.left ≡ true
        → eqb_ℤ (o.qty -ℤ part) (pos 0) ≡ false
        → fill_queue symbol inc ts p ((k, o) ∷ os) m
          ≡ ((k, record o { qty = o.qty -ℤ part }) ∷ os, after_front)
    unfolding fill_queue
    queue_keeps e f = rw (e, f) refl

  abbrev IsQueueSpent : ℤ → Queue → Fills → Queue × Fills → Type 0
  IsQueueSpent p os m r = IsSpent (offers_at p os) m r.1 × IsWanted r.0 r.1

  left-fill_front :
      (p n : ℤ) (o : BookOrder) (m : Fills) → (fill_front symbol inc ts p o n m).left ≡ m.left -ℤ n
  unfolding fill_front
  left-fill_front p n o m = refl

  queue-IsSpent :
      (p : ℤ) (os : Queue) (m : Fills) → IsQueueSpent p os m (fill_queue symbol inc ts p os m)
  unfolding fill_queue
  queue-IsSpent p [] m = ((sym (append-nil (map fill_of m.trades)), refl), tt)
  queue-IsSpent p ((k, o) ∷ os) m = elim (Bool-cases (ltb_ℤ (pos 0) m.left)) [
    | inr e ↦
        subst (IsQueueSpent p ((k, o) ∷ os) m) (sym (queue_stops p k o os m e))
          (nothing-IsSpent (offers_at p ((k, o) ∷ os)) m e, e)
    | inl e ↦
        let m' = after_front p k o os m in
        let front = front-IsSpent p k o m e in
        elim (Bool-cases (eqb_ℤ (o.qty -ℤ part p k o os m) (pos 0))) [
          | inr f ↦
              let spent : ltb_ℤ (pos 0) m'.left ≡ false =
                ap (ltb_ℤ (pos 0)) (left-fill_front p (part p k o os m) o m)
                ∙ none_left m.left (part p k o os m) (took_all m.left o.qty f) in
              subst (IsQueueSpent p ((k, o) ∷ os) m) (sym (queue_keeps p k o os m e f)) (
                then-IsSpent ((p, o) ∷ []) (offers_at p os) m m' m' front
                    (nothing-IsSpent (offers_at p os) m' spent),
                spent,
              )
          | inl f ↦
              let m1 = without_front p k o os m in
              let (rest, w) = queue-IsSpent p os m1 in
              subst (IsQueueSpent p ((k, o) ∷ os) m) (sym (queue_pops p k o os m e f)) (
                then-IsSpent ((p, o) ∷ []) (offers_at p os) m m1
                    (fill_queue symbol inc ts p os m1).1 front rest,
                w,
              )
        ]
  ]

  -- The ways that the outer loop goes on at a level.
  module _ (p : ℤ) (os : Queue) (ls : Levels) (m : Fills) where
    pub levels_stop :
        (ltb_ℤ (pos 0) m.left && not (stops_at inc p)) ≡ false
        → fill_levels_of symbol inc ts ((p, os) ∷ ls) m ≡ ((p, os) ∷ ls, m)
    unfolding fill_levels_of
    levels_stop e = rw e refl

    pub levels_go :
        (ltb_ℤ (pos 0) m.left && not (stops_at inc p)) ≡ true
        → let r = fill_queue symbol inc ts p os m in
          fill_levels_of symbol inc ts ((p, os) ∷ ls) m
          ≡ next_level p r.0 (fill_levels_of symbol inc ts ls r.1) ls r.1
    unfolding fill_levels_of
    levels_go e = rw e refl

  crossed_not :
      (p : ℤ) (os : Queue) (ls : Levels)
      → takes inc p ≡ false
      → crossed inc ((p, os) ∷ ls) ≡ crossed inc ls
  crossed_not p os ls h = rw h refl

  crossed_yes :
      (p : ℤ) (os : Queue) (ls : Levels)
      → takes inc p ≡ true
      → crossed inc ((p, os) ∷ ls) ≡ offers_at p os ++ crossed inc ls
  crossed_yes p os ls h = rw h refl

  levels-IsSpent :
      (ls : Levels) (m : Fills)
      → IsOrdered (other_side inc.side) ls
      → IsSpent (crossed inc ls) m (fill_levels_of symbol inc ts ls m).1
  unfolding fill_levels_of
  levels-IsSpent [] m s = (sym (append-nil (map fill_of m.trades)), refl)
  levels-IsSpent ((p, os) ∷ ls) m (a, s) = elim (Bool-cases (ltb_ℤ (pos 0) m.left)) [
    | inr e ↦
        subst (λ r. IsSpent (crossed inc ((p, os) ∷ ls)) m r.1)
          (sym (levels_stop p os ls m (ground (arith, e))))
          (nothing-IsSpent (crossed inc ((p, os) ∷ ls)) m e)
    | inl e ↦ elim (Bool-cases (takes inc p)) [
      | inr f ↦
          let stops = takes_lem inc p ∙ ap not f in
          let none = crossed_not p os ls f ∙ none_crossed inc p ls f a in
          subst (λ r. IsSpent (crossed inc ((p, os) ∷ ls)) m r.1)
            (sym (levels_stop p os ls m (rw (e, stops) refl)))
            (subst (λ xs. IsSpent xs m m) (sym none)
              (sym (append-nil (map fill_of m.trades)), refl))
      | inl f ↦
          let stops = takes_lem inc p ∙ ap not f in
          let (os', m') = fill_queue symbol inc ts p os m in
          let (here, w) = queue-IsSpent p os m in
          let rest = fill_levels_of symbol inc ts ls m' in
          subst (λ r. IsSpent (crossed inc ((p, os) ∷ ls)) m r.1)
            (sym (levels_go p os ls m (rw (e, stops) refl)))
            (subst (λ xs. IsSpent xs m (next_level p os' rest ls m').1)
              (sym (crossed_yes p os ls f))
              (then-IsSpent (offers_at p os) (crossed inc ls) m m' (next_level p os' rest ls m').1
                here (next-IsSpent p os' ls (crossed inc ls) m m' rest (levels-IsSpent ls m' s) w)))
    ]
  ]

-- The trades and what is left are those of the description.
pub match_in_book-spends :
    (b : SimpleBook) (inc : BookOrder) (ts : ℕ)
    → let ls = levels_of (other_side inc.side) b in
      let r = match_in_book inc ts b in
      IsOrdered (other_side inc.side) ls
      → pos 0 ≤ℤ inc.qty
      → All (λ o. pos 0 ≤ℤ o.1.qty) (crossed inc ls)
      → (map fill_of r.1 ≡ spend inc.qty (crossed inc ls))
        × (r.2 ≡ inc.qty -ℤ min_ℤ inc.qty (offered (crossed inc ls)))
unfolding match_in_book
match_in_book-spends b inc ts s h a =
    let start : Fills = record { index = b.order_index; left = inc.qty; trades = [] } in
    let ls = levels_of (other_side inc.side) b in
    let (x, y) = levels-IsSpent b.symbol inc ts ls start s in
    (x, y ∙ unspent_lem inc.qty (crossed inc ls) h a)
