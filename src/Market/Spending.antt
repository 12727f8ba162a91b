-- ===== src/Market/Spending.antt =====
-- Price-time priority in the simple book: the orders that an incoming order crosses, and what its
-- quantity is spent on.
use hfttoolset.Base.{
  ℤ, pos, ltb_ℤ, leb_ℤ, min_ℤ, ◌≤ℤ◌, ◌+ℤ◌, ◌-ℤ◌, ◌≡◌, refl, sym, ap, ◌∙◌, inl, inr, Bool, true,
  false, not, List, [], ◌∷◌, ◌++◌, All, if◌then◌else◌, Bool-cases, int_laws, arith, min_ℤ_right,
  min_ℤ_least, le_of_not_ltb_ℤ, le-or-lt, min_ℤ_bounds, ◌⊎◌,
}
use hfttoolset.Types.{Side, buy, sell, limit, market, OrderType, BookOrder}
use hfttoolset.Market.{Queue, Levels, comes_before, stops_at, other_side}
use hfttoolset.L3.Match.Fills.{Fill}

-- An order that rests, at its price.
abbrev pub Offer : Type 0
Offer = ℤ × BookOrder

abbrev pub offers_at : ℤ → Queue → List Offer
offers_at p [] = []
offers_at p ((k, o) ∷ os) = (p, o) ∷ offers_at p os

-- A market order takes any price, a limit order none worse than its own.
abbrev takes_at : OrderType → Side → ℤ → ℤ → Bool
takes_at market s limit_price p = true
takes_at limit buy limit_price p = leb_ℤ p limit_price
takes_at limit sell limit_price p = leb_ℤ limit_price p

abbrev pub takes : BookOrder → ℤ → Bool
takes inc p = takes_at inc.type inc.side inc.price p

-- The orders at the prices that the incoming order takes, wherever in the book they are.
abbrev pub crossed : BookOrder → Levels → List Offer
crossed inc [] = []
crossed inc ((p, os) ∷ ls) =
    let rest = crossed inc ls in if takes inc p then offers_at p os ++ rest else rest

-- A quantity is spent on the offers in turn, each to its full quantity or to what is left.
abbrev pub spend : ℤ → List Offer → List Fill
spend n [] = []
spend n ((p, o) ∷ os) =
    let part = min_ℤ n o.qty in
    let fill : Fill = record { resting_id = o.id; price = p; qty = part } in
    let rest = spend (n -ℤ part) os in if ltb_ℤ (pos 0) n then fill ∷ rest else []

abbrev pub offered : List Offer → ℤ
offered [] = pos 0
offered ((p, o) ∷ os) = o.qty +ℤ offered os

abbrev pub unspent : ℤ → List Offer → ℤ
unspent n [] = n
unspent n ((p, o) ∷ os) =
    let rest = unspent (n -ℤ min_ℤ n o.qty) os in if ltb_ℤ (pos 0) n then rest else n

-- The levels are in the order of the map, the best price first.
abbrev pub IsOrdered : Side → Levels → Type 0
IsOrdered s [] = Unit
IsOrdered s ((p, os) ∷ ls) = All (λ l. comes_before s p l.0 ≡ true) ls × IsOrdered s ls

pub spend_nothing : (n : ℤ) (os : List Offer) → ltb_ℤ (pos 0) n ≡ false → spend n os ≡ []
spend_nothing n [] h = refl
spend_nothing n ((p, o) ∷ os) h = rw h refl

pub unspent_nothing : (n : ℤ) (os : List Offer) → ltb_ℤ (pos 0) n ≡ false → unspent n os ≡ n
unspent_nothing n [] h = refl
unspent_nothing n ((p, o) ∷ os) h = rw h refl

pub spend-append :
    (n : ℤ) (xs ys : List Offer) → spend n (xs ++ ys) ≡ spend n xs ++ spend (unspent n xs) ys
spend-append n [] ys = refl
spend-append n ((p, o) ∷ xs) ys = elim (Bool-cases (ltb_ℤ (pos 0) n)) [
  | inl e ↦
      let fill : Fill = record { resting_id = o.id; price = p; qty = min_ℤ n o.qty } in
      rw e (ap (λ l. fill ∷ l) (spend-append (n -ℤ min_ℤ n o.qty) xs ys))
  | inr e ↦ rw e (sym (spend_nothing n ys e))
]

pub unspent-append : (n : ℤ) (xs ys : List Offer) → unspent n (xs ++ ys) ≡ unspent (unspent n xs) ys
unspent-append n [] ys = refl
unspent-append n ((p, o) ∷ xs) ys = elim (Bool-cases (ltb_ℤ (pos 0) n)) [
  | inl e ↦ rw e (unspent-append (n -ℤ min_ℤ n o.qty) xs ys)
  | inr e ↦ rw e (sym (unspent_nothing n ys e))
]

offered_pos : (os : List Offer) → All (λ o. pos 0 ≤ℤ o.1.qty) os → pos 0 ≤ℤ offered os
offered_pos [] a = omega arith
offered_pos ((p, o) ∷ os) a = omega (int_laws, a.0, offered_pos os a.1)

min_split :
    (n q t : ℤ)
    → pos 0 ≤ℤ n
    → pos 0 ≤ℤ q
    → pos 0 ≤ℤ t
    → n -ℤ min_ℤ n q -ℤ min_ℤ (n -ℤ min_ℤ n q) t ≡ n -ℤ min_ℤ n (q +ℤ t)
min_split n q t hn hq ht = elim (le-or-lt n q) [
  | inl g ↦
      rw
        (
          min_ℤ_least n q g,
          min_ℤ_least n (q +ℤ t) (omega (int_laws, g, ht)),
          min_ℤ_least (n -ℤ n) t (omega (int_laws, ht)),
        )
        (omega int_laws)
  | inr g ↦ elim (le-or-lt (n -ℤ q) t) [
    | inl k ↦
        rw
          (
            min_ℤ_right n q (omega (arith, g)),
            min_ℤ_least n (q +ℤ t) (omega (int_laws, k)),
            min_ℤ_least (n -ℤ q) t k,
          )
          (omega int_laws)
    | inr k ↦
        rw
          (
            min_ℤ_right n q (omega (arith, g)),
            min_ℤ_right n (q +ℤ t) (omega (int_laws, k)),
            min_ℤ_right (n -ℤ q) t (omega (arith, k)),
          )
          (omega int_laws)
  ]
]

pub unspent_lem :
    (n : ℤ) (os : List Offer)
    → pos 0 ≤ℤ n
    → All (λ o. pos 0 ≤ℤ o.1.qty) os
    → unspent n os ≡ n -ℤ min_ℤ n (offered os)
unspent_lem n [] h a = rw (min_ℤ_right n (pos 0) h) (omega int_laws)
unspent_lem n ((p, o) ∷ os) h a =
    let all = offered_pos os a.1 in
    elim (Bool-cases (ltb_ℤ (pos 0) n)) [
      | inl e ↦ rw e (
          unspent_lem (n -ℤ min_ℤ n o.qty) os (omega (int_laws, (min_ℤ_bounds n o.qty).0)) a.1
          ∙ min_split n o.qty (offered os) h a.0 all)
      | inr e ↦
          let le = le_of_not_ltb_ℤ (pos 0) n e in
          let whole : n ≤ℤ o.qty +ℤ offered os = omega (int_laws, le, a.0, all) in
          rw (e, min_ℤ_least n (o.qty +ℤ offered os) whole) (omega (int_laws, h, le))
    ]

market_or_limit : (t : OrderType) → (t ≡ market) ⊎ (t ≡ limit)
market_or_limit market = inl refl
market_or_limit limit = inr refl

buy_or_sell : (s : Side) → (s ≡ buy) ⊎ (s ≡ sell)
buy_or_sell buy = inl refl
buy_or_sell sell = inr refl

pub takes_lem : (inc : BookOrder) (p : ℤ) → stops_at inc p ≡ not (takes inc p)
unfolding stops_at
takes_lem inc p = elim (market_or_limit inc.type) [
  | inl h ↦ rw h refl
  | inr h ↦ elim (buy_or_sell inc.side) [
    | inl k ↦ rw (h, k) (ground arith)
    | inr k ↦ rw (h, k) (ground arith)
  ]
]

not_taken_at :
    (t : OrderType) (s : Side) (l p q : ℤ)
    → takes_at t s l p ≡ false
    → comes_before (other_side s) p q ≡ true
    → takes_at t s l q ≡ false
not_taken_at market s l p q h a = h
not_taken_at limit buy l p q h a = ground (arith, h, a)
not_taken_at limit sell l p q h a = ground (arith, h, a)

not_taken :
    (inc : BookOrder) (p q : ℤ)
    → takes inc p ≡ false
    → comes_before (other_side inc.side) p q ≡ true
    → takes inc q ≡ false
not_taken inc p q h a = not_taken_at inc.type inc.side inc.price p q h a

-- Beyond a price that the order does not take, there is none that it takes.
pub none_crossed :
    (inc : BookOrder) (p : ℤ) (ls : Levels)
    → takes inc p ≡ false
    → All (λ l. comes_before (other_side inc.side) p l.0 ≡ true) ls
    → crossed inc ls ≡ []
none_crossed inc p [] h a = refl
none_crossed inc p ((q, os) ∷ ls) h a = rw (not_taken inc p q h a.0) (none_crossed inc p ls h a.1)
