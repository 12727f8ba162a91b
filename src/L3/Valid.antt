-- ===== src/L3/Valid.antt =====
-- What holds of a book between calls.
use hfttoolset.Base.{
  ℕ, ℤ, pos, ◌≤ℤ◌, ◌<ℤ◌, ◌≡◌, true, ◌≢◌, ◌⊎◌, [], ◌∷◌, ◌++◌, All, Option, none, some, length, ◌%◌,
  ◌^◌, ℕ_discrete,
}
use hfttoolset.Base.Assoc.{find}
use hfttoolset.Types.{Side, buy, sell}
use hfttoolset.L3.State.{
  L3Order, OrderLocation, OrderQueue, PriceLevels, Tally, Book, before, find_order, levels,
  opposite,
}
use hfttoolset.L3.Match.{available}

-- An order that rests on side `s` at price `p`.
pub record IsResting (s : Side) (p : ℤ) (o : L3Order) : Type 0 where
  pub on_side : o.side ≡ s
  pub at_price : o.price ≡ p
  pub shown : pos 0 ≤ℤ o.visible_qty
  pub hidden : pos 0 ≤ℤ o.hidden_qty
  pub open_qty : pos 0 <ℤ available o

-- A level is no empty queue, and its orders rest at its price.
abbrev pub IsLevel : Side → ℤ × OrderQueue → Type 0
IsLevel s (p, os) = (os ≢ []) × All (IsResting s p) os

-- Best price first.
abbrev pub IsSorted : Side → PriceLevels → Type 0
IsSorted s [] = Unit
IsSorted s ((p, os) ∷ ls) = All (λ l. before s p l.0 ≡ true) ls × IsSorted s ls

-- Every bid is below every ask.
abbrev pub IsUncrossed : PriceLevels → PriceLevels → Type 0
IsUncrossed bids asks = All (λ b. All (λ a. b.0 <ℤ a.0) asks) bids

-- The orders of a side in price-time priority.
abbrev pub flat : PriceLevels → OrderQueue
flat [] = []
flat ((p, os) ∷ ls) = os ++ flat ls

abbrev pub IsDistinct : OrderQueue → Type 0
IsDistinct [] = Unit
IsDistinct (o ∷ os) = (find_order o.id os ≡ none) × IsDistinct os

abbrev pub location : L3Order → OrderLocation
location o = record { side = o.side; price = o.price; it = o.id }

-- Where the order `found` is, or else `other`.
abbrev pub locate : Option L3Order → Option OrderLocation → Option OrderLocation
locate none other = other
locate (some o) other = some (location o)

abbrev pub count_of : Side → Tally → ℕ
count_of buy t = t.bid_order_count
count_of sell t = t.ask_order_count

-- The order with id `i` on side `s`.
abbrev pub order_on : Side → Book → ℕ → Option L3Order
order_on s b i = find_order i (flat (levels s b))

pub record IsValid (b : Book) : Type 0 where
  pub level : (s : Side) → All (IsLevel s) (levels s b)
  pub sorted : (s : Side) → IsSorted s (levels s b)
  pub uncrossed : IsUncrossed b.bids b.asks
  pub distinct : (s : Side) → IsDistinct (flat (levels s b))
  pub disjoint : (s : Side) (i : ℕ) → (order_on s b i ≡ none) ⊎ (order_on (opposite s) b i ≡ none)
  pub indexed :
      (s : Side) (i : ℕ)
      → find ℕ_discrete i b.order_index
        ≡ locate (order_on s b i) (locate (order_on (opposite s) b i) none)
  pub counted : (s : Side) → count_of s b.tally ≡ length (flat (levels s b)) % 2 ^ 64
