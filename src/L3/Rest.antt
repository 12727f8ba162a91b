-- ===== src/L3/Rest.antt =====
-- `add_resting_order` keeps the book well formed, at a price that crosses nothing.
use hfttoolset.Base.{
  ℕ, ℤ, pos, ◌<ℤ◌, ◌≡◌, ◌≢◌, refl, sym, ◌∙◌, ◌⊎◌, true, [], ◌∷◌, ◌++◌, All, All-imp, All-zip,
  All-append, Option, none, some, length, ◌%◌, ◌^◌, if◌then◌else◌, ◌==◌, arith, int_laws,
  ℕ_discrete,
}
use hfttoolset.Base.Assoc.{find, insert, find-insert}
use hfttoolset.Types.{Side, buy, sell, Order}
use hfttoolset.L3.State.{
  L3Order, OrderLocation, OrderQueue, PriceLevels, Tally, Book, find_order, find_level, set_level,
  levels, opposite, count_up, inc64,
}
use hfttoolset.L3.Match.{beyond_limit}
use hfttoolset.L3.Query.{orders_at_price}
use hfttoolset.L3.Book.{resting_order, add_resting_order}
use hfttoolset.L3.Valid.{
  IsResting, IsLevel, IsUncrossed, IsDistinct, IsValid, flat, locate, count_of, order_on,
}
use hfttoolset.L3.Insert.{
  queue_or_nil, prices-set_level, IsSorted-set_level, IsLevel-set_level, IsResting-find_level,
  Inserts, set_level-Inserts, length-Inserts, find-Inserts, IsDistinct-Inserts,
}
use hfttoolset.L3.Update.{elsewhere, updated, IsUpdate, update-IsValid}
use hfttoolset.L3.Match.Index.{Indexes}

resting_order-IsResting :
    (order : Order) (remaining : ℤ) (ts k : ℕ)
    → pos 0 <ℤ remaining
    → IsResting order.side order.price (resting_order order remaining ts k)
unfolding resting_order
resting_order-IsResting order remaining ts k h = record {
  on_side = refl;
  at_price = refl;
  shown = omega arith;
  hidden = omega arith;
  open_qty = omega int_laws;
}

append-ne-nil : (xs : OrderQueue) (o : L3Order) → xs ++ o ∷ [] ≢ []
append-ne-nil [] o e = cc
append-ne-nil (x ∷ xs) o e = cc

pub absent-none : {a b : Option L3Order} → locate a (locate b none) ≡ none → (a ≡ none) × (b ≡ none)
absent-none {a} {b} h = ground arith

abbrev index_with : ℕ → OrderLocation → Tally → Tally
index_with i loc t = record t { order_index = insert ℕ_discrete i loc t.order_index }

count-count_up :
    (s : Side) (i : ℕ) (loc : OrderLocation) (t : Tally)
    → count_of s (count_up s (index_with i loc t)) ≡ inc64 (count_of s t)
unfolding count_up
count-count_up buy i loc t = refl
count-count_up sell i loc t = refl

other_count-count_up :
    (s : Side) (i : ℕ) (loc : OrderLocation) (t : Tally)
    → count_of (opposite s) (count_up s (index_with i loc t)) ≡ count_of (opposite s) t
unfolding count_up
other_count-count_up buy i loc t = refl
other_count-count_up sell i loc t = refl

-- No order of the other side is at a price that the order would trade at.
abbrev pub CrossesNothing : Order → Book → Type 0
CrossesNothing order b = All (λ l. beyond_limit order l.0 ≡ true) (levels (opposite order.side) b)

module _ (b : Book) (v : IsValid b) (order : Order) (remaining : ℤ) (ts : ℕ)
    (positive : pos 0 <ℤ remaining) (fresh : find ℕ_discrete order.id b.order_index ≡ none) where
  abbrev s : Side
  s = order.side

  abbrev queue : OrderQueue
  queue = queue_or_nil (find_level order.price (levels s b))

  abbrev l3 : L3Order
  l3 = resting_order order remaining ts (length queue % 2 ^ 32)

  abbrev new_levels : PriceLevels
  new_levels = set_level s order.price (queue ++ l3 ∷ []) (levels s b)

  abbrev new_tally : Tally
  new_tally = count_up s (record b.tally {
    order_index =
        insert ℕ_discrete order.id (record { side = s; price = order.price; it = order.id })
          b.order_index;
  })

  inserts : Inserts l3 (flat (levels s b)) (flat new_levels)
  inserts = set_level-Inserts s order.price l3 (levels s b) (v.sorted s)

  fresh_here :
      (find_order order.id (flat (levels s b)) ≡ none) × (order_on (opposite s) b order.id ≡ none)
  fresh_here = absent-none (sym (v.indexed s order.id) ∙ fresh)

  l3-id : l3.id ≡ order.id
  unfolding resting_order
  l3-id = refl

  find-new :
      (i : ℕ) → find_order i (flat new_levels) ≡ (if order.id == i then some l3 else order_on s b i)
  unfolding resting_order
  find-new i = find-Inserts l3 (flat (levels s b)) (flat new_levels) inserts i fresh_here.0

  IsDistinct-new : IsDistinct (flat new_levels)
  unfolding resting_order
  IsDistinct-new =
      IsDistinct-Inserts l3 (flat (levels s b)) (flat new_levels) inserts fresh_here.0
        (v.distinct s)

  disjoint-new :
      (i : ℕ) → (find_order i (flat new_levels) ≡ none) ⊎ (order_on (opposite s) b i ≡ none)
  disjoint-new i = ground (arith, find-new i, v.disjoint s i, fresh_here.1)

  index-new :
      new_tally.order_index
      ≡ insert ℕ_discrete order.id
          (record { side = s; price = order.price; it = order.id })
          b.order_index
  unfolding count_up
  index-new = ground arith

  indexed-new : Indexes new_tally (flat new_levels) (elsewhere s b)
  unfolding resting_order
  indexed-new i =
      rw (index-new, find-insert, find-new i) (ground (arith, v.indexed s i, fresh_here.1))

  counted-new : count_of s new_tally ≡ length (flat new_levels) % 2 ^ 64
  counted-new = omega (
    arith,
    count-count_up s order.id _ b.tally,
    v.counted s,
    length-Inserts l3 (flat (levels s b)) (flat new_levels) inserts,
  )

  other_count-new : count_of (opposite s) new_tally ≡ count_of (opposite s) b.tally
  other_count-new = other_count-count_up s order.id _ b.tally

  IsLevel-new : All (IsLevel s) new_levels
  IsLevel-new =
      let old = IsResting-find_level s order.price (levels s b) (v.level s) in
      let own = resting_order-IsResting order remaining ts (length queue % 2 ^ 32) positive in
      IsLevel-set_level s order.price (queue ++ l3 ∷ []) (levels s b)
        (append-ne-nil queue l3, All-append (IsResting s order.price) queue (l3 ∷ []) old (own, tt))
        (v.level s)

  rest-IsUpdate :
      IsUncrossed (updated s new_levels new_tally b).bids (updated s new_levels new_tally b).asks
      → IsUpdate s new_levels new_tally b
  rest-IsUpdate u = record {
    level = IsLevel-new;
    sorted = IsSorted-set_level s order.price (queue ++ l3 ∷ []) (levels s b) (v.sorted s);
    distinct = IsDistinct-new;
    uncrossed = u;
    disjoint = disjoint-new;
    indexed = indexed-new;
    counted = counted-new;
    other_count = other_count-new;
  }

above_bid :
    (order : Order) (p : ℤ) → order.side ≡ buy → beyond_limit order p ≡ true → order.price <ℤ p
unfolding beyond_limit
above_bid order p e h = ground arith

below_ask :
    (order : Order) (p : ℤ) → order.side ≡ sell → beyond_limit order p ≡ true → p <ℤ order.price
unfolding beyond_limit
below_ask order p e h = ground arith

IsUncrossed-new :
    (s : Side) (order : Order) (os : OrderQueue) (t : Tally) (b : Book)
    → order.side ≡ s
    → IsUncrossed b.bids b.asks
    → All (λ l. beyond_limit order l.0 ≡ true) (levels (opposite s) b)
    → let ls = set_level s order.price os (levels s b) in
      IsUncrossed (updated s ls t b).bids (updated s ls t b).asks
IsUncrossed-new buy order os t b e u c =
    prices-set_level (λ p. All (λ a. p <ℤ a.0) b.asks) buy order.price os b.bids
      (All-imp (λ l. beyond_limit order l.0 ≡ true) (λ a. order.price <ℤ a.0)
        (λ l. above_bid order l.0 e) b.asks c)
      u
IsUncrossed-new sell order os t b e u c =
    All-zip (λ l. beyond_limit order l.0 ≡ true) (λ l. All (λ a. l.0 <ℤ a.0) b.asks)
      (λ l. All (λ a. l.0 <ℤ a.0) (set_level sell order.price os b.asks))
      (λ l h k.
        prices-set_level (λ p. l.0 <ℤ p) sell order.price os b.asks (below_ask order l.0 e h) k)
      b.bids c u

pub orders_at_price_lem :
    (b : Book) (s : Side) (p : ℤ) → orders_at_price b s p ≡ queue_or_nil (find_level p (levels s b))
unfolding orders_at_price
orders_at_price_lem b s p = ground arith

-- A remainder that crosses nothing, under a new id, may rest.
pub add_resting_order-IsValid :
    (b : Book) (order : Order) (remaining : ℤ) (ts : ℕ)
    → IsValid b
    → pos 0 <ℤ remaining
    → find ℕ_discrete order.id b.order_index ≡ none
    → CrossesNothing order b
    → IsValid (add_resting_order b order remaining ts)
unfolding add_resting_order
add_resting_order-IsValid b order remaining ts v h fresh c =
    rw (orders_at_price_lem b order.side order.price) (
      update-IsValid order.side _ _ b v (
        rest-IsUpdate b v order remaining ts h fresh (
          IsUncrossed-new order.side order _ (new_tally b v order remaining ts h fresh) b refl
            v.uncrossed c)))
