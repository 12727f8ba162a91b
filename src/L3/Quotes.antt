-- ===== src/L3/Quotes.antt =====
-- The top of a well-formed book.
use hfttoolset.Base.{
  ℕ, ℤ, pos, negsuc, ◌≤ℤ◌, ◌<ℤ◌, ◌+ℤ◌, ◌≡◌, refl, true, [], ◌∷◌, All, All-imp, some, int_laws,
  parts_of_eq, arith, lt_of_ltb_ℤ, subst,
}
use hfttoolset.Types.{Side, buy, sell, BookLevel}
use hfttoolset.L3.State.{PriceLevels, Book, before}
use hfttoolset.L3.Query.{quot, book_level, best, best_bid, best_ask, fill_tob, top_of_book}
use hfttoolset.L3.Valid.{IsValid, IsSorted, IsUncrossed}

quot_half : (n a b : ℤ) → a <ℤ b → n ≡ a +ℤ b → (a ≤ℤ quot n (pos 2)) × (quot n (pos 2) ≤ℤ b)
unfolding quot
quot_half (pos n) a b h e =
    (omega (int_laws, parts_of_eq _ _ e), omega (int_laws, parts_of_eq _ _ e))
quot_half (negsuc n) a b h e =
    (grind (int_laws, parts_of_eq _ _ e), grind (int_laws, parts_of_eq _ _ e))

-- `p` is at least as good as every price of the side.
abbrev pub IsBest : Side → ℤ → PriceLevels → Type 0
IsBest buy p ls = All (λ l. l.0 ≤ℤ p) ls
IsBest sell p ls = All (λ l. p ≤ℤ l.0) ls

best-IsBest :
    (s : Side) (ls : PriceLevels) (x : BookLevel)
    → IsSorted s ls
    → best ls ≡ some x
    → IsBest s x.price ls
unfolding best book_level
best-IsBest s [] x v h = cc
best-IsBest buy ((p, os) ∷ ls) x v h =
    let e : p ≡ x.price = cc in
    subst (λ q. IsBest buy q ((p, os) ∷ ls)) e
      (
        omega arith,
        All-imp (λ l. before buy p l.0 ≡ true) (λ l. l.0 ≤ℤ p)
            (λ l k. omega (arith, lt_of_ltb_ℤ l.0 p k)) ls v.0,
      )
best-IsBest sell ((p, os) ∷ ls) x v h =
    let e : p ≡ x.price = cc in
    subst (λ q. IsBest sell q ((p, os) ∷ ls)) e
      (
        omega arith,
        All-imp (λ l. before sell p l.0 ≡ true) (λ l. p ≤ℤ l.0)
            (λ l k. omega (arith, lt_of_ltb_ℤ p l.0 k)) ls v.0,
      )

best-uncrossed :
    (bids asks : PriceLevels) (x y : BookLevel)
    → IsUncrossed bids asks
    → best bids ≡ some x
    → best asks ≡ some y
    → x.price <ℤ y.price
unfolding best book_level
best-uncrossed [] asks x y u h g = cc
best-uncrossed (l ∷ bids) [] x y u h g = cc
best-uncrossed ((p, os) ∷ bids) ((q, qs) ∷ asks) x y u h g =
    let e : p ≡ x.price = cc in
    let f : q ≡ y.price = cc in subst (λ r. r <ℤ y.price) e (subst (λ r. p <ℤ r) f u.0.0)

-- In a well-formed book with orders on both sides the quotes are the best prices, the spread is
-- positive, and the mid price lies between the quotes.
pub top_of_book-quotes :
    (b : Book) (ts : ℕ) (x y : BookLevel)
    → IsValid b
    → best_bid b ≡ some x
    → best_ask b ≡ some y
    → IsBest buy x.price b.bids
      × IsBest sell y.price b.asks
      × (pos 0 <ℤ (top_of_book b ts).spread)
      × (x.price ≤ℤ (top_of_book b ts).mid_price)
      × ((top_of_book b ts).mid_price ≤ℤ y.price)
unfolding top_of_book fill_tob
top_of_book-quotes b ts x y v h g =
    let lt = best-uncrossed b.bids b.asks x y v.uncrossed h g in
    let (l, u) = quot_half (x.price +ℤ y.price) x.price y.price lt refl in
    rw (h, g)
      (
        best-IsBest buy b.bids x (v.sorted buy) h,
        best-IsBest sell b.asks y (v.sorted sell) g,
        omega (int_laws, lt),
        l,
        u,
      )
