-- ===== src/L3/Match/Update.antt =====
-- The book after matching.
use hfttoolset.Base.{
  ℕ, ◌<ℤ◌, ◌≡◌, refl, sym, subst, ap, ◌∙◌, ◌⊎◌, inl, inr, All, All-imp, All-append, Option, none,
  length, length-append, ◌+◌, ◌%◌, ◌^◌, arith, Bool-cases, [], ◌∷◌, ◌++◌,
}
use hfttoolset.Types.{Side, buy, sell, Order}
use hfttoolset.L3.State.{OrderLocation, OrderQueue, PriceLevels, Book, find_order, levels, opposite}
use hfttoolset.L3.Match.{Matching, beyond_limit, match_against, match_incoming, fok_blocked}
use hfttoolset.L3.Valid.{
  IsLevel, IsUncrossed, IsDistinct, IsValid, flat, locate, count_of, order_on,
}
use hfttoolset.L3.Orders.{
  first, first-none, find_order-append, locate-append, NoShared, IsDistinct-append,
  IsDistinct-split,
}
use hfttoolset.L3.Update.{elsewhere, updated, IsUpdate, update-IsValid}
use hfttoolset.L3.Match.Walk.{crossing, out_of_reach, flat-crossing, walk, match_against-walk}
use hfttoolset.L3.Match.Run.{Run, IsOpen, walk-Run}
use hfttoolset.L3.Match.Index.{
  Apart, Indexes, absent-Run, IsDistinct-Run, Indexes-Run, count-Run, other_count-Run,
}
use hfttoolset.L3.Match.Levels.{
  All-IsOpen, IsLevel-match_against, IsSorted-match_against, prices-match_against,
}

pub IsOpen-crossing :
    (s : Side) (inc : Order) (ls : PriceLevels)
    → All (IsLevel s) ls
    → All (IsOpen s) (crossing inc ls)
unfolding crossing
IsOpen-crossing s inc [] v = tt
IsOpen-crossing s inc ((p, os) ∷ ls) v = elim (Bool-cases (beyond_limit inc p)) [
  | inl e ↦ rw e tt
  | inr e ↦ rw e (
      All-append (IsOpen s) os (crossing inc ls) (All-IsOpen s p os v.0.1)
        (IsOpen-crossing s inc ls v.1))
]

module _ (inc : Order) (ts : ℕ) (b : Book) (v : IsValid b) (s : Side) (m : Matching) where
  near : OrderQueue
  near = crossing inc (levels s b)

  far : OrderQueue
  far = flat (out_of_reach inc (levels s b))

  walked : OrderQueue × Matching
  walked = walk b.symbol inc ts near m

  run : Run b.symbol inc ts s near m walked.0 walked.1
  unfolding walked near
  run = walk-Run b.symbol inc ts s near m (IsOpen-crossing s inc (levels s b) (v.level s))

  parts : IsDistinct near × IsDistinct far × NoShared near far
  unfolding near far
  parts =
      IsDistinct-split near far
        (subst IsDistinct (sym (flat-crossing inc (levels s b))) (v.distinct s))

  abbrev matched : PriceLevels × Matching
  matched = match_against b.symbol inc ts (levels s b) m

  flat-matched : (flat matched.0 ≡ walked.0 ++ far) × (matched.1 ≡ walked.1)
  unfolding walked near far
  flat-matched = match_against-walk b.symbol inc ts s (levels s b) m (v.level s)

  find-levels : (i : ℕ) → order_on s b i ≡ first (find_order i near) (find_order i far)
  unfolding near far
  find-levels i =
      ap (find_order i) (sym (flat-crossing inc (levels s b))) ∙ find_order-append i near far

  -- An id that the side does not have is not there after matching.
  pub absent-matched : (i : ℕ) → order_on s b i ≡ none → find_order i (flat matched.0) ≡ none
  absent-matched i h =
      let a = first-none (find_order i near) (find_order i far) (sym (find-levels i) ∙ h) in
      rw (flat-matched.0, find_order-append i walked.0 far, absent-Run i run a.0) a.1

  IsDistinct-matched : IsDistinct (flat matched.0)
  IsDistinct-matched = subst IsDistinct (sym flat-matched.0) (
      IsDistinct-append walked.0 far (IsDistinct-Run run parts.0) parts.1
        λ i. elim (parts.2 i) [ inl e ↦ inl (absent-Run i run e) | inr e ↦ inr e ])

  disjoint-matched :
      (i : ℕ) → (find_order i (flat matched.0) ≡ none) ⊎ (order_on (opposite s) b i ≡ none)
  disjoint-matched i = elim (v.disjoint s i) [ inl e ↦ inl (absent-matched i e) | inr e ↦ inr e ]

  behind : ℕ → Option OrderLocation
  behind i = locate (find_order i far) (elsewhere s b i)

  apart : Apart near behind
  unfolding behind
  apart i = ground (arith, v.disjoint s i, parts.2 i, find-levels i)

  indexed-near : m.tally ≡ b.tally → Indexes m.tally near behind
  unfolding behind near far
  indexed-near e i = rw e (
      v.indexed s i
      ∙ ap (λ os. locate (find_order i os) (elsewhere s b i)) (sym (flat-crossing inc (levels s b)))
      ∙ locate-append i near far (elsewhere s b i))

  pub indexed-matched : m.tally ≡ b.tally → Indexes matched.1.tally (flat matched.0) (elsewhere s b)
  unfolding behind
  indexed-matched e i =
      rw (flat-matched.1, flat-matched.0, locate-append i walked.0 far (elsewhere s b i))
        (Indexes-Run behind run parts.0 apart (indexed-near e) i)

  length-near-far : length near + length far ≡ length (flat (levels s b))
  unfolding near far
  length-near-far = sym (length-append near far) ∙ ap length (flat-crossing inc (levels s b))

  counted-matched :
      m.tally ≡ b.tally → count_of s matched.1.tally ≡ length (flat matched.0) % 2 ^ 64
  counted-matched e =
      rw (flat-matched.1, flat-matched.0, length-append walked.0 far)
        (count-Run (length far) run
          (ap (count_of s) e ∙ v.counted s ∙ ap (λ n. n % 2 ^ 64) (sym length-near-far)))

  other_count-matched :
      m.tally ≡ b.tally → count_of (opposite s) matched.1.tally ≡ count_of (opposite s) b.tally
  other_count-matched e =
      rw flat-matched.1 (other_count-Run run ∙ ap (λ t. count_of (opposite s) t) e)

  -- The matched side and the tally may take the place of the old ones.
  pub matched-IsUpdate :
      m.tally ≡ b.tally
      → IsUncrossed
          (updated s matched.0 matched.1.tally b).bids
          (updated s matched.0 matched.1.tally b).asks
      → IsUpdate s matched.0 matched.1.tally b
  matched-IsUpdate e u = record {
    level = IsLevel-match_against b.symbol inc ts s (levels s b) m (v.level s);
    sorted = IsSorted-match_against b.symbol inc ts s (levels s b) m (v.sorted s);
    distinct = IsDistinct-matched;
    uncrossed = u;
    disjoint = disjoint-matched;
    indexed = indexed-matched e;
    counted = counted-matched e;
    other_count = other_count-matched e;
  }

IsUncrossed-matched :
    (s : Side) (inc : Order) (ts : ℕ) (b : Book) (m : Matching)
    → IsUncrossed b.bids b.asks
    → let (ls, m') = match_against b.symbol inc ts (levels s b) m in
      IsUncrossed (updated s ls m'.tally b).bids (updated s ls m'.tally b).asks
IsUncrossed-matched buy inc ts b m u =
    prices-match_against b.symbol inc ts (λ p. All (λ a. p <ℤ a.0) b.asks) b.bids m u
IsUncrossed-matched sell inc ts b m u =
    All-imp (λ c. All (λ a. c.0 <ℤ a.0) b.asks) (λ c. All (λ a. c.0 <ℤ a.0) _)
      (λ c. prices-match_against b.symbol inc ts (λ p. c.0 <ℤ p) b.asks m) b.bids u

-- Matching an incoming order keeps the book well formed.
pub match_incoming-IsValid :
    (b : Book) (order : Order) (ts : ℕ) → IsValid b → IsValid (match_incoming b order ts).book
unfolding match_incoming
match_incoming-IsValid b order ts v = elim (Bool-cases (fok_blocked b order)) [
  | inl e ↦ rw e v
  | inr e ↦
      let s = opposite order.side in
      let m : Matching = record { tally = b.tally; remaining = order.quantity; trades = [] } in
      rw e (
        update-IsValid s _ _ b v
          (matched-IsUpdate order ts b v s m refl (IsUncrossed-matched s order ts b m v.uncrossed)))
]
