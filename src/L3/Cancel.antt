-- ===== src/L3/Cancel.antt =====
-- `cancel_order`: the order that the index finds, and the book without it.
use hfttoolset.Base.{
  ℕ, ◌<ℤ◌, ◌≡◌, refl, sym, subst, ap, ◌∙◌, inl, inr, false, All, All-imp, Option, none, some,
  length, suc, ◌==◌, ==_iff, if◌then◌else◌, Bool-cases, Option-cases, arith, ℕ_discrete,
}
use hfttoolset.Base.Assoc.{Assoc, find, erase, find-erase}
use hfttoolset.Types.{Side, buy, sell}
use hfttoolset.L3.State.{
  L3Order, OrderLocation, PriceLevels, Tally, Book, find_order, find_level, levels, opposite,
  count_down, dec64,
}
use hfttoolset.L3.Query.{deref}
use hfttoolset.L3.Book.Change.{cancel_at, remove_from_level}
use hfttoolset.L3.Valid.{
  IsUncrossed, IsDistinct, IsValid, flat, locate, location, count_of, order_on,
}
use hfttoolset.L3.Shape.{length-SameShape, IsDistinct-SameShape, locate-SameShape}
use hfttoolset.L3.Remove.{find_order-id}
use hfttoolset.L3.Removed.{IsRemoval, remove_from_level-IsRemoval}
use hfttoolset.L3.Held.{InLevel, flat-InLevel, length-Holds, IsDistinct-Holds, find-Holds}
use hfttoolset.L3.Update.{elsewhere, updated, IsUpdate, update-IsValid}

-- The order `o` with id `i` rests where the location says.
pub record IsHeld (b : Book) (i : ℕ) (loc : OrderLocation) (o : L3Order) : Type 0 where
  pub same_id : o.id ≡ i
  pub at : loc ≡ location o
  pub on : order_on loc.side b i ≡ some o
  pub level : InLevel loc.side i o (levels loc.side b)

on-IsHeld :
    (s : Side) (b : Book) (i : ℕ) (loc : OrderLocation) (o : L3Order)
    → IsValid b
    → order_on s b i ≡ some o
    → loc ≡ location o
    → IsHeld b i loc o
on-IsHeld s b i loc o v h e =
    let level = flat-InLevel s i o (levels s b) (v.level s) (v.sorted s) h in
    let side = sym (ap (λ l. l.side) e ∙ level.3.on_side) in
    record {
      same_id = find_order-id i (flat (levels s b)) o h;
      at = e;
      on = subst (λ t. order_on t b i ≡ some o) side h;
      level = subst (λ t. InLevel t i o (levels t b)) side level;
    }

-- What the index finds is held.
pub indexed-IsHeld :
    (b : Book) (i : ℕ) (loc : OrderLocation)
    → IsValid b
    → find ℕ_discrete i b.order_index ≡ some loc
    → (o : L3Order) × IsHeld b i loc o
indexed-IsHeld b i loc v h = elim (Option-cases (order_on buy b i)) [
  | inr (o, e) ↦ (o, on-IsHeld buy b i loc o v e (ground (arith, v.indexed buy i)))
  | inl e ↦ elim (Option-cases (order_on sell b i)) [
    | inr (o, f) ↦ (o, on-IsHeld sell b i loc o v f (ground (arith, v.indexed buy i)))
    | inl f ↦ cc (v.indexed buy i)
  ]
]

count-count_down :
    (s : Side) (t : Tally) (index : Assoc ℕ OrderLocation)
    → count_of s (record (count_down s t) { order_index = index }) ≡ dec64 (count_of s t)
unfolding count_down
count-count_down buy t index = refl
count-count_down sell t index = refl

other_count-count_down :
    (s : Side) (t : Tally) (index : Assoc ℕ OrderLocation)
    → count_of (opposite s) (record (count_down s t) { order_index = index })
      ≡ count_of (opposite s) t
unfolding count_down
other_count-count_down buy t index = refl
other_count-count_down sell t index = refl

located-none : (a : Option L3Order) → locate a none ≡ none → a ≡ none
located-none none h = refl
located-none (some o) h = cc

module _ (b : Book) (v : IsValid b) (i : ℕ) (loc : OrderLocation) (o : L3Order)
    (h : IsHeld b i loc o) where
  abbrev s : Side
  s = loc.side

  level_found : find_level loc.price (levels s b) ≡ some h.level.0
  level_found = ap (λ (l : OrderLocation). find_level l.price (levels s b)) h.at ∙ h.level.1

  order_found : find_order loc.it h.level.0 ≡ some o
  order_found =
      ap (λ (l : OrderLocation). find_order l.it h.level.0) h.at
      ∙ ap (λ k. find_order k h.level.0) h.same_id
      ∙ h.level.2

  -- The iterator is good.
  pub deref-IsHeld : deref b loc ≡ some o
  unfolding deref
  deref-IsHeld = rw (level_found, deref) order_found

  abbrev new_levels : PriceLevels
  new_levels = remove_from_level loc.price loc.it (find_level loc.price (levels s b)) s (levels s b)

  abbrev new_tally : Tally
  new_tally =
      let counted = count_down s b.tally in
      record counted { order_index = erase ℕ_discrete i counted.order_index }

  pub removal : IsRemoval s o (levels s b) new_levels
  removal =
      remove_from_level-IsRemoval s loc.price loc.it o h.level.0 (levels s b) (v.level s)
        (v.sorted s) level_found order_found

  pub gone : IsDistinct removal.rest × (find_order o.id removal.rest ≡ none)
  gone = IsDistinct-Holds o (flat (levels s b)) removal.rest removal.taken (v.distinct s)

  -- Every other id is where it was.
  pub locate-new :
      (j : ℕ) (z : Option OrderLocation)
      → locate (find_order j (flat new_levels)) z
        ≡ (if i == j then z else locate (order_on s b j) z)
  locate-new j z = locate-SameShape (flat new_levels) removal.rest removal.shape j z ∙ split
    where
      split :
          locate (find_order j removal.rest) z ≡ (if i == j then z else locate (order_on s b j) z)
      split = elim (Bool-cases (i == j)) [
        | inl e ↦
            let here : find_order j removal.rest ≡ none =
              subst (λ k. find_order k removal.rest ≡ none) (h.same_id ∙ (==_iff i j).0 e) gone.1 in
            rw (e, here)
        | inr e ↦
            let ne : (o.id == j) ≡ false = subst (λ k. (k == j) ≡ false) (sym h.same_id) e in
            rw (e, find-Holds o (flat (levels s b)) removal.rest removal.taken j ne)
      ]

  index-new : new_tally.order_index ≡ erase ℕ_discrete i b.order_index
  unfolding count_down
  index-new = ground arith

  count-new : count_of s new_tally ≡ dec64 (count_of s b.tally)
  count-new = count-count_down s b.tally new_tally.order_index

  other_count-new : count_of (opposite s) new_tally ≡ count_of (opposite s) b.tally
  other_count-new = other_count-count_down s b.tally new_tally.order_index

  length-new : length (flat (levels s b)) ≡ suc (length (flat new_levels))
  length-new =
      length-Holds o (flat (levels s b)) removal.rest removal.taken
      ∙ ap suc (sym (length-SameShape (flat new_levels) removal.rest removal.shape))

  absent-new : (j : ℕ) → order_on s b j ≡ none → find_order j (flat new_levels) ≡ none
  absent-new j e =
      located-none (find_order j (flat new_levels)) (locate-new j none ∙ ground (arith, e))

  -- No side has the id any more.
  pub gone_elsewhere : order_on (opposite s) b i ≡ none
  gone_elsewhere = ground (arith, v.disjoint s i, h.on)

  cancel-IsUpdate :
      IsUncrossed (updated s new_levels new_tally b).bids (updated s new_levels new_tally b).asks
      → IsUpdate s new_levels new_tally b
  cancel-IsUpdate u = record {
    level = removal.level;
    sorted = removal.sorted;
    distinct = IsDistinct-SameShape (flat new_levels) removal.rest removal.shape gone.0;
    uncrossed = u;
    disjoint = λ j. elim (v.disjoint s j) [ inl e ↦ inl (absent-new j e) | inr e ↦ inr e ];
    indexed = λ j.
        rw (index-new, find-erase, locate-new j (elsewhere s b j))
          (ground (arith, v.indexed s j, gone_elsewhere));
    counted = omega (arith, count-new, v.counted s, length-new);
    other_count = other_count-new;
  }

IsUncrossed-removal :
    (s : Side) (b : Book) (o : L3Order) (ls : PriceLevels) (t : Tally)
    → IsRemoval s o (levels s b) ls
    → IsUncrossed b.bids b.asks
    → IsUncrossed (updated s ls t b).bids (updated s ls t b).asks
IsUncrossed-removal buy b o ls t r u = r.prices (λ p. All (λ a. p <ℤ a.0) b.asks) u
IsUncrossed-removal sell b o ls t r u =
    All-imp (λ c. All (λ a. c.0 <ℤ a.0) b.asks) (λ c. All (λ a. c.0 <ℤ a.0) ls)
      (λ c. r.prices (λ p. c.0 <ℤ p)) b.bids u

pub cancel_at-IsValid :
    (b : Book) (i : ℕ) (loc : OrderLocation) (o : L3Order)
    → IsValid b
    → IsHeld b i loc o
    → IsValid (cancel_at b i loc)
unfolding cancel_at
cancel_at-IsValid b i loc o v h =
    let r = removal b v i loc o h in
    let ls = new_levels b v i loc o h in
    let t = new_tally b v i loc o h in
    update-IsValid loc.side ls t b v
      (cancel-IsUpdate b v i loc o h (IsUncrossed-removal loc.side b o ls t r v.uncrossed))
