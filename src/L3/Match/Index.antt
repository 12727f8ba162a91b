-- ===== src/L3/Match/Index.antt =====
-- Matching keeps the index and the order counts in step with the queues.
use hfttoolset.Base.{
  ℕ, ◌≡◌, refl, sym, ◌∙◌, ◌⊎◌, ◌∷◌, Option, none, length, ◌+◌, ◌%◌, ◌^◌, arith, ℕ_discrete, subst,
}
use hfttoolset.Base.Assoc.{find, erase, find-erase}
use hfttoolset.Types.{Side, buy, sell, Symbol, Order}
use hfttoolset.L3.State.{
  L3Order, OrderLocation, OrderQueue, Tally, find_order, count_down, opposite, dec64,
}
use hfttoolset.L3.Match.{Matching, record_fill, forget}
use hfttoolset.L3.Valid.{IsDistinct, locate, count_of}
use hfttoolset.L3.Match.Run.{Run, stop, done, used, took, after_used, after_took}

-- No order has the id `i` in both queues.
abbrev pub Apart : OrderQueue → (ℕ → Option OrderLocation) → Type 0
Apart os other = (i : ℕ) → (find_order i os ≡ none) ⊎ (other i ≡ none)

-- The index finds the orders of the queue, and otherwise what `other` finds.
abbrev pub Indexes : Tally → OrderQueue → (ℕ → Option OrderLocation) → Type 0
Indexes t os other = (i : ℕ) → find ℕ_discrete i t.order_index ≡ locate (find_order i os) (other i)

module _ (symbol : Symbol) (inc : Order) (ts : ℕ) where
  order_index-after_used :
      (o : L3Order) (m : Matching)
      → (after_used symbol inc ts o m).tally.order_index ≡ erase ℕ_discrete o.id m.tally.order_index
  unfolding after_used record_fill forget count_down
  order_index-after_used o m = ground arith

  order_index-after_took :
      (o : L3Order) (m : Matching)
      → (after_took symbol inc ts o m).tally.order_index ≡ m.tally.order_index
  unfolding after_took record_fill
  order_index-after_took o m = refl

  Indexes-used :
      (o : L3Order) (os : OrderQueue) (m : Matching) (other : ℕ → Option OrderLocation)
      → IsDistinct (o ∷ os)
      → Apart (o ∷ os) other
      → Indexes m.tally (o ∷ os) other
      → Indexes (after_used symbol inc ts o m).tally os other
  unfolding find_order
  Indexes-used o os m other d a x i =
      rw (order_index-after_used o m, find-erase) (ground (arith, d.0, a i, x i))

  Apart-tail :
      (o : L3Order) (os : OrderQueue) (other : ℕ → Option OrderLocation)
      → Apart (o ∷ os) other
      → Apart os other
  unfolding find_order
  Apart-tail o os other a i = ground (arith, a i)

  count-after_used :
      (s : Side) (o : L3Order) (m : Matching)
      → o.side ≡ s
      → count_of s (after_used symbol inc ts o m).tally ≡ dec64 (count_of s m.tally)
  unfolding after_used record_fill forget count_down
  count-after_used buy o m e = rw e
  count-after_used sell o m e = rw e

  other_count-after_used :
      (s : Side) (o : L3Order) (m : Matching)
      → o.side ≡ s
      → count_of (opposite s) (after_used symbol inc ts o m).tally ≡ count_of (opposite s) m.tally
  unfolding after_used record_fill forget count_down
  other_count-after_used buy o m e = rw e
  other_count-after_used sell o m e = rw e

  count-after_took :
      (s : Side) (o : L3Order) (m : Matching)
      → count_of s (after_took symbol inc ts o m).tally ≡ count_of s m.tally
  unfolding after_took record_fill
  count-after_took buy o m = refl
  count-after_took sell o m = refl

module _ {symbol : Symbol} {inc : Order} {ts : ℕ} {s : Side} where
  pub absent-Run :
      {os os' : OrderQueue} {m m' : Matching} (i : ℕ)
      → Run symbol inc ts s os m os' m'
      → find_order i os ≡ none
      → find_order i os' ≡ none
  unfolding find_order
  absent-Run i (stop h) a = a
  absent-Run i done a = a
  absent-Run i (used {o} h v le r) a = absent-Run i r (ground arith)
  absent-Run i (took {o} h v lt w rest) a = ground (arith, rest.same_id)

  pub IsDistinct-Run :
      {os os' : OrderQueue} {m m' : Matching}
      → Run symbol inc ts s os m os' m'
      → IsDistinct os
      → IsDistinct os'
  IsDistinct-Run (stop h) d = d
  IsDistinct-Run done d = d
  IsDistinct-Run (used h v le r) d = IsDistinct-Run r d.1
  IsDistinct-Run (took {os = os} h v lt w rest) d =
      (subst (λ i. find_order i os ≡ none) (sym rest.same_id) d.0, d.1)

  -- The index follows the queue; what it finds elsewhere stays.
  pub Indexes-Run :
      {os os' : OrderQueue} {m m' : Matching} (other : ℕ → Option OrderLocation)
      → Run symbol inc ts s os m os' m'
      → IsDistinct os
      → Apart os other
      → Indexes m.tally os other
      → Indexes m'.tally os' other
  unfolding find_order
  Indexes-Run other (stop h) d a x = x
  Indexes-Run other done d a x = x
  Indexes-Run {m = m} other (used {o} {os} h v le r) d a x =
      Indexes-Run other r d.1 (Apart-tail symbol inc ts o os other a)
        (Indexes-used symbol inc ts o os m other d a x)
  Indexes-Run {m = m} other (took {o} {r} {os} h v lt w rest) d a x = λ i.
      rw (order_index-after_took symbol inc ts o m)
        (ground (arith, x i, rest.same_id, rest.same_side, rest.same_price))

  -- So do the counts; the other side's count stays.
  pub count-Run :
      {os os' : OrderQueue} {m m' : Matching} (k : ℕ)
      → Run symbol inc ts s os m os' m'
      → count_of s m.tally ≡ (length os + k) % 2 ^ 64
      → count_of s m'.tally ≡ (length os' + k) % 2 ^ 64
  count-Run k (stop h) c = c
  count-Run k done c = c
  count-Run {m = m} k (used {o} h v le r) c =
      count-Run k r (omega (arith, count-after_used symbol inc ts s o m v.on_side))
  count-Run {m = m} k (took {o} h v lt w rest) c = count-after_took symbol inc ts s o m ∙ c

  pub other_count-Run :
      {os os' : OrderQueue} {m m' : Matching}
      → Run symbol inc ts s os m os' m'
      → count_of (opposite s) m'.tally ≡ count_of (opposite s) m.tally
  other_count-Run (stop h) = refl
  other_count-Run done = refl
  other_count-Run {m = m} (used {o} h v le r) =
      other_count-Run r ∙ other_count-after_used symbol inc ts s o m v.on_side
  other_count-Run {m = m} (took {o} h v lt w rest) = count-after_took symbol inc ts (opposite s) o m
