-- ===== src/L3/Match/Run.antt =====
-- The course of a walk over resting orders, as a relation: each order is used up, until one takes
-- all that is left or no order remains.
use hfttoolset.Base.{
  ℕ, ℤ, pos, ltb_ℤ, ◌≤ℤ◌, ◌<ℤ◌, ◌-ℤ◌, ◌≡◌, subst, sym, inl, inr, [], ◌∷◌, All, some, Bool-cases,
  min_ℤ_right, min_ℤ_left, le_of_not_ltb_ℤ, lt_of_ltb_ℤ, int_laws,
}
use hfttoolset.Types.{Side, Symbol, Order}
use hfttoolset.L3.State.{L3Order, OrderQueue}
use hfttoolset.L3.Match.{Matching, available, forget, record_fill, match_order}
use hfttoolset.L3.Valid.{IsResting}
use hfttoolset.L3.Match.Round.{IsRest, match_order-cases, round_fill, UsedUp}
use hfttoolset.L3.Match.Walk.{walk, walk_stop, walk_nil, walk_next}

abbrev pub IsOpen : Side → L3Order → Type 0
IsOpen s o = IsResting s o.price o

module _ (symbol : Symbol) (inc : Order) (ts : ℕ) where
  -- The state after `o` is used up.
  unfoldable pub after_used : L3Order → Matching → Matching
  after_used o m =
      let f = record_fill symbol inc ts o.price o (available o) m in
      record f { tally = forget o f.tally }

  -- The state after `o` took all that was left.
  unfoldable pub after_took : L3Order → Matching → Matching
  after_took o m = record_fill symbol inc ts o.price o m.remaining m

  pub data Run (s : Side) : OrderQueue → Matching → OrderQueue → Matching → Type 0 where
    stop : {os : OrderQueue} {m : Matching} → m.remaining ≤ℤ pos 0 → Run s os m os m
    done : {m : Matching} → Run s [] m [] m
    used :
        {o : L3Order} {os os' : OrderQueue} {m m' : Matching}
        → pos 0 <ℤ m.remaining
        → IsOpen s o
        → available o ≤ℤ m.remaining
        → Run s os (after_used o m) os' m'
        → Run s (o ∷ os) m os' m'
    took :
        {o r : L3Order} {os : OrderQueue} {m : Matching}
        → pos 0 <ℤ m.remaining
        → IsOpen s o
        → m.remaining <ℤ available o
        → IsOpen s r
        → IsRest o m.remaining r
        → Run s (o ∷ os) m (r ∷ os) (after_took o m)

  walk_used :
      (o : L3Order) (os : OrderQueue) (m : Matching)
      → pos 0 <ℤ m.remaining
      → UsedUp symbol inc ts o.price o m
      → walk symbol inc ts (o ∷ os) m ≡ walk symbol inc ts os (after_used o m)
  unfolding after_used
  walk_used o os m h (le, eq) =
      rw (walk_next symbol inc ts o os m h, eq, min_ℤ_right m.remaining (available o) le)

  spent : (n : ℤ) → n -ℤ n ≤ℤ pos 0
  spent n = omega int_laws

  pub remaining-after_took : (o : L3Order) (m : Matching) → (after_took o m).remaining ≤ℤ pos 0
  unfolding after_took record_fill
  remaining-after_took o m = spent m.remaining

  walk_took :
      (o r : L3Order) (os : OrderQueue) (m : Matching)
      → pos 0 <ℤ m.remaining
      → m.remaining <ℤ available o
      → match_order symbol inc ts o.price o m ≡ (some r, round_fill symbol inc ts o.price o m)
      → walk symbol inc ts (o ∷ os) m ≡ (r ∷ os, after_took o m)
  unfolding after_took
  walk_took o r os m h lt eq =
      rw (walk_next symbol inc ts o os m h, eq, min_ℤ_left m.remaining (available o) lt)
        (rw (walk_stop symbol inc ts os (after_took o m) (remaining-after_took o m)))

  abbrev Runs : Side → OrderQueue → Matching → OrderQueue × Matching → Type 0
  Runs s os m (os', m') = Run s os m os' m'

  -- The walk over orders that rest takes such a course.
  pub walk-Run :
      (s : Side) (os : OrderQueue) (m : Matching)
      → All (IsOpen s) os
      → Runs s os m (walk symbol inc ts os m)
  walk-Run s [] m v = rw (walk_nil symbol inc ts m) done
  walk-Run s (o ∷ os) m v = elim (Bool-cases (ltb_ℤ (pos 0) m.remaining)) [
    | inr e ↦
        let le = le_of_not_ltb_ℤ (pos 0) m.remaining e in
        rw (walk_stop symbol inc ts (o ∷ os) m le) (stop le)
    | inl e ↦
        let lt = lt_of_ltb_ℤ (pos 0) m.remaining e in
        elim (match_order-cases symbol inc ts s o.price o m v.0 lt) [
          | inl u ↦
              rw (walk_used o os m lt u) (used lt v.0 u.0 (walk-Run s os (after_used o m) v.1))
          | inr (r, more, open_r, rest, eq) ↦
              rw (walk_took o r os m lt more eq)
                (took lt v.0 more (subst (λ p. IsResting s p r) (sym open_r.at_price) open_r) rest)
        ]
  ]
