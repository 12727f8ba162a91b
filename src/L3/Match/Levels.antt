-- ===== src/L3/Match/Levels.antt =====
-- Matching keeps the levels of a side well formed, and stops only when it is done.
use hfttoolset.Base.{
  ℕ, ℤ, pos, ltb_ℤ, ◌≤ℤ◌, ◌<ℤ◌, ◌≡◌, refl, sym, subst, ◌∙◌, ◌≢◌, ◌⊎◌, inl, inr, true, [], ◌∷◌, All,
  All-imp, Bool-cases, not_ltb_ℤ, le_of_not_ltb_ℤ, le-or-lt, arith,
}
use hfttoolset.Types.{Side, buy, sell, Symbol, Order}
use hfttoolset.L3.State.{OrderQueue, PriceLevels, before, opposite}
use hfttoolset.L3.Match.{Matching, beyond_limit, keep_level, match_queue, match_against}
use hfttoolset.L3.Valid.{IsResting, IsLevel, IsSorted}
use hfttoolset.L3.Match.Walk.{match_queue-walk}
use hfttoolset.L3.Match.Run.{Run, stop, done, used, took, IsOpen, walk-Run, remaining-after_took}

pub All-IsOpen : (s : Side) (p : ℤ) (os : OrderQueue) → All (IsResting s p) os → All (IsOpen s) os
All-IsOpen s p =
    All-imp (IsResting s p) (IsOpen s) (λ o v. subst (λ q. IsResting s q o) (sym v.at_price) v)

module _ {symbol : Symbol} {inc : Order} {ts : ℕ} {s : Side} where
  IsResting-Run :
      {os os' : OrderQueue} {m m' : Matching} (p : ℤ)
      → Run symbol inc ts s os m os' m'
      → All (IsResting s p) os
      → All (IsResting s p) os'
  IsResting-Run p (stop h) a = a
  IsResting-Run p done a = a
  IsResting-Run p (used h v le r) a = IsResting-Run p r a.1
  IsResting-Run p (took {r = r} h v lt w rest) a =
      (subst (λ q. IsResting s q r) (rest.same_price ∙ a.0.at_price) w, a.1)

  pub exhausted-Run :
      {os os' : OrderQueue} {m m' : Matching}
      → Run symbol inc ts s os m os' m'
      → pos 0 <ℤ m'.remaining
      → os' ≡ []
  exhausted-Run (stop h) k = absurd (omega arith)
  exhausted-Run done k = refl
  exhausted-Run (used h v le r) k = exhausted-Run r k
  exhausted-Run {m = m} (took {o} h v lt w rest) k =
      absurd (omega (arith, remaining-after_took symbol inc ts o m))

module _ (symbol : Symbol) (inc : Order) (ts : ℕ) where
  queue-Run :
      (s : Side) (p : ℤ) (os : OrderQueue) (m : Matching)
      → All (IsResting s p) os
      → let (os', m') = match_queue symbol inc ts p os m in Run symbol inc ts s os m os' m'
  queue-Run s p os m v =
      rw (match_queue-walk symbol inc ts s p os m v)
        (walk-Run symbol inc ts s os m (All-IsOpen s p os v))

  match_against_stop :
      (ls : PriceLevels) (m : Matching)
      → m.remaining ≤ℤ pos 0
      → match_against symbol inc ts ls m ≡ (ls, m)
  unfolding match_against
  match_against_stop [] m h = refl
  match_against_stop ((p, os) ∷ ls) m h = rw (not_ltb_ℤ (pos 0) m.remaining h)

  -- The level is left alone, with all behind it, or it is matched.
  abbrev LeftAlone : ℤ → OrderQueue → PriceLevels → Matching → Type 0
  LeftAlone p os ls m =
      ((m.remaining ≤ℤ pos 0) ⊎ (beyond_limit inc p ≡ true))
      × (match_against symbol inc ts ((p, os) ∷ ls) m ≡ ((p, os) ∷ ls, m))

  abbrev Matched : ℤ → OrderQueue → PriceLevels → Matching → Type 0
  Matched p os ls m =
      let (os', m') = match_queue symbol inc ts p os m in
      let (ls', m'') = match_against symbol inc ts ls m' in
      match_against symbol inc ts ((p, os) ∷ ls) m ≡ (keep_level p os' ls', m'')

  match_against-cases :
      (p : ℤ) (os : OrderQueue) (ls : PriceLevels) (m : Matching)
      → LeftAlone p os ls m ⊎ Matched p os ls m
  unfolding match_against
  match_against-cases p os ls m = elim (Bool-cases (ltb_ℤ (pos 0) m.remaining)) [
    | inr e ↦ inl (inl (le_of_not_ltb_ℤ (pos 0) m.remaining e), rw e)
    | inl e ↦ elim (Bool-cases (beyond_limit inc p)) [
      | inl b ↦ inl (inr b, rw (e, b))
      | inr b ↦ inr (rw (e, b))
    ]
  ]

  All-keep_level :
      (P : ℤ × OrderQueue → Type 0) (p : ℤ) (os : OrderQueue) (ls : PriceLevels)
      → (os ≢ [] → P (p, os))
      → All P ls
      → All P (keep_level p os ls)
  All-keep_level P p [] ls h a = a
  All-keep_level P p (o ∷ os) ls h a = (h (λ e. cc), a)

  match_against_nil : (m : Matching) → match_against symbol inc ts [] m ≡ ([], m)
  unfolding match_against
  match_against_nil m = refl

  -- The levels that stay have prices that were there.
  pub prices-match_against :
      (P : ℤ → Type 0) (ls : PriceLevels) (m : Matching)
      → All (λ l. P l.0) ls
      → All (λ l. P l.0) (match_against symbol inc ts ls m).0
  prices-match_against P [] m a = rw (match_against_nil m) tt
  prices-match_against P ((p, os) ∷ ls) m a = elim (match_against-cases p os ls m) [
    | inl (why, e) ↦ rw e a
    | inr e ↦ rw e (
        All-keep_level (λ l. P l.0) p _ _ (λ _. a.0)
          (prices-match_against P ls (match_queue symbol inc ts p os m).1 a.1))
  ]

  pub IsLevel-match_against :
      (s : Side) (ls : PriceLevels) (m : Matching)
      → All (IsLevel s) ls
      → All (IsLevel s) (match_against symbol inc ts ls m).0
  IsLevel-match_against s [] m a = rw (match_against_nil m) tt
  IsLevel-match_against s ((p, os) ∷ ls) m a = elim (match_against-cases p os ls m) [
    | inl (why, e) ↦ rw e a
    | inr e ↦ rw e (
        All-keep_level (IsLevel s) p _ _
          (λ ne. (ne, IsResting-Run p (queue-Run s p os m a.0.1) a.0.1))
          (IsLevel-match_against s ls (match_queue symbol inc ts p os m).1 a.1))
  ]

  IsSorted-keep_level :
      (s : Side) (p : ℤ) (os : OrderQueue) (ls : PriceLevels)
      → All (λ l. before s p l.0 ≡ true) ls
      → IsSorted s ls
      → IsSorted s (keep_level p os ls)
  IsSorted-keep_level s p [] ls a b = b
  IsSorted-keep_level s p (o ∷ os) ls a b = (a, b)

  pub IsSorted-match_against :
      (s : Side) (ls : PriceLevels) (m : Matching)
      → IsSorted s ls
      → IsSorted s (match_against symbol inc ts ls m).0
  IsSorted-match_against s [] m a = rw (match_against_nil m) tt
  IsSorted-match_against s ((p, os) ∷ ls) m a = elim (match_against-cases p os ls m) [
    | inl (why, e) ↦ rw e a
    | inr e ↦
        let m' = (match_queue symbol inc ts p os m).1 in
        rw e (
          IsSorted-keep_level s p _ _ (prices-match_against (λ q. before s p q ≡ true) ls m' a.0)
            (IsSorted-match_against s ls m' a.1))
  ]

  beyond_trans :
      (s : Side) (p q : ℤ)
      → inc.side ≡ opposite s
      → beyond_limit inc p ≡ true
      → before s p q ≡ true
      → beyond_limit inc q ≡ true
  unfolding beyond_limit
  beyond_trans buy p q e b h = ground arith
  beyond_trans sell p q e b h = ground arith

  All-beyond :
      (s : Side) (p : ℤ) (ls : PriceLevels)
      → inc.side ≡ opposite s
      → beyond_limit inc p ≡ true
      → All (λ l. before s p l.0 ≡ true) ls
      → All (λ l. beyond_limit inc l.0 ≡ true) ls
  All-beyond s p ls e b =
      All-imp (λ l. before s p l.0 ≡ true) (λ l. beyond_limit inc l.0 ≡ true)
        (λ l h. beyond_trans s p l.0 e b h) ls

  abbrev OutOfReach : PriceLevels → Type 0
  OutOfReach ls = All (λ l. beyond_limit inc l.0 ≡ true) ls

  keep_level_nil : (p : ℤ) (os : OrderQueue) (ls : PriceLevels) → os ≡ [] → keep_level p os ls ≡ ls
  keep_level_nil p os ls e = rw e

  still_wanted :
      (ls : PriceLevels) (m : Matching)
      → pos 0 <ℤ (match_against symbol inc ts ls m).1.remaining
      → pos 0 <ℤ m.remaining
  still_wanted ls m k = elim (le-or-lt m.remaining (pos 0)) [
    | inl h ↦ let k' : pos 0 <ℤ m.remaining = rw (match_against_stop ls m h) at k in k'
    | inr h ↦ h
  ]

  -- With a quantity left, no level within the limit is left.
  pub OutOfReach-match_against :
      (s : Side) (ls : PriceLevels) (m : Matching)
      → inc.side ≡ opposite s
      → All (IsLevel s) ls
      → IsSorted s ls
      → pos 0 <ℤ (match_against symbol inc ts ls m).1.remaining
      → OutOfReach (match_against symbol inc ts ls m).0
  OutOfReach-match_against s [] m e v a k = rw (match_against_nil m) tt
  OutOfReach-match_against s ((p, os) ∷ ls) m e v a k = elim (match_against-cases p os ls m) [
    | inl (inl h, eq) ↦ let k' : pos 0 <ℤ m.remaining = rw eq at k in absurd (omega arith)
    | inl (inr b, eq) ↦ rw eq (b, All-beyond s p ls e b a.0)
    | inr eq ↦
        let m' = (match_queue symbol inc ts p os m).1 in
        let k' : pos 0 <ℤ (match_against symbol inc ts ls m').1.remaining = rw eq at k in
        let empty = exhausted-Run (queue-Run s p os m v.0.1) (still_wanted ls m' k') in
        rw (eq, keep_level_nil p _ _ empty) (OutOfReach-match_against s ls m' e v.1 a.1 k')
  ]
