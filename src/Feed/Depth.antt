-- ===== src/Feed/Depth.antt =====
-- The depth snapshot, and the levels of the book.
use mathlib.Core.List.{append_assoc}
use hfttoolset.Base.{
  ℕ, suc, zero, List, [], ◌∷◌, ◌++◌, ◌≡◌, refl, sym, ap, ap₂, ◌∙◌, length, length-append, ◌<◌, ◌≤◌,
  ◌-◌, ◌+◌, ◌%◌, ◌^◌, min, set, take, replicate, arith, ltb, true,
}
use hfttoolset.Types.{BookLevel, no_level, max_depth_levels}
use hfttoolset.L3.State.{Book, PriceLevels}
use hfttoolset.L3.Query.{depth, bid_depth, ask_depth}
use hfttoolset.Feed.{fill_levels, snapshot, set_depth}

set-append {ℓ} :
    {A : Type ℓ} (done : List A) (x v : A) (ys : List A)
    → set (done ++ x ∷ ys) (length done) v ≡ done ++ v ∷ ys
set-append [] x v ys = refl
set-append (d ∷ done) x v ys = ap (λ l. d ∷ l) (set-append done x v ys)

below : (n : ℕ) → n < max_depth_levels → ltb n max_depth_levels ≡ true
below n h = ground arith

-- The levels are written one after the other over what the array holds.
fill_levels_lem :
    (ls done rest : List BookLevel)
    → length done + length ls ≤ max_depth_levels
    → fill_levels (length done) ls (done ++ (replicate (length ls) no_level ++ rest))
      ≡ done ++ (ls ++ rest)
unfolding fill_levels
fill_levels_lem [] done rest h = refl
fill_levels_lem (l ∷ ls) done rest h =
    let more = replicate (length ls) no_level in
    rw (below (length done) (omega arith), set-append done no_level l (more ++ rest))
      (ap₂ (λ n xs. fill_levels n ls xs) (one_more done l) (snoc done l (more ++ rest))
        ∙ fill_levels_lem ls (done ++ l ∷ []) rest (omega (arith, length-append done (l ∷ [])))
        ∙ sym (snoc done l (ls ++ rest)))
  where
    one_more : (xs : List BookLevel) (x : BookLevel) → suc (length xs) ≡ length (xs ++ x ∷ [])
    one_more xs x = omega (arith, length-append xs (x ∷ []))

    snoc :
        (xs : List BookLevel) (x : BookLevel) (ys : List BookLevel)
        → xs ++ x ∷ ys ≡ (xs ++ x ∷ []) ++ ys
    snoc xs x ys = sym (append_assoc xs (x ∷ []) ys)

length-depth : (n : ℕ) (ls : PriceLevels) → length (depth n ls) ≡ min n (length ls)
unfolding depth
length-depth n [] = omega arith
length-depth zero (l ∷ ls) = omega arith
length-depth (suc n) (l ∷ ls) = omega (arith, length-depth n ls)

replicate-split {ℓ} :
    {A : Type ℓ} (m n k : ℕ) (a : A) → k ≡ m + n → replicate k a ≡ replicate m a ++ replicate n a
replicate-split zero n k a e = ap (λ j. replicate j a) (omega (arith, e))
replicate-split (suc m) n zero a e = absurd (omega (arith, e))
replicate-split (suc m) n (suc k) a e = ap (λ l. a ∷ l) (replicate-split m n k a (omega (arith, e)))

take-append {ℓ} : {A : Type ℓ} (xs ys : List A) → take (length xs) (xs ++ ys) ≡ xs
take-append [] ys = refl
take-append (x ∷ xs) ys = ap (λ l. x ∷ l) (take-append xs ys)

split_up : (n m : ℕ) → n ≤ m → m ≡ n + (m - n)
split_up n m h = omega arith

filled :
    (ls : List BookLevel)
    → length ls ≤ max_depth_levels
    → take (length ls % 2 ^ 32) (fill_levels 0 ls (replicate max_depth_levels no_level)) ≡ ls
filled ls h =
    let spare = replicate (max_depth_levels - length ls) no_level in
    ap₂ (λ n xs. take n (fill_levels 0 ls xs)) (small (length ls) h)
      (replicate-split (length ls) (max_depth_levels - length ls) max_depth_levels no_level
        (split_up (length ls) max_depth_levels h))
    ∙ ap (take (length ls)) (fill_levels_lem ls [] spare (omega (arith, h)))
    ∙ take-append ls spare
  where
    small : (n : ℕ) → n ≤ max_depth_levels → n % 2 ^ 32 ≡ n
    small n l = omega arith

depth_fits : (n : ℕ) (ls : PriceLevels) → length (depth (set_depth n) ls) ≤ max_depth_levels
unfolding set_depth
depth_fits n ls = omega (arith, length-depth (min n 20) ls)

-- Whatever the depth asked for, the levels that a snapshot counts on a side are those that
-- `bid_depth` and `ask_depth` return, the best of the book.
pub snapshot-depth :
    (b : Book) (n ts : ℕ)
    → let d = set_depth n in
      let s = snapshot b d ts in
      (take s.bid_levels s.bids ≡ bid_depth b d) × (take s.ask_levels s.asks ≡ ask_depth b d)
unfolding snapshot
snapshot-depth b n ts = (
  filled (bid_depth b (set_depth n)) (depth_fits n b.bids),
  filled (ask_depth b (set_depth n)) (depth_fits n b.asks),
)
