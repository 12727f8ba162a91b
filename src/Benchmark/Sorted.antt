-- ===== src/Benchmark/Sorted.antt =====
-- Ascending lists, permutations and counts: what the rank of a sample rests on.
use mathlib.Core.Logic.{∥∥₁_elim}
use mathlib.Core.List.{Perm, Permᴰ}
use hfttoolset.Base.{
  ℕ, zero, suc, ℤ, ◌≤ℤ◌, leb_ℤ, Bool, true, List, [], ◌∷◌, All, length, get_or, ◌≡◌, refl, ap, ◌∙◌,
  ◌+◌, ◌-◌, ◌≤◌, ◌<◌, if◌then◌else◌, arith,
}

abbrev pub IsAscending : List ℤ → Type 0
IsAscending [] = Unit
IsAscending (x ∷ xs) = All (λ y. x ≤ℤ y) xs × IsAscending xs

unfoldable pub count : (ℤ → Bool) → List ℤ → ℕ
count p [] = 0
count p (x ∷ xs) = (if p x then 1 else 0) + count p xs

count-Permᴰ : (p : ℤ → Bool) {xs ys : List ℤ} → Permᴰ xs ys → count p xs ≡ count p ys
unfolding count
count-Permᴰ p Permᴰ.nil = refl
count-Permᴰ p (Permᴰ.cons {a} {b} e h) = rw (e, count-Permᴰ p h) refl
count-Permᴰ p (Permᴰ.swap e f) = rw (e, f) (omega arith)
count-Permᴰ p (Permᴰ.trans h k) = count-Permᴰ p h ∙ count-Permᴰ p k

pub count-Perm : (p : ℤ → Bool) {xs ys : List ℤ} → Perm xs ys → count p xs ≡ count p ys
count-Perm p h = ∥∥₁_elim h (hlevel) (count-Permᴰ p)

length-Permᴰ : {xs ys : List ℤ} → Permᴰ xs ys → length xs ≡ length ys
length-Permᴰ Permᴰ.nil = refl
length-Permᴰ (Permᴰ.cons e h) = ap suc (length-Permᴰ h)
length-Permᴰ (Permᴰ.swap e f) = refl
length-Permᴰ (Permᴰ.trans h k) = length-Permᴰ h ∙ length-Permᴰ k

pub length-Perm : {xs ys : List ℤ} → Perm xs ys → length xs ≡ length ys
length-Perm h = ∥∥₁_elim h (hlevel) length-Permᴰ

count-All : (x : ℤ) (xs : List ℤ) → All (λ y. x ≤ℤ y) xs → count (leb_ℤ x) xs ≡ length xs
unfolding count
count-All x [] h = refl
count-All x (y ∷ ys) h =
    let le : leb_ℤ x y ≡ true = ground (arith, h.0) in rw (le, count-All x ys h.1) (omega arith)

item_above :
    (x : ℤ) (xs : List ℤ) (k : ℕ) (d : ℤ)
    → All (λ y. x ≤ℤ y) xs
    → k < length xs
    → x ≤ℤ get_or xs k d
item_above x [] k d h l = absurd (omega arith)
item_above x (y ∷ ys) zero d h l = h.0
item_above x (y ∷ ys) (suc k) d h l = item_above x ys k d h.1 (omega (arith, l))

-- At least k + 1 items are no more than the item at index k, and at least as many as are from k on
-- are no less.
pub count-IsAscending :
    (xs : List ℤ) (k : ℕ) (d : ℤ)
    → IsAscending xs
    → k < length xs
    → let v = get_or xs k d in
      (k + 1 ≤ count (λ y. leb_ℤ y v) xs) × (length xs - k ≤ count (leb_ℤ v) xs)
unfolding count
count-IsAscending [] k d h l = absurd (omega arith)
count-IsAscending (x ∷ xs) zero d h l =
    let le : leb_ℤ x x ≡ true = ground arith in
    rw (le, count-All x xs h.0) (omega arith, omega arith)
count-IsAscending (x ∷ xs) (suc k) d h l =
    let (below, above) = count-IsAscending xs k d h.1 (omega (arith, l)) in
    let le : leb_ℤ x (get_or xs k d) ≡ true =
      ground (arith, item_above x xs k d h.0 (omega (arith, l))) in
    (rw le (omega (arith, below)), omega (arith, above))

pub ascending_items :
    (xs : List ℤ) (j k : ℕ) (d : ℤ)
    → IsAscending xs
    → j ≤ k
    → k < length xs
    → get_or xs j d ≤ℤ get_or xs k d
ascending_items [] j k d h g l = absurd (omega arith)
ascending_items (x ∷ xs) zero zero d h g l = omega arith
ascending_items (x ∷ xs) zero (suc k) d h g l = item_above x xs k d h.0 (omega (arith, l))
ascending_items (x ∷ xs) (suc j) zero d h g l = absurd (omega (arith, g))
ascending_items (x ∷ xs) (suc j) (suc k) d h g l =
    ascending_items xs j k d h.1 (omega (arith, g)) (omega (arith, l))
