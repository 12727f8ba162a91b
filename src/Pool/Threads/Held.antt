-- ===== src/Pool/Threads/Held.antt =====
-- Which thread holds which slot, when one slot leaves a thread or comes to it.
use hfttoolset.Base.{ℕ, List, none, some, ◌==◌, ◌≡◌, refl, sym, ap, ◌∙◌, arith, ==_iff, true, false}
use hfttoolset.Pool.Threads.{Standing, Sharing, put}
use hfttoolset.Pool.Threads.Place.{
  Place, with_thread, is_with, slot_of, holds, is_with-excludes, IsSafe,
}
use hfttoolset.Pool.Threads.Quiet.{at_put}

module _ {ℓ} {A : Type ℓ} (capacity a : ℕ) (s : Sharing A) (free : List ℕ) (place : ℕ → Place)
    (v : IsSafe capacity a s free place) (t i : ℕ) (p : Standing A) where
  pub with_it : slot_of (s.position t) ≡ some i → is_with t (place i) ≡ true
  with_it mine = sym (v.held t i) ∙ ap (λ o. holds o i) mine ∙ (==_iff i i).1 refl

  pub held-lost :
      (w : Place)
      → ((u : ℕ) → is_with u w ≡ false)
      → slot_of (s.position t) ≡ some i
      → slot_of p ≡ none
      → (u j : ℕ) → holds (slot_of (put s.position t p u)) j ≡ is_with u (put place i w j)
  held-lost w nobody mine gone u j =
      let others = (is_with-excludes t (place i) (with_it mine)).3 in
      at_put (λ k q. holds (slot_of (put s.position t p u)) k ≡ is_with u q) place i j w
        (at_put (λ z at. holds (slot_of at) i ≡ is_with u w) s.position t u p
          (ap (λ o. holds o i) gone ∙ sym (nobody u))
          (λ n. v.held u i ∙ others u n ∙ sym (nobody u)))
        (λ n.
          at_put (λ z at. holds (slot_of at) j ≡ is_with z (place j)) s.position t u p
            (ap (λ o. holds o j) gone
              ∙ sym (sym (v.held t j) ∙ ap (λ o. holds o j) mine ∙ ground (arith, n)))
            (λ m. v.held u j))

  pub held-gained :
      ((u : ℕ) → is_with u (place i) ≡ false)
      → slot_of (s.position t) ≡ none
      → slot_of p ≡ some i
      → (u j : ℕ)
      → holds (slot_of (put s.position t p u)) j ≡ is_with u (put place i (with_thread t) j)
  held-gained nobody none_yet mine u j =
      at_put (λ k q. holds (slot_of (put s.position t p u)) k ≡ is_with u q) place i j
        (with_thread t)
        (at_put (λ z at. holds (slot_of at) i ≡ (t == z)) s.position t u p
          (ap (λ o. holds o i) mine ∙ ground arith)
          (λ n. v.held u i ∙ nobody u ∙ ground (arith, n)))
        (λ n.
          at_put (λ z at. holds (slot_of at) j ≡ is_with z (place j)) s.position t u p
            (ap (λ o. holds o j) mine
              ∙ ground (arith, n)
              ∙ ap (λ o. holds o j) (sym none_yet)
              ∙ v.held t j)
            (λ m. v.held u j))
