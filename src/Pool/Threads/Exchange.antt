-- ===== src/Pool/Threads/Exchange.antt =====
-- The exchanges that succeed: the head of the list passes to the allocating thread, and a slot is
-- put in front of the list.
use hfttoolset.Base.{
  ℕ, List, ◌∷◌, none, some, ◌≡◌, ◌<◌, ◌^◌, ◌%◌, refl, sym, subst, ◌∙◌, arith, leb,
}
use hfttoolset.Pool.{slot_at}
use hfttoolset.Pool.Free.{is_in, is_in-tail, is_in_self, IsChain}
use hfttoolset.Pool.Threads.{exchanged, pushed, Sharing, put, go, with_head}
use hfttoolset.Pool.Threads.Place.{
  Place, in_list, with_thread, is_outside, is_given, is_listed, slot_of, is_with-excludes,
  is_listed-excludes, Knows, IsSafe,
}
use hfttoolset.Pool.Threads.Held.{with_it, held-lost, held-gained}
use hfttoolset.Pool.Threads.Quiet.{at_put, Knows-kept}

module _ {ℓ} {A : Type ℓ} (capacity a : ℕ) (s : Sharing A) (place : ℕ → Place) (t : ℕ) where
  -- The list without its first slot.
  pub popped :
      (x : A) (i n : ℕ) (free : List ℕ)
      → IsSafe capacity a s (i ∷ free) place
      → t ≡ a
      → slot_of (s.position t) ≡ none
      → (slot_at s.pool i).next_free ≡ n
      → IsSafe capacity a (go t (exchanged x i) (with_head n s)) free (put place i (with_thread t))
  popped x i n free v mine none_yet e =
      let (not_given, inside, nobody) =
        is_listed-excludes (place i) (sym (v.listed i) ∙ is_in_self i free) in
      record {
        size = v.size;
        small = v.small;
        chain = subst (λ h. IsChain capacity s.pool.slots h free) e v.chain.2;
        distinct = v.distinct.1;
        given_distinct = v.given_distinct;
        known = λ j.
            at_put (λ k p. is_outside p ≡ leb capacity k) place i j (with_thread t)
              (sym inside ∙ v.known i) (λ n. v.known j);
        listed = λ j.
            at_put (λ k p. is_in k free ≡ is_listed p) place i j (with_thread t) v.distinct.0
              (λ n. sym (is_in-tail j i free n) ∙ v.listed j);
        out = λ j.
            at_put (λ k p. is_in k s.given ≡ is_given p) place i j (with_thread t)
              (v.out i ∙ not_given) (λ n. v.out j);
        held = held-gained capacity a s (i ∷ free) place v t i (exchanged x i) nobody none_yet refl;
        knows = λ u.
            at_put (Knows capacity a (record s.pool { free_head = n }) free) s.position t u
              (exchanged x i) tt
              (λ m.
                Knows-kept capacity a s.pool (record s.pool { free_head = n }) (i ∷ free) free u
                  (s.position u) (λ e h k. absurd (m (mine ∙ sym e))) (λ j k. refl) (v.knows u));
      }

  -- The list with another slot in front.
  pub linked_in :
      (i : ℕ) (free : List ℕ)
      → IsSafe capacity a s free place
      → slot_of (s.position t) ≡ some i
      → (slot_at s.pool i).next_free ≡ s.pool.free_head
      → IsSafe capacity a (go t pushed (with_head (i % 2 ^ 32) s)) (i ∷ free) (put place i in_list)
  linked_in i free v mine e =
      let (not_listed, not_given, inside, others) =
        is_with-excludes t (place i) (with_it capacity a s free place v t i pushed mine) in
      let in_range : i < capacity = ground (arith, v.known i, inside) in
      record {
        size = v.size;
        small = v.small;
        chain = (
          omega (arith, in_range, v.small),
          in_range,
          subst (λ h. IsChain capacity s.pool.slots h free) (sym e) v.chain,
        );
        distinct = (v.listed i ∙ not_listed, v.distinct);
        given_distinct = v.given_distinct;
        known = λ j.
            at_put (λ k p. is_outside p ≡ leb capacity k) place i j in_list (sym inside ∙ v.known i)
              (λ n. v.known j);
        listed = λ j.
            at_put (λ k p. is_in k (i ∷ free) ≡ is_listed p) place i j in_list (is_in_self i free)
              (λ n. is_in-tail j i free n ∙ v.listed j);
        out = λ j.
            at_put (λ k p. is_in k s.given ≡ is_given p) place i j in_list (v.out i ∙ not_given)
              (λ n. v.out j);
        held = held-lost capacity a s free place v t i pushed in_list (λ u. refl) mine refl;
        knows = λ u.
            at_put (Knows capacity a (record s.pool { free_head = i % 2 ^ 32 }) (i ∷ free))
              s.position t u pushed tt
              (λ m.
                Knows-kept capacity a s.pool (record s.pool { free_head = i % 2 ^ 32 }) free
                  (i ∷ free) u (s.position u) (λ e h k. (ground (arith, k), refl)) (λ j k. refl)
                  (v.knows u));
      }
