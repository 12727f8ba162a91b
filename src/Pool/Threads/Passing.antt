-- ===== src/Pool/Threads/Passing.antt =====
-- A slot passes from a thread to the client, and back.
use hfttoolset.Base.{ℕ, true, List, ◌∷◌, none, some, ◌≡◌, refl, sym, ◌∙◌, arith, leb}
use hfttoolset.Pool.Free.{is_in, is_in-tail, is_in_self}
use hfttoolset.Pool.Threads.{idle, returning, Sharing, put, remove, go}
use hfttoolset.Pool.Threads.Place.{
  Place, given_out, with_thread, is_outside, is_given, is_listed, slot_of, is_with-excludes,
  is_given-excludes, Knows, IsSafe, is_in-remove, IsDistinct-remove,
}
use hfttoolset.Pool.Threads.Quiet.{at_put}
use hfttoolset.Pool.Threads.Held.{with_it, held-lost, held-gained}

module _ {ℓ} {A : Type ℓ} (capacity a : ℕ) (s : Sharing A) (free : List ℕ) (place : ℕ → Place)
    (v : IsSafe capacity a s free place) (t i : ℕ) where
  module _ (mine : slot_of (s.position t) ≡ some i) where
    pub given :
        IsSafe capacity a
          (go t idle (record s { given = i ∷ s.given }))
          free
          (put place i given_out)
    given =
        let (not_listed, not_given, inside, others) =
          is_with-excludes t (place i) (with_it capacity a s free place v t i idle mine) in
        record {
          size = v.size;
          small = v.small;
          chain = v.chain;
          distinct = v.distinct;
          given_distinct = (v.out i ∙ not_given, v.given_distinct);
          known = λ j.
              at_put (λ k p. is_outside p ≡ leb capacity k) place i j given_out
                (sym inside ∙ v.known i) (λ n. v.known j);
          listed = λ j.
              at_put (λ k p. is_in k free ≡ is_listed p) place i j given_out
                (v.listed i ∙ not_listed) (λ n. v.listed j);
          out = λ j.
              at_put (λ k p. is_in k (i ∷ s.given) ≡ is_given p) place i j given_out
                (is_in_self i s.given) (λ n. is_in-tail j i s.given n ∙ v.out j);
          held = held-lost capacity a s free place v t i idle given_out (λ u. refl) mine refl;
          knows =
              λ u. at_put (Knows capacity a s.pool free) s.position t u idle tt (λ n. v.knows u);
        }

  module _ (none_yet : slot_of (s.position t) ≡ none) (out : is_in i s.given ≡ true) where
    pub taken_back :
        IsSafe capacity a
          (go t (returning i) (record s { given = remove i s.given }))
          free
          (put place i (with_thread t))
    taken_back =
        let (not_listed, inside, nobody) = is_given-excludes (place i) (sym (v.out i) ∙ out) in
        record {
          size = v.size;
          small = v.small;
          chain = v.chain;
          distinct = v.distinct;
          given_distinct = IsDistinct-remove i s.given v.given_distinct;
          known = λ j.
              at_put (λ k p. is_outside p ≡ leb capacity k) place i j (with_thread t)
                (sym inside ∙ v.known i) (λ n. v.known j);
          listed = λ j.
              at_put (λ k p. is_in k free ≡ is_listed p) place i j (with_thread t)
                (v.listed i ∙ not_listed) (λ n. v.listed j);
          out = λ j.
              at_put (λ k p. is_in k (remove i s.given) ≡ is_given p) place i j (with_thread t)
                (is_in-remove i i s.given v.given_distinct ∙ ground arith)
                (λ n. is_in-remove i j s.given v.given_distinct ∙ ground (arith, n, v.out j));
          held = held-gained capacity a s free place v t i (returning i) nobody none_yet refl;
          knows = λ u.
              at_put (Knows capacity a s.pool free) s.position t u (returning i) tt
                (λ n. v.knows u);
        }
