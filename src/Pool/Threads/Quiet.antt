-- ===== src/Pool/Threads/Quiet.antt =====
-- Steps that move no slot: of the position alone, of the count, or a write to a slot that the thread
-- has to itself.
use hfttoolset.Base.{
  ℕ, true, false, List, some, ◌==◌, length-set, set, get_or-set_ne, ◌≡◌, ◌≢◌, refl, sym, subst, ap,
  ◌∙◌, arith, inl, inr, Bool-cases, ==_iff,
}
use hfttoolset.Pool.{Slot, MemoryPool, no_slot, slot_at}
use hfttoolset.Pool.Free.{is_in, IsChain-set}
use hfttoolset.Pool.Threads.{
  Standing, idle, head_loaded, next_loaded, exchanged, marked, counted, constructed, returning,
  destructed, linking, linked, pushed, Sharing, put, go, with_slot, with_count,
}
use hfttoolset.Pool.Threads.Place.{Place, is_with, slot_of, holds, is_with-excludes, Knows, IsSafe}

-- What holds at every index after `p` was put at `t`.
pub at_put {ℓ} :
    {A : Type ℓ} (P : ℕ → A → Type 0) (f : ℕ → A) (t u : ℕ) (p : A)
    → P t p
    → (t ≢ u → P u (f u))
    → P u (put f t p u)
at_put P f t u p x y = elim (Bool-cases (t == u)) [
  | inl e ↦ rw e (subst (λ v. P v p) ((==_iff t u).0 e) x)
  | inr e ↦ rw e (y (ground (arith, e)))
]

module _ {ℓ} {A : Type ℓ} (capacity a : ℕ) where
  pub Knows-kept :
      (p q : MemoryPool A) (free free' : List ℕ) (t : ℕ) (at : Standing A)
      → (t ≡ a
          → (h : ℕ) → is_in h free ≡ true
          → (is_in h free' ≡ true) × ((slot_at q h).next_free ≡ (slot_at p h).next_free))
      → ((i : ℕ) → holds (slot_of at) i ≡ true → (slot_at q i).next_free ≡ (slot_at p i).next_free)
      → Knows capacity a p free t at
      → Knows capacity a q free' t at
  Knows-kept p q free free' t idle h k x = tt
  Knows-kept p q free free' t (head_loaded v i) h k (e, inl x) = (e, inl x)
  Knows-kept p q free free' t (head_loaded v i) h k (e, inr x) = (e, inr (h e i x).0)
  Knows-kept p q free free' t (next_loaded v i n) h k (e, x, y) = (e, (h e i x).0, (h e i x).1 ∙ y)
  Knows-kept p q free free' t (exchanged v i) h k x = tt
  Knows-kept p q free free' t (marked v i) h k x = tt
  Knows-kept p q free free' t (counted v i) h k x = tt
  Knows-kept p q free free' t (constructed i) h k x = tt
  Knows-kept p q free free' t (returning i) h k x = tt
  Knows-kept p q free free' t (destructed i) h k x = tt
  Knows-kept p q free free' t (linking i n) h k x = tt
  Knows-kept p q free free' t (linked i n) h k x = k i ((==_iff i i).1 refl) ∙ x
  Knows-kept p q free free' t pushed h k x = tt

  module _ (s : Sharing A) (free : List ℕ) (place : ℕ → Place) (v : IsSafe capacity a s free place)
      (t : ℕ) (p : Standing A) (same : slot_of p ≡ slot_of (s.position t)) where
    held-same : (u i : ℕ) → holds (slot_of (put s.position t p u)) i ≡ is_with u (place i)
    held-same u i =
        at_put (λ w at. holds (slot_of at) i ≡ is_with w (place i)) s.position t u p
          (ap (λ o. holds o i) same ∙ v.held t i) (λ n. v.held u i)

    pub recounted :
        (n : ℕ)
        → Knows capacity a s.pool free t p
        → IsSafe capacity a (go t p (with_count n s)) free place
    recounted n k =
        let q : MemoryPool A = record s.pool { allocated = n } in
        record {
          size = v.size;
          small = v.small;
          chain = v.chain;
          distinct = v.distinct;
          given_distinct = v.given_distinct;
          known = v.known;
          listed = v.listed;
          out = v.out;
          held = held-same;
          knows = λ u.
              at_put (Knows capacity a q free) s.position t u p
                (Knows-kept s.pool q free free t p (λ e h x. (x, refl)) (λ i x. refl) k)
                (λ n.
                  Knows-kept s.pool q free free u (s.position u) (λ e h x. (x, refl)) (λ i x. refl)
                    (v.knows u));
        }

    pub moved : Knows capacity a s.pool free t p → IsSafe capacity a (go t p s) free place
    moved k = recounted s.pool.allocated k

    module _ (i : ℕ) (r : Slot A) (mine : slot_of (s.position t) ≡ some i) where
      abbrev q : MemoryPool A
      q = record s.pool { slots = set s.pool.slots i r }

      with_it : is_with t (place i) ≡ true
      with_it = sym (v.held t i) ∙ ap (λ o. holds o i) mine ∙ (==_iff i i).1 refl

      not_listed : is_in i free ≡ false
      not_listed = v.listed i ∙ (is_with-excludes t (place i) with_it).0

      next_elsewhere : (j : ℕ) → i ≢ j → (slot_at q j).next_free ≡ (slot_at s.pool j).next_free
      next_elsewhere j n = ap (λ x. x.next_free) (get_or-set_ne s.pool.slots r no_slot n)

      listed_elsewhere : (j : ℕ) → is_in j free ≡ true → i ≢ j
      listed_elsewhere j x e = cc (subst (λ k. is_in k free ≡ false) e not_listed, x)

      theirs_elsewhere : (u j : ℕ) → t ≢ u → holds (slot_of (s.position u)) j ≡ true → i ≢ j
      theirs_elsewhere u j n x e = cc (
        subst (λ k. is_with u (place k) ≡ false) e ((is_with-excludes t (place i) with_it).3 u n),
        v.held u j,
        x,
      )

      pub rewritten :
          Knows capacity a q free t p → IsSafe capacity a (go t p (with_slot i r s)) free place
      rewritten k = record {
        size = length-set s.pool.slots i r ∙ v.size;
        small = v.small;
        chain = IsChain-set capacity s.pool.slots i s.pool.free_head r free not_listed v.chain;
        distinct = v.distinct;
        given_distinct = v.given_distinct;
        known = v.known;
        listed = v.listed;
        out = v.out;
        held = held-same;
        knows = λ u. at_put (Knows capacity a q free) s.position t u p k (λ n.
            Knows-kept s.pool q free free u (s.position u)
              (λ e h x. (x, next_elsewhere h (listed_elsewhere h x)))
              (λ j x. next_elsewhere j (theirs_elsewhere u j n x)) (v.knows u));
      }
