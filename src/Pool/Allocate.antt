-- ===== src/Pool/Allocate.antt =====
-- `allocate`: the first free slot is given out.
use hfttoolset.Base.{
  ℕ, true, false, not, List, [], ◌∷◌, Option, none, some, leb, ◌==◌, ◌<◌, ◌≡◌, ◌≢◌, refl, sym, ap,
  ◌∙◌, subst, inl, inr, length-set, get_or, set, get_or-set_self, get_or-set_ne, Bool-cases, arith,
}
use hfttoolset.Pool.{Slot, MemoryPool, no_slot, slot_at, allocate_at, allocate}
use hfttoolset.Pool.Free.{is_in, is_in-tail, is_in_self, one_if, used-set, IsPool, IsChain-set}

module _ {ℓ} {A : Type ℓ} (capacity : ℕ) where
  -- What `allocate` does on a pool with these free slots.
  abbrev pub IsAllocated : A → MemoryPool A → List ℕ → Option ℕ × MemoryPool A → Type ℓ
  IsAllocated x p [] r = r ≡ (none, p)
  IsAllocated x p (i ∷ is) r =
      (r.0 ≡ some i)
      × ((slot_at p i).in_use ≡ false)
      × ((slot_at r.1 i).storage ≡ some x)
      × ((j : ℕ) → i ≢ j → slot_at r.1 j ≡ slot_at p j)
      × IsPool capacity r.1 is

  exact-taken :
      (p : MemoryPool A) (i j : ℕ) (is : List ℕ) (x : A)
      → IsPool capacity p (i ∷ is)
      → i < capacity
      → j < capacity
      → (get_or
          (set p.slots i (record (slot_at p i) { storage = some x; in_use = true }))
          j
          no_slot).in_use
        ≡ not (is_in j is)
  exact-taken p i j is x v l k = elim (Bool-cases (i == j)) [
    | inl e ↦
        let same : i ≡ j = ground (arith, e) in
        subst
          (λ y.
            (get_or (set p.slots i (record (slot_at p i) { storage = some x; in_use = true })) y
              no_slot).in_use
            ≡ not (is_in y is))
          same
          (ap (λ s. s.in_use) (get_or-set_self p.slots i _ no_slot (omega (arith, v.size, l)))
            ∙ sym (ap not v.distinct.0))
    | inr e ↦
        let ne : i ≢ j = ground (arith, e) in
        ap (λ s. s.in_use) (get_or-set_ne p.slots _ no_slot ne)
        ∙ v.exact j k
        ∙ ap not (is_in-tail j i is ne)
  ]

  allocate_at-IsAllocated :
      (x : A) (p : MemoryPool A) (i : ℕ) (is : List ℕ)
      → IsPool capacity p (i ∷ is)
      → IsAllocated x p (i ∷ is) (allocate_at capacity i x p)
  unfolding allocate_at
  allocate_at-IsAllocated x p i is v =
      let (h, l, c) = v.chain in
      let e : leb capacity i ≡ false = ground (arith, l) in
      let s : Slot A = record (slot_at p i) { storage = some x; in_use = true } in
      let one = used-set p.slots i s (omega (arith, v.size, l)) in
      let none_yet = ap one_if (v.exact i l ∙ ap not (is_in_self i is)) in
      rw e (
        refl,
        v.exact i l ∙ ap not (is_in_self i is),
        ap (λ s. s.storage) (get_or-set_self p.slots i _ no_slot (omega (arith, v.size, l))),
        λ j n. get_or-set_ne p.slots _ no_slot n,
        record {
          size = length-set p.slots i _ ∙ v.size;
          small = v.small;
          chain = IsChain-set capacity p.slots i _ _ is v.distinct.0 c;
          distinct = v.distinct.1;
          exact = λ j k. exact-taken p i j is x v l k;
          count = omega (arith, v.count, v.total, v.small, one, none_yet);
          total = omega (arith, v.total, one, none_yet);
        },
      )

  none_left :
      (x : A) (p : MemoryPool A) → p.free_head ≡ capacity → allocate capacity x p ≡ (none, p)
  unfolding allocate allocate_at
  none_left x p h = let e : leb capacity p.free_head ≡ true = ground (arith, h) in rw e refl

  -- On a pool with these free slots, `allocate` returns nothing and changes nothing if there is
  -- none. Otherwise it returns the first, which was not in use, with the object in it; every
  -- other slot stays as it was, and the free slots are the rest.
  pub allocate-IsAllocated :
      (x : A) (p : MemoryPool A) (free : List ℕ)
      → IsPool capacity p free
      → IsAllocated x p free (allocate capacity x p)
  unfolding allocate
  allocate-IsAllocated x p [] v = none_left x p v.chain
  allocate-IsAllocated x p (i ∷ is) v =
      subst (λ h. IsAllocated x p (i ∷ is) (allocate_at capacity h x p)) (sym v.chain.0)
        (allocate_at-IsAllocated x p i is v)
