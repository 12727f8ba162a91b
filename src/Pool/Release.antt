-- ===== src/Pool/Release.antt =====
-- `deallocate`: the slot given back is the first free one.
use hfttoolset.Base.{
  ℕ, true, false, not, List, ◌∷◌, none, ◌==◌, ◌<◌, ◌≡◌, ◌≢◌, sym, ap, ◌∙◌, subst, inl, inr,
  length-set, get_or, set, get_or-set_self, get_or-set_ne, Bool-cases, arith,
}
use hfttoolset.Pool.{Slot, MemoryPool, no_slot, slot_at, release}
use hfttoolset.Pool.Free.{
  is_in, is_in-tail, is_in_self, not_free, one_if, used-set, used-ge, IsChain, IsPool, IsChain-set,
}

module _ {ℓ} {A : Type ℓ} (capacity : ℕ) where
  exact-released :
      (p : MemoryPool A) (i j : ℕ) (free : List ℕ) (n : ℕ)
      → IsPool capacity p free
      → i < capacity
      → j < capacity
      → (get_or
          (set p.slots i (record { storage = none; next_free = n; in_use = false }))
          j
          no_slot).in_use
        ≡ not (is_in j (i ∷ free))
  exact-released p i j free n v l k = elim (Bool-cases (i == j)) [
    | inl e ↦
        let same : i ≡ j = ground (arith, e) in
        subst
          (λ y.
            (get_or (set p.slots i (record { storage = none; next_free = n; in_use = false })) y
              no_slot).in_use
            ≡ not (is_in y (i ∷ free)))
          same
          (ap (λ s. s.in_use) (get_or-set_self p.slots i _ no_slot (omega (arith, v.size, l)))
            ∙ sym (ap not (is_in_self i free)))
    | inr e ↦
        let ne : i ≢ j = ground (arith, e) in
        ap (λ s. s.in_use) (get_or-set_ne p.slots _ no_slot ne)
        ∙ v.exact j k
        ∙ sym (ap not (is_in-tail j i free ne))
  ]

  -- What `deallocate` gives for the slot.
  abbrev pub IsReleased : ℕ → MemoryPool A → List ℕ → MemoryPool A → Type ℓ
  IsReleased i p free p' =
      IsPool capacity p' (i ∷ free) × ((j : ℕ) → i ≢ j → slot_at p' j ≡ slot_at p j)

  pub release-IsReleased :
      (p : MemoryPool A) (i : ℕ) (free : List ℕ)
      → IsPool capacity p free
      → i < capacity
      → (slot_at p i).in_use ≡ true
      → IsReleased i p free (release capacity i p)
  unfolding release
  release-IsReleased p i free v l u =
      let absent = not_free (is_in i free) (sym (v.exact i l) ∙ u) in
      let s : Slot A = record { storage = none; next_free = p.free_head; in_use = false } in
      let one = used-set p.slots i s (omega (arith, v.size, l)) in
      let given = ap one_if u in
      let some_used = used-ge p.slots i in
      (
        record {
          size = length-set p.slots i s ∙ v.size;
          small = v.small;
          chain = (
            omega (arith, l, v.small),
            l,
            subst (λ x. IsChain capacity (set p.slots i s) x.next_free free)
                (sym (get_or-set_self p.slots i s no_slot (omega (arith, v.size, l))))
                (IsChain-set capacity p.slots i p.free_head s free absent v.chain),
          );
          distinct = (absent, v.distinct);
          exact = λ j k. exact-released p i j free p.free_head v l k;
          count = omega (arith, v.count, v.total, v.small, one, given, some_used);
          total = omega (arith, v.total, one, given);
        },
        λ j n. get_or-set_ne p.slots s no_slot n,
      )
