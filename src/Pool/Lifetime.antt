-- ===== src/Pool/Lifetime.antt =====
-- The objects of a pool: constructed by `allocate`, destructed by `deallocate` or with the pool.
use hfttoolset.Base.{
  ℕ, zero, suc, Bool, true, false, ◌&&◌, List, [], ◌∷◌, ◌++◌, Option, none, some, All,
  if◌then◌else◌, ltb, leb, ◌<◌, ◌≡◌, refl, sym, ap, ◌∙◌, subst, length, get_or, set, some_inj,
  Bool-cases, inl, inr, arith, ◌+◌, ◌^◌,
}
use hfttoolset.Pool.{
  Slot, MemoryPool, no_slot, slot_at, build_free_list, new_pool, allocate, allocate_at, release,
  deallocate, destruct_object, destruct_slots, destruct_pool,
}
use hfttoolset.Pool.Free.{IsPool}
use hfttoolset.Pool.Allocate.{allocate-IsAllocated}
use hfttoolset.Pool.Release.{release-IsReleased}
use hfttoolset.Pool.Cycle.{range, new_pool-IsPool}

module _ {ℓ} {A : Type ℓ} where
  -- Objects are told apart by any weights.
  abbrev pub total : (A → ℕ) → List A → ℕ
  total f [] = 0
  total f (x ∷ xs) = f x + total f xs

  abbrev pub weigh : (A → ℕ) → Option A → ℕ
  weigh f none = 0
  weigh f (some x) = f x

  abbrev pub held : (A → ℕ) → List (Slot A) → ℕ
  held f [] = 0
  held f (s ∷ ss) = weigh f s.storage + held f ss

  abbrev has_object : Option A → Bool
  has_object none = false
  has_object (some x) = true

  -- A slot has an object in it exactly while it is in use.
  abbrev IsKept : Slot A → Type 0
  IsKept s = s.in_use ≡ has_object s.storage

  abbrev objects_of : Option A → List A
  objects_of none = []
  objects_of (some x) = x ∷ []

  held-set :
      (f : A → ℕ) (ss : List (Slot A)) (i : ℕ) (s : Slot A)
      → i < length ss
      → held f (set ss i s) + weigh f (get_or ss i no_slot).storage ≡ held f ss + weigh f s.storage
  held-set f [] i s h = absurd (omega (arith, h))
  held-set f (r ∷ ss) zero s h = omega arith
  held-set f (r ∷ ss) (suc i) s h = omega (arith, held-set f ss i s (omega (arith, h)))

  All-set :
      (ss : List (Slot A)) (i : ℕ) (s : Slot A) → All IsKept ss → IsKept s → All IsKept (set ss i s)
  All-set [] i s a k = a
  All-set (r ∷ ss) zero s a k = (k, a.1)
  All-set (r ∷ ss) (suc i) s a k = (a.0, All-set ss i s a.1 k)

  All-get_or : (ss : List (Slot A)) (i : ℕ) → All IsKept ss → IsKept (get_or ss i no_slot)
  All-get_or [] i a = refl
  All-get_or (r ∷ ss) zero a = a.0
  All-get_or (r ∷ ss) (suc i) a = All-get_or ss i a.1

  weigh_none : (f : A → ℕ) (o : Option A) → has_object o ≡ false → weigh f o ≡ 0
  weigh_none f none h = refl
  weigh_none f (some x) h = cc

  total-objects_of :
      (f : A → ℕ) (o : Option A) (xs : List A)
      → total f (objects_of o ++ xs) ≡ weigh f o + total f xs
  total-objects_of f none xs = omega arith
  total-objects_of f (some x) xs = refl

  -- The destructor destructs what the slots hold.
  abbrev Destructs : List (Slot A) → Option (List A) → Type ℓ
  Destructs ss r = (xs : List A) × (r ≡ some xs) × ((f : A → ℕ) → total f xs ≡ held f ss)

  destruct_one :
      (b : Bool) (o : Option A) (ss : List (Slot A)) (r : Option (List A)) (n : ℕ)
      → b ≡ has_object o
      → Destructs ss r
      → Destructs
          (record { storage = o; next_free = n; in_use = b } ∷ ss)
          (if b then destruct_object o r else r)
  destruct_one true none ss r n k d = cc
  destruct_one false none ss r n k (xs, e, t) = (xs, e, λ f. omega (arith, t f))
  destruct_one false (some x) ss r n k d = cc
  destruct_one true (some x) ss r n k (xs, e, t) =
      (x ∷ xs, ap (destruct_object (some x)) e, λ f. ap (λ m. f x + m) (t f))

  destruct_slots-Destructs : (ss : List (Slot A)) → All IsKept ss → Destructs ss (destruct_slots ss)
  unfolding destruct_slots
  destruct_slots-Destructs [] a = ([], refl, λ f. refl)
  destruct_slots-Destructs (s ∷ ss) a =
      destruct_one s.in_use s.storage ss (destruct_slots ss) s.next_free a.0
        (destruct_slots-Destructs ss a.1)

-- What a pool and its clients come to: the objects that were constructed, and those that were
-- destructed.
pub record Lifetimes {ℓ} (A : Type ℓ) : Type ℓ where
  pub pool : MemoryPool A
  pub constructed : List A
  pub destructed : List A

pub data Call {ℓ} (A : Type ℓ) : Type ℓ where
  allocates : A → Call A
  deallocates : Option ℕ → Call A

module _ {ℓ} (A : Type ℓ) where
  built-IsKept : (n i : ℕ) → All IsKept (build_free_list {A = A} n i)
  unfolding build_free_list
  built-IsKept zero i = tt
  built-IsKept (suc n) i = (refl, built-IsKept n (suc i))

  held-built : (f : A → ℕ) (n i : ℕ) → held f (build_free_list {A = A} n i) ≡ 0
  unfolding build_free_list
  held-built f zero i = refl
  held-built f (suc n) i = omega (arith, held-built f n (suc i))

module _ {ℓ} {A : Type ℓ} (capacity : ℕ) where
  abbrev made : A → Option ℕ → List A → List A
  made x none xs = xs
  made x (some i) xs = x ∷ xs

  abbrev ended : Option ℕ → MemoryPool A → List A
  ended none p = []
  ended (some i) p = objects_of (slot_at p i).storage

  abbrev after_allocate : A → Lifetimes A → Option ℕ × MemoryPool A → Lifetimes A
  after_allocate x l r = record {
    pool = r.1;
    constructed = made x r.0 l.constructed;
    destructed = l.destructed;
  }

  abbrev after_deallocate : Option ℕ → Lifetimes A → Option (MemoryPool A) → Option (Lifetimes A)
  after_deallocate q l none = none
  after_deallocate q l (some p) =
      some (record l { pool = p; destructed = ended q l.pool ++ l.destructed })

  -- `none`: an assertion fails.
  abbrev call : Call A → Lifetimes A → Option (Lifetimes A)
  call (allocates x) l = some (after_allocate x l (allocate capacity x l.pool))
  call (deallocates q) l = after_deallocate q l (deallocate capacity q l.pool)

  abbrev next_calls :
      (Lifetimes A → Option (Lifetimes A)) → Option (Lifetimes A) → Option (Lifetimes A)
  next_calls f none = none
  next_calls f (some l) = f l

  unfoldable pub call_all : List (Call A) → Lifetimes A → Option (Lifetimes A)
  call_all [] l = some l
  call_all (c ∷ cs) l = next_calls (call_all cs) (call c l)

  abbrev pub new_lifetimes : Lifetimes A
  new_lifetimes = record { pool = new_pool capacity; constructed = []; destructed = [] }

  record IsBalanced (l : Lifetimes A) : Type ℓ where
    free : List ℕ
    valid : IsPool capacity l.pool free
    kept : All IsKept l.pool.slots
    balance : (f : A → ℕ) → total f l.constructed ≡ total f l.destructed + held f l.pool.slots

  abbrev KeepsBalanced : Option (Lifetimes A) → Type ℓ
  KeepsBalanced none = Unit
  KeepsBalanced (some l) = IsBalanced l

  taken_slots :
      (x : A) (i : ℕ) (p : MemoryPool A)
      → i < capacity
      → (allocate_at capacity i x p).1.slots
        ≡ set p.slots i (record (slot_at p i) { storage = some x; in_use = true })
  unfolding allocate_at
  taken_slots x i p h = let e : leb capacity i ≡ false = ground (arith, h) in rw e refl

  first_slots :
      (x : A) (i : ℕ) (is : List ℕ) (p : MemoryPool A)
      → IsPool capacity p (i ∷ is)
      → (allocate capacity x p).1.slots
        ≡ set p.slots i (record (slot_at p i) { storage = some x; in_use = true })
  unfolding allocate
  first_slots x i is p v =
      ap (λ h. (allocate_at capacity h x p).1.slots) v.chain.0 ∙ taken_slots x i p v.chain.1

  call-allocates :
      (x : A) (l : Lifetimes A) (free : List ℕ)
      → IsPool capacity l.pool free
      → IsBalanced l
      → IsBalanced (after_allocate x l (allocate capacity x l.pool))
  call-allocates x l [] v b = rw (allocate-IsAllocated capacity x l.pool [] v) b
  call-allocates x l (i ∷ is) v b =
      let (e, u, o, same, v') = allocate-IsAllocated capacity x l.pool (i ∷ is) v in
      let s : Slot A = record (slot_at l.pool i) { storage = some x; in_use = true } in
      let slots = first_slots x i is l.pool v in
      record {
        free = is;
        valid = v';
        kept = subst (All IsKept) (sym slots) (All-set l.pool.slots i s b.kept refl);
        balance = λ f.
            let was =
              weigh_none f (slot_at l.pool i).storage
                (sym (All-get_or l.pool.slots i b.kept) ∙ u) in
            let now = held-set f l.pool.slots i s (omega (arith, v.size, v.chain.1)) in
            let old = b.balance f in
            ap (λ o. total f (made x o l.constructed)) e
            ∙ omega (arith, was, now, old)
            ∙ ap (λ ss. total f l.destructed + held f ss) (sym slots);
      }

  call-deallocates :
      (i : ℕ) (l : Lifetimes A) (free : List ℕ)
      → IsPool capacity l.pool free
      → IsBalanced l
      → i < capacity
      → (slot_at l.pool i).in_use ≡ true
      → IsBalanced (record l {
        pool = release capacity i l.pool;
        destructed = ended (some i) l.pool ++ l.destructed;
      })
  unfolding release
  call-deallocates i l free v b h u =
      let p = l.pool in
      let s : Slot A = record { storage = none; next_free = p.free_head; in_use = false } in
      record {
        free = i ∷ free;
        valid = (release-IsReleased capacity p i free v h u).0;
        kept = All-set p.slots i s b.kept refl;
        balance = λ f.
            let now = held-set f p.slots i s (omega (arith, v.size, h)) in
            let gone = total-objects_of f (slot_at p i).storage l.destructed in
            let old = b.balance f in omega (arith, now, gone, old);
      }

  call-KeepsBalanced : (c : Call A) (l : Lifetimes A) → IsBalanced l → KeepsBalanced (call c l)
  unfolding deallocate
  call-KeepsBalanced (allocates x) l b = call-allocates x l b.free b.valid b
  call-KeepsBalanced (deallocates none) l b = b
  call-KeepsBalanced (deallocates (some i)) l b =
      elim (Bool-cases (ltb i capacity && (slot_at l.pool i).in_use)) [
        | inl e ↦
            rw e (call-deallocates i l b.free b.valid b (ground (arith, e)) (ground (arith, e)))
        | inr e ↦ rw e tt
      ]

  next_calls-IsBalanced :
      (cs : List (Call A)) (o : Option (Lifetimes A)) (l : Lifetimes A)
      → ((m : Lifetimes A) → IsBalanced m → call_all cs m ≡ some l → IsBalanced l)
      → KeepsBalanced o
      → next_calls (call_all cs) o ≡ some l
      → IsBalanced l
  next_calls-IsBalanced cs none l f b e = cc
  next_calls-IsBalanced cs (some m) l f b e = f m b e

  call_all-IsBalanced :
      (cs : List (Call A)) (m l : Lifetimes A)
      → IsBalanced m
      → call_all cs m ≡ some l
      → IsBalanced l
  unfolding call_all
  call_all-IsBalanced [] m l b e = subst IsBalanced (some_inj e) b
  call_all-IsBalanced (c ∷ cs) m l b e =
      next_calls-IsBalanced cs (call c m) l (λ m'. call_all-IsBalanced cs m' l)
        (call-KeepsBalanced c m b) e

  new_lifetimes-IsBalanced : capacity < 2 ^ 32 → IsBalanced new_lifetimes
  unfolding new_pool
  new_lifetimes-IsBalanced h = record {
    free = range capacity 0;
    valid = new_pool-IsPool A capacity h;
    kept = built-IsKept A capacity 0;
    balance = λ f. omega (arith, held-built A f capacity 0);
  }

  -- After any calls that fail no assertion, on a new pool of fewer than 2^32 slots, the destructor
  -- of the pool finds an object in every slot in use. The objects that it destructs and those that
  -- `deallocate` destructed are together those that `allocate` constructed, each as often, whatever
  -- weighs them.
  pub destruct_pool-call_all :
      (cs : List (Call A)) (l : Lifetimes A)
      → capacity < 2 ^ 32
      → call_all cs new_lifetimes ≡ some l
      → (left : List A) × (destruct_pool l.pool ≡ some left)
        × ((f : A → ℕ) → total f l.constructed ≡ total f l.destructed + total f left)
  unfolding destruct_pool
  destruct_pool-call_all cs l h e =
      let b = call_all-IsBalanced cs new_lifetimes l (new_lifetimes-IsBalanced h) e in
      let (left, d, t) = destruct_slots-Destructs l.pool.slots b.kept in
      (left, d, λ f. omega (arith, b.balance f, t f))
