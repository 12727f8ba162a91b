-- ===== src/L3/Removed.antt =====
-- The levels after a cancel: one order less, and the rest as before but for queue positions.
use mathlib.Core.List.{append_assoc, map-append}
use hfttoolset.Base.{ℕ, ℤ, ◌≡◌, refl, sym, subst, ap, ◌∙◌, ◌≢◌, [], ◌∷◌, ◌++◌, map, All, some}
use hfttoolset.Types.{Side}
use hfttoolset.L3.State.{
  L3Order, OrderQueue, PriceLevels, find_level, set_level, erase_level, find_order, erase_order,
  renumber,
}
use hfttoolset.L3.Book.Change.{remove_from_level}
use hfttoolset.L3.Valid.{IsResting, IsLevel, IsSorted, flat}
use hfttoolset.L3.Insert.{
  prices-set_level, IsSorted-set_level, IsLevel-set_level, queue_or_nil, IsResting-find_level,
}
use hfttoolset.L3.Shape.{SameShape, unplaced, shape-renumber, IsResting-renumber}
use hfttoolset.L3.Remove.{
  Holds, erase_order-Holds, IsResting-erase_order, At, find_level-At, price-find_level,
  prices-erase_level, IsSorted-erase_level,
}

-- What the levels `ls'` are after `o` is taken from `ls`.
pub record IsRemoval (s : Side) (o : L3Order) (ls ls' : PriceLevels) : Type 1 where
  pub level : All (IsLevel s) ls'
  pub sorted : IsSorted s ls'
  pub prices : (P : ℤ → Type 0) → All (λ l. P l.0) ls → All (λ l. P l.0) ls'
  pub rest : OrderQueue
  pub taken : Holds o (flat ls) rest
  pub shape : SameShape (flat ls') rest

SameShape-append :
    (xs qs rs ys : OrderQueue) → SameShape qs rs → SameShape (xs ++ (qs ++ ys)) (xs ++ (rs ++ ys))
SameShape-append xs qs rs ys h =
    map-append unplaced xs (qs ++ ys)
    ∙ ap (λ r. map unplaced xs ++ r)
        (map-append unplaced qs ys
          ∙ ap (λ r. r ++ map unplaced ys) h
          ∙ sym (map-append unplaced rs ys))
    ∙ sym (map-append unplaced xs (rs ++ ys))

Holds-inside :
    (o : L3Order) (xs os rest ys : OrderQueue)
    → Holds o os rest
    → Holds o (xs ++ (os ++ ys)) (xs ++ (rest ++ ys))
Holds-inside o xs os rest ys (us, ws, e, f) = (
  xs ++ us,
  ws ++ ys,
  rw (e, append_assoc us (o ∷ ws) ys) (sym (append_assoc xs us _)),
  rw (f, append_assoc us ws ys) (sym (append_assoc xs us _)),
)

renumber-ne-nil : (q : L3Order) (qs : OrderQueue) → renumber 0 (q ∷ qs) ≢ []
unfolding renumber
renumber-ne-nil q qs e = cc

module _ (s : Side) (p : ℤ) (i : ℕ) (o : L3Order) (os : OrderQueue) (ls : PriceLevels)
    (v : All (IsLevel s) ls) (a : IsSorted s ls) (h : find_level p ls ≡ some os)
    (k : find_order i os ≡ some o) where
  at : At s p os ls
  at = find_level-At s p ls os a h

  resting : All (IsResting s p) os
  resting = subst (λ q. All (IsResting s p) (queue_or_nil q)) h (IsResting-find_level s p ls v)

  emptied : erase_order i os ≡ [] → IsRemoval s o ls (erase_level p ls)
  emptied e =
      let (xs, ys, old, gone, new) = at in
      record {
        level = prices-erase_level (IsLevel s) p ls v;
        sorted = IsSorted-erase_level s p ls a;
        prices = λ P. prices-erase_level (λ l. P l.0) p ls;
        rest = xs ++ ys;
        taken = rw old (
            subst (λ r. Holds o (xs ++ (os ++ ys)) (xs ++ (r ++ ys))) e
              (Holds-inside o xs os (erase_order i os) ys (erase_order-Holds i os o k)));
        shape = ap (map unplaced) gone;
      }

  shortened :
      (q : L3Order) (qs : OrderQueue)
      → erase_order i os ≡ q ∷ qs
      → IsRemoval s o ls (set_level s p (renumber 0 (q ∷ qs)) ls)
  shortened q qs e =
      let (xs, ys, old, gone, new) = at in
      let left = subst (All (IsResting s p)) e (IsResting-erase_order s p i os resting) in
      record {
        level =
            IsLevel-set_level s p (renumber 0 (q ∷ qs)) ls
              (renumber-ne-nil q qs, IsResting-renumber s p 0 (q ∷ qs) left) v;
        sorted = IsSorted-set_level s p (renumber 0 (q ∷ qs)) ls a;
        prices = λ P c.
            prices-set_level P s p (renumber 0 (q ∷ qs)) ls (price-find_level P p ls os h c) c;
        rest = xs ++ ((q ∷ qs) ++ ys);
        taken = rw old (
            subst (λ r. Holds o (xs ++ (os ++ ys)) (xs ++ (r ++ ys))) e
              (Holds-inside o xs os (erase_order i os) ys (erase_order-Holds i os o k)));
        shape =
            ap (map unplaced) (new (renumber 0 (q ∷ qs)))
            ∙ SameShape-append xs (renumber 0 (q ∷ qs)) (q ∷ qs) ys (shape-renumber 0 (q ∷ qs));
      }

  by_queue :
      (es : OrderQueue)
      → erase_order i os ≡ es
      → IsRemoval s o ls (remove_from_level p i (some os) s ls)
  unfolding remove_from_level
  by_queue [] e = rw (remove_from_level, e) (emptied e)
  by_queue (q ∷ qs) e = rw (remove_from_level, e) (shortened q qs e)

  pub remove_from_level-IsRemoval : IsRemoval s o ls (remove_from_level p i (find_level p ls) s ls)
  remove_from_level-IsRemoval = rw h (by_queue (erase_order i os) refl)
