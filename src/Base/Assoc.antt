-- ===== src/Base/Assoc.antt =====
-- std::unordered_map as an association list. Iteration order, which the standard leaves open, is
-- the order of the list; erasing a key takes every entry of it.
use mathlib.Core.Path.{◌≡◌, refl, ◌∙◌}
use mathlib.Core.Logic.{ite, if_pos, if_neg, ◌≢◌}
use mathlib.Core.List.{List, [], ◌∷◌}
use mathlib.Core.Option.{Option, none, some}
use native.Mathlib.Omega.{arith}

abbrev pub Assoc {ℓ} : Type ℓ → Type ℓ → Type ℓ
Assoc K V = List (K × V)

module _ {ℓ} {K V : Type ℓ} (d : Discrete K) where
  -- m.find( k )
  unfoldable pub find : K → Assoc K V → Option V
  find k [] = none
  find k ((j, v) ∷ m) = ite (d j k) (some v) (find k m)

  -- m[k] = v
  unfoldable pub insert : K → V → Assoc K V → Assoc K V
  insert k v [] = (k, v) ∷ []
  insert k v ((j, w) ∷ m) = ite (d j k) ((j, v) ∷ m) ((j, w) ∷ insert k v m)

  -- m.erase( k )
  unfoldable pub erase : K → Assoc K V → Assoc K V
  erase k [] = []
  erase k ((j, w) ∷ m) = ite (d j k) (erase k m) ((j, w) ∷ erase k m)

  pub find-insert :
      (k j : K) (v : V) (m : Assoc K V) → find j (insert k v m) ≡ ite (d k j) (some v) (find j m)
  unfolding find insert
  find-insert k j v [] = refl
  find-insert k j v ((i, w) ∷ m) = ground (arith, find-insert k j v m)

  pub find-erase : (k j : K) (m : Assoc K V) → find j (erase k m) ≡ ite (d k j) none (find j m)
  unfolding find erase
  find-erase k j [] = ground arith
  find-erase k j ((i, w) ∷ m) = ground (arith, find-erase k j m)

  pub find-insert_self : (k : K) (v : V) (m : Assoc K V) → find k (insert k v m) ≡ some v
  find-insert_self k v m = find-insert k k v m ∙ if_pos (d k k) refl _ _

  pub find-insert_ne : (k j : K) (v : V) (m : Assoc K V) → k ≢ j → find j (insert k v m) ≡ find j m
  find-insert_ne k j v m h = find-insert k j v m ∙ if_neg (d k j) h _ _

  pub find-erase_self : (k : K) (m : Assoc K V) → find k (erase k m) ≡ none
  find-erase_self k m = find-erase k k m ∙ if_pos (d k k) refl _ _

  pub find-erase_ne : (k j : K) (m : Assoc K V) → k ≢ j → find j (erase k m) ≡ find j m
  find-erase_ne k j m h = find-erase k j m ∙ if_neg (d k j) h _ _
