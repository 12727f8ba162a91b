-- ===== src/Feed/History.antt =====
-- The histories of the L1 feed.
use mathlib.Core.List.{append-nil, append_assoc}
use hfttoolset.Base.{
  true, false, dec_lt, ℕ, List, [], ◌∷◌, ◌++◌, ◌≡◌, refl, sym, ap, ◌∙◌, length, length-append, ltb,
  ◌<◌, ◌≤◌, ◌-◌, arith, suc, zero,
}
use hfttoolset.Feed.{L1Feed, TradeRecord, record_trade, max_trade_history, record_in}

-- The list without its first `n` items.
abbrev pub drop {ℓ} : {A : Type ℓ} → ℕ → List A → List A
drop zero xs = xs
drop (suc n) [] = []
drop (suc n) (x ∷ xs) = drop n xs

pub record_all {ℓ} : {A : Type ℓ} → ℕ → List A → List A → List A
record_all most [] kept = kept
record_all most (x ∷ xs) kept = record_all most xs (record_in most x kept)

later : (n most : ℕ) → most ≤ n → suc n - most ≡ suc (n - most)
later n most h = omega arith

drop_later {ℓ} :
    {A : Type ℓ} (most : ℕ) (x : A) (xs : List A)
    → most ≤ length xs
    → drop (length (x ∷ xs) - most) (x ∷ xs) ≡ drop (length xs - most) xs
drop_later most x xs h = ap (λ n. drop n (x ∷ xs)) (later (length xs) most h)

drop_none {ℓ} :
    {A : Type ℓ} (most : ℕ) (xs : List A) → length xs ≤ most → xs ≡ drop (length xs - most) xs
drop_none most xs h = ap (λ n. drop n xs) (nothing_left (length xs) most h)
  where
    nothing_left : (n most : ℕ) → n ≤ most → 0 ≡ n - most
    nothing_left n most h = omega arith

record_in_short {ℓ} :
    {A : Type ℓ} (most : ℕ) (x : A) (kept : List A)
    → length kept < most
    → record_in most x kept ≡ kept ++ x ∷ []
unfolding record_in
record_in_short most x kept h =
    rw (no_longer (length (kept ++ x ∷ [])) (omega (arith, length-append kept (x ∷ []))))
  where
    no_longer : (n : ℕ) → n ≤ most → ltb most n ≡ false
    no_longer n l = ground arith

record_in_long {ℓ} :
    {A : Type ℓ} (most : ℕ) (x k : A) (kept : List A)
    → length kept ≡ most - 1
    → 0 < most
    → record_in most x (k ∷ kept) ≡ kept ++ x ∷ []
unfolding record_in
record_in_long most x k kept h g =
    rw (longer (suc (length (kept ++ x ∷ []))) (omega (arith, length-append kept (x ∷ []))))
  where
    longer : (n : ℕ) → most < n → ltb most n ≡ true
    longer n l = ground arith

-- Of all that was recorded the latest `most` entries are kept, in order.
pub record_all-drop {ℓ} :
    {A : Type ℓ} (most : ℕ) (xs kept : List A)
    → 0 < most
    → length kept ≤ most
    → record_all most xs kept ≡ drop (length (kept ++ xs) - most) (kept ++ xs)
unfolding record_all
record_all-drop most [] kept g h =
    drop_none most kept h ∙ ap (λ ys. drop (length ys - most) ys) (sym (append-nil kept))
record_all-drop most (x ∷ xs) [] g h =
    ap (record_all most xs) (record_in_short most x [] g) ∙ record_all-drop most xs (x ∷ []) g g
record_all-drop most (x ∷ xs) (k ∷ kept) g h = elim (dec_lt (suc (length kept)) most) [
  | yes l ↦
      ap (record_all most xs) (record_in_short most x (k ∷ kept) l)
      ∙ record_all-drop most xs (k ∷ (kept ++ x ∷ [])) g
          (omega (arith, length-append kept (x ∷ [])))
      ∙ ap (λ ys. drop (length ys - most) ys) (ap (λ l. k ∷ l) (append_assoc kept (x ∷ []) xs))
  | no n ↦
      let full : length kept ≡ most - 1 = omega (arith, n) in
      ap (record_all most xs) (record_in_long most x k kept full g)
      ∙ record_all-drop most xs (kept ++ x ∷ []) g (omega (arith, length-append kept (x ∷ [])))
      ∙ ap (λ ys. drop (length ys - most) ys) (append_assoc kept (x ∷ []) xs)
      ∙ sym (drop_later most k (kept ++ x ∷ xs) (omega (arith, length-append kept (x ∷ xs))))
]

pub record_trades : List TradeRecord → L1Feed → L1Feed
record_trades [] f = f
record_trades (t ∷ ts) f = record_trades ts (record_trade t.price t.quantity f)

recent-record_trades :
    (ts : List TradeRecord) (f : L1Feed)
    → (record_trades ts f).recent_trades ≡ record_all max_trade_history ts f.recent_trades
unfolding record_trades record_trade record_all
recent-record_trades [] f = refl
recent-record_trades (t ∷ ts) f = recent-record_trades ts (record_trade t.price t.quantity f)

-- From an empty history, the trades that the feed remembers are the latest thousand of those
-- recorded, in order.
pub record_trades-latest :
    (ts : List TradeRecord) (f : L1Feed)
    → f.recent_trades ≡ []
    → (record_trades ts f).recent_trades ≡ drop (length ts - 1000) ts
record_trades-latest ts f e =
    recent-record_trades ts f
    ∙ ap (record_all max_trade_history ts) e
    ∙ record_all-drop max_trade_history ts [] (omega arith) (omega arith)
