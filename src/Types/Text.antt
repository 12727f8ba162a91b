-- ===== src/Types/Text.antt =====
-- `Symbol` as text: construction and printing.
use hfttoolset.Base.{
  ℕ, suc, zero, ◌≡◌, refl, ap, List, [], ◌∷◌, ◌++◌, take, replicate, Bool-cases, inl, inr, ◌==◌,
  ◌-◌, length,
}
use hfttoolset.Types.Ticker.{until_nul, of_text, to_text, max_len}

until_nul-zeros : (k : ℕ) → until_nul (replicate k 0) ≡ []
unfolding until_nul
until_nul-zeros zero = refl
until_nul-zeros (suc k) = refl

until_nul-padded :
    (s : List ℕ) (n k : ℕ)
    → until_nul (take n (until_nul s) ++ replicate k 0) ≡ take n (until_nul s)
unfolding until_nul
until_nul-padded [] zero k = until_nul-zeros k
until_nul-padded [] (suc n) k = until_nul-zeros k
until_nul-padded (c ∷ s) zero k = until_nul-zeros k
until_nul-padded (c ∷ s) (suc n) k = elim (Bool-cases (c == 0)) [
  | inl e ↦ rw e (until_nul-zeros k)
  | inr e ↦ rw (e, e) (ap (λ l. c ∷ l) (until_nul-padded s n k))
]

-- A symbol made from a text prints the text up to its first NUL, cut to eight bytes.
pub to_text-of_text : (s : List ℕ) → to_text (of_text s) ≡ take 8 (until_nul s)
unfolding to_text of_text
to_text-of_text s = until_nul-padded s max_len (max_len - length (take max_len (until_nul s)))
