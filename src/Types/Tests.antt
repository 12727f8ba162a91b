-- ===== src/Types/Tests.antt =====
-- Runs of the symbol.
use hfttoolset.Base.{◌≡◌, [], ◌∷◌, refl}
use hfttoolset.Types.Ticker.{until_nul, of_text, to_text}

text_up_to_nul : to_text (of_text (65 ∷ 66 ∷ 0 ∷ 67 ∷ [])) ≡ 65 ∷ 66 ∷ []
unfolding to_text of_text until_nul
text_up_to_nul = refl

eight_bytes :
    to_text (of_text (65 ∷ 66 ∷ 67 ∷ 68 ∷ 69 ∷ 70 ∷ 71 ∷ 72 ∷ 73 ∷ []))
    ≡ 65 ∷ 66 ∷ 67 ∷ 68 ∷ 69 ∷ 70 ∷ 71 ∷ 72 ∷ []
unfolding to_text of_text until_nul
eight_bytes = refl
