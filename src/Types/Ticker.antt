-- ===== src/Types/Ticker.antt =====
-- src/common/types.h: `Symbol`, a ticker in eight bytes padded with NUL.
use hfttoolset.Base.{
  ℕ, ◌-◌, List, [], ◌∷◌, ◌++◌, take, replicate, length, ◌==◌, if◌then◌else◌, ℕ_discrete,
}

abbrev pub max_len : ℕ
max_len = 8

-- The member `data`.
pub record Symbol : Type 0 where
  pub chars : List ℕ

-- The default symbol, and the one of `Symbol()`.
abbrev pub blank : Symbol
blank = record { chars = replicate max_len 0 }

-- The bytes before the first NUL (std::strlen, and std::find in `to_string`).
unfoldable pub until_nul : List ℕ → List ℕ
until_nul [] = []
until_nul (c ∷ cs) = if c == 0 then [] else c ∷ until_nul cs

-- `Symbol( const char* )`: at most eight bytes of the text are copied over the zeros.
unfoldable pub of_text : List ℕ → Symbol
unfolding until_nul
of_text s =
    let text = take max_len (until_nul s) in
    record { chars = text ++ replicate (max_len - length text) 0 }

-- `to_string`.
unfoldable pub to_text : Symbol → List ℕ
unfolding until_nul
to_text s = until_nul s.chars

-- `operator==`: the arrays are compared.
unfoldable pub symbol_discrete : Discrete Symbol
symbol_discrete = hlevel ℕ_discrete
