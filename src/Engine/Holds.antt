-- ===== src/Engine/Holds.antt =====
-- The book and the depth of a symbol, under the callbacks of the book.
use hfttoolset.Base.{ℕ, ◌≡◌, refl, ap, ◌∙◌, List, [], ◌∷◌, Option, none, some, if_pos, if_neg}
use hfttoolset.Types.{Symbol, symbol_discrete, Trade}
use hfttoolset.L3.State.{Book}
use hfttoolset.L3.Book.{BookEvent, traded, quoted, Outcome}
use hfttoolset.Feed.{L1Feed, record_trade}
use hfttoolset.Engine.{
  SymbolState, MatchingEngine, state_of_symbol, put_state, record_in_l1, handle_event,
  handle_events, apply_outcome,
}
use hfttoolset.Engine.Books.{state-put_state}

-- The state of the symbol has this book and this depth.
abbrev pub Holds : Symbol → Book → ℕ → MatchingEngine → Type 0
Holds s b d e =
    (st : SymbolState) × (state_of_symbol e s ≡ some st) × (st.book ≡ b) × (st.depth ≡ d)

put_state-Holds :
    (s z : Symbol) (b : Book) (d : ℕ) (st : SymbolState) (l : L1Feed) (e : MatchingEngine)
    → state_of_symbol e z ≡ some st
    → Holds s b d e
    → Holds s b d (put_state z (record st { l1 = l }) e)
put_state-Holds s z b d st l e h (st', h', k, m) = elim (symbol_discrete z s) [
  | yes p ↦
      let same : st ≡ st' = cc in
      (
        record st { l1 = l },
        state-put_state z s (record st { l1 = l }) e ∙ if_pos (symbol_discrete z s) p _ _,
        ap (λ x. x.book) same ∙ k,
        ap (λ x. x.depth) same ∙ m,
      )
  | no n ↦ (
    st',
    state-put_state z s (record st { l1 = l }) e ∙ if_neg (symbol_discrete z s) n _ _ ∙ h',
    k,
    m,
  )
]

record_in_l1-Holds :
    (s : Symbol) (b : Book) (d : ℕ) (t : Trade) (a : Option SymbolState) (e : MatchingEngine)
    → state_of_symbol e t.symbol ≡ a
    → Holds s b d e
    → Holds s b d (record_in_l1 t a e)
unfolding record_in_l1
record_in_l1-Holds s b d t none e h k = k
record_in_l1-Holds s b d t (some st) e h k =
    put_state-Holds s t.symbol b d st (record_trade t.price t.qty st.l1) e h k

handle_event-Holds :
    (s : Symbol) (b : Book) (d : ℕ) (x : BookEvent) (e : MatchingEngine)
    → Holds s b d e
    → Holds s b d (handle_event x e)
unfolding handle_event
handle_event-Holds s b d (quoted tob) e k = k
handle_event-Holds s b d (traded t) e k = record_in_l1-Holds s b d t _ _ refl k

handle_events-Holds :
    (s : Symbol) (b : Book) (d : ℕ) (xs : List BookEvent) (e : MatchingEngine)
    → Holds s b d e
    → Holds s b d (handle_events xs e)
unfolding handle_events
handle_events-Holds s b d [] e k = k
handle_events-Holds s b d (x ∷ xs) e k =
    handle_events-Holds s b d xs (handle_event x e) (handle_event-Holds s b d x e k)

pub apply_outcome-Holds :
    (s : Symbol) (st : SymbolState) (c : Outcome) (e : MatchingEngine)
    → Holds s c.book st.depth (apply_outcome s st c e)
unfolding apply_outcome
apply_outcome-Holds s st c e =
    let st' : SymbolState = record st { book = c.book } in
    handle_events-Holds s c.book st.depth c.events (put_state s st' e)
      (st', state-put_state s s st' e ∙ if_pos (symbol_discrete s s) refl _ _, refl, refl)
