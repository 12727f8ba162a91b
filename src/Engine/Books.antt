-- ===== src/Engine/Books.antt =====
-- The symbol states of the engine, one by one.
use hfttoolset.Base.{
  some_inj, ℕ, ◌≡◌, ◌≢◌, refl, sym, ◌∙◌, subst, [], ◌∷◌, All, List, Option, none, some, ite, if_pos,
  if_neg,
}
use hfttoolset.Base.Assoc.{find-insert}
use hfttoolset.Types.{Symbol, symbol_discrete, Trade}
use hfttoolset.L3.Book.{BookEvent, traded, quoted, Outcome}
use hfttoolset.L3.Valid.{IsValid}
use hfttoolset.L3.Symbols.{IsOf}
use hfttoolset.Feed.{update, record_trade}
use hfttoolset.Engine.{
  SymbolState, MatchingEngine, state_of_symbol, put_state, record_in_l1, handle_event,
  handle_events, apply_outcome, publish_to,
}

-- The state is that of the symbol, with a well-formed book.
abbrev pub IsStateOf : Symbol → SymbolState → Type 0
IsStateOf s st = IsValid st.book × (st.book.symbol ≡ s)

-- Every symbol of the engine has a state of its own.
abbrev pub IsSound : MatchingEngine → Type 0
IsSound e = (s : Symbol) (st : SymbolState) → state_of_symbol e s ≡ some st → IsStateOf s st

pub state-put_state :
    (s z : Symbol) (st : SymbolState) (e : MatchingEngine)
    → state_of_symbol (put_state s st e) z
      ≡ ite (symbol_discrete s z) (some st) (state_of_symbol e z)
unfolding put_state
state-put_state s z st e = find-insert symbol_discrete s z st e.symbols

pub put_state-IsSound :
    (s : Symbol) (st : SymbolState) (e : MatchingEngine)
    → IsSound e
    → IsStateOf s st
    → IsSound (put_state s st e)
put_state-IsSound s st e v w z zt h = elim (symbol_discrete s z) [
  | yes p ↦
      let same : st ≡ zt =
        some_inj (sym (if_pos (symbol_discrete s z) p _ _) ∙ sym (state-put_state s z st e) ∙ h) in
      subst (IsStateOf z) same (subst (λ y. IsStateOf y st) p w)
  | no n ↦ v z zt (sym (if_neg (symbol_discrete s z) n _ _) ∙ sym (state-put_state s z st e) ∙ h)
]

record_in_l1-IsSound :
    (t : Trade) (a : Option SymbolState) (e : MatchingEngine)
    → state_of_symbol e t.symbol ≡ a
    → IsSound e
    → IsSound (record_in_l1 t a e)
unfolding record_in_l1
record_in_l1-IsSound t none e h v = v
record_in_l1-IsSound t (some st) e h v =
    put_state-IsSound t.symbol (record st { l1 = record_trade t.price t.qty st.l1 }) e v
      (v t.symbol st h)

handle_event-IsSound : (x : BookEvent) (e : MatchingEngine) → IsSound e → IsSound (handle_event x e)
unfolding handle_event
handle_event-IsSound (quoted tob) e v = v
handle_event-IsSound (traded t) e v = record_in_l1-IsSound t _ _ refl v

pub handle_events-IsSound :
    (xs : List BookEvent) (e : MatchingEngine) → IsSound e → IsSound (handle_events xs e)
unfolding handle_events
handle_events-IsSound [] e v = v
handle_events-IsSound (x ∷ xs) e v =
    handle_events-IsSound xs (handle_event x e) (handle_event-IsSound x e v)

pub apply_outcome-IsSound :
    (s : Symbol) (st : SymbolState) (c : Outcome) (e : MatchingEngine)
    → IsSound e
    → IsStateOf s (record st { book = c.book })
    → IsSound (apply_outcome s st c e)
unfolding apply_outcome
apply_outcome-IsSound s st c e v w =
    handle_events-IsSound c.events (put_state s (record st { book = c.book }) e)
      (put_state-IsSound s (record st { book = c.book }) e v w)

pub publish_to-IsSound :
    (ts : ℕ) (s : Symbol) (a : Option SymbolState) (e : MatchingEngine)
    → state_of_symbol e s ≡ a
    → IsSound e
    → IsSound (publish_to ts s a e)
unfolding publish_to
publish_to-IsSound ts s none e h v = v
publish_to-IsSound ts s (some st) e h v =
    put_state-IsSound s (record st { l1 = (update st.book ts st.l1).0 }) e v (v s st h)

-- What an operation on one symbol leaves of the others.
abbrev pub SameElsewhere : Symbol → MatchingEngine → MatchingEngine → Type 0
SameElsewhere s e e' = (z : Symbol) → s ≢ z → state_of_symbol e' z ≡ state_of_symbol e z

pub put_state-SameElsewhere :
    (s : Symbol) (st : SymbolState) (e : MatchingEngine) → SameElsewhere s e (put_state s st e)
put_state-SameElsewhere s st e z n = state-put_state s z st e ∙ if_neg (symbol_discrete s z) n _ _

record_in_l1-SameElsewhere :
    (t : Trade) (a : Option SymbolState) (e : MatchingEngine)
    → SameElsewhere t.symbol e (record_in_l1 t a e)
unfolding record_in_l1
record_in_l1-SameElsewhere t none e z n = refl
record_in_l1-SameElsewhere t (some st) e z n = put_state-SameElsewhere t.symbol _ e z n

handle_event-SameElsewhere :
    (s : Symbol) (x : BookEvent) (e : MatchingEngine)
    → IsOf s x
    → SameElsewhere s e (handle_event x e)
unfolding handle_event
handle_event-SameElsewhere s (quoted tob) e h z n = refl
handle_event-SameElsewhere s (traded t) e h z n =
    record_in_l1-SameElsewhere t _ _ z (subst (λ y. y ≢ z) (sym h) n)

pub handle_events-SameElsewhere :
    (s : Symbol) (xs : List BookEvent) (e : MatchingEngine)
    → All (IsOf s) xs
    → SameElsewhere s e (handle_events xs e)
unfolding handle_events
handle_events-SameElsewhere s [] e h z n = refl
handle_events-SameElsewhere s (x ∷ xs) e h z n =
    handle_events-SameElsewhere s xs (handle_event x e) h.1 z n
    ∙ handle_event-SameElsewhere s x e h.0 z n

pub apply_outcome-SameElsewhere :
    (s : Symbol) (st : SymbolState) (c : Outcome) (e : MatchingEngine)
    → All (IsOf s) c.events
    → SameElsewhere s e (apply_outcome s st c e)
unfolding apply_outcome
apply_outcome-SameElsewhere s st c e h z n =
    handle_events-SameElsewhere s c.events (put_state s (record st { book = c.book }) e) h z n
    ∙ put_state-SameElsewhere s (record st { book = c.book }) e z n

pub publish_to-SameElsewhere :
    (ts : ℕ) (s : Symbol) (a : Option SymbolState) (e : MatchingEngine)
    → SameElsewhere s e (publish_to ts s a e)
unfolding publish_to
publish_to-SameElsewhere ts s none e z n = refl
publish_to-SameElsewhere ts s (some st) e z n = put_state-SameElsewhere s _ e z n
