-- ===== src/L3/Ladder/Calls.antt =====
-- Sequences of calls from the constructor show what the specification says.
use hfttoolset.Base.{
  ◌≡◌, refl, sym, subst, ap, ◌∙◌, List, [], ◌∷◌, ◌++◌, Option, none, some, some_inj,
}
use hfttoolset.Types.{Side, buy, sell, Symbol}
use hfttoolset.L3.State.{Book, new_book}
use hfttoolset.L3.Match.Fills.{Fill}
use hfttoolset.L3.Book.{Outcome, add_order}
use hfttoolset.L3.Valid.{IsValid}
use hfttoolset.L3.Reach.{Call, add, cancel, replace, call, call-IsValid, new_book-IsValid}
use hfttoolset.L3.Ladder.{spec_call, spec_calls, join, empty_ladder}
use hfttoolset.L3.Ladder.View.{view, seen, fills_of, by_side}
use hfttoolset.L3.Ladder.Refine.{add_order-seen}
use hfttoolset.L3.Ladder.Cancels.{cancel_order-seen}
use hfttoolset.L3.Ladder.Replaced.{replace_order-seen}

-- The calls one after the other, with the fills of them all; `none`: a dangling
-- iterator is dereferenced.
abbrev pub with_fills : List Fill → Option (Book × List Fill) → Option (Book × List Fill)
with_fills fs none = none
with_fills fs (some (b, gs)) = some (b, fs ++ gs)

unfoldable pub and_then :
    (Book → Option (Book × List Fill)) → Option Outcome → Option (Book × List Fill)
and_then f none = none
and_then f (some c) = with_fills (fills_of c.events) (f c.book)

unfoldable pub calls : List Call → Book → Option (Book × List Fill)
calls [] b = some (b, [])
calls (k ∷ ks) b = and_then (calls ks) (call k b)

-- A call on a well-formed book dereferences no dangling iterator; the book stays well formed, and the
-- sides after it and its fills are those of the specification.
pub call-seen :
    (k : Call) (b : Book)
    → IsValid b
    → (c : Outcome) × (call k b ≡ some c) × (seen c ≡ spec_call k (view b))
unfolding call spec_call
call-seen (add order ts) b v = (add_order b order ts, refl, add_order-seen b order ts v)
call-seen (cancel id ts) b v = cancel_order-seen b id ts v
call-seen (replace req ts) b v = replace_order-seen b req ts v

abbrev IsServed : List Call → Book → Type 0
IsServed ks b =
    (b' : Book) × (fs : List Fill) × (calls ks b ≡ some (b', fs))
    × IsValid b'
    × ((view b', fs) ≡ spec_calls ks (view b))

served : (ks : List Call) (b : Book) → IsValid b → IsServed ks b
unfolding calls spec_calls and_then
served [] b v = (b, [], refl, v, refl)
served (k ∷ ks) b v =
    let (c, e, h) = call-seen k b v in
    let (c', e', w) = call-IsValid k b v in
    let valid = subst (λ d. IsValid d.book) (some_inj (sym e' ∙ e)) w in
    let (b', fs, f, u, g) = served ks c.book valid in
    (
      b',
      fills_of c.events ++ fs,
      ap (and_then (calls ks)) e ∙ ap (with_fills (fills_of c.events)) f,
      u,
      ap (join (fills_of c.events)) g ∙ ap (λ a. join a.1 (spec_calls ks a.0)) h,
    )

view_new : (symbol : Symbol) (s : Side) → view (new_book symbol) s ≡ []
unfolding new_book
view_new symbol buy = refl
view_new symbol sell = refl

-- Any sequence of calls of `add_order`, `cancel_order` and `replace_order` on a new book runs
-- without dereferencing a dangling iterator. The book that it leaves is well formed; its sides, as lists of
-- open orders, and the fills that it reported are those of the specification, in which a side is
-- one list: an order takes from the front of the other side what its limit allows, what is left
-- of a DAY or GTC limit order goes behind the orders of the same or a better price, a
-- fill-or-kill order that would not be filled changes nothing, and a cancel drops one id.
pub calls-new_book :
    (symbol : Symbol) (ks : List Call)
    → (b : Book) × (fs : List Fill) × (calls ks (new_book symbol) ≡ some (b, fs))
      × IsValid b
      × ((view b, fs) ≡ spec_calls ks empty_ladder)
calls-new_book symbol ks =
    let (b, fs, e, v, h) = served ks (new_book symbol) (new_book-IsValid symbol) in
    (
      b,
      fs,
      e,
      v,
      h ∙ ap (spec_calls ks) (by_side (view (new_book symbol)) empty_ladder (view_new symbol)),
    )
