-- ===== src/L3/Reach.antt =====
-- Sequences of calls of `add_order`, `cancel_order` and `replace_order`, from the constructor on.
use hfttoolset.Base.{some_inj, ℕ, ◌≡◌, sym, subst, ap, ◌∙◌, inl, refl, Option, some}
use hfttoolset.Base.Assoc.{find}
use hfttoolset.Types.{Side, buy, sell, Symbol, Order, OrderStatus, canceled, ReplaceRequest}
use hfttoolset.L3.State.{Book, new_book, find_order}
use hfttoolset.L3.Book.{Outcome, add_order}
use hfttoolset.L3.Book.Change.{
  cancel_order, replace_order, replace_after, replace_status, replacement,
}
use hfttoolset.L3.Valid.{IsValid}
use hfttoolset.L3.Add.{add_order-IsValid}
use hfttoolset.L3.Cancelled.{cancel_order-IsValid}

both : (P : Side → Type 0) → P buy → P sell → (s : Side) → P s
both P x y buy = x
both P x y sell = y

pub new_book-IsValid : (symbol : Symbol) → IsValid (new_book symbol)
unfolding new_book find find_order
new_book-IsValid symbol = record {
  level = both _ tt tt;
  sorted = both _ tt tt;
  uncrossed = tt;
  distinct = both _ tt tt;
  disjoint = both _ (λ i. inl refl) (λ i. inl refl);
  indexed = both _ (λ i. refl) (λ i. refl);
  counted = both _ refl refl;
}

replace_status-IsValid :
    (s : OrderStatus) (c added : Outcome)
    → IsValid c.book
    → IsValid added.book
    → IsValid (replace_status s c added).book
unfolding replace_status
replace_status-IsValid canceled c added v w = w
replace_status-IsValid _ c added v w = v

-- On a well-formed book a replacement dereferences no dangling iterator and leaves the book well
-- formed.
pub replace_order-IsValid :
    (b : Book) (req : ReplaceRequest) (ts : ℕ)
    → IsValid b
    → (c : Outcome) × (replace_order b req ts ≡ some c) × IsValid c.book
unfolding replace_order replace_after
replace_order-IsValid b req ts v =
    let (c, e, w) = cancel_order-IsValid b req.order_id ts v in
    let added = add_order c.book (replacement req c.report.side ts) ts in
    (
      replace_status c.report.status c added,
      ap (replace_after req ts) e,
      replace_status-IsValid c.report.status c added w
          (add_order-IsValid c.book (replacement req c.report.side ts) ts w),
    )

-- The calls that change a book, and their sequences. `none`: a dangling iterator is
-- dereferenced. Overflow of a signed integer is not represented.
pub data Call : Type 0 where
  add : Order → ℕ → Call
  cancel : ℕ → ℕ → Call
  replace : ReplaceRequest → ℕ → Call

unfoldable pub call : Call → Book → Option Outcome
call (add order ts) b = some (add_order b order ts)
call (cancel id ts) b = cancel_order b id ts
call (replace req ts) b = replace_order b req ts

pub data Reaches (s : Symbol) : Book → Type 0 where
  constructed : Reaches s (new_book s)
  called : {b : Book} {c : Outcome} (k : Call) → Reaches s b → call k b ≡ some c → Reaches s c.book

pub call-IsValid :
    (k : Call) (b : Book) → IsValid b → (c : Outcome) × (call k b ≡ some c) × IsValid c.book
unfolding call
call-IsValid (add order ts) b v = (add_order b order ts, refl, add_order-IsValid b order ts v)
call-IsValid (cancel id ts) b v = cancel_order-IsValid b id ts v
call-IsValid (replace req ts) b v = replace_order-IsValid b req ts v

-- A book that calls of `add_order`, `cancel_order` and `replace_order` reach from the
-- constructor is well formed, and no further call on it dereferences a dangling iterator.
pub Reaches-IsValid :
    (s : Symbol) (b : Book)
    → Reaches s b
    → IsValid b × ((k : Call) → (c : Outcome) × (call k b ≡ some c))
Reaches-IsValid s b constructed = (
  new_book-IsValid s,
  λ k. let (c, e, w) = call-IsValid k (new_book s) (new_book-IsValid s) in (c, e),
)
Reaches-IsValid s b (called {b = b'} {c = c} k r h) =
    let (c', e, w) = call-IsValid k b' (Reaches-IsValid s b' r).0 in
    let v : IsValid c.book = subst (λ d. IsValid d.book) (some_inj (sym e ∙ h)) w in
    (v, λ k'. let (d, f, u) = call-IsValid k' c.book v in (d, f))
