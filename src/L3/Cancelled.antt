-- ===== src/L3/Cancelled.antt =====
-- `cancel_order`: its two outcomes.
use hfttoolset.Base.{ℕ, ◌≡◌, [], ap, ◌∙◌, inl, inr, none, some, Option-cases, ℕ_discrete}
use hfttoolset.Base.Assoc.{find}
use hfttoolset.Types.{rejected, empty_report}
use hfttoolset.L3.State.{L3Order, OrderLocation, Book}
use hfttoolset.L3.Query.{deref}
use hfttoolset.L3.Book.{Outcome, publish_tob}
use hfttoolset.L3.Book.Change.{cancel_at, cancel_order, cancel_found, cancel_indexed, cancel_report}
use hfttoolset.L3.Valid.{IsValid}
use hfttoolset.L3.Cancel.{indexed-IsHeld, deref-IsHeld, cancel_at-IsValid}

-- The two outcomes of a cancel.
abbrev pub unknown : Book → ℕ → ℕ → Outcome
unknown b i ts = record {
  report = record empty_report { order_id = i; transact_time = ts; status = rejected };
  book = b;
  events = [];
}

abbrev pub taken_out : Book → OrderLocation → L3Order → ℕ → ℕ → Outcome
taken_out b loc o i ts = record {
  report = cancel_report b o i ts;
  book = cancel_at b i loc;
  events = publish_tob (cancel_at b i loc) ts;
}

pub cancel_order-unknown :
    (b : Book) (i ts : ℕ)
    → find ℕ_discrete i b.order_index ≡ none
    → cancel_order b i ts ≡ some (unknown b i ts)
unfolding cancel_order cancel_indexed
cancel_order-unknown b i ts e = ap (cancel_indexed b i ts) e

pub cancel_order-known :
    (b : Book) (i ts : ℕ) (loc : OrderLocation) (o : L3Order)
    → find ℕ_discrete i b.order_index ≡ some loc
    → deref b loc ≡ some o
    → cancel_order b i ts ≡ some (taken_out b loc o i ts)
unfolding cancel_order cancel_indexed cancel_found
cancel_order-known b i ts loc o e d = ap (cancel_indexed b i ts) e ∙ ap (cancel_found b i ts loc) d

-- On a well-formed book a cancel, of a known or an unknown id, dereferences no dangling iterator
-- and leaves the book well formed.
pub cancel_order-IsValid :
    (b : Book) (i ts : ℕ)
    → IsValid b
    → (c : Outcome) × (cancel_order b i ts ≡ some c) × IsValid c.book
cancel_order-IsValid b i ts v = elim (Option-cases (find ℕ_discrete i b.order_index)) [
  | inl e ↦ (unknown b i ts, cancel_order-unknown b i ts e, v)
  | inr (loc, e) ↦
      let (o, h) = indexed-IsHeld b i loc v e in
      let good = deref-IsHeld b v i loc o h in
      (
        taken_out b loc o i ts,
        cancel_order-known b i ts loc o e good,
        cancel_at-IsValid b i loc o v h,
      )
]
