-- ===== src/L3/Ladder/Replaced.antt =====
-- `replace_order` shows what the specification says.
use hfttoolset.Base.{
  ℕ, [], ◌≡◌, refl, sym, ap, ◌∙◌, inl, inr, true, false, none, some, Option-cases, ℕ_discrete,
}
use hfttoolset.Base.Assoc.{find}
use hfttoolset.Types.{Side, buy, sell, ReplaceRequest}
use hfttoolset.L3.State.{L3Order, OrderLocation, Book, levels, opposite}
use hfttoolset.L3.Book.{publish_tob, Outcome, is_some, add_order}
use hfttoolset.L3.Book.Change.{
  cancel_at, cancel_report, replace_order, replace_after, replace_status, replacement,
}
use hfttoolset.L3.Valid.{IsValid, flat}
use hfttoolset.L3.Cancel.{IsHeld, indexed-IsHeld, deref-IsHeld, gone_elsewhere, cancel_at-IsValid}
use hfttoolset.L3.Cancelled.{unknown, taken_out, cancel_order-unknown, cancel_order-known}
use hfttoolset.L3.Ladder.{Ladder, has, spec_add, spec_replace, add_again}
use hfttoolset.L3.Ladder.Without.{has-find_order}
use hfttoolset.L3.Ladder.View.{view, seen}
use hfttoolset.L3.Ladder.Refine.{add_order-seen}
use hfttoolset.L3.Ladder.Cancels.{absent_on, view-cancel_at}

has-absent :
    (b : Book) (i : ℕ)
    → IsValid b
    → find ℕ_discrete i b.order_index ≡ none
    → (s : Side) → has i (view b s) ≡ false
has-absent b i v e s = has-find_order i (flat (levels s b)) ∙ ap is_some (absent_on b i v e s)

spec_replace_none :
    (req : ReplaceRequest) (ts : ℕ) (l : Ladder)
    → ((s : Side) → has req.order_id (l s) ≡ false)
    → spec_replace req ts l ≡ (l, [])
unfolding spec_replace
spec_replace_none req ts l h = rw (h buy, h sell) refl

spec_replace_on :
    (req : ReplaceRequest) (ts : ℕ) (l : Ladder) (s : Side)
    → has req.order_id (l s) ≡ true
    → has req.order_id (l (opposite s)) ≡ false
    → spec_replace req ts l ≡ add_again req ts l s
unfolding spec_replace
spec_replace_on req ts l buy h k = rw h refl
spec_replace_on req ts l sell h k = rw (k, h) refl

module _ (b : Book) (v : IsValid b) (req : ReplaceRequest) (ts : ℕ) where
  abbrev i : ℕ
  i = req.order_id

  seen-unknown :
      find ℕ_discrete i b.order_index ≡ none
      → seen (
          replace_status
            (unknown b i ts).report.status
            (unknown b i ts)
            (add_order b (replacement req (unknown b i ts).report.side ts) ts))
        ≡ spec_replace req ts (view b)
  unfolding replace_status
  seen-unknown e = sym (spec_replace_none req ts (view b) (has-absent b i v e))

  module _ (loc : OrderLocation) (o : L3Order) (h : IsHeld b i loc o) where
    abbrev added : Outcome
    added = add_order (cancel_at b i loc) (replacement req o.side ts) ts

    seen-added : seen added ≡ spec_replace req ts (view b)
    seen-added =
        let here = has-find_order i (flat (levels loc.side b)) ∙ ap is_some h.on in
        let not_there =
          has-find_order i (flat (levels (opposite loc.side) b))
          ∙ ap is_some (gone_elsewhere b v i loc o h) in
        add_order-seen (cancel_at b i loc) (replacement req o.side ts) ts
          (cancel_at-IsValid b i loc o v h)
        ∙ ap (spec_add (replacement req o.side ts)) (view-cancel_at b v i loc o h)
        ∙ ap (λ l. add_again req ts (view b) l.side) (sym h.at)
        ∙ sym (spec_replace_on req ts (view b) loc.side here not_there)

    seen-replaced :
        seen (
          replace_status (taken_out b loc o i ts).report.status (taken_out b loc o i ts) (
            add_order
              (taken_out b loc o i ts).book
              (replacement req (taken_out b loc o i ts).report.side ts)
              ts))
        ≡ spec_replace req ts (view b)
    unfolding replace_status cancel_report publish_tob
    seen-replaced = seen-added

pub replace_order-seen :
    (b : Book) (req : ReplaceRequest) (ts : ℕ)
    → IsValid b
    → (c : Outcome) × (replace_order b req ts ≡ some c) × (seen c ≡ spec_replace req ts (view b))
unfolding replace_order replace_after
replace_order-seen b req ts v = elim (Option-cases (find ℕ_discrete req.order_id b.order_index)) [
  | inl e ↦ (
    _,
    ap (replace_after req ts) (cancel_order-unknown b req.order_id ts e),
    seen-unknown b v req ts e,
  )
  | inr (loc, e) ↦
      let (o, h) = indexed-IsHeld b req.order_id loc v e in
      (
        _,
        ap (replace_after req ts)
            (cancel_order-known b req.order_id ts loc o e (deref-IsHeld b v req.order_id loc o h)),
        seen-replaced b v req ts loc o h,
      )
]
