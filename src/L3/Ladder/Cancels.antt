-- ===== src/L3/Ladder/Cancels.antt =====
-- `cancel_order` and `replace_order` show what the specification says.
use hfttoolset.Base.{
  ℕ, ◌≡◌, sym, subst, ap, ◌∙◌, inl, inr, [], map, none, some, Option-cases, ℕ_discrete,
}
use hfttoolset.Base.Assoc.{find}
use hfttoolset.Types.{Side}
use hfttoolset.L3.State.{L3Order, OrderLocation, Book, find_order, levels, opposite}
use hfttoolset.L3.Book.{Outcome}
use hfttoolset.L3.Book.Change.{cancel_at, cancel_order}
use hfttoolset.L3.Valid.{IsValid, flat, order_on}
use hfttoolset.L3.Rest.{absent-none}
use hfttoolset.L3.Cancel.{IsHeld, indexed-IsHeld, deref-IsHeld, removal, gone, gone_elsewhere}
use hfttoolset.L3.Cancelled.{unknown, taken_out, cancel_order-unknown, cancel_order-known}
use hfttoolset.L3.Ladder.{spec_cancel}
use hfttoolset.L3.Ladder.Sweep.{entry}
use hfttoolset.L3.Ladder.Without.{without-absent, without-Holds, entries-SameShape}
use hfttoolset.L3.Ladder.View.{view, seen, by_side, each_side, levels-updated, fills_of-publish_tob}

pub absent_on :
    (b : Book) (i : ℕ)
    → IsValid b
    → find ℕ_discrete i b.order_index ≡ none
    → (s : Side) → order_on s b i ≡ none
absent_on b i v e s = (absent-none (sym (v.indexed s i) ∙ e)).0

view-unknown :
    (b : Book) (i : ℕ)
    → IsValid b
    → find ℕ_discrete i b.order_index ≡ none
    → view b ≡ spec_cancel i (view b)
unfolding spec_cancel
view-unknown b i v e =
    by_side (view b) _ (λ s. sym (without-absent i (flat (levels s b)) (absent_on b i v e s)))

module _ (b : Book) (v : IsValid b) (i : ℕ) (loc : OrderLocation) (o : L3Order)
    (h : IsHeld b i loc o) where
  pub view-cancel_at : view (cancel_at b i loc) ≡ spec_cancel i (view b)
  unfolding cancel_at spec_cancel
  view-cancel_at =
      let r = removal b v i loc o h in
      let s = loc.side in
      let absent = subst (λ j. find_order j r.rest ≡ none) h.same_id (gone b v i loc o h).1 in
      let (own, other) = levels-updated s _ _ b in
      by_side (view (cancel_at b i loc)) (spec_cancel i (view b)) (
        each_side (λ t. view (cancel_at b i loc) t ≡ spec_cancel i (view b) t) s
          (ap (λ k. map entry (flat k)) own
            ∙ entries-SameShape _ r.rest r.shape
            ∙ sym (without-Holds i o (flat (levels s b)) r.rest h.same_id r.taken absent))
          (ap (λ k. map entry (flat k)) other
            ∙ sym (without-absent i (flat (levels (opposite s) b)) (gone_elsewhere b v i loc o h))))

  seen-taken_out : (ts : ℕ) → seen (taken_out b loc o i ts) ≡ (spec_cancel i (view b), [])
  seen-taken_out ts k = (view-cancel_at k, fills_of-publish_tob (cancel_at b i loc) ts k)

pub cancel_order-seen :
    (b : Book) (i ts : ℕ)
    → IsValid b
    → (c : Outcome) × (cancel_order b i ts ≡ some c) × (seen c ≡ (spec_cancel i (view b), []))
cancel_order-seen b i ts v = elim (Option-cases (find ℕ_discrete i b.order_index)) [
  | inl e ↦
      (unknown b i ts, cancel_order-unknown b i ts e, ap (λ l. (l, [])) (view-unknown b i v e))
  | inr (loc, e) ↦
      let (o, h) = indexed-IsHeld b i loc v e in
      (
        taken_out b loc o i ts,
        cancel_order-known b i ts loc o e (deref-IsHeld b v i loc o h),
        seen-taken_out b v i loc o h ts,
      )
]
