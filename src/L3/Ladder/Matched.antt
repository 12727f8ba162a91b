-- ===== src/L3/Ladder/Matched.antt =====
-- `match_incoming` shows the sweep of the specification.
use hfttoolset.Base.{ℕ, ◌≡◌, sym, ap, ◌∙◌, false, ◌++◌, map}
use hfttoolset.Types.{Order}
use hfttoolset.L3.State.{OrderQueue, Book, levels, opposite}
use hfttoolset.L3.Match.{match_against, MatchResult, match_incoming, fok_blocked}
use hfttoolset.L3.Match.Fills.{fill_of, open_total}
use hfttoolset.L3.Match.Walk.{out_of_reach, flat-crossing, match_against-walk, walk}
use hfttoolset.L3.Match.Run.{walk-Run}
use hfttoolset.L3.Match.Update.{IsOpen-crossing}
use hfttoolset.L3.Valid.{IsValid, flat}
use hfttoolset.L3.Add.{start, match_incoming_open}
use hfttoolset.L3.Priority.{near}
use hfttoolset.L3.Ladder.{offered, Swept, sweep}
use hfttoolset.L3.Ladder.Sweep.{
  entry, sweep-Run, IsSwept, InReach-crossing, Stops-out_of_reach, offered-append,
}
use hfttoolset.L3.Ladder.View.{view, levels-updated-opposite}

module _ (b : Book) (order : Order) (ts : ℕ) (v : IsValid b) where
  abbrev far : OrderQueue
  far = flat (out_of_reach order (levels (opposite order.side) b))

  abbrev swept : Swept
  swept = sweep order order.quantity (view b (opposite order.side))

  all_of_it : view b (opposite order.side) ≡ map entry (near b order ++ far)
  all_of_it = ap (map entry) (sym (flat-crossing order (levels (opposite order.side) b)))

  walked-IsSwept :
      let (os, m) = walk b.symbol order ts (near b order) (start b order) in
      IsSwept order (near b order) far (start b order) os m
  walked-IsSwept =
      let s = opposite order.side in
      sweep-Run far
        (walk-Run b.symbol order ts s (near b order) (start b order)
          (IsOpen-crossing s order (levels s b) (v.level s)))
        (InReach-crossing s order (levels s b) (v.level s))
        (Stops-out_of_reach s order (levels s b) (v.level s))

  abbrev IsMatched : MatchResult → Type 0
  IsMatched r =
      (view r.book (opposite order.side) ≡ swept.left)
      × (view r.book order.side ≡ view b order.side)
      × (r.remaining_qty ≡ swept.wanted)
      × (map fill_of r.trades ≡ swept.fills)

  pub match_incoming-IsMatched : fok_blocked b order ≡ false → IsMatched (match_incoming b order ts)
  match_incoming-IsMatched e =
      let s = opposite order.side in
      let (ls, m) = match_against b.symbol order ts (levels s b) (start b order) in
      let (x, y) =
        match_against-walk b.symbol order ts s (levels s b) (start b order) (v.level s) in
      let (p, q, r) = walked-IsSwept in
      let (own, other) = levels-updated-opposite order.side ls m.tally b in
      let same = ap (λ es. sweep order order.quantity es) all_of_it in
      rw (match_incoming_open b order ts e) (
        ap (λ k. map entry (flat k)) own ∙ ap (map entry) x ∙ sym p ∙ sym (ap (λ w. w.left) same),
        ap (λ k. map entry (flat k)) other,
        ap (λ k. k.remaining) y ∙ sym q ∙ sym (ap (λ w. w.wanted) same),
        ap (λ k. map fill_of k.trades) y ∙ r ∙ sym (ap (λ w. w.fills) same),
      )

  pub offered-near : offered order (view b (opposite order.side)) ≡ open_total (near b order)
  offered-near =
      let s = opposite order.side in
      ap (offered order) all_of_it
      ∙ offered-append order (near b order) far (InReach-crossing s order (levels s b) (v.level s))
          (Stops-out_of_reach s order (levels s b) (v.level s))
