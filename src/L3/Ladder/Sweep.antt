-- ===== src/L3/Ladder/Sweep.antt =====
-- The walk of the matching loops is the sweep of the specification.
use mathlib.Core.List.{append-nil, append_assoc, map-append}
use hfttoolset.Base.{
  ℕ, ℤ, pos, leb_ℤ, ◌≤ℤ◌, ◌<ℤ◌, ◌-ℤ◌, true, false, ◌||◌, ◌≡◌, refl, sym, ap, ◌∙◌, inl, inr, All,
  All-append, List, [], ◌∷◌, ◌++◌, map, Bool-cases, arith, int_laws,
}
use hfttoolset.Types.{Side, Symbol, Order}
use hfttoolset.L3.State.{L3Order, OrderQueue, PriceLevels}
use hfttoolset.L3.Match.{Matching, available, beyond_limit, record_fill, trade_with}
use hfttoolset.L3.Valid.{IsResting, IsLevel, flat}
use hfttoolset.L3.Match.Walk.{crossing, out_of_reach}
use hfttoolset.L3.Match.Round.{IsRest}
use hfttoolset.L3.Match.Run.{Run, stop, done, used, took, after_used, after_took}
use hfttoolset.L3.Match.Fills.{fill_of, open_total}
use hfttoolset.L3.Ladder.{Entry, too_dear, fill_at, sweep, offered}

abbrev pub entry : L3Order → Entry
entry o = record { id = o.id; trader_id = o.trader_id; price = o.price; open_qty = available o }

-- The order may trade with it.
abbrev pub InReach : Order → L3Order → Type 0
InReach order o = too_dear order o.price ≡ false

-- It may not trade with the first.
abbrev pub Stops : Order → OrderQueue → Type 0
Stops order [] = Unit
Stops order (o ∷ os) = too_dear order o.price ≡ true

sweep_end :
    (order : Order) (n : ℤ) (e : Entry) (es : List Entry)
    → (leb_ℤ n (pos 0) || too_dear order e.price) ≡ true
    → sweep order n (e ∷ es) ≡ record { left = e ∷ es; wanted = n; fills = [] }
unfolding sweep
sweep_end order n e es h = rw h

sweep_stop :
    (order : Order) (n : ℤ) (os : OrderQueue)
    → n ≤ℤ pos 0
    → sweep order n (map entry os) ≡ record { left = map entry os; wanted = n; fills = [] }
unfolding sweep
sweep_stop order n [] h = refl
sweep_stop order n (o ∷ os) h = sweep_end order n (entry o) (map entry os) (ground arith)

sweep_far :
    (order : Order) (n : ℤ) (os : OrderQueue)
    → Stops order os
    → sweep order n (map entry os) ≡ record { left = map entry os; wanted = n; fills = [] }
unfolding sweep
sweep_far order n [] h = refl
sweep_far order n (o ∷ os) h = sweep_end order n (entry o) (map entry os) (ground arith)

sweep_used :
    (order : Order) (n : ℤ) (e : Entry) (es : List Entry)
    → pos 0 <ℤ n
    → too_dear order e.price ≡ false
    → e.open_qty ≤ℤ n
    → let rest = sweep order (n -ℤ e.open_qty) es in
      sweep order n (e ∷ es) ≡ record rest { fills = fill_at e e.open_qty ∷ rest.fills }
unfolding sweep
sweep_used order n e es h r le =
    let more : leb_ℤ n (pos 0) ≡ false = ground arith in
    let all_of_it : leb_ℤ e.open_qty n ≡ true = ground arith in rw (more, r, all_of_it) refl

sweep_took :
    (order : Order) (n : ℤ) (e : Entry) (es : List Entry)
    → pos 0 <ℤ n
    → too_dear order e.price ≡ false
    → n <ℤ e.open_qty
    → sweep order n (e ∷ es) ≡ record {
      left = record e { open_qty = e.open_qty -ℤ n } ∷ es;
      wanted = pos 0;
      fills = fill_at e n ∷ [];
    }
unfolding sweep
sweep_took order n e es h r lt =
    let more : leb_ℤ n (pos 0) ≡ false = ground arith in
    let part_of_it : leb_ℤ e.open_qty n ≡ false = ground arith in rw (more, r, part_of_it) refl

abbrev pub IsSwept : Order → OrderQueue → OrderQueue → Matching → OrderQueue → Matching → Type 0
IsSwept inc os far m os' m' =
    let r = sweep inc m.remaining (map entry (os ++ far)) in
    (r.left ≡ map entry (os' ++ far))
    × (r.wanted ≡ m'.remaining)
    × (map fill_of m'.trades ≡ map fill_of m.trades ++ r.fills)

same_entry :
    (o r : L3Order) (n : ℤ)
    → IsRest o n r
    → record (entry o) { open_qty = available o -ℤ n } ≡ entry r
same_entry o r n h i = record {
  id = sym h.same_id i;
  trader_id = sym h.same_trader i;
  price = sym h.same_price i;
  open_qty = sym h.left i;
}

nothing_left : (n : ℤ) → pos 0 ≡ n -ℤ n
nothing_left n = omega int_laws

module _ {symbol : Symbol} {inc : Order} {ts : ℕ} {s : Side} where
  pub sweep-Run :
      (far : OrderQueue) {os os' : OrderQueue} {m m' : Matching}
      → Run symbol inc ts s os m os' m'
      → All (InReach inc) os
      → Stops inc far
      → IsSwept inc os far m os' m'
  unfolding after_used after_took record_fill trade_with
  sweep-Run far {os} {m = m} (stop h) a b =
      rw (sweep_stop inc m.remaining (os ++ far) h) (refl, refl, sym (append-nil _))
  sweep-Run far {m = m} done a b =
      rw (sweep_far inc m.remaining far b) (refl, refl, sym (append-nil _))
  sweep-Run far {m = m} (used {o} {os} h v le r) a b =
      let (x, y, z) = sweep-Run far r a.1 b in
      rw (sweep_used inc m.remaining (entry o) (map entry (os ++ far)) h a.0 le)
        (x, y, rw (z, map-append) (append_assoc (map fill_of m.trades) _ _))
  sweep-Run far {m = m} (took {o} {r} {os = os} h v lt w rest) a b =
      rw (sweep_took inc m.remaining (entry o) (map entry (os ++ far)) h a.0 lt) (
        ap (λ e. e ∷ map entry (os ++ far)) (same_entry o r m.remaining rest),
        nothing_left m.remaining,
        map-append _ _ _,
      )

module _ (s : Side) (inc : Order) where
  InReach-queue :
      (p : ℤ) (os : OrderQueue)
      → beyond_limit inc p ≡ false
      → All (IsResting s p) os
      → All (InReach inc) os
  unfolding beyond_limit
  InReach-queue p [] h v = tt
  InReach-queue p (o ∷ os) h v = (ap (too_dear inc) v.0.at_price ∙ h, InReach-queue p os h v.1)

  pub InReach-crossing :
      (ls : PriceLevels) → All (IsLevel s) ls → All (InReach inc) (crossing inc ls)
  unfolding crossing
  InReach-crossing [] v = tt
  InReach-crossing ((p, os) ∷ ls) v = elim (Bool-cases (beyond_limit inc p)) [
    | inl e ↦ rw e tt
    | inr e ↦ rw e (
        All-append (InReach inc) os (crossing inc ls) (InReach-queue p os e v.0.1)
          (InReach-crossing ls v.1))
  ]

  Stops-level :
      (p : ℤ) (os : OrderQueue) (ls : PriceLevels)
      → beyond_limit inc p ≡ true
      → IsLevel s (p, os)
      → Stops inc (os ++ flat ls)
  unfolding beyond_limit
  Stops-level p [] ls h v = absurd (v.0 refl)
  Stops-level p (o ∷ os) ls h v = ap (too_dear inc) v.1.0.at_price ∙ h

  pub Stops-out_of_reach :
      (ls : PriceLevels) → All (IsLevel s) ls → Stops inc (flat (out_of_reach inc ls))
  unfolding out_of_reach
  Stops-out_of_reach [] v = tt
  Stops-out_of_reach ((p, os) ∷ ls) v = elim (Bool-cases (beyond_limit inc p)) [
    | inl e ↦ rw e (Stops-level p os ls e v.0)
    | inr e ↦ rw e (Stops-out_of_reach ls v.1)
  ]

offered_far : (inc : Order) (os : OrderQueue) → Stops inc os → offered inc (map entry os) ≡ pos 0
unfolding offered
offered_far inc [] h = refl
offered_far inc (o ∷ os) h = rw h refl

pub offered-append :
    (inc : Order) (near far : OrderQueue)
    → All (InReach inc) near
    → Stops inc far
    → offered inc (map entry (near ++ far)) ≡ open_total near
unfolding offered open_total
offered-append inc [] far a b = offered_far inc far b
offered-append inc (o ∷ near) far a b = rw (a.0, offered-append inc near far a.1 b) refl
