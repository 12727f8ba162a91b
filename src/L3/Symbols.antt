-- ===== src/L3/Symbols.antt =====
-- The symbol of a book: no operation changes it, and every event bears it.
use hfttoolset.Base.{
  some_inj, ℕ, ℤ, Bool, ◌||◌, pos, ltb_ℤ, eqb_ℤ, min_ℤ, ◌≡◌, refl, sym, ◌∙◌, subst, inl, inr, true,
  false, ◌&&◌, [], ◌∷◌, map, not, All, All-append, List, if◌then◌else◌, Bool-cases, Option, none,
  some, ℕ_discrete,
}
use hfttoolset.Base.Assoc.{find}
use hfttoolset.Types.{Side, buy, sell, Symbol, Order, OrderStatus, canceled, ReplaceRequest, Trade}
use hfttoolset.L3.State.{
  L3Order, OrderLocation, OrderQueue, PriceLevels, Book, levels, with_levels, opposite,
}
use hfttoolset.L3.Match.{
  Matching, available, is_limit, beyond_limit, record_fill, match_order, match_queue, match_against,
  match_incoming, fok_blocked, reduce, replenish, trade_with, MatchResult,
}
use hfttoolset.L3.Book.{
  BookEvent, traded, quoted, Outcome, publish_tob, add_resting_order, rests, settle, add_order,
  is_some, is_new, is_empty, matched_report, remainder_report,
}
use hfttoolset.L3.Book.Change.{
  cancel_at, cancel_found, cancel_indexed, cancel_order, replacement, replace_status, replace_after,
  replace_order,
}
use hfttoolset.L3.Query.{deref}
use hfttoolset.L3.Add.{start, book-settle, match_incoming_open, match_incoming_blocked}

symbol-with_levels :
    (s : Side) (ls : PriceLevels) (b : Book) → (with_levels s ls b).symbol ≡ b.symbol
symbol-with_levels buy ls b = refl
symbol-with_levels sell ls b = refl

-- An event of the book of `s`: a trade bears the symbol.
abbrev pub IsOf : Symbol → BookEvent → Type 0
IsOf s (traded t) = t.symbol ≡ s
IsOf s (quoted tob) = Unit

abbrev Bears : Symbol → Trade → Type 0
Bears s t = t.symbol ≡ s

module _ (s : Symbol) (inc : Order) (ts : ℕ) where
  fill-Bears :
      (p n : ℤ) (o : L3Order) (m : Matching)
      → All (Bears s) m.trades
      → All (Bears s) (record_fill s inc ts p o n m).trades
  unfolding record_fill trade_with
  fill-Bears p n o m h = All-append (Bears s) m.trades _ h (refl, tt)

  order-Bears :
      (p : ℤ) (o : L3Order) (m : Matching)
      → All (Bears s) m.trades
      → All (Bears s) (match_order s inc ts p o m).1.trades
  unfolding match_order
  order-Bears p o m h =
      let n = min_ℤ m.remaining (available o) in
      let k = fill-Bears p n o m h in
      elim (Bool-cases (eqb_ℤ (available (replenish (reduce n o))) (pos 0))) [
        | inl e ↦ rw e k
        | inr e ↦ rw e k
      ]

  queue-Bears :
      (p : ℤ) (os : OrderQueue) (m : Matching)
      → All (Bears s) m.trades
      → All (Bears s) (match_queue s inc ts p os m).1.trades
  unfolding match_queue
  queue-Bears p [] m h = h
  queue-Bears p (o ∷ os) m h = elim (Bool-cases (ltb_ℤ (pos 0) m.remaining)) [
    | inl e ↦ rw e (queue-Bears p os (match_order s inc ts p o m).1 (order-Bears p o m h))
    | inr e ↦ rw e h
  ]

  levels-Bears :
      (ls : PriceLevels) (m : Matching)
      → All (Bears s) m.trades
      → All (Bears s) (match_against s inc ts ls m).1.trades
  unfolding match_against
  levels-Bears [] m h = h
  levels-Bears ((p, os) ∷ ls) m h = elim (Bool-cases (ltb_ℤ (pos 0) m.remaining)) [
    | inr e ↦ rw e h
    | inl e ↦ elim (Bool-cases (beyond_limit inc p)) [
      | inl f ↦ rw (e, f) h
      | inr f ↦ rw (e, f) (levels-Bears ls (match_queue s inc ts p os m).1 (queue-Bears p os m h))
    ]
  ]

-- What matching leaves of the symbol.
abbrev Keeps : Symbol → MatchResult → Type 0
Keeps s r = (r.book.symbol ≡ s) × All (Bears s) r.trades

match_incoming-Keeps :
    (b : Book) (order : Order) (ts : ℕ) → Keeps b.symbol (match_incoming b order ts)
match_incoming-Keeps b order ts = elim (Bool-cases (fok_blocked b order)) [
  | inl e ↦ subst (Keeps b.symbol) (sym (match_incoming_blocked b order ts e)) (refl, tt)
  | inr e ↦
      let s = opposite order.side in
      let ls = (match_against b.symbol order ts (levels s b) (start b order)).0 in
      subst (Keeps b.symbol) (sym (match_incoming_open b order ts e))
        (symbol-with_levels s ls b, levels-Bears b.symbol order ts (levels s b) (start b order) tt)
]

symbol-add_resting_order :
    (b : Book) (order : Order) (n : ℤ) (ts : ℕ) → (add_resting_order b order n ts).symbol ≡ b.symbol
unfolding add_resting_order
symbol-add_resting_order b order n ts = symbol-with_levels order.side _ b

-- An operation on the book of `s`: the book stays that of `s`, and the events are of `s`.
abbrev pub Stays : Symbol → Outcome → Type 0
Stays s c = (c.book.symbol ≡ s) × All (IsOf s) c.events

events-IsOf : (s : Symbol) (ts : List Trade) → All (Bears s) ts → All (IsOf s) (map traded ts)
events-IsOf s [] h = tt
events-IsOf s (t ∷ ts) h = (h.0, events-IsOf s ts h.1)

quotes-IsOf :
    (s : Symbol) (c : Bool) (b : Book) (ts : ℕ) → All (IsOf s) (if c then publish_tob b ts else [])
unfolding publish_tob
quotes-IsOf s true b ts = (tt, tt)
quotes-IsOf s false b ts = tt

settle-IsOf :
    (s : Symbol) (order : Order) (ts : ℕ) (r : MatchResult)
    → All (Bears s) r.trades
    → All (IsOf s) (settle order ts r).events
unfolding settle
settle-IsOf s order ts r h =
    let left = ltb_ℤ (pos 0) r.remaining_qty && is_limit order.type in
    let rpt = matched_report order ts r in
    let rpt' = if left then remainder_report order.tif rpt else rpt in
    let b =
      if left && rests order.tif
      then add_resting_order r.book order r.remaining_qty ts
      else r.book in
    All-append (IsOf s) (map traded r.trades) _ (events-IsOf s r.trades h)
      (quotes-IsOf s (not (is_empty r.trades) || is_new rpt'.status) b ts)

settle-Stays :
    (s : Symbol) (order : Order) (ts : ℕ) (r : MatchResult)
    → Keeps s r
    → Stays s (settle order ts r)
settle-Stays s order ts r h = (
  elim (Bool-cases ((ltb_ℤ (pos 0) r.remaining_qty && is_limit order.type) && rests order.tif)) [
    | inl e ↦
        rw (book-settle order ts r, e)
          (symbol-add_resting_order r.book order r.remaining_qty ts ∙ h.0)
    | inr e ↦ rw (book-settle order ts r, e) h.0
  ],
  settle-IsOf s order ts r h.1,
)

pub add_order-Stays : (b : Book) (order : Order) (ts : ℕ) → Stays b.symbol (add_order b order ts)
unfolding add_order
add_order-Stays b order ts = elim (Bool-cases (is_some (find ℕ_discrete order.id b.order_index))) [
  | inl e ↦ rw e (refl, tt)
  | inr e ↦
      rw e (
        settle-Stays b.symbol order ts (match_incoming b order ts)
          (match_incoming-Keeps b order ts))
]

symbol-cancel_at :
    (b : Book) (id : ℕ) (loc : OrderLocation) → (cancel_at b id loc).symbol ≡ b.symbol
unfolding cancel_at
symbol-cancel_at b id loc = symbol-with_levels loc.side _ b

found-Stays :
    (b : Book) (id ts : ℕ) (loc : OrderLocation) (o : Option L3Order) (c : Outcome)
    → cancel_found b id ts loc o ≡ some c
    → Stays b.symbol c
unfolding cancel_found publish_tob
found-Stays b id ts loc none c h = cc
found-Stays b id ts loc (some o) c h =
    subst (Stays b.symbol) (some_inj h) (symbol-cancel_at b id loc, (tt, tt))

indexed-Stays :
    (b : Book) (id ts : ℕ) (l : Option OrderLocation) (c : Outcome)
    → cancel_indexed b id ts l ≡ some c
    → Stays b.symbol c
unfolding cancel_indexed
indexed-Stays b id ts none c h = subst (Stays b.symbol) (some_inj h) (refl, tt)
indexed-Stays b id ts (some loc) c h = found-Stays b id ts loc (deref b loc) c h

pub cancel_order-Stays :
    (b : Book) (id ts : ℕ) (c : Outcome) → cancel_order b id ts ≡ some c → Stays b.symbol c
unfolding cancel_order
cancel_order-Stays b id ts c h = indexed-Stays b id ts (find ℕ_discrete id b.order_index) c h

replace_status-Stays :
    (s : Symbol) (t : OrderStatus) (c added : Outcome)
    → Stays s c
    → Stays s added
    → Stays s (replace_status t c added)
unfolding replace_status
replace_status-Stays s canceled c added h k =
    (k.0, All-append (IsOf s) c.events added.events h.1 k.1)
replace_status-Stays s _ c added h k = h

replace_after-Stays :
    (b : Book) (req : ReplaceRequest) (ts : ℕ) (a : Option Outcome) (c : Outcome)
    → ((d : Outcome) → a ≡ some d → Stays b.symbol d)
    → replace_after req ts a ≡ some c
    → Stays b.symbol c
unfolding replace_after
replace_after-Stays b req ts none c f h = cc
replace_after-Stays b req ts (some d) c f h =
    let k = f d refl in
    let added = add_order d.book (replacement req d.report.side ts) ts in
    let w =
      subst (λ s. Stays s added) k.0
        (add_order-Stays d.book (replacement req d.report.side ts) ts) in
    subst (Stays b.symbol) (some_inj h) (replace_status-Stays b.symbol d.report.status d added k w)

pub replace_order-Stays :
    (b : Book) (req : ReplaceRequest) (ts : ℕ) (c : Outcome)
    → replace_order b req ts ≡ some c
    → Stays b.symbol c
unfolding replace_order
replace_order-Stays b req ts c h =
    replace_after-Stays b req ts (cancel_order b req.order_id ts) c
      (cancel_order-Stays b req.order_id ts) h
