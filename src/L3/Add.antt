-- ===== src/L3/Add.antt =====
-- `add_order`: matching, and then what rests of the order.
use hfttoolset.Base.{
  ℕ, pos, ltb_ℤ, eqb_ℤ, Bool, subst, ◌<ℤ◌, ◌≡◌, refl, sym, ◌∙◌, inl, inr, true, false, ◌&&◌, [],
  none, some, Option, Bool-cases, lt_of_ltb_ℤ, if◌then◌else◌, arith, ℕ_discrete,
}
use hfttoolset.Base.Assoc.{find}
use hfttoolset.Types.{Side, buy, sell, TimeInForce, day, ioc, fok, gtc, Order}
use hfttoolset.L3.State.{PriceLevels, Tally, Book, levels, opposite}
use hfttoolset.L3.Match.{
  Matching, is_limit, is_fok, match_against, match_incoming, fok_blocked, MatchResult,
}
use hfttoolset.L3.Book.{is_some, rests, settle, add_order, add_resting_order}
use hfttoolset.L3.Valid.{IsValid}
use hfttoolset.L3.Rest.{CrossesNothing, absent-none, add_resting_order-IsValid}
use hfttoolset.L3.Update.{updated}
use hfttoolset.L3.Match.Levels.{OutOfReach-match_against}
use hfttoolset.L3.Match.Update.{match_incoming-IsValid, absent-matched, indexed-matched}

abbrev pub start : Book → Order → Matching
start b order = record { tally = b.tally; remaining = order.quantity; trades = [] }

opposite_twice : (s : Side) → s ≡ opposite (opposite s)
opposite_twice buy = refl
opposite_twice sell = refl

levels-opposite :
    (s : Side) (b : Book) (ls : PriceLevels) (t : Tally) → levels s (updated s ls t b) ≡ ls
levels-opposite buy b ls t = refl
levels-opposite sell b ls t = refl

-- The result of matching where the FOK check does not stop it.
abbrev pub traded : Book → Order → ℕ → MatchResult
traded b order ts =
    let s = opposite order.side in
    let (ls, m) = match_against b.symbol order ts (levels s b) (start b order) in
    record {
      book = updated s ls m.tally b;
      trades = m.trades;
      remaining_qty = m.remaining;
      fully_filled = eqb_ℤ m.remaining (pos 0);
    }

pub match_incoming_open :
    (b : Book) (order : Order) (ts : ℕ)
    → fok_blocked b order ≡ false
    → match_incoming b order ts ≡ traded b order ts
unfolding match_incoming
match_incoming_open b order ts e = rw e

pub match_incoming_blocked :
    (b : Book) (order : Order) (ts : ℕ)
    → fok_blocked b order ≡ true
    → match_incoming b order ts
      ≡ record { book = b; trades = []; remaining_qty = order.quantity; fully_filled = false }
unfolding match_incoming
match_incoming_blocked b order ts e = rw e

not_fok_open : (b : Book) (order : Order) → is_fok order.tif ≡ false → fok_blocked b order ≡ false
unfolding fok_blocked
not_fok_open b order e = rw e

-- Where matching leaves a quantity, nothing is left that the order crosses.
traded-CrossesNothing :
    (b : Book) (order : Order) (ts : ℕ)
    → IsValid b
    → pos 0 <ℤ (traded b order ts).remaining_qty
    → CrossesNothing order (traded b order ts).book
traded-CrossesNothing b order ts v h =
    let s = opposite order.side in
    let (ls, m) = match_against b.symbol order ts (levels s b) (start b order) in
    rw (levels-opposite s b ls m.tally) (
      OutOfReach-match_against b.symbol order ts s (levels s b) (start b order)
        (opposite_twice order.side) (v.level s) (v.sorted s) h)

-- The index after matching has no id that it did not have.
pub traded-fresh :
    (b : Book) (order : Order) (ts i : ℕ)
    → IsValid b
    → find ℕ_discrete i b.order_index ≡ none
    → find ℕ_discrete i (traded b order ts).book.order_index ≡ none
traded-fresh b order ts i v h =
    let s = opposite order.side in
    let gone = absent-none (sym (v.indexed s i) ∙ h) in
    rw
      (
        indexed-matched order ts b v s (start b order) refl i,
        absent-matched order ts b v s (start b order) i gone.0,
      )
      (rw gone.1)

traded-IsValid :
    (b : Book) (order : Order) (ts : ℕ)
    → IsValid b
    → fok_blocked b order ≡ false
    → IsValid (traded b order ts).book
traded-IsValid b order ts v e =
    subst (λ r. IsValid r.book) (match_incoming_open b order ts e)
      (match_incoming-IsValid b order ts v)

pub book-settle :
    (order : Order) (ts : ℕ) (r : MatchResult)
    → (settle order ts r).book ≡ (
        if (ltb_ℤ (pos 0) r.remaining_qty && is_limit order.type) && rests order.tif
        then add_resting_order r.book order r.remaining_qty ts
        else r.book)
unfolding settle
book-settle order ts r = refl

pub rests-not-fok : (t : TimeInForce) → rests t ≡ true → is_fok t ≡ false
rests-not-fok day h = refl
rests-not-fok ioc h = refl
rests-not-fok fok h = cc
rests-not-fok gtc h = refl

and_parts : (a b c : Bool) → ((a && b) && c) ≡ true → (a ≡ true) × (c ≡ true)
and_parts a b c h = ground arith

settle-IsValid :
    (b : Book) (order : Order) (ts : ℕ)
    → IsValid b
    → find ℕ_discrete order.id b.order_index ≡ none
    → IsValid (settle order ts (match_incoming b order ts)).book
settle-IsValid b order ts v fresh =
    let r = match_incoming b order ts in
    elim (Bool-cases ((ltb_ℤ (pos 0) r.remaining_qty && is_limit order.type) && rests order.tif)) [
      | inr e ↦ rw (book-settle order ts r, e) (match_incoming-IsValid b order ts v)
      | inl e ↦
          let (left, stays) =
            and_parts (ltb_ℤ (pos 0) r.remaining_qty) (is_limit order.type) (rests order.tif) e in
          let free = not_fok_open b order (rests-not-fok order.tif stays) in
          let eq = match_incoming_open b order ts free in
          let h : pos 0 <ℤ (traded b order ts).remaining_qty =
            rw eq at (lt_of_ltb_ℤ (pos 0) r.remaining_qty left) in
          rw (book-settle order ts r, e, eq)
            (add_resting_order-IsValid (traded b order ts).book order
              (traded b order ts).remaining_qty ts (traded-IsValid b order ts v free) h
              (traded-fresh b order ts order.id v fresh) (traded-CrossesNothing b order ts v h))
    ]

pub not_some {ℓ} : {A : Type ℓ} (o : Option A) → is_some o ≡ false → o ≡ none
not_some none h = refl
not_some (some a) h = cc

-- `add_order` leaves a well-formed book well formed, whatever the order.
pub add_order-IsValid :
    (b : Book) (order : Order) (ts : ℕ) → IsValid b → IsValid (add_order b order ts).book
unfolding add_order
add_order-IsValid b order ts v =
    elim (Bool-cases (is_some (find ℕ_discrete order.id b.order_index))) [
      | inl e ↦ rw e v
      | inr e ↦ rw e (settle-IsValid b order ts v (not_some _ e))
    ]
