-- ===== src/L3/Ladder/View.antt =====
-- What the book shows of itself and of an operation: its sides as lists of entries, and the fills.
use mathlib.Core.List.{append-nil}
use hfttoolset.Base.{
  ℕ, ◌≡◌, refl, ap, ◌∙◌, true, false, [], ◌∷◌, ◌++◌, map, List, if◌then◌else◌, Bool, ap₂,
}
use hfttoolset.Types.{Side, buy, sell, Order, Trade}
use hfttoolset.L3.State.{PriceLevels, Tally, Book, levels, opposite}
use hfttoolset.L3.Match.{MatchResult}
use hfttoolset.L3.Match.Fills.{Fill, fill_of}
use hfttoolset.L3.Update.{updated}
use hfttoolset.L3.Book.{BookEvent, Outcome, publish_tob, traded, quoted, settle}
use hfttoolset.L3.Valid.{flat}
use hfttoolset.L3.Ladder.{Ladder, Answer, Entry, sides}
use hfttoolset.L3.Ladder.Sweep.{entry}

abbrev pub view : Book → Ladder
view b s = map entry (flat (levels s b))

pub levels-updated :
    (s : Side) (ls : PriceLevels) (t : Tally) (b : Book)
    → (levels s (updated s ls t b) ≡ ls)
      × (levels (opposite s) (updated s ls t b) ≡ levels (opposite s) b)
levels-updated buy ls t b = (refl, refl)
levels-updated sell ls t b = (refl, refl)

pub levels-updated-opposite :
    (s : Side) (ls : PriceLevels) (t : Tally) (b : Book)
    → (levels (opposite s) (updated (opposite s) ls t b) ≡ ls)
      × (levels s (updated (opposite s) ls t b) ≡ levels s b)
levels-updated-opposite buy ls t b = (refl, refl)
levels-updated-opposite sell ls t b = (refl, refl)

-- What an operation shows to the outside: the ladder after it, and its fills.
abbrev pub fills_of : List BookEvent → List Fill
fills_of [] = []
fills_of (traded t ∷ es) = fill_of t ∷ fills_of es
fills_of (quoted q ∷ es) = fills_of es

pub fills_of-append : (xs ys : List BookEvent) → fills_of (xs ++ ys) ≡ fills_of xs ++ fills_of ys
fills_of-append [] ys = refl
fills_of-append (traded t ∷ xs) ys = ap (λ l. fill_of t ∷ l) (fills_of-append xs ys)
fills_of-append (quoted q ∷ xs) ys = fills_of-append xs ys

fills_of-traded : (ts : List Trade) → fills_of (map traded ts) ≡ map fill_of ts
fills_of-traded [] = refl
fills_of-traded (t ∷ ts) = ap (λ l. fill_of t ∷ l) (fills_of-traded ts)

pub fills_of-publish_tob : (b : Book) (ts : ℕ) → fills_of (publish_tob b ts) ≡ []
unfolding publish_tob
fills_of-publish_tob b ts = refl

fills-quotes : (t : Bool) (b : Book) (ts : ℕ) → fills_of (if t then publish_tob b ts else []) ≡ []
fills-quotes true b ts = fills_of-publish_tob b ts
fills-quotes false b ts = refl

pub fills-settle :
    (order : Order) (ts : ℕ) (r : MatchResult)
    → fills_of (settle order ts r).events ≡ map fill_of r.trades
unfolding settle
fills-settle order ts r =
    fills_of-append (map traded r.trades) _
    ∙ ap₂ ◌++◌ (fills_of-traded r.trades) (fills-quotes _ _ ts)
    ∙ append-nil (map fill_of r.trades)

-- What is seen of an outcome.
abbrev pub seen : Outcome → Answer
seen c = (view c.book, fills_of c.events)

pub by_side : (l k : Ladder) → ((s : Side) → l s ≡ k s) → l ≡ k
by_side l k h i s = h s i

at_sides :
    (s : Side) (l : Ladder) (own other : List Entry)
    → l s ≡ own
    → l (opposite s) ≡ other
    → (t : Side) → l t ≡ sides s own other t
at_sides buy l own other e f buy = e
at_sides buy l own other e f sell = f
at_sides sell l own other e f sell = e
at_sides sell l own other e f buy = f

pub view-sides :
    (s : Side) (l : Ladder) (own other : List Entry)
    → l s ≡ own
    → l (opposite s) ≡ other
    → l ≡ sides s own other
view-sides s l own other e f = by_side l (sides s own other) (at_sides s l own other e f)

pub each_side : (P : Side → Type 0) (s : Side) → P s → P (opposite s) → (t : Side) → P t
each_side P buy x y buy = x
each_side P buy x y sell = y
each_side P sell x y sell = x
each_side P sell x y buy = y
