-- ===== src/L3/Update.antt =====
-- A book stays well formed when one side and the tally change together.
use hfttoolset.Base.{ℕ, ◌≡◌, ◌⊎◌, inl, inr, All, Option, none, length, ◌%◌, ◌^◌, ◌∙◌}
use hfttoolset.Types.{Side, buy, sell}
use hfttoolset.L3.State.{OrderLocation, PriceLevels, Tally, Book, find_order, with_levels, opposite}
use hfttoolset.L3.Valid.{
  IsLevel, IsSorted, IsUncrossed, IsDistinct, IsValid, flat, locate, count_of, order_on,
}
use hfttoolset.L3.Orders.{locate_swap}
use hfttoolset.L3.Match.Index.{Indexes}

-- Where the other side has an order, or nothing.
abbrev pub elsewhere : Side → Book → ℕ → Option OrderLocation
elsewhere s b i = locate (order_on (opposite s) b i) none

abbrev pub updated : Side → PriceLevels → Tally → Book → Book
updated s ls t b = record (with_levels s ls b) { tally = t }

-- What the new levels and the new tally have to satisfy.
pub record IsUpdate (s : Side) (ls : PriceLevels) (t : Tally) (b : Book) : Type 0 where
  pub level : All (IsLevel s) ls
  pub sorted : IsSorted s ls
  pub distinct : IsDistinct (flat ls)
  pub uncrossed : IsUncrossed (updated s ls t b).bids (updated s ls t b).asks
  pub disjoint : (i : ℕ) → (find_order i (flat ls) ≡ none) ⊎ (order_on (opposite s) b i ≡ none)
  pub indexed : Indexes t (flat ls) (elsewhere s b)
  pub counted : count_of s t ≡ length (flat ls) % 2 ^ 64
  pub other_count : count_of (opposite s) t ≡ count_of (opposite s) b.tally

swap_sides {ℓ κ} : {A : Type ℓ} {B : Type κ} → A ⊎ B → B ⊎ A
swap_sides (inl a) = inr a
swap_sides (inr b) = inl b

pub update-IsValid :
    (s : Side) (ls : PriceLevels) (t : Tally) (b : Book)
    → IsValid b
    → IsUpdate s ls t b
    → IsValid (updated s ls t b)
update-IsValid buy ls t b v u = record {
  level = elim [ buy ↦ u.level | sell ↦ v.level sell ];
  sorted = elim [ buy ↦ u.sorted | sell ↦ v.sorted sell ];
  uncrossed = u.uncrossed;
  distinct = elim [ buy ↦ u.distinct | sell ↦ v.distinct sell ];
  disjoint = elim [ buy ↦ u.disjoint | sell ↦ λ i. swap_sides (u.disjoint i) ];
  indexed = elim [
    | buy ↦ u.indexed
    | sell ↦
        λ i. u.indexed i ∙ locate_swap (find_order i (flat ls)) (order_on sell b i) (u.disjoint i)
  ];
  counted = elim [ buy ↦ u.counted | sell ↦ u.other_count ∙ v.counted sell ];
}
update-IsValid sell ls t b v u = record {
  level = elim [ buy ↦ v.level buy | sell ↦ u.level ];
  sorted = elim [ buy ↦ v.sorted buy | sell ↦ u.sorted ];
  uncrossed = u.uncrossed;
  distinct = elim [ buy ↦ v.distinct buy | sell ↦ u.distinct ];
  disjoint = elim [ buy ↦ λ i. swap_sides (u.disjoint i) | sell ↦ u.disjoint ];
  indexed = elim [
    | buy ↦
        λ i. u.indexed i ∙ locate_swap (find_order i (flat ls)) (order_on buy b i) (u.disjoint i)
    | sell ↦ u.indexed
  ];
  counted = elim [ buy ↦ u.other_count ∙ v.counted buy | sell ↦ u.counted ];
}
