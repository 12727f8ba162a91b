-- ===== src/L3/Fok.antt =====
-- Fill-or-kill: the check before the matching.
use hfttoolset.Base.{
  ℕ, ℤ, pos, ltb_ℤ, leb_ℤ, le_of_leb_ℤ, ◌≤ℤ◌, ◌+ℤ◌, ◌-ℤ◌, ◌≡◌, ◌⊎◌, inl, inr, sym, ap, subst, ◌∙◌,
  [], ◌∷◌, All, ◌&&◌, Bool-cases, false, int_laws, not_ltb_ℤ, le_of_not_ltb_ℤ, min_ℤ_least,
  +ℤ_assoc,
}
use hfttoolset.Types.{Side, Order, fok}
use hfttoolset.L3.State.{PriceLevels, Book, levels, opposite}
use hfttoolset.L3.Match.{
  queue_total, fok_available, fok_blocked, beyond_limit, is_fok, match_incoming,
}
use hfttoolset.L3.Valid.{IsValid, IsLevel}
use hfttoolset.L3.Match.Walk.{crossing}
use hfttoolset.L3.Match.Fills.{
  open_total, open_total_pos, open_total-append, queue_total_lem, open_total_nil,
}
use hfttoolset.L3.Match.Update.{IsOpen-crossing}
use hfttoolset.L3.Priority.{near, traded_qty-match_incoming}
use hfttoolset.L3.Add.{match_incoming_blocked}

zero_plus : (n : ℤ) → pos 0 +ℤ n ≡ n
zero_plus n = omega int_laws

minus_self : (n : ℤ) → n -ℤ n ≡ pos 0
minus_self n = omega int_laws

enough : (acc t n q : ℤ) → pos 0 ≤ℤ n → q ≤ℤ acc +ℤ t → q ≤ℤ acc +ℤ (t +ℤ n)
enough acc t n q h g = omega int_laws

-- The check stops early, yet its answer is that for the sum over all orders within the limit.
fok_available_lem :
    (s : Side) (order : Order) (acc : ℤ) (ls : PriceLevels)
    → All (IsLevel s) ls
    → ltb_ℤ (fok_available order acc ls) order.quantity
      ≡ ltb_ℤ (acc +ℤ open_total (crossing order ls)) order.quantity
unfolding fok_available crossing
fok_available_lem s order acc [] v = ap (λ n. ltb_ℤ n order.quantity) (sym (open_total_nil acc))
fok_available_lem s order acc ((p, os) ∷ ls) v = elim (Bool-cases (beyond_limit order p)) [
  | inl e ↦ rw e (ap (λ n. ltb_ℤ n order.quantity) (sym (open_total_nil acc)))
  | inr e ↦ elim (Bool-cases (leb_ℤ order.quantity (queue_total acc os))) [
    | inl f ↦
        let le =
          subst (λ n. order.quantity ≤ℤ n) (queue_total_lem acc os)
            (le_of_leb_ℤ order.quantity (queue_total acc os) f) in
        rw (e, f, queue_total_lem acc os, open_total-append os (crossing order ls))
          (not_ltb_ℤ (acc +ℤ open_total os) order.quantity le
            ∙ sym (
                not_ltb_ℤ (acc +ℤ (open_total os +ℤ open_total (crossing order ls))) order.quantity
                  (enough acc (open_total os) (open_total (crossing order ls)) order.quantity
                    (open_total_pos s (crossing order ls) (IsOpen-crossing s order ls v.1)) le)))
    | inr f ↦
        rw (e, f)
          (fok_available_lem s order (queue_total acc os) ls v.1
            ∙ ap (λ n. ltb_ℤ n order.quantity)
                (ap (λ n. n +ℤ open_total (crossing order ls)) (queue_total_lem acc os)
                  ∙ +ℤ_assoc acc (open_total os) (open_total (crossing order ls))
                  ∙ ap (λ n. acc +ℤ n) (sym (open_total-append os (crossing order ls)))))
  ]
]

-- On a well-formed book, an order is blocked exactly if it is fill-or-kill and the orders that
-- it crosses offer less than its quantity.
pub fok_blocked_lem :
    (b : Book) (order : Order)
    → IsValid b
    → fok_blocked b order ≡ (is_fok order.tif && ltb_ℤ (open_total (near b order)) order.quantity)
unfolding fok_blocked
fok_blocked_lem b order v =
    let s = opposite order.side in
    ap (λ r. is_fok order.tif && r)
      (fok_available_lem s order (pos 0) (levels s b) (v.level s)
        ∙ ap (λ n. ltb_ℤ n order.quantity) (zero_plus (open_total (crossing order (levels s b)))))

-- On a well-formed book, a fill-or-kill order of no negative quantity leaves nothing unfilled,
-- or the book is as it was and nothing is traded.
pub match_incoming-fok :
    (b : Book) (order : Order) (ts : ℕ)
    → IsValid b
    → order.tif ≡ fok
    → pos 0 ≤ℤ order.quantity
    → ((match_incoming b order ts).remaining_qty ≡ pos 0)
      ⊎ (match_incoming b order ts
          ≡ record { book = b; trades = []; remaining_qty = order.quantity; fully_filled = false })
match_incoming-fok b order ts v h g = elim (Bool-cases (fok_blocked b order)) [
  | inl e ↦ inr (match_incoming_blocked b order ts e)
  | inr e ↦
      let total = open_total (near b order) in
      let le : order.quantity ≤ℤ total = le_of_not_ltb_ℤ total order.quantity (
        sym (ap (λ t. is_fok t && ltb_ℤ total order.quantity) h)
        ∙ sym (fok_blocked_lem b order v)
        ∙ e) in
      let left = (traded_qty-match_incoming b order ts v e g).1 in
      inl (
        left
        ∙ ap (λ n. order.quantity -ℤ n) (min_ℤ_least order.quantity total le)
        ∙ minus_self order.quantity)
]
