-- ===== src/Trades/Balance.antt =====
-- The net quantities of all traders together, and the counters.
use hfttoolset.Base.{
  add_swap, add_left, ℤ, pos, ◌+ℤ◌, ◌≡◌, refl, sym, ap, ap₂, ◌∙◌, List, [], ◌∷◌, ite, if_pos,
  if_neg, arith, int_laws, parts_of_eq,
}
use hfttoolset.Base.Assoc.{Assoc, find, insert}
use hfttoolset.Types.{Side, buy, sell, Symbol, symbol_discrete, Trade}
use hfttoolset.Doubles.{Doubles}
use hfttoolset.Trades.{
  Position, TraderSymbolKey, key_discrete, TradeEngine, passive_side, dealt, or_new, new_position,
  update_position, incoming_key, resting_key, count_trade, process_trade,
}
use hfttoolset.Trades.Ledger.{signed, process_trades, net-dealt}

-- The quantity, if the key is of the symbol.
abbrev in_symbol : Symbol → TraderSymbolKey → ℤ → ℤ
in_symbol s k q = ite (symbol_discrete k.symbol s) q (pos 0)

module _ (D : Doubles) where
  -- The sum of the net quantities of all traders in a symbol.
  unfoldable pub total_net : Symbol → Assoc TraderSymbolKey (Position D) → ℤ
  total_net s [] = pos 0
  total_net s ((k, p) ∷ m) = in_symbol s k p.net_qty +ℤ total_net s m

  in_symbol-zero : (s : Symbol) (k : TraderSymbolKey) → in_symbol s k (pos 0) ≡ pos 0
  in_symbol-zero s k = ground arith

  nothing_else : (a z : ℤ) → z ≡ pos 0 → a +ℤ pos 0 +ℤ z ≡ pos 0 +ℤ a
  nothing_else a z h = omega (int_laws, parts_of_eq _ _ h)

  total_net-insert :
      (s : Symbol) (k : TraderSymbolKey) (p : Position D) (m : Assoc TraderSymbolKey (Position D))
      → total_net s (insert key_discrete k p m)
          +ℤ in_symbol s k (or_new D (find key_discrete k m)).net_qty
        ≡ total_net s m +ℤ in_symbol s k p.net_qty
  unfolding total_net insert find
  total_net-insert s k p [] = nothing_else (in_symbol s k p.net_qty) _ (in_symbol-zero s k)
  total_net-insert s k p ((j, r) ∷ m) = elim (key_discrete j k) [
    | yes e ↦
        ap₂ (λ l x. total_net s l +ℤ in_symbol s k (or_new D x).net_qty)
          (if_pos (key_discrete j k) e _ _) (if_pos (key_discrete j k) e _ _)
        ∙ ap (λ i. in_symbol s j p.net_qty +ℤ total_net s m +ℤ in_symbol s i r.net_qty) (sym e)
        ∙ add_swap (in_symbol s j p.net_qty) (total_net s m) (in_symbol s j r.net_qty)
        ∙ ap (λ i. in_symbol s j r.net_qty +ℤ total_net s m +ℤ in_symbol s i p.net_qty) e
    | no n ↦
        ap₂ (λ l x. total_net s l +ℤ in_symbol s k (or_new D x).net_qty)
          (if_neg (key_discrete j k) n _ _) (if_neg (key_discrete j k) n _ _)
        ∙ add_left (in_symbol s j r.net_qty) _ _ (total_net s m) (in_symbol s k p.net_qty)
            (total_net-insert s k p m)
  ]

  ite-sum :
      {P : Type 0} (d : Dec P) (a b : ℤ)
      → ite d (a +ℤ b) (pos 0) ≡ ite d a (pos 0) +ℤ ite d b (pos 0)
  ite-sum (yes h) a b = refl
  ite-sum (no n) a b = omega int_laws

  in_symbol-sum :
      (s : Symbol) (k : TraderSymbolKey) (a b : ℤ)
      → in_symbol s k (a +ℤ b) ≡ in_symbol s k a +ℤ in_symbol s k b
  in_symbol-sum s k a b = ite-sum (symbol_discrete k.symbol s) a b

  moved : (t e n a g : ℤ) → t +ℤ e ≡ n +ℤ a → a ≡ e +ℤ g → t ≡ n +ℤ g
  moved t e n a g h k = omega (int_laws, parts_of_eq _ _ h, parts_of_eq _ _ k)

  total_net-update_position :
      (s : Symbol) (k : TraderSymbolKey) (side : Side) (q pr : ℤ) (e : TradeEngine D)
      → total_net s (update_position D k side q pr e).positions
        ≡ total_net s e.positions +ℤ in_symbol s k (signed side q)
  unfolding update_position new_position
  total_net-update_position s k side q pr e =
      let p : Position D = record (or_new D (find key_discrete k e.positions)) {
        symbol = k.symbol;
      } in
      moved _ (in_symbol s k p.net_qty) (total_net s e.positions)
        (in_symbol s k (dealt D side q pr p).net_qty) (in_symbol s k (signed side q))
        (total_net-insert s k (dealt D side q pr p) e.positions)
        (ap (in_symbol s k) (net-dealt D side q pr p) ∙ in_symbol-sum s k p.net_qty (signed side q))

  opposite-sum : (side : Side) (q : ℤ) → signed side q +ℤ signed (passive_side side) q ≡ pos 0
  opposite-sum buy q = omega int_laws
  opposite-sum sell q = omega int_laws

  cancel : (n a b : ℤ) → a +ℤ b ≡ pos 0 → n +ℤ a +ℤ b ≡ n
  cancel n a b h = omega (int_laws, parts_of_eq _ _ h)

  total_net-process_trade :
      (s : Symbol) (t : Trade) (e : TradeEngine D)
      → total_net s (process_trade D t e).0.positions ≡ total_net s e.positions
  unfolding process_trade count_trade
  total_net-process_trade s t e =
      let k = incoming_key D t in
      let side = t.aggressor_side in
      let e0 = count_trade D t e in
      let e1 = update_position D k side t.qty t.price e0 in
      total_net-update_position s (resting_key D t) (passive_side side) t.qty t.price e1
      ∙ ap (λ n. n +ℤ in_symbol s (resting_key D t) (signed (passive_side side) t.qty))
          (total_net-update_position s k side t.qty t.price e0)
      ∙ cancel (total_net s e.positions) (in_symbol s k (signed side t.qty))
          (in_symbol s (resting_key D t) (signed (passive_side side) t.qty))
          (sym (in_symbol-sum s k (signed side t.qty) (signed (passive_side side) t.qty))
            ∙ ap (in_symbol s k) (opposite-sum side t.qty)
            ∙ in_symbol-zero s k)

  -- Whatever trades the engine processes, the net quantities of all traders in a symbol add up to
  -- what they did before.
  pub total_net-process_trades :
      (s : Symbol) (ts : List Trade) (e : TradeEngine D)
      → total_net s (process_trades D ts e).positions ≡ total_net s e.positions
  total_net-process_trades s [] e = refl
  total_net-process_trades s (t ∷ ts) e =
      total_net-process_trades s ts (process_trade D t e).0 ∙ total_net-process_trade s t e
