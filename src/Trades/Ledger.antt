-- ===== src/Trades/Ledger.antt =====
-- The net quantities of the trade engine: what every trade adds to them.
use hfttoolset.Base.{
  ℤ, pos, ◌+ℤ◌, ◌-ℤ◌, ◌≡◌, sym, ap, ap₂, ◌∙◌, List, [], ◌∷◌, ite, if_pos, if_neg, arith, int_laws,
  parts_of_eq,
}
use hfttoolset.Base.Assoc.{find, find-insert}
use hfttoolset.Types.{Side, buy, sell, Trade}
use hfttoolset.Doubles.{Doubles}
use hfttoolset.Trades.{
  Position, TraderSymbolKey, key_discrete, TradeEngine, passive_side, close_short, average_buy,
  close_long, average_sell, dealt, or_new, new_position, update_position, incoming_key, resting_key,
  count_trade, process_trade,
}

-- What a side gains.
abbrev pub signed : Side → ℤ → ℤ
signed buy q = q
signed sell q = pos 0 -ℤ q

abbrev pub process_trades : (D : Doubles) → List Trade → TradeEngine D → TradeEngine D
process_trades D [] e = e
process_trades D (t ∷ ts) e = process_trades D ts (process_trade D t e).0

module _ (D : Doubles) where
  net-close_short : (q pr : ℤ) (p : Position D) → (close_short D q pr p).net_qty ≡ p.net_qty
  unfolding close_short
  net-close_short q pr p = ground arith

  net-average_buy : (q pr : ℤ) (p : Position D) → (average_buy D q pr p).net_qty ≡ p.net_qty
  unfolding average_buy
  net-average_buy q pr p = ground arith

  net-close_long : (q pr : ℤ) (p : Position D) → (close_long D q pr p).net_qty ≡ p.net_qty
  unfolding close_long
  net-close_long q pr p = ground arith

  net-average_sell : (q pr : ℤ) (p : Position D) → (average_sell D q pr p).net_qty ≡ p.net_qty
  unfolding average_sell
  net-average_sell q pr p = ground arith

  minus : (a q : ℤ) → a -ℤ q ≡ a +ℤ (pos 0 -ℤ q)
  minus a q = omega int_laws

  pub net-dealt :
      (s : Side) (q pr : ℤ) (p : Position D) → (dealt D s q pr p).net_qty ≡ p.net_qty +ℤ signed s q
  unfolding dealt
  net-dealt buy q pr p =
      ap (λ n. n +ℤ q) (net-average_buy q pr (close_short D q pr p) ∙ net-close_short q pr p)
  net-dealt sell q pr p =
      ap (λ n. n -ℤ q) (net-average_sell q pr (close_long D q pr p) ∙ net-close_long q pr p)
      ∙ minus p.net_qty q

  -- The net quantity under a key, zero where there is no position.
  abbrev pub net_of : TradeEngine D → TraderSymbolKey → ℤ
  net_of e k = (or_new D (find key_discrete k e.positions)).net_qty

  abbrev pub share : TraderSymbolKey → TraderSymbolKey → ℤ → ℤ
  share j k q = ite (key_discrete j k) q (pos 0)

  plus_zero : (a : ℤ) → a ≡ a +ℤ pos 0
  plus_zero a = omega int_laws

  net-update_position :
      (j k : TraderSymbolKey) (s : Side) (q pr : ℤ) (e : TradeEngine D)
      → net_of (update_position D j s q pr e) k ≡ net_of e k +ℤ share j k (signed s q)
  unfolding update_position new_position
  net-update_position j k s q pr e =
      let p : Position D = record (or_new D (find key_discrete j e.positions)) {
        symbol = j.symbol;
      } in
      let at = find-insert key_discrete j k (dealt D s q pr p) e.positions in
      elim (key_discrete j k) [
        | yes h ↦
            ap (λ x. (or_new D x).net_qty) (at ∙ if_pos (key_discrete j k) h _ _)
            ∙ net-dealt s q pr p
            ∙ ap₂ (λ i x. net_of e i +ℤ x) h (sym (if_pos (key_discrete j k) h _ _))
        | no n ↦
            ap (λ x. (or_new D x).net_qty) (at ∙ if_neg (key_discrete j k) n _ _)
            ∙ plus_zero (net_of e k)
            ∙ ap (λ x. net_of e k +ℤ x) (sym (if_neg (key_discrete j k) n _ _))
      ]

  -- What a trade adds under a key: the aggressor's side of it and the opposite side.
  abbrev pub flow : TraderSymbolKey → List Trade → ℤ
  flow k [] = pos 0
  flow k (t ∷ ts) =
      share (incoming_key D t) k (signed t.aggressor_side t.qty)
      +ℤ share (resting_key D t) k (signed (passive_side t.aggressor_side) t.qty)
      +ℤ flow k ts

  net-process_trade :
      (t : Trade) (e : TradeEngine D) (k : TraderSymbolKey)
      → net_of (process_trade D t e).0 k
        ≡ net_of e k
          +ℤ share (incoming_key D t) k (signed t.aggressor_side t.qty)
          +ℤ share (resting_key D t) k (signed (passive_side t.aggressor_side) t.qty)
  unfolding process_trade count_trade
  net-process_trade t e k =
      let e1 =
        update_position D (incoming_key D t) t.aggressor_side t.qty t.price (count_trade D t e) in
      net-update_position (resting_key D t) k (passive_side t.aggressor_side) t.qty t.price e1
      ∙ ap (λ n. n +ℤ share (resting_key D t) k (signed (passive_side t.aggressor_side) t.qty))
          (net-update_position (incoming_key D t) k t.aggressor_side t.qty t.price
            (count_trade D t e))

  regroup : (n a b c f : ℤ) → n ≡ c +ℤ a +ℤ b → n +ℤ f ≡ c +ℤ (a +ℤ b +ℤ f)
  regroup n a b c f h = omega (int_laws, parts_of_eq _ _ h)

  -- After any trades, the net quantity of a trader in a symbol is what it was before plus the
  -- quantities of the trades in that symbol, up where the trader bought and down where it sold,
  -- be it as the aggressor, as the resting side or as both.
  pub net_of-process_trades :
      (ts : List Trade) (e : TradeEngine D) (k : TraderSymbolKey)
      → net_of (process_trades D ts e) k ≡ net_of e k +ℤ flow k ts
  net_of-process_trades [] e k = plus_zero (net_of e k)
  net_of-process_trades (t ∷ ts) e k =
      net_of-process_trades ts (process_trade D t e).0 k
      ∙ regroup _ _ _ _ (flow k ts) (net-process_trade t e k)
