-- ===== src/L3/Ladder/Tests.antt =====
-- A run of the specification, and the book at the same calls.
use hfttoolset.Base.{ℕ, ℤ, pos, ◌≡◌, refl, List, [], ◌∷◌, some, ◌+ℤ◌, ◌-ℤ◌}
use hfttoolset.Types.{Side, buy, sell, Order, TimeInForce, day, ioc, empty_order, blank, no_text}
use hfttoolset.L3.State.{Book, new_book}
use hfttoolset.L3.Match.Fills.{Fill}
use hfttoolset.L3.Book.Change.{replacement}
use hfttoolset.L3.Valid.{IsValid}
use hfttoolset.L3.Reach.{Call, add, cancel, replace}
use hfttoolset.L3.Ladder.{
  sweep, offered, place, has, without, spec_add, spec_cancel, spec_replace, spec_call, spec_calls,
  empty_ladder,
}
use hfttoolset.L3.Ladder.View.{view}
use hfttoolset.L3.Ladder.Calls.{calls, calls-new_book}

abbrev order : ℕ → Side → TimeInForce → ℤ → ℤ → Order
order i s t p q = record empty_order { id = i; side = s; tif = t; price = p; quantity = q }

-- Offers of 5 at 10, 7 at 11 and 4 at 10; the second moves to 10; a buyer takes 11 at up to 10.
abbrev script : List Call
script =
    add (order 1 sell day (pos 10) (pos 5)) 1
    ∷ add (order 2 sell day (pos 11) (pos 7)) 2
    ∷ add (order 3 sell day (pos 10) (pos 4)) 3
    ∷ replace
        (record {
          order_id = 2;
          trader_id = 0;
          symbol = blank;
          new_price = pos 10;
          new_qty = pos 6;
          submit_time = 4;
          cl_ord_id = no_text;
          orig_cl_ord_id = no_text;
        })
        4
    ∷ add (order 4 buy ioc (pos 10) (pos 11)) 5
    ∷ cancel 7 6
    ∷ []

abbrev fill : ℕ → ℤ → Fill
fill i n = record { resting_id = i; price = pos 10; qty = n }

script_fills :
    (spec_calls script empty_ladder).1 ≡ fill 1 (pos 5) ∷ fill 3 (pos 4) ∷ fill 2 (pos 2) ∷ []
unfolding spec_calls spec_call spec_add spec_replace spec_cancel sweep offered place has without
    replacement ◌-ℤ◌ ◌+ℤ◌
script_fills = refl

script_asks :
    (spec_calls script empty_ladder).0 sell
    ≡ record { id = 2; trader_id = 0; price = pos 10; open_qty = pos 4 } ∷ []
unfolding spec_calls spec_call spec_add spec_replace spec_cancel sweep offered place has without
    replacement ◌-ℤ◌ ◌+ℤ◌
script_asks = refl

calls-new_book_example :
    (b : Book) × (fs : List Fill) × (calls script (new_book blank) ≡ some (b, fs))
    × IsValid b
    × ((view b, fs) ≡ spec_calls script empty_ladder)
calls-new_book_example = calls-new_book blank script
