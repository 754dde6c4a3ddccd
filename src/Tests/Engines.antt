-- ===== src/Tests/Engines.antt =====
-- The engine's operations at concrete engines.
use hft_orderbook_engine.Base.{
  ℕ, ◌≡◌, refl, Bool-cases, inl, inr, true, false, some, [], ◌∷◌, arith, has, ◌==◌,
}
use hft_orderbook_engine.Base.Int.{pos, ◌-ℤ◌, ◌/ℤ◌, ◌%ℤ◌}
use hft_orderbook_engine.Core.{Side, buy, sell}
use hft_orderbook_engine.Book
use hft_orderbook_engine.Book.Modify.{amendable}
use hft_orderbook_engine.Engine.{Engine, Matching, MatchResult, rejected, cancel_oldest}
use hft_orderbook_engine.Engine.Invariant.{Good, Tied, Held, Steady}
use hft_orderbook_engine.Engine.Ledger.{IsLedger}
use hft_orderbook_engine.Engine.Loop.{match_order-Good}
use hft_orderbook_engine.Engine.Round.{Kept}
use hft_orderbook_engine.Engine.Start.{make-Steady}
use hft_orderbook_engine.Engine.Operations.{
  IsDisplayed, Taken, submit_order-Steady, cancel_order-Steady,
}
use hft_orderbook_engine.Engine.Modify.{modify_order-Steady}
use hft_orderbook_engine.Engine.Report.{submit_order-IsLedger, answer}
use hft_orderbook_engine.Engine.Submit.{
  fresh_result, match_order, start, submit_order, cancel_order, modify_order,
}
use hft_orderbook_engine.Pool
use hft_orderbook_engine.Pool.FreeList.{allocate-cons}
use hft_orderbook_engine.Level
use hft_orderbook_engine.OrderMap
use hft_orderbook_engine.Tests.{
  store, one_queues, one-Inv, one-found, fresh_engine, one_engine, one_engine-Steady,
  order-IsDisplayed, resting_one, bid_plain,
}

make-Steady_example : Steady fresh_engine
unfolding ◌-ℤ◌ ◌/ℤ◌
make-Steady_example =
    make-Steady (pos 0) (pos 4) (pos 1) 4 (omega arith) (omega arith) (omega arith) 4 store
      cancel_oldest (omega arith)

-- Slot 1 holds an ask that crosses the resting bid.
abbrev crossing : Engine
crossing = record one_engine { pool = (Pool.allocate one_engine.pool).0 }

crossing-Good : Good crossing 1
unfolding one_engine-Steady
crossing-Good = record {
  queues = one_queues;
  free = 2 ∷ 3 ∷ [];
  live = 1 ∷ 0 ∷ [];
  book = one-Inv;
  pool = (allocate-cons (one_engine-Steady.pool)).1;
  owned = λ d i x h. ground (arith, one_engine-Steady.owned d i x h);
  out = out;
  alive = refl;
}
  where
    out : (d : Side) (i : ℕ) → has 1 (one_queues d i) ≡ false
    out buy i = elim (Bool-cases (3 == i)) [ inl e ↦ rw e refl | inr e ↦ rw e refl ]
    out sell i = refl

ask : crossing.store 1 ≡ store 1
unfolding Book.add_order Book.place Book.place_at Book.raise_best Level.add_order
    Book.is_valid_price Book.price_to_index ◌-ℤ◌ ◌/ℤ◌ ◌%ℤ◌ Book.make OrderMap.make OrderMap.insert
    OrderMap.probe OrderMap.probe_from OrderMap.hash OrderMap.next_power_of_2
ask = refl

ask-IsDisplayed : IsDisplayed (crossing.store 1)
ask-IsDisplayed = rw ask order-IsDisplayed

match_order-Good_example :
    (m' : Matching) × (match_order 100 (start crossing 1) 1 ≡ some m')
    × (g' : Good m'.engine 1) × Kept (crossing.store 1) (m'.store 1)
    × (Tied crossing-Good → Tied g')
unfolding crossing-Good
match_order-Good_example =
    match_order-Good 100 (start crossing 1) 1 crossing-Good (omega (arith, resting_one))

submit_order-Steady_example :
    (r : Engine × MatchResult) × (submit_order 100 crossing 1 ≡ some r)
    × (v : Steady r.0) × (Tied crossing-Good → Held v)
unfolding crossing-Good
submit_order-Steady_example =
    submit_order-Steady 100 crossing 1 crossing-Good ask-IsDisplayed (omega (arith, resting_one))

submit_order-IsLedger_example :
    (r : Engine × MatchResult) × (submit_order 100 crossing 1 ≡ some r) × IsLedger 0 (answer r)
unfolding crossing-Good
submit_order-IsLedger_example =
    submit_order-IsLedger 100 crossing 1 crossing-Good ask-IsDisplayed (omega (arith, resting_one))
      (omega arith)

cancel_order-Steady_example :
    ((cancel_order one_engine 1).1 ≡ true)
    × Taken one_engine-Steady 0 buy 3 (cancel_order one_engine 1).0
unfolding one_engine-Steady
cancel_order-Steady_example =
    cancel_order-Steady one_engine 1 0 buy 3 one_engine-Steady one-found refl

modify_order-Steady_example :
    ((r : Engine × MatchResult) × (modify_order 100 one_engine 1 (pos 2) 20 200 ≡ some r)
      × (v : Steady r.0) × (Held one_engine-Steady → Held v))
    × (amendable one_engine.book (one_engine.store 0) (pos 2) 20 ≡ false
        → modify_order 100 one_engine 1 (pos 2) 20 200 ≡ some (one_engine, fresh_result rejected 0))
unfolding one_engine-Steady
modify_order-Steady_example =
    modify_order-Steady 100 one_engine 1 0 buy 3 one_engine-Steady one-found refl (pos 2) 20 200
      (omega arith) bid_plain (omega (arith, resting_one))
