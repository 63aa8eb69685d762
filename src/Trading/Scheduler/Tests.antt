-- ===== src/Trading/Scheduler/Tests.antt =====
-- A tick over two pairs.
use pine_framework.Prelude.{
  ℕ, zero, suc, ◌+◌, ◌≡◌, refl, List, [], ◌∷◌, ◌++◌, some, Bool, true, false, String, length,
  if◌then◌else◌,
}
use pine_framework.Trading.Scheduler.{
  PairConfig, ClosedCandle, Answer, signals, failed, Scheduler, create, candles_of, process_candles,
  process_pairs, start_tick, finish_tick, ask_mutex, after_candles,
}
use pine_framework.Trading.Scheduler.Lock.{
  acquire, release, Event, asks, leaves, run, step, empty_room, is_some, asked, IsFair,
}
use pine_framework.Trading.Scheduler.Lock
use pine_framework.Trading.Scheduler.Order.{answers, by_pair, failures}
use pine_framework.Trading.Scheduler.Order

abbrev pair : String → PairConfig
pair name = record { symbol = name; timeframe = "5m" }

abbrev candle : String → ℕ → ClosedCandle ℕ
candle name price = record { symbol = name; timeframe = "5m"; bar = price }

abbrev both : Scheduler
both = create (pair "SOL" ∷ pair "JUP" ∷ []) false

abbrev candles : List (ClosedCandle ℕ)
candles = candle "JUP" 1 ∷ candle "SOL" 2 ∷ candle "JUP" 0 ∷ candle "SOL" 4 ∷ []

-- A candle of price 0 fails; any other gives its price as a signal.
abbrev answer : ClosedCandle ℕ → Answer ℕ
answer c = elim c.bar [ zero ↦ failed "no price" | suc n ↦ signals (c.bar ∷ []) ]

-- The world counts the calls.
abbrev process : ClosedCandle ℕ → ℕ → ℕ × Answer ℕ
process c w = (w + 1, answer c)

abbrev never : ℕ → Bool
never w = false

in_order : (start_tick never process both 7 100 candles 0).all_signals ≡ 2 ∷ 4 ∷ 1 ∷ []
unfolding start_tick after_candles ask_mutex process_pairs process_candles candles_of create acquire
in_order = refl

-- The orders fail: the mutex is free again and nothing is counted as submitted.
failed_orders :
    let started = start_tick never process both 7 100 candles 0 in
    (started.scheduler.mutex.locked ≡ true)
    × ((finish_tick
          (λ orders w. (w, some "rejected"))
          started.scheduler
          started.all_signals
          started.world).0.mutex.locked
        ≡ false)
unfolding start_tick finish_tick after_candles ask_mutex process_pairs process_candles candles_of
    create acquire release
failed_orders = (refl, refl)

start_tick_example :
    let t = start_tick never process both 7 100 candles 0 in
    (t.all_signals ≡ answers answer (by_pair both.pairs candles))
    × (t.scheduler.total_candle_errors
        ≡ both.total_candle_errors + failures answer (by_pair both.pairs candles))
    × (t.scheduler.total_signals_generated
        ≡ both.total_signals_generated + length (answers answer (by_pair both.pairs candles)))
unfolding create
start_tick_example =
    Order.start_tick_lem answer never process (λ w. refl) (λ c w. refl) both 7 100 candles 0 refl

abbrev events : List Event
events = asks 1 ∷ asks 2 ∷ asks 3 ∷ leaves ∷ []

second_inside : (run events empty_room).entered ≡ 1 ∷ 2 ∷ []
unfolding run step acquire release
second_inside = refl

run_lem_example :
    ((run events empty_room).mutex.locked ≡ is_some (run events empty_room).inside)
    × ((run events empty_room).mutex.queue ≡ (
        if is_some (run events empty_room).inside then (run events empty_room).mutex.queue else []))
    × ((run events empty_room).entered ++ (run events empty_room).mutex.queue ≡ 1 ∷ 2 ∷ 3 ∷ [])
run_lem_example = Lock.run_lem events
