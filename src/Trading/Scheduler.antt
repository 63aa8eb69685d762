-- ===== src/Trading/Scheduler.antt =====
-- src/trading/scheduler.ts: the mutex and the tick. `W` is the world that awaited calls change; the
-- abort signal is read from it. A tick is cut where it asks for the mutex, which may make it wait.
pub mod Lock
pub mod Order
pub mod Tests
use pine_framework.Prelude.{
  ℕ, ◌+◌, ◌≡◌, List, [], ◌∷◌, ◌++◌, Option, none, some, Bool, true, false, ◌&&◌, String, string_eq,
  ◌===◌, ◌==◌, ◌||◌, if◌then◌else◌, length,
}
use pine_framework.Trading.Scheduler.Lock.{Mutex, new_mutex, acquire, release}

pub record PairConfig : Type 0 where
  pub symbol : String
  pub timeframe : String

-- `D` is the rest of a closed candle: its time, prices and volume, here its bar.
pub record ClosedCandle {ℓ} (D : Type ℓ) : Type ℓ where
  pub symbol : String
  pub timeframe : String
  pub bar : D

pub data Answer {ℓ} (S : Type ℓ) : Type ℓ where
  signals : List S → Answer S
  failed : String → Answer S

pub record CandleErrorInfo {ℓ} (D : Type ℓ) : Type ℓ where
  pub pair : PairConfig
  pub candle : ClosedCandle D
  pub message : String

pub record Scheduler : Type 0 where
  pub pairs : List PairConfig
  pub mutex : Mutex
  pub paused : Bool
  pub running : Bool
  pub tick_count : ℕ
  pub total_signals_generated : ℕ
  pub total_orders_submitted : ℕ
  pub total_candle_errors : ℕ
  pub last_tick_time : ℕ

-- How the first phase of a tick ends: it needs no mutex, has it, or waits for it.
pub data Request : Type 0 where
  skips : Request
  enters : Request
  queues : Request

-- `Scheduler.create` from the options that are state; the callbacks are parameters below.
unfoldable pub create : List PairConfig → Bool → Scheduler
create pairs paused = record {
  pairs = pairs;
  mutex = new_mutex;
  paused = paused;
  running = false;
  tick_count = 0;
  total_signals_generated = 0;
  total_orders_submitted = 0;
  total_candle_errors = 0;
  last_tick_time = 0;
}

unfoldable pub pause : Scheduler → Scheduler
pause s = record s { paused = true }

unfoldable pub resume : Scheduler → Scheduler
resume s = record s { paused = false }

unfoldable pub stop : Scheduler → Scheduler
stop s = record s { running = false; paused = true }

unfoldable pub reset_stats : Scheduler → Scheduler
reset_stats s = record s {
  tick_count = 0;
  total_signals_generated = 0;
  total_orders_submitted = 0;
  total_candle_errors = 0;
  last_tick_time = 0;
}

pub record SchedulerStats : Type 0 where
  pub tick_count : ℕ
  pub total_signals_generated : ℕ
  pub total_orders_submitted : ℕ
  pub total_candle_errors : ℕ
  pub last_tick_time : ℕ
  pub pair_count : ℕ

unfoldable pub stats : Scheduler → SchedulerStats
stats s = record {
  tick_count = s.tick_count;
  total_signals_generated = s.total_signals_generated;
  total_orders_submitted = s.total_orders_submitted;
  total_candle_errors = s.total_candle_errors;
  last_tick_time = s.last_tick_time;
  pair_count = length s.pairs;
}

-- What the loops over the candles carry: the world, the signals so far and the errors reported.
pub record Collected {ℓ} (W D S : Type ℓ) : Type ℓ where
  pub world : W
  pub all_signals : List S
  pub errors : List (CandleErrorInfo D)

pub record Started {ℓ} (W D S : Type ℓ) : Type ℓ where
  pub scheduler : Scheduler
  pub world : W
  pub all_signals : List S
  pub errors : List (CandleErrorInfo D)
  pub waits : Request

module _ {ℓ} {D : Type ℓ} where
  unfoldable pub candles_of : PairConfig → List (ClosedCandle D) → List (ClosedCandle D)
  candles_of pair [] = []
  candles_of pair (c ∷ cs) =
      let rest = candles_of pair cs in
      if c.symbol === pair.symbol && c.timeframe === pair.timeframe then c ∷ rest else rest

module _ {ℓ} {W D S : Type ℓ} where
  abbrev pub add_answer :
      PairConfig → ClosedCandle D → Collected W D S → W × Answer S → Collected W D S
  add_answer pair c k (w, signals new) = record k { world = w; all_signals = k.all_signals ++ new }
  add_answer pair c k (w, failed message) = record k {
    world = w;
    errors = k.errors ++ record { pair = pair; candle = c; message = message } ∷ [];
  }

  -- The end of the first phase: without a signal the mutex is not asked for.
  unfoldable pub ask_mutex : Scheduler → ℕ → Collected W D S → Started W D S
  ask_mutex s caller k =
      let (mutex, granted) = acquire s.mutex caller in
      if length k.all_signals == 0
      then record {
        scheduler = s;
        world = k.world;
        all_signals = k.all_signals;
        errors = k.errors;
        waits = skips;
      }
      else record {
        scheduler = record s { mutex = mutex };
        world = k.world;
        all_signals = k.all_signals;
        errors = k.errors;
        waits = if granted then enters else queues;
      }

module _ {ℓ} {W D S : Type ℓ} (aborted : W → Bool)
    (process_candle : ClosedCandle D → W → W × Answer S) where
  unfoldable pub process_candles :
      PairConfig → List (ClosedCandle D) → Collected W D S → Collected W D S
  process_candles pair [] k = k
  process_candles pair (c ∷ cs) k =
      let rest = process_candles pair cs (add_answer pair c k (process_candle c k.world)) in
      if aborted k.world then k else rest

  unfoldable pub process_pairs :
      List PairConfig → List (ClosedCandle D) → Collected W D S → Collected W D S
  unfolding process_candles
  process_pairs [] candles k = k
  process_pairs (pair ∷ pairs) candles k =
      let rest = process_pairs pairs candles (process_candles pair (candles_of pair candles) k) in
      if aborted k.world then k else rest

  unfoldable pub after_candles : Scheduler → ℕ → Collected W D S → Started W D S
  unfolding ask_mutex
  after_candles s caller k =
      let asking =
        ask_mutex
          (record s { total_signals_generated = s.total_signals_generated + length k.all_signals })
          caller k in
      if aborted k.world
      then record {
        scheduler = s;
        world = k.world;
        all_signals = k.all_signals;
        errors = k.errors;
        waits = skips;
      }
      else asking

  -- The first phase of `tick`, up to the request for the mutex, by the tick named `caller` at `now`.
  unfoldable pub start_tick : Scheduler → ℕ → ℕ → List (ClosedCandle D) → W → Started W D S
  unfolding process_pairs process_candles after_candles
  start_tick s caller now candles w =
      let k = process_pairs s.pairs candles (record { world = w; all_signals = []; errors = [] }) in
      let begun : Scheduler = record s {
        running = true;
        tick_count = s.tick_count + 1;
        last_tick_time = now;
        total_candle_errors = s.total_candle_errors + length k.errors;
      } in
      if s.paused || aborted w
      then record { scheduler = s; world = w; all_signals = []; errors = []; waits = skips }
      else after_candles begun caller k

-- The second phase, when the tick has the mutex: the mutex is released also if the orders fail.
module _ {ℓ} {W S : Type ℓ} (submit_orders : List S → W → W × Option String) where
  abbrev pub count_orders : Scheduler → List S → Option String → Scheduler
  count_orders s orders none = record s {
    total_orders_submitted = s.total_orders_submitted + length orders;
  }
  count_orders s orders (some message) = s

  -- The tick that is woken, and the error that the tick ends with, come with the new state.
  unfoldable pub finish_tick : Scheduler → List S → W → Scheduler × (W × (Option ℕ × Option String))
  finish_tick s orders w =
      let (w', error) = submit_orders orders w in
      let (mutex, woken) = release s.mutex in
      (count_orders (record s { mutex = mutex }) orders error, (w', (woken, error)))
