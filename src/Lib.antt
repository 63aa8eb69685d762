-- ===== src/Lib.antt =====
-- PineFramework runs Pine Script v6 programs over market data (parser, compiler, runtime), backtests
-- them, and trades live on Solana exchanges. This development models, from the sources under src/ of the
-- repository, the stateful parts on which the rest relies, and one of the server under backend/src/:
--
-- - Language.RingBuffer (files Slots, Classes; proofs Collect, Window, Recent, Sum):
--   src/language/runtime/ring-buffer.ts and decimal-ring-buffer.ts. `Slots` is the circular array that both
--   classes share: `write`, `oldest` and `to_array` are the index arithmetic of `push` and `toArray`.
--   `Classes` adds the running sum; the numbers are an interface (`Prelude.Additive`), since the sum is in
--   doubles or in a decimal library, and the periodic `recalcSum` is modelled with its count.
-- - Language.Series: src/language/runtime/series.ts, the history of a variable, read by bars back.
-- - Language.Scope (files Checkpoint, Clone; proofs Growth, Steps, Names, Rollback, Clone.Copies):
--   src/language/runtime/scope.ts. Scopes are a chain of frames; bindings refer to series in a heap, so that
--   the sharing of a series by binding and checkpoint is explicit. `declare_variable` is `declareVariable`
--   and so on; `checkpoint_scope` and `restore_scope_checkpoint` are the rollback of a forming bar.
--   `clone_runtime_scope` is the deep copy `cloneRuntimeScope`.
-- - Language.Types (files Coercion, Annotation; proofs Names, Common, Values): src/language/types. A copy that
--   `withSeries` makes of a type is `flagged`; `get_common_type`, `is_assignable` and `coerce` are the functions
--   of coercion.ts, over the host's functions on numbers (`Host`).
-- - Performance.Cache (files Series, Calls; proofs Bound, Recency, Store): src/performance/cache.ts, the cache
--   of least recently used entries and the one for time series. The clock is an argument of every call.
-- - Performance.Pool (file Kinds; proofs Count): src/performance/object-pool.ts, ObjectPool, and
--   SeriesPool and MapPool. The factory may give each new object its own name: it takes the count of
--   objects made before.
-- - Trading.StateMachine (files Bot, Overlap; proofs History, Moves): src/trading/state-machine.ts and the
--   bot's states in src/trading/types.ts. Guards answer at once or by a promise; `transition` is a call that
--   runs without interruption; `Overlap` cuts it at its await, so that two calls may interleave.
-- - Trading.Capital (proofs Shares, Dust, Split): src/trading/capital-allocator.ts, the split of capital by
--   largest remainders, in whole units; the rounding of a weight to an integer is a parameter.
-- - Trading.Risk (files Rolling, Daily, Wallet): src/trading/risk, the guards that stop the bot on losses.
--   Money is counted in whole small units, and the start of a trading day is a parameter, which the
--   source takes from the host's calendar.
-- - Trading.Risk.Manager (proofs Stop): src/trading/risk/risk-manager.ts, the composition of the guards with the
--   emergency stop. Events come with the result of the call that emits them.
-- - Trading.Scheduler (files Lock; proofs Order): src/trading/scheduler.ts, the mutex and the tick over candles.
--   The callbacks are parameters that change a world; a tick is cut where it asks for the mutex.
-- - Strategy.Engine (files Groups, Closing, Fill, Orders, Exits, Bar, Snapshot; proofs Balance,
--   Lots, Steps, Quiet, Recorded, Filled, Pending, Hits, RoundTrip):
--   src/strategy/strategy-engine.ts, the broker that a script trades with, and strategy-types.ts
--   (Strategy.Types). `entry`, `order`, `exit`, `close` and `cancel` are the methods of these names,
--   `fill_order` is `fillOrder` and `update_bar` is `updateBar`. The arithmetic is an interface
--   (Strategy.Numbers), quantities are whole and not negative, and the fee model of src/pnl is a parameter.
-- - Strategy.Trailing (proofs Ratchet): src/strategy/trailing-stop-manager.ts, which the engine calls once a bar.
-- - Extensibility.Registry (files Queries, LoadOrder; proofs Bound, Swap, LoadOrder.Loads):
--   src/extensibility/plugin-registry.ts. The plugins' own `activate` and `deactivate`, and what `deactivate`
--   does before its first await (`begin_deactivate`), are parameters that
--   change a world and may throw. `get_load_order` is `getLoadOrder`.
-- - Extensibility.Manager (proofs Loading): src/extensibility/plugin-manager.ts, PluginManager over the registry.
-- - Backend.Cancellation (proofs Supersede): backend/src/cancellation-registry.ts; a token is an address in a
--   store of flags.
-- - Prelude (files Lists, Int, JsMap, Keys, Branches, Additive, Tests): the shared names; `JsMap` is the Map of
--   JavaScript in its insertion order, with its laws.
--
-- The parts meet in values only: a scope holds series, a time-series cache holds caches, the bot is a
-- state machine over `BotState`, and a tick holds the mutex while it submits orders. Every
-- loop is a recursion on a list or a number, but for the walk of `get_load_order`, whose fuel is one more than
-- the number of plugins: each visit with dependencies takes one of their names.
--
-- Not modelled: doubles as such (sums of the ring buffer are over an interface, money is whole, the
-- products of the capital split are exact also above 2^53), negative and fractional quantities of
-- orders, plugins whose `deactivate` fails after its first await when `unregister` or `clear` runs it
-- without awaiting it, the parser, compiler and interpreter of the language, the backtest loop and its
-- metrics, rendering, the exchanges and the wallet, the rest of the backend, and the frontend.
pub mod Prelude
pub mod Backend
pub mod Extensibility
pub mod Language
pub mod Performance
pub mod Strategy
pub mod Trading
