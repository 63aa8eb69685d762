-- ===== src/Trading/Scheduler/Order.antt =====
-- What a tick collects, in which order.
use pine_framework.Prelude.{
  ℕ, ◌+◌, ◌≡◌, refl, sym, ap, ◌∙◌, List, [], ◌∷◌, ◌++◌, Bool, false, string_eq, ◌===◌,
  if◌then◌else◌, subst, length, arith, length-append, append_nil, append_assoc,
}
use pine_framework.Trading.Scheduler.{
  PairConfig, ClosedCandle, Answer, signals, failed, Scheduler, Collected, candles_of,
  process_candles, process_pairs, start_tick, add_answer, ask_mutex, after_candles,
}

module _ {S : Type 0} where
  abbrev pub signals_of : Answer S → List S
  signals_of (signals new) = new
  signals_of (failed message) = []

  abbrev pub failures_of : Answer S → ℕ
  failures_of (signals new) = 0
  failures_of (failed message) = 1

module _ {D S : Type 0} where
  -- The answers to a list of candles, one after the other.
  abbrev pub answers : (ClosedCandle D → Answer S) → List (ClosedCandle D) → List S
  answers answer [] = []
  answers answer (c ∷ cs) = signals_of (answer c) ++ answers answer cs

  abbrev pub failures : (ClosedCandle D → Answer S) → List (ClosedCandle D) → ℕ
  failures answer [] = 0
  failures answer (c ∷ cs) = failures_of (answer c) + failures answer cs

  answers-append :
      (answer : ClosedCandle D → Answer S) (xs ys : List (ClosedCandle D))
      → answers answer (xs ++ ys) ≡ answers answer xs ++ answers answer ys
  answers-append answer [] ys = refl
  answers-append answer (c ∷ xs) ys =
      ap (λ l. signals_of (answer c) ++ l) (answers-append answer xs ys)
      ∙ sym (append_assoc (signals_of (answer c)) (answers answer xs) (answers answer ys))

  failures-append :
      (answer : ClosedCandle D → Answer S) (xs ys : List (ClosedCandle D))
      → failures answer (xs ++ ys) ≡ failures answer xs + failures answer ys
  failures-append answer [] ys = omega arith
  failures-append answer (c ∷ xs) ys = omega (arith, failures-append answer xs ys)

module _ {D : Type 0} where
  -- The candles whose symbol and time frame are those of the pair.
  abbrev pub belonging : PairConfig → List (ClosedCandle D) → List (ClosedCandle D)
  belonging pair [] = []
  belonging pair (c ∷ cs) =
      (if c.timeframe === pair.timeframe
        then (if c.symbol === pair.symbol then c ∷ [] else [])
        else [])
      ++ belonging pair cs

  -- They, the pairs in their order.
  abbrev pub by_pair : List PairConfig → List (ClosedCandle D) → List (ClosedCandle D)
  by_pair [] candles = []
  by_pair (pair ∷ pairs) candles = belonging pair candles ++ by_pair pairs candles

  candles_of_lem :
      (pair : PairConfig) (cs : List (ClosedCandle D)) → candles_of pair cs ≡ belonging pair cs
  unfolding candles_of
  candles_of_lem pair [] = refl
  candles_of_lem pair (c ∷ cs) = ground (arith, candles_of_lem pair cs)

module _ {W D S : Type 0} (answer : ClosedCandle D → Answer S) where
  -- `k'` is `k` with the answers to `cs` added.
  Adds : Collected W D S → Collected W D S → List (ClosedCandle D) → Type 0
  Adds k k' cs =
      (k'.all_signals ≡ k.all_signals ++ answers answer cs)
      × (length k'.errors ≡ length k.errors + failures answer cs)

  none-Adds : (k : Collected W D S) → Adds k k []
  unfolding Adds
  none-Adds k = (sym (append_nil k.all_signals), omega arith)

  append-Adds :
      (k k' k'' : Collected W D S) (xs ys : List (ClosedCandle D))
      → Adds k k' xs
      → Adds k' k'' ys
      → Adds k k'' (xs ++ ys)
  unfolding Adds
  append-Adds k k' k'' xs ys (a, m) (b, n) = (
    b
        ∙ ap (λ l. l ++ answers answer ys) a
        ∙ append_assoc k.all_signals (answers answer xs) (answers answer ys)
        ∙ ap (λ l. k.all_signals ++ l) (sym (answers-append answer xs ys)),
    omega (arith, m, n, failures-append answer xs ys),
  )

  one-Adds :
      (pair : PairConfig) (c : ClosedCandle D) (k : Collected W D S) (w : W) (a : Answer S)
      → a ≡ answer c
      → Adds k (add_answer pair c k (w, a)) (c ∷ [])
  unfolding Adds
  one-Adds pair c k w (signals new) e = (
    ap (λ a. k.all_signals ++ signals_of a) e
        ∙ ap (λ l. k.all_signals ++ l) (sym (append_nil (signals_of (answer c)))),
    omega (arith, ap failures_of e),
  )
  one-Adds pair c k w (failed message) e = (
    sym (append_nil k.all_signals)
        ∙ ap (λ a. k.all_signals ++ signals_of a) e
        ∙ ap (λ l. k.all_signals ++ l) (sym (append_nil (signals_of (answer c)))),
    omega (
      arith,
      ap failures_of e,
      length-append k.errors (record { pair = pair; candle = c; message = message } ∷ []),
    ),
  )

  ask_mutex_lem :
      (s : Scheduler) (caller : ℕ) (k : Collected W D S)
      → let t = ask_mutex s caller k in
        (t.all_signals ≡ k.all_signals)
        × (t.scheduler.total_candle_errors ≡ s.total_candle_errors)
        × (t.scheduler.total_signals_generated ≡ s.total_signals_generated)
  unfolding ask_mutex
  ask_mutex_lem s caller k = ground arith

  module _ (aborted : W → Bool) (process_candle : ClosedCandle D → W → W × Answer S)
      (live : (w : W) → aborted w ≡ false)
      (known : (c : ClosedCandle D) (w : W) → (process_candle c w).1 ≡ answer c) where
    process_candles-Adds :
        (pair : PairConfig) (cs : List (ClosedCandle D)) (k : Collected W D S)
        → Adds k (process_candles aborted process_candle pair cs k) cs
    unfolding process_candles
    process_candles-Adds pair [] k = none-Adds k
    process_candles-Adds pair (c ∷ cs) k =
        let k' = add_answer pair c k (process_candle c k.world) in
        rw (live k.world) (
          append-Adds k k' (process_candles aborted process_candle pair cs k') (c ∷ []) cs
            (one-Adds pair c k (process_candle c k.world).0 (process_candle c k.world).1
              (known c k.world))
            (process_candles-Adds pair cs k'))

    process_pairs-Adds :
        (pairs : List PairConfig) (candles : List (ClosedCandle D)) (k : Collected W D S)
        → Adds k (process_pairs aborted process_candle pairs candles k) (by_pair pairs candles)
    unfolding process_pairs
    process_pairs-Adds [] candles k = none-Adds k
    process_pairs-Adds (pair ∷ pairs) candles k =
        let k' = process_candles aborted process_candle pair (candles_of pair candles) k in
        rw (live k.world) (
          append-Adds k k' (process_pairs aborted process_candle pairs candles k')
            (belonging pair candles) (by_pair pairs candles)
            (subst (Adds k k') (candles_of_lem pair candles)
              (process_candles-Adds pair (candles_of pair candles) k))
            (process_pairs-Adds pairs candles k'))

    -- A tick that is not paused or aborted collects, for the pairs in their configured order and for
    -- each pair the candles of its symbol and time frame as they come, the signals of every answer, and
    -- counts them; a candle that fails costs no other candle its signals, and is counted. The answers are
    -- those of a processor whose answer does not depend on the world.
    pub start_tick_lem :
        (s : Scheduler) (caller now : ℕ) (candles : List (ClosedCandle D)) (w : W)
        → s.paused ≡ false
        → let t = start_tick aborted process_candle s caller now candles w in
          (t.all_signals ≡ answers answer (by_pair s.pairs candles))
          × (t.scheduler.total_candle_errors
              ≡ s.total_candle_errors + failures answer (by_pair s.pairs candles))
          × (t.scheduler.total_signals_generated
              ≡ s.total_signals_generated + length (answers answer (by_pair s.pairs candles)))
    unfolding start_tick after_candles Adds
    start_tick_lem s caller now candles w h =
        let k =
          process_pairs aborted process_candle s.pairs candles
            (record { world = w; all_signals = []; errors = [] }) in
        let (a, n) =
          process_pairs-Adds s.pairs candles
            (record { world = w; all_signals = []; errors = [] }) in
        let (asked, errors, generated) = ask_mutex_lem _ caller k in
        rw (h, live w, live k.world)
          (
            asked ∙ a,
            errors ∙ omega (arith, n),
            generated ∙ ap (λ l. s.total_signals_generated + length l) a,
          )
