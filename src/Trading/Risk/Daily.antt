-- ===== src/Trading/Risk/Daily.antt =====
-- src/trading/risk/daily-stop-loss.ts, the class DailyStopLoss. Money is a whole number of a small unit;
-- `day_start` is `getTradingDayStart` (the host's calendar), and the time of a call is its argument.
use pine_framework.Prelude.{
  ℕ, suc, ◌+◌, ◌≤◌, ◌<◌, ◌≡◌, ◌↔◌, ◌∙◌, refl, sym, subst, ap, List, [], ◌∷◌, Option, none, some,
  Bool, true, false, ◌&&◌, not, String, string_eq, ◌===◌, ltb, leb, if◌then◌else◌, arith, All,
}
use pine_framework.Prelude.Int.{ℤ, pos, negsuc}

pub record DailyStopLossConfig : Type 0 where
  pub max_daily_loss : ℤ
  pub timezone : String

pub record DailyStopLoss : Type 0 where
  pub config : DailyStopLossConfig
  pub realized_loss : ℕ
  pub current_day_start : ℕ
  pub breached : Bool

-- The test `maxDailyLoss > 0 && loss >= maxDailyLoss`.
unfoldable pub reaches : ℤ → ℕ → Bool
reaches (pos m) loss = ltb 0 m && leb m loss
reaches (negsuc m) loss = false

-- The test `maxDailyLoss <= 0`.
unfoldable pub is_unlimited : ℤ → Bool
is_unlimited (pos m) = leb m 0
is_unlimited (negsuc m) = true

-- What a loss of `lost` does after the day is checked.
unfoldable pub add_loss : DailyStopLoss → ℕ → DailyStopLoss
add_loss g lost =
    let loss = g.realized_loss + lost in
    record g {
      realized_loss = loss;
      breached = if reaches g.config.max_daily_loss loss then true else g.breached;
    }

module _ (day_start : ℕ → String → ℕ) where
  unfoldable pub reset_day : DailyStopLoss → ℕ → DailyStopLoss
  reset_day g now = record g {
    current_day_start = day_start now g.config.timezone;
    realized_loss = 0;
    breached = false;
  }

  unfoldable pub create : DailyStopLossConfig → ℕ → DailyStopLoss
  unfolding reset_day
  create config now =
      reset_day
        (record { config = config; realized_loss = 0; current_day_start = 0; breached = false }) now

  unfoldable pub check_day_reset : DailyStopLoss → ℕ → DailyStopLoss
  unfolding reset_day
  check_day_reset g now =
      if ltb g.current_day_start (day_start now g.config.timezone) then reset_day g now else g

  -- The partial config is two options; a new time zone counts if it is not the empty string.
  unfoldable pub update_config : DailyStopLoss → Option ℤ → Option String → ℕ → DailyStopLoss
  unfolding reset_day
  update_config g max_loss timezone now =
      let max' : ℤ = elim max_loss [ none ↦ g.config.max_daily_loss | some m ↦ m ] in
      let zone' : String = elim timezone [ none ↦ g.config.timezone | some z ↦ z ] in
      let g' : DailyStopLoss = record g {
        config = record { max_daily_loss = max'; timezone = zone' };
      } in
      if zone' === g.config.timezone then g' else if zone' === "" then g' else reset_day g' now

  unfoldable pub record_trade : DailyStopLoss → ℤ → ℕ → DailyStopLoss × Bool
  unfolding check_day_reset add_loss
  record_trade g (pos profit) now = let g' = check_day_reset g now in (g', g'.breached)
  record_trade g (negsuc n) now =
      let g' = add_loss (check_day_reset g now) (suc n) in (g', g'.breached)

  unfoldable pub can_enter_position : DailyStopLoss → ℕ → DailyStopLoss × Bool
  unfolding check_day_reset
  can_enter_position g now =
      let g' = check_day_reset g now in
      (g', if is_unlimited g'.config.max_daily_loss then true else not g'.breached)

  -- Trades recorded one after the other, each with its time.
  unfoldable pub record_trades : List (ℤ × ℕ) → DailyStopLoss → DailyStopLoss
  record_trades [] g = g
  record_trades ((pnl, now) ∷ rest) g = record_trades rest (record_trade g pnl now).0

-- The loss a list of trades makes, profits left aside.
abbrev pub lost : ℤ → ℕ
lost (pos n) = 0
lost (negsuc n) = suc n

abbrev pub losses : List (ℤ × ℕ) → ℕ
losses [] = 0
losses ((pnl, now) ∷ rest) = lost pnl + losses rest

-- The configured limit is a positive number that the loss reaches.
abbrev pub IsHit : ℤ → ℕ → Type 0
IsHit max loss = (m : ℕ) × ((max ≡ pos m) × (0 < m) × (m ≤ loss))

reaches-IsHit : (max : ℤ) (loss : ℕ) → (not (reaches max loss) ≡ false) ↔ IsHit max loss
unfolding reaches
reaches-IsHit (pos m) loss = (
  λ e. (m, (refl, ground (arith, e), ground (arith, e))),
  λ (n, (e, positive, hit)). ground (arith, e, positive, hit),
)
reaches-IsHit (negsuc m) loss =
    (λ e. ground (arith, e), λ (n, (e, positive, hit)). ground (arith, e))

module _ (day_start : ℕ → String → ℕ) where
  -- The breach is what the loss of the day makes it.
  record IsDay (g : DailyStopLoss) (day : ℕ) (config : DailyStopLossConfig) (loss : ℕ)
      : Type 0 where
    at_day : g.current_day_start ≡ day
    at_config : g.config ≡ config
    at_loss : g.realized_loss ≡ loss
    judged : g.breached ≡ reaches config.max_daily_loss loss

  check_day_reset-same :
      (g : DailyStopLoss) (now : ℕ)
      → day_start now g.config.timezone ≤ g.current_day_start
      → check_day_reset day_start g now ≡ g
  unfolding check_day_reset
  check_day_reset-same g now h = ground arith

  reaches_mono :
      (max : ℤ) (loss more : ℕ) → reaches max loss ≡ true → reaches max (loss + more) ≡ true
  unfolding reaches
  reaches_mono max loss more h = ground arith

  judged_more :
      (max : ℤ) (loss more : ℕ)
      → (if reaches max (loss + more) then true else reaches max loss) ≡ reaches max (loss + more)
  judged_more max loss more = ground (arith, reaches_mono max loss more)

  add_loss-IsDay :
      (g : DailyStopLoss) (day more loss : ℕ) (config : DailyStopLossConfig)
      → IsDay g day config loss
      → IsDay (add_loss g more) day config (loss + more)
  unfolding add_loss
  add_loss-IsDay g day more loss config valid = record {
    at_day = valid.at_day;
    at_config = valid.at_config;
    at_loss = ap (λ l. l + more) valid.at_loss;
    judged =
        rw (valid.judged, valid.at_loss, ap (λ c. c.max_daily_loss) valid.at_config)
          (judged_more config.max_daily_loss loss more);
  }

  add_zero : (n : ℕ) → n + 0 ≡ n
  add_zero n = omega arith

  zero_add : (n : ℕ) → 0 + n ≡ n
  zero_add n = omega arith

  regroup : (a b c : ℕ) → a + b + c ≡ a + (b + c)
  regroup a b c = omega arith

  same :
      (g : DailyStopLoss) (now day loss : ℕ) (config : DailyStopLossConfig)
      → IsDay g day config loss
      → day_start now config.timezone ≤ day
      → check_day_reset day_start g now ≡ g
  same g now day loss config valid h =
      check_day_reset-same g now (rw (valid.at_day, ap (λ c. c.timezone) valid.at_config) h)

  unlimited :
      (max : ℤ) (loss : ℕ)
      → (if is_unlimited max then true else not (reaches max loss)) ≡ not (reaches max loss)
  unfolding is_unlimited reaches
  unlimited max loss = ground arith

  no_loss : (max : ℤ) → reaches max 0 ≡ false
  unfolding reaches
  no_loss max = ground arith

  record_trade-IsDay :
      (g : DailyStopLoss) (pnl : ℤ) (now day loss : ℕ) (config : DailyStopLossConfig)
      → IsDay g day config loss
      → day_start now config.timezone ≤ day
      → IsDay (record_trade day_start g pnl now).0 day config (loss + lost pnl)
  unfolding record_trade
  record_trade-IsDay g (pos n) now day loss config valid h =
      rw (same g now day loss config valid h, add_zero loss) valid
  record_trade-IsDay g (negsuc n) now day loss config valid h =
      rw (same g now day loss config valid h) (add_loss-IsDay g day (suc n) loss config valid)

  record_trades-IsDay :
      (trades : List (ℤ × ℕ)) (g : DailyStopLoss) (day loss : ℕ) (config : DailyStopLossConfig)
      → IsDay g day config loss
      → All (λ t. day_start t.1 config.timezone ≤ day) trades
      → IsDay (record_trades day_start trades g) day config (loss + losses trades)
  unfolding record_trades
  record_trades-IsDay [] g day loss config valid h = rw (add_zero loss) valid
  record_trades-IsDay ((pnl, now) ∷ rest) g day loss config valid (h, hs) =
      subst (IsDay (record_trades day_start rest (record_trade day_start g pnl now).0) day config)
        (regroup loss (lost pnl) (losses rest))
        (record_trades-IsDay rest _ day (loss + lost pnl) config
          (record_trade-IsDay g pnl now day loss config valid h) hs)

  answer :
      (g : DailyStopLoss) (now day loss : ℕ) (config : DailyStopLossConfig)
      → IsDay g day config loss
      → day_start now config.timezone ≤ day
      → (can_enter_position day_start g now).1 ≡ not (reaches config.max_daily_loss loss)
  unfolding can_enter_position
  answer g now day loss config valid h =
      rw (same g now day loss config valid h, valid.judged, valid.at_config)
        (unlimited config.max_daily_loss loss)

  new-IsDay :
      (config : DailyStopLossConfig) (start : ℕ)
      → IsDay (create day_start config start) (day_start start config.timezone) config 0
  unfolding create reset_day
  new-IsDay config start = record {
    at_day = refl;
    at_config = refl;
    at_loss = refl;
    judged = sym (no_loss config.max_daily_loss);
  }

  -- If all trades of a new guard and the question fall on days that start no later than its first one,
  -- a new position is refused exactly if the configured limit is positive and at most the losses of the
  -- trades.
  pub can_enter_position-day :
      (config : DailyStopLossConfig) (start now : ℕ) (trades : List (ℤ × ℕ))
      → All (λ t. day_start t.1 config.timezone ≤ day_start start config.timezone) trades
      → day_start now config.timezone ≤ day_start start config.timezone
      → ((can_enter_position day_start
            (record_trades day_start trades (create day_start config start))
            now).1
          ≡ false)
        ↔ IsHit config.max_daily_loss (losses trades)
  can_enter_position-day config start now trades h k =
      let asked =
        answer (record_trades day_start trades (create day_start config start)) now
          (day_start start config.timezone) (losses trades) config
          (subst
            (IsDay (record_trades day_start trades (create day_start config start))
              (day_start start config.timezone) config)
            (zero_add (losses trades))
            (record_trades-IsDay trades (create day_start config start)
              (day_start start config.timezone) 0 config (new-IsDay config start) h))
          k in
      let hit = reaches-IsHit config.max_daily_loss (losses trades) in
      (λ e. hit.0 (sym asked ∙ e), λ h'. asked ∙ hit.1 h')

  -- If the day of the question starts later than the guard's day, the question allows an entry, takes
  -- over the new day and leaves no loss.
  pub can_enter_position-new_day :
      (g : DailyStopLoss) (now : ℕ)
      → g.current_day_start < day_start now g.config.timezone
      → ((can_enter_position day_start g now).1 ≡ true)
        × ((can_enter_position day_start g now).0.realized_loss ≡ 0)
        × ((can_enter_position day_start g now).0.current_day_start
            ≡ day_start now g.config.timezone)
  unfolding can_enter_position check_day_reset reset_day
  can_enter_position-new_day g now h = ground arith
