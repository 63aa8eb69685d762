-- ===== src/Trading/Risk/Manager.antt =====
-- src/trading/risk/risk-manager.ts. The time of a call is its argument, in the place of `Date.now()`;
-- `day_start` is `getTradingDayStart`. The events that a call emits come with its result, without their
-- messages: the listeners do not act on the manager.
pub mod Stop
pub mod Tests
use pine_framework.Prelude.{
  ℕ, ◌+◌, List, [], ◌∷◌, ◌++◌, Option, none, some, Bool, true, false, ◌&&◌, ◌||◌, not, String, ◌==◌,
  if◌then◌else◌,
}
use pine_framework.Prelude.Int.{ℤ}
use pine_framework.Trading.Risk.Rolling.{RollingLossGuard}
use pine_framework.Trading.Risk.Rolling
use pine_framework.Trading.Risk.Daily.{DailyStopLoss, DailyStopLossConfig}
use pine_framework.Trading.Risk.Daily
use pine_framework.Trading.Risk.Wallet.{WalletBalanceGuard, WalletBalanceGuardConfig, MaxLoss}
use pine_framework.Trading.Risk.Wallet

-- The wallet's limit, with the time zone that may be left out.
pub record WalletOptions : Type 0 where
  pub max_daily_wallet_loss_usdc : MaxLoss
  pub timezone : Option String

pub record RiskManagerConfig : Type 0 where
  pub daily_loss : DailyStopLossConfig
  pub emergency_close_positions : Bool
  pub wallet_balance : Option WalletOptions

pub data RiskEvent : Type 0 where
  daily_loss_breached daily_loss_reset rolling_loss_breached emergency_stop safe_shutdown
        entry_blocked wallet_balance_breached :
      RiskEvent

pub data Action : Type 0 where
  cancel_pending_orders close_positions stop_strategy_execution reject_new_entries
        finish_current_processing persist_state terminate :
      Action

pub record RiskManager : Type 0 where
  pub config : RiskManagerConfig
  pub daily_stop_loss : DailyStopLoss
  pub rolling_guard : RollingLossGuard
  pub wallet_balance_guard : Option WalletBalanceGuard
  pub emergency_stop_triggered : Bool
  pub shutdown_in_progress : Bool
  pub was_wallet_balance_breached : Bool

-- A call's manager, its result and the events it emits in order.
pub record Outcome {ℓ} (A : Type ℓ) : Type ℓ where
  pub manager : RiskManager
  pub result : A
  pub events : List RiskEvent

abbrev pub when : Bool → RiskEvent → List RiskEvent
when b event = if b then event ∷ [] else []

-- The wallet guard's time zone is that of the daily loss if it is left out.
unfoldable pub wallet_guard_of :
    DailyStopLossConfig → Option WalletOptions → Option WalletBalanceGuard
wallet_guard_of daily none = none
wallet_guard_of daily (some options) =
    let zone : String = elim options.timezone [ none ↦ daily.timezone | some z ↦ z ] in
    some (
      Wallet.create (record {
        max_daily_wallet_loss_usdc = options.max_daily_wallet_loss_usdc;
        timezone = zone;
      }))

abbrev pub wallet_allows : Option WalletBalanceGuard → Bool
wallet_allows none = true
wallet_allows (some g) = Wallet.can_enter_position g

unfoldable pub is_wallet_balance_breached : RiskManager → Bool
is_wallet_balance_breached m = elim m.wallet_balance_guard [ none ↦ false | some g ↦ g.breached ]

unfoldable pub is_rolling_loss_breached : RiskManager → ℕ → RiskManager × Bool
is_rolling_loss_breached m now =
    let (g, breached) =
      Rolling.is_breached m.rolling_guard m.config.daily_loss.max_daily_loss now in
    (record m { rolling_guard = g }, breached)

unfoldable pub trigger_emergency_stop : RiskManager → Outcome (List Action)
trigger_emergency_stop m = record {
  manager = record m { emergency_stop_triggered = true };
  result = cancel_pending_orders ∷ close_positions ∷ stop_strategy_execution ∷ [];
  events = emergency_stop ∷ [];
}

unfoldable pub begin_safe_shutdown : RiskManager → Outcome (List Action)
begin_safe_shutdown m = record {
  manager = record m { shutdown_in_progress = true };
  result =
      reject_new_entries ∷ finish_current_processing ∷ close_positions ∷ persist_state ∷ terminate
      ∷ [];
  events = safe_shutdown ∷ [];
}

unfoldable pub reset_emergency_stop : RiskManager → RiskManager
reset_emergency_stop m = record m { emergency_stop_triggered = false }

unfoldable pub clear_rolling_guard : RiskManager → RiskManager
clear_rolling_guard m = record m { rolling_guard = Rolling.clear m.rolling_guard }

module _ (day_start : ℕ → String → ℕ) where
  unfoldable pub create : RiskManagerConfig → ℕ → RiskManager
  create config now = record {
    config = config;
    daily_stop_loss = Daily.create day_start config.daily_loss now;
    rolling_guard = record { trades = [] };
    wallet_balance_guard = wallet_guard_of config.daily_loss config.wallet_balance;
    emergency_stop_triggered = false;
    shutdown_in_progress = false;
    was_wallet_balance_breached = false;
  }

  -- The rolling guard is judged by the limit of the configuration that the manager was made with.
  unfoldable pub record_trade : RiskManager → ℤ → ℕ → Outcome Bool
  record_trade m pnl now =
      let added = (Rolling.add_trade m.rolling_guard pnl now).0 in
      let (rolling, rolling_breached) =
        Rolling.is_breached added m.config.daily_loss.max_daily_loss now in
      let (daily, daily_breached) = Daily.record_trade day_start m.daily_stop_loss pnl now in
      record {
        manager = record m { rolling_guard = rolling; daily_stop_loss = daily };
        result = rolling_breached || daily_breached;
        events =
            when rolling_breached rolling_loss_breached
            ++ when daily_breached daily_loss_breached
            ++ when (daily.realized_loss == 0 && not daily_breached) daily_loss_reset;
      }

  unfoldable pub can_enter_position : RiskManager → ℕ → Outcome Bool
  can_enter_position m now =
      let (rolling, rolling_allowed) =
        Rolling.can_enter_position m.rolling_guard m.config.daily_loss.max_daily_loss now in
      let (daily, daily_allowed) = Daily.can_enter_position day_start m.daily_stop_loss now in
      let allowed =
        rolling_allowed
        && (daily_allowed
            && (wallet_allows m.wallet_balance_guard && not m.emergency_stop_triggered)) in
      record {
        manager = record m { rolling_guard = rolling; daily_stop_loss = daily };
        result = allowed;
        events = when (not allowed) entry_blocked;
      }

  -- The event is emitted on the change from no breach to a breach only.
  unfoldable pub feed_wallet : RiskManager → WalletBalanceGuard × Bool → Outcome Bool
  feed_wallet m (g, breached) = record {
    manager = record m { wallet_balance_guard = some g; was_wallet_balance_breached = breached };
    result = breached;
    events = when (breached && not m.was_wallet_balance_breached) wallet_balance_breached;
  }

  unfoldable pub record_balance : RiskManager → ℕ → ℕ → Outcome Bool
  unfolding feed_wallet
  record_balance m balance now = elim m.wallet_balance_guard [
    | none ↦ record { manager = m; result = false; events = [] }
    | some g ↦ feed_wallet m (Wallet.update_balance day_start g balance now)
  ]

  unfoldable pub update_daily_loss_config : RiskManager → Option ℤ → Option String → ℕ → RiskManager
  update_daily_loss_config m max_loss timezone now = record m {
    daily_stop_loss = Daily.update_config day_start m.daily_stop_loss max_loss timezone now;
  }
