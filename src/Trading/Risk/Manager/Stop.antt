-- ===== src/Trading/Risk/Manager/Stop.antt =====
-- What stays stopped, and when the wallet's breach is told.
use pine_framework.Prelude.{
  ℕ, ◌≡◌, refl, ap, ◌∙◌, List, [], ◌∷◌, ◌++◌, Option, none, some, Bool, true, false, ◌&&◌, not,
  String, arith, All,
}
use pine_framework.Prelude.Int.{ℤ}
use pine_framework.Trading.Risk.Wallet.{WalletBalanceGuard}
use pine_framework.Trading.Risk.Wallet
use pine_framework.Trading.Risk.Manager.{
  RiskManager, RiskEvent, entry_blocked, wallet_balance_breached, trigger_emergency_stop,
  begin_safe_shutdown, reset_emergency_stop, clear_rolling_guard, record_trade, can_enter_position,
  record_balance, feed_wallet, update_daily_loss_config, when,
}

pub data Call : Type 0 where
  trades : ℤ → ℕ → Call
  enters : ℕ → Call
  balance : ℕ → ℕ → Call
  stops shuts_down clears : Call
  configures : Option ℤ → Option String → ℕ → Call
  acknowledges : Call

abbrev pub keeps_stop : Call → Bool
keeps_stop acknowledges = false
keeps_stop call = true

module _ (day_start : ℕ → String → ℕ) where
  unfoldable pub step : RiskManager → Call → RiskManager
  step m (trades pnl now) = (record_trade day_start m pnl now).manager
  step m (enters now) = (can_enter_position day_start m now).manager
  step m (balance amount now) = (record_balance day_start m amount now).manager
  step m stops = (trigger_emergency_stop m).manager
  step m shuts_down = (begin_safe_shutdown m).manager
  step m clears = clear_rolling_guard m
  step m (configures max_loss timezone now) =
      update_daily_loss_config day_start m max_loss timezone now
  step m acknowledges = reset_emergency_stop m

  unfoldable pub run : List Call → RiskManager → RiskManager
  run [] m = m
  run (call ∷ calls) m = run calls (step m call)

  balance_keeps :
      (m : RiskManager) (amount now : ℕ)
      → (record_balance day_start m amount now).manager.emergency_stop_triggered
        ≡ m.emergency_stop_triggered
  unfolding record_balance feed_wallet
  balance_keeps m amount now = ground arith

  step_keeps :
      (m : RiskManager) (call : Call)
      → keeps_stop call ≡ true
      → m.emergency_stop_triggered ≡ true
      → (step m call).emergency_stop_triggered ≡ true
  unfolding step record_trade can_enter_position trigger_emergency_stop begin_safe_shutdown
      clear_rolling_guard update_daily_loss_config
  step_keeps m (trades pnl now) k h = h
  step_keeps m (enters now) k h = h
  step_keeps m (balance amount now) k h = balance_keeps m amount now ∙ h
  step_keeps m stops k h = refl
  step_keeps m shuts_down k h = h
  step_keeps m clears k h = h
  step_keeps m (configures max_loss timezone now) k h = h
  step_keeps m acknowledges k h = ground (arith, k)

  blocked :
      (m : RiskManager) (now : ℕ)
      → m.emergency_stop_triggered ≡ true
      → ((can_enter_position day_start m now).result ≡ false)
        × ((can_enter_position day_start m now).events ≡ entry_blocked ∷ [])
  unfolding can_enter_position
  blocked m now h = ground (arith, h)

  run_keeps :
      (calls : List Call) (m : RiskManager)
      → All (λ call. keeps_stop call ≡ true) calls
      → m.emergency_stop_triggered ≡ true
      → (run calls m).emergency_stop_triggered ≡ true
  unfolding run
  run_keeps [] m k h = h
  run_keeps (call ∷ calls) m (k, ks) h = run_keeps calls (step m call) ks (step_keeps m call k h)

  -- After an emergency stop every question for an entry is refused, and the refusal is told, whatever
  -- calls come between, as long as the stop is not reset.
  pub run_stopped :
      (m : RiskManager) (calls : List Call) (now : ℕ)
      → All (λ call. keeps_stop call ≡ true) calls
      → let o = can_enter_position day_start (run calls (trigger_emergency_stop m).manager) now in
        (o.result ≡ false) × (o.events ≡ entry_blocked ∷ [])
  unfolding trigger_emergency_stop
  run_stopped m calls now k =
      blocked (run calls (trigger_emergency_stop m).manager) now
        (run_keeps calls (trigger_emergency_stop m).manager k refl)

  -- The results and the events of balances recorded one after the other.
  unfoldable pub record_balances : List (ℕ × ℕ) → RiskManager → List Bool × List RiskEvent
  record_balances [] m = ([], [])
  record_balances ((amount, now) ∷ rest) m =
      let o = record_balance day_start m amount now in
      let (results, events) = record_balances rest o.manager in
      (o.result ∷ results, o.events ++ events)

-- One event for each change from false to true, after `before`.
abbrev pub rises : Bool → List Bool → List RiskEvent
rises before [] = []
rises before (b ∷ bs) = when (b && not before) wallet_balance_breached ++ rises b bs

module _ (day_start : ℕ → String → ℕ) where
  fed :
      (m : RiskManager) (g : WalletBalanceGuard) (amount now : ℕ)
      → m.wallet_balance_guard ≡ some g
      → record_balance day_start m amount now
        ≡ feed_wallet day_start m (Wallet.update_balance day_start g amount now)
  unfolding record_balance
  fed m g amount now h =
      ap
        (λ x. elim x [
          | none ↦ record { manager = m; result = false; events = [] }
          | some g' ↦ feed_wallet day_start m (Wallet.update_balance day_start g' amount now)
        ])
        h

  fed_lem :
      (m : RiskManager) (g : WalletBalanceGuard) (amount now : ℕ)
      → m.wallet_balance_guard ≡ some g
      → let o = record_balance day_start m amount now in
        (o.manager.wallet_balance_guard ≡ some (Wallet.update_balance day_start g amount now).0)
        × (o.manager.was_wallet_balance_breached ≡ o.result)
        × (o.events ≡ when (o.result && not m.was_wallet_balance_breached) wallet_balance_breached)
  unfolding feed_wallet
  fed_lem m g amount now h = rw (fed m g amount now h) (refl, refl, refl)

  -- If the manager has a wallet guard, then along any balances the wallet's breach is told exactly once
  -- for each change of the result from no breach to a breach.
  pub record_balances_lem :
      (balances : List (ℕ × ℕ)) (m : RiskManager) (g : WalletBalanceGuard)
      → m.wallet_balance_guard ≡ some g
      → (record_balances day_start balances m).1
        ≡ rises m.was_wallet_balance_breached (record_balances day_start balances m).0
  unfolding record_balances
  record_balances_lem [] m g h = refl
  record_balances_lem ((amount, now) ∷ rest) m g h =
      let o = record_balance day_start m amount now in
      let (guarded, was, told) = fed_lem m g amount now h in
      let later =
        record_balances_lem rest o.manager (Wallet.update_balance day_start g amount now).0 guarded
        ∙ ap (λ b. rises b (record_balances day_start rest o.manager).0) was in
      λ i. told i ++ later i
