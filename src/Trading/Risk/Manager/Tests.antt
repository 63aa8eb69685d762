-- ===== src/Trading/Risk/Manager/Tests.antt =====
-- A manager with a wallet limit of 2 USDC.
use pine_framework.Prelude.{
  ℕ, ◌+◌, ◌*◌, ◌/◌, ◌≡◌, refl, List, [], ◌∷◌, none, some, true, false, String,
}
use pine_framework.Prelude.Int.{pos}
use pine_framework.Trading.Risk.Wallet.{
  WalletBalanceGuard, whole, feed, update_balance, open_day, see_balance, judge, normalize_max_loss,
}
use pine_framework.Trading.Risk.Wallet
use pine_framework.Trading.Risk.Manager.{
  RiskManager, RiskManagerConfig, entry_blocked, wallet_balance_breached, trigger_emergency_stop,
  can_enter_position, record_balance, feed_wallet, wallet_guard_of, create,
}
use pine_framework.Trading.Risk.Manager.Stop.{
  Call, trades, enters, balance, shuts_down, run, record_balances, rises,
}
use pine_framework.Trading.Risk.Manager.Stop

abbrev day_start : ℕ → String → ℕ
day_start now zone = (now / 1000 + 1) * 1000

abbrev config : RiskManagerConfig
config = record {
  daily_loss = record { max_daily_loss = pos 100; timezone = "UTC" };
  emergency_close_positions = true;
  wallet_balance = some (record { max_daily_wallet_loss_usdc = whole (pos 2); timezone = none });
}

abbrev manager : RiskManager
manager = create day_start config 5

-- Down by 2 USDC, still down, up again, and down.
abbrev balances : List (ℕ × ℕ)
balances = (9000000, 10) ∷ (7000000, 20) ∷ (6000000, 30) ∷ (8000000, 40) ∷ (7000000, 50) ∷ []

told_twice : record_balances day_start balances manager ≡ (
  false ∷ true ∷ true ∷ false ∷ true ∷ [],
  wallet_balance_breached ∷ wallet_balance_breached ∷ [],
)
unfolding record_balances record_balance feed_wallet create wallet_guard_of Wallet.create
    update_balance open_day see_balance judge normalize_max_loss
told_twice = refl

record_balances_example :
    (record_balances day_start balances manager).1
    ≡ rises false (record_balances day_start balances manager).0
unfolding create wallet_guard_of
record_balances_example =
    Stop.record_balances_lem day_start balances manager
      (Wallet.create (record { max_daily_wallet_loss_usdc = whole (pos 2); timezone = "UTC" })) refl

abbrev calls : List Call
calls = trades (pos 50) 20 ∷ enters 30 ∷ balance 9000000 40 ∷ shuts_down ∷ []

run_stopped_example :
    let o =
      can_enter_position day_start
        (run day_start calls (trigger_emergency_stop manager).manager)
        60 in
    (o.result ≡ false) × (o.events ≡ entry_blocked ∷ [])
run_stopped_example = Stop.run_stopped day_start manager calls 60 (refl, (refl, (refl, (refl, tt))))
