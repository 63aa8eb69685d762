-- ===== src/Trading/Risk/Tests.antt =====
-- The guards at concrete trades and balances.
use pine_framework.Prelude.{
  ℕ, ◌+◌, ◌*◌, ◌/◌, ◌≡◌, ◌≤◌, ◌↔◌, refl, List, [], ◌∷◌, true, false, String, arith,
}
use pine_framework.Prelude.Int.{ℤ, pos, negsuc}
use pine_framework.Trading.Risk.Rolling.{
  Call, traded, asked, asked_entry, called, run_calls, add_trade, prune, recent, is_breached,
  loss_sum, loss_of, lost_within_day, can_enter_position,
}
use pine_framework.Trading.Risk.Rolling
use pine_framework.Trading.Risk.Daily.{
  DailyStopLoss, DailyStopLossConfig, record_trades, record_trade, losses, IsHit,
}
use pine_framework.Trading.Risk.Daily
use pine_framework.Trading.Risk.Wallet.{
  WalletBalanceGuard, WalletBalanceGuardConfig, whole, feed, loss_micro, normalize_max_loss,
  exceeds,
}
use pine_framework.Trading.Risk.Wallet

abbrev calls : List Call
calls =
    traded (negsuc 49) 1000
    ∷ asked (pos 40) 2000
    ∷ traded (pos 30) 90000000
    ∷ asked_entry (pos 40) 90000500
    ∷ traded (negsuc 19) 90001000
    ∷ []

-- The first loss is more than 24 hours old.
old_loss : (is_breached (run_calls calls (record { trades = [] })) (pos 21) 90002000).1 ≡ false
unfolding run_calls called is_breached can_enter_position add_trade prune recent loss_sum loss_of
old_loss = refl

is_breached-run_calls_example :
    ((is_breached (run_calls calls (record { trades = [] })) (pos 20) 90002000).1 ≡ true)
    ↔ (20 ≤ lost_within_day 90002000 calls)
is_breached-run_calls_example =
    Rolling.is_breached-run_calls calls 20 90002000 (omega arith)
      (omega arith, (omega arith, (omega arith, (omega arith, (omega arith, tt)))))

-- Days of 1000 time units, the first of them the day 1000.
abbrev day_start : ℕ → String → ℕ
day_start now zone = (now / 1000 + 1) * 1000

abbrev daily_config : DailyStopLossConfig
daily_config = record { max_daily_loss = pos 50; timezone = "UTC" }

abbrev today : List (ℤ × ℕ)
today = (negsuc 29, 10) ∷ (pos 100, 20) ∷ (negsuc 19, 30) ∷ []

can_enter_position-day_example :
    ((Daily.can_enter_position day_start
        (record_trades day_start today (Daily.create day_start daily_config 5))
        40).1
      ≡ false)
    ↔ IsHit (pos 50) (losses today)
can_enter_position-day_example =
    Daily.can_enter_position-day day_start daily_config 5 40 today
      (omega arith, (omega arith, (omega arith, tt))) (omega arith)

abbrev stopped : DailyStopLoss
stopped = record {
  config = daily_config;
  realized_loss = 60;
  current_day_start = 1000;
  breached = true;
}

abbrev wallet_config : WalletBalanceGuardConfig
wallet_config = record { max_daily_wallet_loss_usdc = whole (pos 2); timezone = "UTC" }

abbrev balances : List (ℕ × ℕ)
balances = (10000000, 20) ∷ (8000000, 30) ∷ []

-- The gain to 10 USDC is banked, so the fall to 8 is a breach although the day began with 7.
feed_day_example :
    let g = feed day_start ((7000000, 10) ∷ balances) (Wallet.create wallet_config) in
    (g.reference_micro ≡ 10000000)
    × (loss_micro g ≡ 2000000)
    × (g.breached ≡ exceeds (normalize_max_loss (whole (pos 2))) 2000000)
feed_day_example =
    Wallet.feed_day day_start 1000 wallet_config 7000000 10 balances (omega arith)
      (refl, (refl, (refl, tt)))
