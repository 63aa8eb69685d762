-- ===== src/Trading/Risk/Wallet.antt =====
-- src/trading/risk/wallet-balance-guard.ts. Balances are micro-USDC and not negative; `day_start` is
-- `getTradingDayStart` (the host's calendar), and the time of a call is its argument.
use pine_framework.Prelude.{
  ℕ, ◌-◌, ◌*◌, ◌≤◌, ◌<◌, ◌≡◌, refl, sym, subst, ap, ◌∙◌, List, [], ◌∷◌, Option, none, some, Bool,
  false, ◌||◌, not, String, string_eq, ◌===◌, ltb, leb, ◌==◌, if◌then◌else◌, arith, All, All-imp,
}
use pine_framework.Prelude.Int.{ℤ, pos, negsuc}

abbrev pub micro_per_usdc : ℕ
micro_per_usdc = 1000000

-- A configured limit: a whole number of USDC, or a number that is not whole.
pub data MaxLoss : Type 0 where
  whole : ℤ → MaxLoss
  fractional : MaxLoss

pub record WalletBalanceGuardConfig : Type 0 where
  pub max_daily_wallet_loss_usdc : MaxLoss
  pub timezone : String

pub record WalletBalanceGuard : Type 0 where
  pub config : WalletBalanceGuardConfig
  pub effective_max_loss_usdc : ℕ
  pub reference_micro : ℕ
  pub current_micro : ℕ
  pub current_day_start : ℕ
  pub breached : Bool

unfoldable pub normalize_max_loss : MaxLoss → ℕ
normalize_max_loss (whole (pos n)) = n
normalize_max_loss (whole (negsuc n)) = 0
normalize_max_loss fractional = 0

unfoldable pub create : WalletBalanceGuardConfig → WalletBalanceGuard
create config = record {
  config = config;
  effective_max_loss_usdc = normalize_max_loss config.max_daily_wallet_loss_usdc;
  reference_micro = 0;
  current_micro = 0;
  current_day_start = 0;
  breached = false;
}

-- A subtraction of ℕ stops at 0, as the source's conditional does.
abbrev pub loss_micro : WalletBalanceGuard → ℕ
loss_micro g = g.reference_micro - g.current_micro

abbrev pub can_enter_position : WalletBalanceGuard → Bool
can_enter_position g = not g.breached

unfoldable pub see_balance : WalletBalanceGuard → ℕ → WalletBalanceGuard
see_balance g balance = record g {
  current_micro = balance;
  reference_micro = if ltb g.reference_micro balance then balance else g.reference_micro;
}

unfoldable pub judge : WalletBalanceGuard → WalletBalanceGuard
judge g = record g {
  breached =
      if ltb 0 g.effective_max_loss_usdc
      then leb (g.effective_max_loss_usdc * micro_per_usdc) (loss_micro g)
      else false;
}

module _ (day_start : ℕ → String → ℕ) where
  unfoldable pub reset_day : WalletBalanceGuard → ℕ → WalletBalanceGuard
  reset_day g now = record g {
    current_day_start = day_start now g.config.timezone;
    reference_micro = 0;
    current_micro = 0;
    breached = false;
  }

  -- The partial config is two options.
  unfoldable pub update_config :
      WalletBalanceGuard → Option MaxLoss → Option String → ℕ → WalletBalanceGuard
  update_config g max_loss timezone now =
      let max' : MaxLoss = elim max_loss [
        | none ↦ g.config.max_daily_wallet_loss_usdc
        | some m ↦ m
      ] in
      let zone' : String = elim timezone [ none ↦ g.config.timezone | some z ↦ z ] in
      let g' : WalletBalanceGuard = record g {
        config = record { max_daily_wallet_loss_usdc = max'; timezone = zone' };
        effective_max_loss_usdc = normalize_max_loss max';
      } in
      let g'' = if zone' === g.config.timezone then g' else reset_day g' now in
      if g''.effective_max_loss_usdc == 0 then record g'' { breached = false } else g''

  -- The first call of a day takes the balance as its reference.
  unfoldable pub open_day : WalletBalanceGuard → ℕ → ℕ → WalletBalanceGuard
  open_day g balance now =
      let today = day_start now g.config.timezone in
      if g.current_day_start == 0 || ltb g.current_day_start today
      then record g { current_day_start = today; reference_micro = balance; breached = false }
      else g

  unfoldable pub update_balance : WalletBalanceGuard → ℕ → ℕ → WalletBalanceGuard × Bool
  unfolding open_day see_balance judge
  update_balance g balance now =
      let g' = judge (see_balance (open_day g balance now) balance) in (g', g'.breached)

  -- Balances fed one after the other, each with its time.
  unfoldable pub feed : List (ℕ × ℕ) → WalletBalanceGuard → WalletBalanceGuard
  feed [] g = g
  feed ((balance, now) ∷ rest) g = feed rest (update_balance g balance now).0

abbrev pub larger : ℕ → ℕ → ℕ
larger a b = if ltb a b then b else a

-- The highest balance of a list, and the last one.
abbrev pub highest : ℕ → List (ℕ × ℕ) → ℕ
highest h [] = h
highest h ((balance, now) ∷ rest) = highest (larger h balance) rest

abbrev pub latest : ℕ → List (ℕ × ℕ) → ℕ
latest b [] = b
latest b ((balance, now) ∷ rest) = latest balance rest

larger_self : (a : ℕ) → larger a a ≡ a
larger_self a = ground arith

-- The breach that a loss is, under a limit.
abbrev pub exceeds : ℕ → ℕ → Bool
exceeds limit loss = if ltb 0 limit then leb (limit * micro_per_usdc) loss else false

module _ (day_start : ℕ → String → ℕ) (day : ℕ) where
  record IsDay (g : WalletBalanceGuard) (reference current : ℕ) : Type 0 where
    at_day : g.current_day_start ≡ day
    at_reference : g.reference_micro ≡ reference
    at_current : g.current_micro ≡ current
    judged : g.breached ≡ exceeds g.effective_max_loss_usdc (reference - current)

  open_day-same :
      (g : WalletBalanceGuard) (balance now : ℕ)
      → 0 < day
      → g.current_day_start ≡ day
      → day_start now g.config.timezone ≤ day
      → open_day day_start g balance now ≡ g
  unfolding open_day
  open_day-same g balance now hd e h = ground arith

  judge-IsDay :
      (g : WalletBalanceGuard) (reference balance : ℕ)
      → g.current_day_start ≡ day
      → g.reference_micro ≡ reference
      → IsDay (judge (see_balance g balance)) (larger reference balance) balance
  unfolding judge see_balance
  judge-IsDay g reference balance e k =
      let high : (see_balance g balance).reference_micro ≡ larger reference balance =
        ap (λ r. larger r balance) k in
      record {
        at_day = e;
        at_reference = high;
        at_current = refl;
        judged = ap (λ r. exceeds g.effective_max_loss_usdc (r - balance)) high;
      }

  feed-IsDay :
      (rest : List (ℕ × ℕ)) (g : WalletBalanceGuard) (reference current : ℕ)
      → 0 < day
      → IsDay g reference current
      → All (λ p. day_start p.1 g.config.timezone ≤ day) rest
      → IsDay (feed day_start rest g) (highest reference rest) (latest current rest)
        × ((feed day_start rest g).effective_max_loss_usdc ≡ g.effective_max_loss_usdc)
  unfolding feed update_balance judge see_balance
  feed-IsDay [] g reference current hd valid h = (valid, refl)
  feed-IsDay ((balance, now) ∷ rest) g reference current hd valid (h, hs) =
      let same = open_day-same g balance now hd valid.at_day h in
      let (k, e) =
        feed-IsDay rest (judge (see_balance g balance)) (larger reference balance) balance hd
          (judge-IsDay g reference balance valid.at_day valid.at_reference) hs in
      subst
        (λ g'.
          IsDay (feed day_start rest (judge (see_balance g' balance)))
            (highest (larger reference balance) rest) (latest balance rest)
          × ((feed day_start rest (judge (see_balance g' balance))).effective_max_loss_usdc
              ≡ g.effective_max_loss_usdc))
        (sym same) (k, e)

  -- Within one trading day of a new guard, whose start is not 0, the reference is the highest balance
  -- seen, the loss is what the last balance lacks of it, and the guard is breached exactly if a
  -- positive whole limit is reached.
  pub feed_day :
      (config : WalletBalanceGuardConfig) (balance now : ℕ) (rest : List (ℕ × ℕ))
      → 0 < day
      → All (λ p. day_start p.1 config.timezone ≡ day) ((balance, now) ∷ rest)
      → let g = feed day_start ((balance, now) ∷ rest) (create config) in
        (g.reference_micro ≡ highest balance rest)
        × (loss_micro g ≡ highest balance rest - latest balance rest)
        × (g.breached
            ≡ exceeds
                (normalize_max_loss config.max_daily_wallet_loss_usdc)
                (highest balance rest - latest balance rest))
  unfolding feed update_balance judge see_balance open_day create
  feed_day config balance now rest hd (h, hs) =
      let opened : WalletBalanceGuard = record (create config) {
        current_day_start = day_start now config.timezone;
        reference_micro = balance;
      } in
      let valid : IsDay (judge (see_balance opened balance)) balance balance =
        subst (λ r. IsDay (judge (see_balance opened balance)) r balance) (larger_self balance)
          (judge-IsDay opened balance balance h refl) in
      let (k, e) = feed-IsDay rest (judge (see_balance opened balance)) balance balance hd valid (
        All-imp _ (λ p. day_start p.1 config.timezone ≤ day) rest (λ p h'. omega (arith, h')) hs) in
      (
        k.at_reference,
        (λ i. k.at_reference i - k.at_current i),
        k.judged ∙ ap (λ l. exceeds l (highest balance rest - latest balance rest)) e,
      )
