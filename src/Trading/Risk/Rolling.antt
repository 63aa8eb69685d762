-- ===== src/Trading/Risk/Rolling.antt =====
-- src/trading/risk/rolling-loss-guard.ts. Money is a whole number of a small unit; the time of a call
-- is its argument, in milliseconds.
use pine_framework.Prelude.{
  ℕ, zero, suc, ◌+◌, ◌*◌, ◌≤◌, ◌↔◌, ◌<◌, ◌≡◌, refl, ap, ◌∙◌, List, [], ◌∷◌, ◌++◌, Bool, true, false,
  not, ltb, leb, if◌then◌else◌, length, arith, All,
}
use pine_framework.Prelude.Int.{ℤ, pos, negsuc, ◌+ℤ◌}

pub record TradeEntry : Type 0 where
  pub timestamp : ℕ
  pub pnl : ℤ

pub record RollingLossGuard : Type 0 where
  pub trades : List TradeEntry

-- 24 * 60 * 60 * 1000.
abbrev pub window_ms : ℕ
window_ms = 86400000

-- `t.timestamp > now - windowMs`; the cutoff may be negative.
abbrev pub is_recent : ℕ → TradeEntry → Bool
is_recent now t = ltb now (t.timestamp + window_ms)

unfoldable pub recent : ℕ → List TradeEntry → List TradeEntry
recent now [] = []
recent now (t ∷ ts) = let rest = recent now ts in if is_recent now t then t ∷ rest else rest

unfoldable pub prune : RollingLossGuard → ℕ → RollingLossGuard
prune g now = record { trades = recent now g.trades }

-- It always answers false.
unfoldable pub add_trade : RollingLossGuard → ℤ → ℕ → RollingLossGuard × Bool
add_trade g pnl now =
    (prune (record { trades = g.trades ++ record { timestamp = now; pnl = pnl } ∷ [] }) now, false)

unfoldable pub loss_of : ℤ → ℕ
loss_of (pos n) = 0
loss_of (negsuc n) = suc n

unfoldable pub loss_sum : List TradeEntry → ℕ
loss_sum [] = 0
loss_sum (t ∷ ts) = loss_of t.pnl + loss_sum ts

abbrev pub total_loss : RollingLossGuard → ℕ
total_loss g = loss_sum g.trades

unfoldable pub pnl_sum : List TradeEntry → ℤ
pnl_sum [] = pos 0
pnl_sum (t ∷ ts) = t.pnl +ℤ pnl_sum ts

abbrev pub total_pnl : RollingLossGuard → ℤ
total_pnl g = pnl_sum g.trades

abbrev pub trade_count : RollingLossGuard → ℕ
trade_count g = length g.trades

-- A limit of zero or less is no limit, and then nothing is pruned.
unfoldable pub is_breached : RollingLossGuard → ℤ → ℕ → RollingLossGuard × Bool
is_breached g (pos zero) now = (g, false)
is_breached g (pos (suc m)) now =
    let pruned = prune g now in (pruned, leb (suc m) (total_loss pruned))
is_breached g (negsuc m) now = (g, false)

unfoldable pub can_enter_position : RollingLossGuard → ℤ → ℕ → RollingLossGuard × Bool
can_enter_position g (pos zero) now = (g, true)
can_enter_position g (pos (suc m)) now =
    let (pruned, breached) = is_breached g (pos (suc m)) now in (pruned, not breached)
can_enter_position g (negsuc m) now = (g, true)

unfoldable pub clear : RollingLossGuard → RollingLossGuard
clear g = record { trades = [] }

-- A call: a trade with its time, or one of the two questions with its limit and its time.
pub data Call : Type 0 where
  traded : ℤ → ℕ → Call
  asked : ℤ → ℕ → Call
  asked_entry : ℤ → ℕ → Call

unfoldable pub called : Call → RollingLossGuard → RollingLossGuard
unfolding add_trade is_breached can_enter_position
called (traded pnl time) g = (add_trade g pnl time).0
called (asked limit time) g = (is_breached g limit time).0
called (asked_entry limit time) g = (can_enter_position g limit time).0

unfoldable pub run_calls : List Call → RollingLossGuard → RollingLossGuard
run_calls [] g = g
run_calls (c ∷ cs) g = run_calls cs (called c g)

abbrev pub time_of : Call → ℕ
time_of (traded pnl time) = time
time_of (asked limit time) = time
time_of (asked_entry limit time) = time

-- What the traded losses of less than 24 hours before `now` add up to; a profit counts for nothing.
abbrev pub lost : ℤ → ℕ
lost (pos n) = 0
lost (negsuc n) = n + 1

abbrev pub lost_within_day : ℕ → List Call → ℕ
lost_within_day now [] = 0
lost_within_day now (traded pnl time ∷ rest) =
    (if ltb now (time + 24 * 60 * 60 * 1000) then lost pnl else 0) + lost_within_day now rest
lost_within_day now (asked limit time ∷ rest) = lost_within_day now rest
lost_within_day now (asked_entry limit time ∷ rest) = lost_within_day now rest

recent-append :
    (now : ℕ) (xs ys : List TradeEntry) → recent now (xs ++ ys) ≡ recent now xs ++ recent now ys
unfolding recent
recent-append now [] ys = refl
recent-append now (t ∷ xs) ys = ground (arith, recent-append now xs ys)

-- An earlier pruning removes nothing that a later one keeps.
recent-recent :
    (time now : ℕ) (xs : List TradeEntry) → time ≤ now → recent now (recent time xs) ≡ recent now xs
unfolding recent
recent-recent time now [] h = refl
recent-recent time now (t ∷ xs) h = ground (arith, recent-recent time now xs h)

loss_sum-append : (xs ys : List TradeEntry) → loss_sum (xs ++ ys) ≡ loss_sum xs + loss_sum ys
unfolding loss_sum
loss_sum-append [] ys = omega arith
loss_sum-append (x ∷ xs) ys = omega (arith, loss_sum-append xs ys)

-- The losses that a guard holds at a time.
abbrev held : ℕ → RollingLossGuard → ℕ
held now g = loss_sum (recent now g.trades)

held-one :
    (now time : ℕ) (pnl : ℤ)
    → loss_sum (recent now (record { timestamp = time; pnl = pnl } ∷ []))
      ≡ (if ltb now (time + 24 * 60 * 60 * 1000) then lost pnl else 0)
unfolding recent loss_sum loss_of
held-one now time pnl = ground arith

held-traded :
    (now time : ℕ) (pnl : ℤ) (g : RollingLossGuard)
    → time ≤ now
    → held now (called (traded pnl time) g)
      ≡ held now g + (if ltb now (time + 24 * 60 * 60 * 1000) then lost pnl else 0)
unfolding called add_trade prune
held-traded now time pnl g h =
    let t : TradeEntry = record { timestamp = time; pnl = pnl } in
    ap loss_sum
      (recent-recent time now (g.trades ++ t ∷ []) h ∙ recent-append now g.trades (t ∷ []))
    ∙ loss_sum-append (recent now g.trades) (recent now (t ∷ []))
    ∙ ap (λ n. held now g + n) (held-one now time pnl)

held-asked :
    (now time : ℕ) (limit : ℤ) (g : RollingLossGuard)
    → time ≤ now
    → held now (is_breached g limit time).0 ≡ held now g
unfolding is_breached prune
held-asked now time (pos zero) g h = refl
held-asked now time (pos (suc m)) g h = ap loss_sum (recent-recent time now g.trades h)
held-asked now time (negsuc m) g h = refl

held-asked_entry :
    (now time : ℕ) (limit : ℤ) (g : RollingLossGuard)
    → time ≤ now
    → held now (can_enter_position g limit time).0 ≡ held now g
unfolding can_enter_position
held-asked_entry now time (pos zero) g h = refl
held-asked_entry now time (pos (suc m)) g h = held-asked now time (pos (suc m)) g h
held-asked_entry now time (negsuc m) g h = refl

held-run_calls :
    (now : ℕ) (cs : List Call) (g : RollingLossGuard)
    → All (λ c. time_of c ≤ now) cs
    → held now (run_calls cs g) ≡ held now g + lost_within_day now cs
unfolding run_calls called
held-run_calls now [] g h = omega arith
held-run_calls now (traded pnl time ∷ cs) g (h, hs) =
    omega
      (arith, held-run_calls now cs (called (traded pnl time) g) hs, held-traded now time pnl g h)
held-run_calls now (asked limit time ∷ cs) g (h, hs) =
    held-run_calls now cs _ hs
    ∙ ap (λ n. n + lost_within_day now cs) (held-asked now time limit g h)
held-run_calls now (asked_entry limit time ∷ cs) g (h, hs) =
    held-run_calls now cs _ hs
    ∙ ap (λ n. n + lost_within_day now cs) (held-asked_entry now time limit g h)

-- Whatever trades were recorded and whatever questions were asked and pruned the guard, in any order
-- and at times up to now, a new guard is then breached at a positive limit exactly if the limit is at
-- most the sum of the losses traded less than 24 hours before now.
pub is_breached-run_calls :
    (cs : List Call) (m now : ℕ)
    → 0 < m
    → All (λ c. time_of c ≤ now) cs
    → ((is_breached (run_calls cs (record { trades = [] })) (pos m) now).1 ≡ true)
      ↔ (m ≤ lost_within_day now cs)
unfolding is_breached prune recent loss_sum
is_breached-run_calls cs zero now hm h = absurd (omega arith)
is_breached-run_calls cs (suc m) now hm h =
    let e = held-run_calls now cs (record { trades = [] }) h in
    (λ b. ground (arith, e, b), λ le. ground (arith, e, le))
