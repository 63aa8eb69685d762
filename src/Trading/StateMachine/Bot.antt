-- ===== src/Trading/StateMachine/Bot.antt =====
-- `BotState`, `BOT_STATE_TRANSITIONS` and `createBotStateMachine`.
use pine_framework.Prelude.{
  ℕ, ◌≡◌, ◌↔◌, ◌≤◌, length, refl, List, [], ◌∷◌, Option, some, Bool, true, false, String, Eq, arith,
}
use pine_framework.Trading.StateMachine.{StateMachine, StateTransition, transition, transition_sync}

pub data BotState : Type 0 where
  idle starting running stopping stopped error : BotState

unfoldable pub state_eq : BotState → BotState → Bool
state_eq idle idle = true
state_eq starting starting = true
state_eq running running = true
state_eq stopping stopping = true
state_eq stopped stopped = true
state_eq error error = true
state_eq _ _ = false

pub state_eq_iff : (a b : BotState) → (state_eq a b ≡ true) ↔ (a ≡ b)
unfolding state_eq
state_eq_iff a b = ground arith

instance abbrev pub bot_eq : Eq BotState
unfolding state_eq
bot_eq = record { beq = state_eq; beq_iff = state_eq_iff }

unfoldable pub bot_transitions : BotState → Option (List BotState)
bot_transitions idle = some (starting ∷ error ∷ [])
bot_transitions starting = some (running ∷ error ∷ [])
bot_transitions running = some (stopping ∷ error ∷ [])
bot_transitions stopping = some (stopped ∷ error ∷ [])
bot_transitions stopped = some (idle ∷ starting ∷ error ∷ [])
bot_transitions error = some (stopped ∷ [])

unfoldable pub create_bot : Bool → StateMachine BotState
create_bot observed = record {
  state = idle;
  transitions = bot_transitions;
  guards = [];
  observed = observed;
  history = [];
  max_history = 1000;
}

pub data Call : Type 0 where
  transitions : BotState → String → ℕ → Call
  transitions_sync : BotState → String → ℕ → Call

unfoldable pub call_bot : StateMachine BotState → Call → StateMachine BotState
call_bot m (transitions to reason time) = (transition m to reason time).machine
call_bot m (transitions_sync to reason time) = (transition_sync m to reason time).machine

unfoldable pub run_bot : StateMachine BotState → List Call → StateMachine BotState
run_bot m [] = m
run_bot m (c ∷ cs) = run_bot (call_bot m c) cs

-- What the map says of the bot's two critical states.
abbrev pub IsCautious : StateTransition BotState → Type 0
IsCautious t = (t.from ≡ error → t.to ≡ stopped) × (t.to ≡ running → t.from ≡ starting)

-- A way back to `idle`.
abbrev pub way_back : BotState → List BotState
way_back idle = []
way_back starting = error ∷ stopped ∷ idle ∷ []
way_back running = stopping ∷ stopped ∷ idle ∷ []
way_back stopping = stopped ∷ idle ∷ []
way_back stopped = idle ∷ []
way_back error = stopped ∷ idle ∷ []

unfoldable pub drive : StateMachine BotState → List BotState → StateMachine BotState
drive m [] = m
drive m (to ∷ rest) = drive (transition m to "" 0).machine rest

-- From every state the bot can be brought back to `idle` by at most three transitions.
pub drive-way_back :
    (s : BotState) (observed : Bool) (history : List (StateTransition BotState))
    → ((drive (record (create_bot observed) { state = s; history = history }) (way_back s)).state
        ≡ idle)
      × (length (way_back s) ≤ 3)
unfolding drive create_bot transition bot_transitions state_eq
drive-way_back idle observed history = (refl, omega arith)
drive-way_back starting observed history = (refl, omega arith)
drive-way_back running observed history = (refl, omega arith)
drive-way_back stopping observed history = (refl, omega arith)
drive-way_back stopped observed history = (refl, omega arith)
drive-way_back error observed history = (refl, omega arith)
