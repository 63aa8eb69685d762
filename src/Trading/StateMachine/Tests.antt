-- ===== src/Trading/StateMachine/Tests.antt =====
-- Runs of the state machine at concrete inputs.
use pine_framework.Prelude.{
  ℕ, ◌≡◌, ◌↔◌, ◌≤◌, refl, [], ◌∷◌, some, true, false, nat_eq, arith, length,
}
use pine_framework.Trading.StateMachine.{
  StateMachine, promise, moved, vetoed, invalid_transition, transition, transition_sync, reset,
  guards_allow,
}
use pine_framework.Trading.StateMachine.History
use pine_framework.Trading.StateMachine.History.{Linked, IsSound}
use pine_framework.Trading.StateMachine.Moves
use pine_framework.Trading.StateMachine.Moves.{IsEdge, AllAgree}
use pine_framework.Trading.StateMachine.Bot.{
  BotState, idle, starting, running, bot_eq, state_eq, bot_transitions, create_bot, transitions,
}
use pine_framework.Trading.StateMachine.Overlap

abbrev bot : StateMachine BotState
bot = create_bot true

rejected : (transition bot running "go" 1).answer ≡ invalid_transition
unfolding create_bot transition bot_transitions state_eq
rejected = refl

-- `reset` goes where no transition leads.
reset_anywhere : (reset bot running "forced" 1).state ≡ running
unfolding create_bot reset
reset_anywhere = refl

transition_moves_example :
    let o = transition bot starting "go" 1 in
    ((o.answer ≡ moved) ↔ (IsEdge bot starting × AllAgree bot starting))
    × ((o.answer ≡ invalid_transition) ↔ (¬ IsEdge bot starting))
    × ((o.answer ≡ vetoed) ↔ (IsEdge bot starting × (¬ AllAgree bot starting)))
    × (o.machine.state ≡ starting)
    × (o.told ≡ record { from = idle; to = starting; reason = "go" } ∷ [])
    × (length o.machine.history ≤ 1000)
unfolding create_bot transition bot_transitions state_eq guards_allow
transition_moves_example = Moves.transition_moves bot starting "go" 1

transition_sync-transition_example :
    let sync = transition_sync bot starting "go" 1 in
    let plain = transition bot starting "go" 1 in
    (sync.answer ≡ plain.answer)
    × (sync.told ≡ plain.told)
    × (sync.machine.state ≡ plain.machine.state)
unfolding create_bot
transition_sync-transition_example = History.transition_sync-transition bot starting "go" 1 tt

-- A machine of three states, 0 → 1 and 0 → 2, with a guard that waits.
abbrev forked : StateMachine ℕ
forked = record {
  state = 0;
  transitions = λ s. some (1 ∷ 2 ∷ []);
  guards = (λ from to. promise true) ∷ [];
  observed = false;
  history = [];
  max_history = 10;
}

-- While the guard of a move to 1 is awaited, other calls go from 0 to 2 and back.
abbrev fully_forked : StateMachine ℕ
fully_forked = record forked { transitions = λ s. some (0 ∷ 1 ∷ 2 ∷ []) }

abbrev returned : StateMachine ℕ
returned = record fully_forked {
  history =
      record { from = 0; to = 2; reason = "b"; timestamp = 3 }
      ∷ record { from = 2; to = 0; reason = "c"; timestamp = 4 }
      ∷ [];
}

finish_transition-IsSound_example :
    IsSound
      (Overlap.finish_transition returned
        (record { from = 0; to = 1; reason = "a" })
        true
        5).machine
unfolding Overlap.start_transition
finish_transition-IsSound_example =
    Overlap.finish_transition-IsSound fully_forked returned 1 "a" 5
      (record { from = 0; to = 1; reason = "a" }) true refl refl refl
      (record { linked = (refl, refl); allowed = (refl, (refl, tt)) })

overlap_unlinked_example :
    let first =
      Overlap.finish_transition forked (record { from = 0; to = 1; reason = "a" }) true 5 in
    let second =
      Overlap.finish_transition first.machine (record { from = 0; to = 2; reason = "a" }) true 5 in
    (first.answer ≡ moved)
    × (second.answer ≡ moved)
    × (second.machine.state ≡ 2)
    × (¬ Linked second.machine.history second.machine.state)
unfolding Overlap.start_transition
overlap_unlinked_example =
    Overlap.overlap_unlinked forked 1 2 "a" 5 (record { from = 0; to = 1; reason = "a" })
      (record { from = 0; to = 2; reason = "a" }) refl refl (λ e. cc) (omega arith)
