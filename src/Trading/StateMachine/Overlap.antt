-- ===== src/Trading/StateMachine/Overlap.antt =====
-- Transitions whose guards wait. `from` is read, and the map consulted, when `transition` is called;
-- while its guards are awaited another call may run to its end.
use pine_framework.Prelude.{
  ℕ, ◌+◌, ◌≤◌, inl, inr, Bool-cases, length-append, ◌≡◌, ◌≢◌, refl, List, [], ◌∷◌, ◌++◌, Option,
  none, some, Bool, true, false, String, Eq, arith, length, ap, subst, ◌∙◌, if◌then◌else◌, sym,
}
use pine_framework.Trading.StateMachine.{
  StateMachine, StateTransition, moved, vetoed, Outcome, allows, trim, record_move, commit,
  guards_allow, transition, told_of, refused,
}
use pine_framework.Trading.StateMachine.History.{Linked, IsSound, commit-IsSound}

-- A call that waits for its guards.
pub record Pending {ℓ} (S : Type ℓ) : Type ℓ where
  pub from : S
  pub to : S
  pub reason : String

module _ {S : Type 0} ⦃e : Eq S⦄ where
  -- The part before the first `await`: none when the call is rejected.
  unfoldable pub start_transition : StateMachine S → S → String → Option (Pending S)
  start_transition m to reason =
      if allows (m.transitions m.state) to
      then some (record { from = m.state; to = to; reason = reason })
      else none

module _ {S : Type 0} where
  -- The part after the last `await`, with the answer of the guards: the state is not read again.
  unfoldable pub finish_transition : StateMachine S → Pending S → Bool → ℕ → Outcome S
  finish_transition m p false time = refused m vetoed
  finish_transition m p true time = record {
    machine = record m {
      state = p.to;
      history = trim m.max_history (
          m.history
          ++ record { from = p.from; to = p.to; reason = p.reason; timestamp = time } ∷ []);
    };
    answer = moved;
    told = told_of m.observed p.from p.to p.reason;
  }

  Linked-last :
      (xs : List (StateTransition S)) (t u : StateTransition S) (state : S)
      → Linked ((xs ++ t ∷ []) ++ u ∷ []) state
      → t.to ≡ u.from
  Linked-last [] t u state h = h.0
  Linked-last (x ∷ []) t u state h = h.1.0
  Linked-last (x ∷ y ∷ xs) t u state h = Linked-last (y ∷ xs) t u state h.1

  trim_short : (most : ℕ) (xs : List (StateTransition S)) → length xs ≤ most → trim most xs ≡ xs
  unfolding trim
  trim_short most xs h = ground arith

module _ {S : Type 0} ⦃e : Eq S⦄ where
  started :
      (m : StateMachine S) (to : S) (reason : String) (p : Pending S)
      → start_transition m to reason ≡ some p
      → (allows (m.transitions m.state) to ≡ true)
        × (p ≡ record { from = m.state; to = to; reason = reason })
  unfolding start_transition
  started m to reason p h = ground arith

  -- If the map allows the transition, the two parts, one right after the other with the verdict of the
  -- guards, are `transition`.
  pub start-finish :
      (m : StateMachine S) (to : S) (reason : String) (time : ℕ) (p : Pending S)
      → start_transition m to reason ≡ some p
      → finish_transition m p (guards_allow m.guards m.state to) time ≡ transition m to reason time
  unfolding finish_transition transition commit record_move
  start-finish m to reason time p h =
      let (edge, e) = started m to reason p h in
      elim (Bool-cases (guards_allow m.guards m.state to)) [
        | inl agreed ↦ rw (agreed, finish_transition, transition, edge, e) refl
        | inr veto ↦ rw (veto, finish_transition, transition, edge) refl
      ]

  -- A transition that waits for its guards keeps the history a linked chain of allowed transitions that
  -- ends in the state, if the map is the same and the state, when the wait is over, is the one that the
  -- call began in, whatever the guards say and whatever other calls have added to the history meanwhile.
  pub finish_transition-IsSound :
      (m waited : StateMachine S) (to : S) (reason : String) (time : ℕ) (p : Pending S)
      (agreed : Bool)
      → start_transition m to reason ≡ some p
      → waited.state ≡ m.state
      → waited.transitions ≡ m.transitions
      → IsSound waited
      → IsSound (finish_transition waited p agreed time).machine
  unfolding finish_transition commit record_move
  finish_transition-IsSound m waited to reason time p false h same_state same_map sound = sound
  finish_transition-IsSound m waited to reason time p true h same_state same_map sound =
      let (edge, e) = started m to reason p h in
      let here : p ≡ record { from = waited.state; to = to; reason = reason } =
        e ∙ ap (λ from. record { from = from; to = to; reason = reason }) (sym same_state) in
      let allowed : allows (waited.transitions waited.state) to ≡ true =
        ap (λ f. allows (f waited.state) to) same_map
        ∙ ap (λ state. allows (m.transitions state) to) same_state
        ∙ edge in
      subst (λ q. IsSound (finish_transition waited q true time).machine) (sym here)
        (commit-IsSound waited to reason time sound allowed)

  -- Two allowed calls that overlap and whose guards agree both succeed, if the first leads away from
  -- the state and the history has room for both; after them the history is no linked chain.
  pub overlap_unlinked :
      (m : StateMachine S) (b c : S) (reason : String) (time : ℕ) (p q : Pending S)
      → start_transition m b reason ≡ some p
      → start_transition m c reason ≡ some q
      → b ≢ m.state
      → length m.history + 2 ≤ m.max_history
      → let first = finish_transition m p true time in
        let second = finish_transition first.machine q true time in
        (first.answer ≡ moved)
        × (second.answer ≡ moved)
        × (second.machine.state ≡ c)
        × (¬ Linked second.machine.history second.machine.state)
  unfolding finish_transition
  overlap_unlinked m b c reason time p q hp hq ne room =
      let (_, ep) = started m b reason p hp in
      let (_, eq) = started m c reason q hq in
      let t : StateTransition S = record {
        from = p.from;
        to = p.to;
        reason = p.reason;
        timestamp = time;
      } in
      let u : StateTransition S = record {
        from = q.from;
        to = q.to;
        reason = q.reason;
        timestamp = time;
      } in
      let one = m.history ++ t ∷ [] in
      let kept : trim m.max_history (trim m.max_history one ++ u ∷ []) ≡ one ++ u ∷ [] =
        ap (λ xs. trim m.max_history (xs ++ u ∷ []))
          (trim_short m.max_history one (omega (arith, length-append m.history (t ∷ []))))
        ∙ trim_short m.max_history (one ++ u ∷ [])
            (omega (arith, length-append one (u ∷ []), length-append m.history (t ∷ []))) in
      (
        refl,
        refl,
        ap (λ r. r.to) eq,
        λ linked. ne (
            sym (ap (λ r. r.to) ep)
            ∙ Linked-last m.history t u _ (subst (λ h. Linked h q.to) kept linked)
            ∙ ap (λ r. r.from) eq),
      )
