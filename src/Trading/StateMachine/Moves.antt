-- ===== src/Trading/StateMachine/Moves.antt =====
-- What a `transition` that runs without interruption does, by the map and the guards themselves.
use pine_framework.Prelude.{
  ℕ, ◌≤◌, ◌≡◌, ◌↔◌, ◌⊎◌, ◌∙◌, ap, sym, Bool, false, ◌&&◌, ◌===◌, refl, inl, inr, List, [], ◌∷◌,
  some, true, String, Eq, All, if◌then◌else◌, length, arith, Bool-cases, Option-cases,
}
use pine_framework.Trading.StateMachine.{
  StateMachine, Guard, verdict, Answer, moved, vetoed, async_guard, invalid_transition, contains,
  allows, record_move, commit, guards_allow, transition,
}
use pine_framework.Trading.StateMachine.History.{length-trim}

abbrev pub is_moved : Answer → Bool
is_moved moved = true
is_moved vetoed = false
is_moved invalid_transition = false
is_moved async_guard = false

-- The answer of two tests, by what the tests decide.
judged {ℓ ℓ'} :
    {P : Type ℓ} {Q : Type ℓ'} (ok agreed : Bool) (x : Answer)
    → x ≡ (if ok then (if agreed then moved else vetoed) else invalid_transition)
    → (ok ≡ true) ↔ P
    → (agreed ≡ true) ↔ Q
    → ((x ≡ moved) ↔ (P × Q)) × ((x ≡ invalid_transition) ↔ (¬ P)) × ((x ≡ vetoed) ↔ (P × (¬ Q)))
judged true true x e p q = (
  (λ h. (p.0 refl, q.0 refl), λ h. e),
  (λ h. ground (arith, e, h), λ h. absurd (h (p.0 refl))),
  (λ h. ground (arith, e, h), λ h. absurd (h.1 (q.0 refl))),
)
judged true false x e p q = (
  (λ h. ground (arith, e, h), λ h. ground (arith, q.1 h.1)),
  (λ h. ground (arith, e, h), λ h. absurd (h (p.0 refl))),
  (λ h. (p.0 refl, λ y. ground (arith, q.1 y)), λ h. e),
)
judged false agreed x e p q = (
  (λ h. ground (arith, e, h), λ h. ground (arith, p.1 h.0)),
  (λ h y. ground (arith, p.1 y), λ h. e),
  (λ h. ground (arith, e, h), λ h. ground (arith, p.1 h.0)),
)

module _ {ℓ} {S : Type ℓ} where
  guards_allow-AllAgree :
      (gs : List (Guard S)) (from to : S)
      → (guards_allow gs from to ≡ true) ↔ All (λ g. verdict (g from to) ≡ true) gs
  unfolding guards_allow
  guards_allow-AllAgree [] from to = (λ h. tt, λ h. refl)
  guards_allow-AllAgree (g ∷ gs) from to =
      let (there, back) = guards_allow-AllAgree gs from to in
      elim (Bool-cases (verdict (g from to))) [
        | inl agreed ↦ (λ h. (agreed, there (ground (arith, h, agreed))), λ h. rw agreed (back h.1))
        | inr veto ↦ (λ h. ground (arith, h, veto), λ h. ground (arith, h.0, veto))
      ]

module _ {ℓ} {S : Type ℓ} ⦃e : Eq S⦄ where
  transition_answer :
      (m : StateMachine S) (to : S) (reason : String) (time : ℕ)
      → (transition m to reason time).answer ≡ (
          if allows (m.transitions m.state) to
          then (if guards_allow m.guards m.state to then moved else vetoed)
          else invalid_transition)
  unfolding transition commit
  transition_answer m to reason time = ground arith

  -- The state is in the list, by the test of equality.
  abbrev pub IsListed : S → List S → Type 0
  IsListed to [] = ⊥
  IsListed to (x ∷ xs) = ((x === to) ≡ true) ⊎ IsListed to xs

  -- The map has a set for the machine's state, and the new state is in it.
  abbrev pub IsEdge : StateMachine S → S → Type ℓ
  IsEdge m to = (allowed : List S) × ((m.transitions m.state ≡ some allowed) × IsListed to allowed)

  -- Every guard says yes to the move.
  abbrev pub AllAgree : StateMachine S → S → Type 0
  AllAgree m to = All (λ g. verdict (g m.state to) ≡ true) m.guards

  contains-IsListed : (to : S) (xs : List S) → (contains xs to ≡ true) ↔ IsListed to xs
  contains-IsListed to [] = (λ h. ground (arith, h), λ h. absurd h)
  contains-IsListed to (x ∷ xs) =
      let (there, back) = contains-IsListed to xs in
      elim (Bool-cases (x === to)) [
        | inl here ↦ (λ h. inl here, λ h. ground (arith, here))
        | inr not_here ↦ (
          λ h. inr (there (ground (arith, h, not_here))),
          λ h. elim h [
            | inl here ↦ ground (arith, here, not_here)
            | inr later ↦ rw not_here (back later)
          ],
        )
      ]

  allows-IsEdge :
      (m : StateMachine S) (to : S) → (allows (m.transitions m.state) to ≡ true) ↔ IsEdge m to
  allows-IsEdge m to = (
    λ h. elim (Option-cases (m.transitions m.state)) [
      | inl nothing ↦ ground (arith, h, nothing)
      | inr (allowed, e) ↦
          (allowed, (e, (contains-IsListed to allowed).0 (sym (ap (λ o. allows o to) e) ∙ h)))
    ],
    λ (allowed, (e, listed)). ap (λ o. allows o to) e ∙ (contains-IsListed to allowed).1 listed,
  )

  -- A call of `transition` that runs without interruption moves exactly if the map has the new state for the
  -- old one and every guard says yes, answers `invalid_transition` exactly if the map has it not, and
  -- `vetoed` exactly if the map has it and some guard does not say yes. The state changes, and an
  -- observer is told of the change, exactly with the answer `moved`; a move leaves no more entries
  -- in the history than its bound, and no other answer adds any.
  pub transition_moves :
      (m : StateMachine S) (to : S) (reason : String) (time : ℕ)
      → let o = transition m to reason time in
        ((o.answer ≡ moved) ↔ (IsEdge m to × AllAgree m to))
        × ((o.answer ≡ invalid_transition) ↔ (¬ IsEdge m to))
        × ((o.answer ≡ vetoed) ↔ (IsEdge m to × (¬ AllAgree m to)))
        × (o.machine.state ≡ (if is_moved o.answer then to else m.state))
        × (o.told ≡ (
            if is_moved o.answer && m.observed
            then record { from = m.state; to = to; reason = reason } ∷ []
            else []))
        × (length o.machine.history
            ≤ (if is_moved o.answer then m.max_history else length m.history))
  unfolding transition commit
  transition_moves m to reason time =
      let (moves, invalid, vetoes) =
        judged (allows (m.transitions m.state) to) (guards_allow m.guards m.state to) _
          (transition_answer m to reason time) (allows-IsEdge m to)
          (guards_allow-AllAgree m.guards m.state to) in
      let short = length-trim m.max_history (record_move m to reason time) in
      (moves, invalid, vetoes, ground arith, ground arith, ground (arith, short))
