-- ===== src/Trading/StateMachine/History.antt =====
-- The history of a machine: a linked chain of allowed transitions, of bounded length.
use pine_framework.Prelude.{
  ℕ, zero, suc, ◌-◌, ◌≤◌, ◌≡◌, refl, inl, inr, List, [], ◌∷◌, ◌++◌, none, some, true, String, Eq,
  ltb, All, if◌then◌else◌, length, length-drop, drop, arith, Bool-cases, Option-cases,
}
use pine_framework.Trading.StateMachine.{
  StateMachine, StateTransition, Guard, GuardResult, settled, promise, verdict, vetoed, allows,
  trim, record_move, commit, commit_sync, guards_allow, guards_sync, transition, transition_sync,
}

abbrev pub IsSettled : GuardResult → Type 0
IsSettled (settled b) = Unit {0}
IsSettled (promise b) = ⊥

settled_value : (r : GuardResult) → IsSettled r → r ≡ settled (verdict r)
settled_value (settled b) h = refl
settled_value (promise b) h = absurd h

module _ {ℓ} {S : Type ℓ} where
  -- Each transition starts where the one before it ended, and the last one ended in the state.
  abbrev pub Linked : List (StateTransition S) → S → Type ℓ
  Linked [] state = Unit
  Linked (t ∷ []) state = t.to ≡ state
  Linked (t ∷ u ∷ rest) state = (t.to ≡ u.from) × Linked (u ∷ rest) state

  Linked-append :
      (xs : List (StateTransition S)) (t : StateTransition S)
      → Linked xs t.from
      → Linked (xs ++ t ∷ []) t.to
  Linked-append [] t h = refl
  Linked-append (x ∷ []) t h = (h, refl)
  Linked-append (x ∷ y ∷ xs) t h = (h.0, Linked-append (y ∷ xs) t h.1)

  Linked-drop :
      (n : ℕ) (xs : List (StateTransition S)) (state : S)
      → Linked xs state
      → Linked (drop n xs) state
  Linked-drop zero xs state h = h
  Linked-drop (suc n) [] state h = h
  Linked-drop (suc zero) (x ∷ []) state h = tt
  Linked-drop (suc (suc n)) (x ∷ []) state h = tt
  Linked-drop (suc n) (x ∷ y ∷ xs) state h = Linked-drop n (y ∷ xs) state h.1

  All-append :
      (P : StateTransition S → Type 0) (xs : List (StateTransition S)) (t : StateTransition S)
      → All P xs
      → P t
      → All P (xs ++ t ∷ [])
  All-append P [] t h p = (p, tt)
  All-append P (x ∷ xs) t (h, hs) p = (h, All-append P xs t hs p)

  All-drop :
      (P : StateTransition S → Type 0) (n : ℕ) (xs : List (StateTransition S))
      → All P xs
      → All P (drop n xs)
  All-drop P zero xs h = h
  All-drop P (suc n) [] h = h
  All-drop P (suc n) (x ∷ xs) (h, hs) = All-drop P n xs hs

  pub length-trim : (most : ℕ) (xs : List (StateTransition S)) → length (trim most xs) ≤ most
  unfolding trim
  length-trim most xs = ground (arith, length-drop (length xs - most) xs)

  -- No guard answers with a promise.
  abbrev pub AllSettled : List (Guard S) → Type ℓ
  AllSettled gs = All (λ g. (from to : S) → IsSettled (g from to)) gs

  guards_agree :
      (gs : List (Guard S)) (from to : S)
      → AllSettled gs
      → guards_sync gs from to ≡ (if guards_allow gs from to then none else some vetoed)
  unfolding guards_sync guards_allow
  guards_agree [] from to h = refl
  guards_agree (g ∷ gs) from to (h, hs) =
      ground (arith, settled_value (g from to) (h from to), guards_agree gs from to hs)

module _ {ℓ} {S : Type ℓ} ⦃e : Eq S⦄ where
  abbrev pub Allowed : StateMachine S → StateTransition S → Type 0
  Allowed m t = allows (m.transitions t.from) t.to ≡ true

  pub record IsSound (m : StateMachine S) : Type ℓ where
    pub linked : Linked m.history m.state
    pub allowed : All (Allowed m) m.history

  moved-IsSound :
      (m : StateMachine S) (to : S) (reason : String) (time : ℕ)
      → IsSound m
      → allows (m.transitions m.state) to ≡ true
      → IsSound (record m { state = to; history = record_move m to reason time })
  unfolding record_move
  moved-IsSound m to reason time i ok = record {
    linked = Linked-append m.history _ i.linked;
    allowed = All-append (Allowed m) m.history _ i.allowed ok;
  }

  pub commit-IsSound :
      (m : StateMachine S) (to : S) (reason : String) (time : ℕ)
      → IsSound m
      → allows (m.transitions m.state) to ≡ true
      → IsSound (commit m to reason time).machine
  unfolding commit trim
  commit-IsSound m to reason time i ok =
      let s = moved-IsSound m to reason time i ok in
      elim (Bool-cases (ltb m.max_history (length (record_move m to reason time)))) [
        | inl long ↦ rw long (record {
          linked = Linked-drop _ (record_move m to reason time) to s.linked;
          allowed = All-drop (Allowed m) _ (record_move m to reason time) s.allowed;
        })
        | inr short ↦ rw short s
      ]

  -- A `transition` that runs without interruption keeps the history a linked chain of allowed
  -- transitions that ends in the state.
  pub transition-IsSound :
      (m : StateMachine S) (to : S) (reason : String) (time : ℕ)
      → IsSound m
      → IsSound (transition m to reason time).machine
  unfolding transition
  transition-IsSound m to reason time i = elim (Bool-cases (allows (m.transitions m.state) to)) [
    | inr no_edge ↦ rw (no_edge, transition) i
    | inl edge ↦ elim (Bool-cases (guards_allow m.guards m.state to)) [
      | inl agreed ↦ rw (edge, transition, agreed) (commit-IsSound m to reason time i edge)
      | inr veto ↦ rw (edge, transition, veto) i
    ]
  ]

  -- `transitionSync` keeps the history so too.
  pub transition_sync-IsSound :
      (m : StateMachine S) (to : S) (reason : String) (time : ℕ)
      → IsSound m
      → IsSound (transition_sync m to reason time).machine
  unfolding transition_sync commit_sync
  transition_sync-IsSound m to reason time i =
      elim (Bool-cases (allows (m.transitions m.state) to)) [
        | inr no_edge ↦ rw (no_edge, transition_sync) i
        | inl edge ↦ elim (Option-cases (guards_sync m.guards m.state to)) [
          | inl agreed ↦ rw (edge, transition_sync, agreed) (moved-IsSound m to reason time i edge)
          | inr (answer, e) ↦ rw (edge, transition_sync, e) i
        ]
      ]

  -- If every guard answers without a promise, `transitionSync` and `transition` answer alike, move
  -- alike and tell alike.
  pub transition_sync-transition :
      (m : StateMachine S) (to : S) (reason : String) (time : ℕ)
      → AllSettled m.guards
      → let sync = transition_sync m to reason time in
        let plain = transition m to reason time in
        (sync.answer ≡ plain.answer)
        × (sync.told ≡ plain.told)
        × (sync.machine.state ≡ plain.machine.state)
  unfolding transition transition_sync commit commit_sync
  transition_sync-transition m to reason time h = ground (arith, guards_agree m.guards m.state to h)
