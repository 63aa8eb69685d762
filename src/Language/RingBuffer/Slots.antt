-- ===== src/Language/RingBuffer/Slots.antt =====
-- The fields `buffer`, `capacity`, `head` and `size` of both classes, and what reads or writes them.
use pine_framework.Prelude.{
  ℕ, zero, suc, ◌+◌, ◌%◌, List, [], ◌∷◌, Option, none, some, Bool, get_or, set, take, replicate,
  ◌==◌, ltb, if◌then◌else◌,
}

pub record Slots {ℓ} (A : Type ℓ) : Type ℓ where
  pub buffer : Option (List A)
  pub capacity : ℕ
  pub head : ℕ
  pub size : ℕ

module _ {ℓ} {A : Type ℓ} where
  unfoldable pub empty : ℕ → Slots A
  empty capacity = record { buffer = none; capacity = capacity; head = 0; size = 0 }

  -- The loop `result[i] = f(i)` for `i` from `i` on, `n` times.
  abbrev pub collect : (ℕ → A) → ℕ → ℕ → List A
  collect f i zero = []
  collect f i (suc n) = f i ∷ collect f (suc i) n

  -- The array that `push` writes to, allocated on the first call.
  abbrev pub allocated : A → Slots A → List A
  allocated hole s = elim s.buffer [ none ↦ replicate s.capacity hole | some b ↦ b ]

  abbrev pub is_full : Slots A → Bool
  is_full s = s.size == s.capacity

  -- The value that a push onto full slots evicts.
  unfoldable pub oldest : A → Slots A → A
  oldest hole s = get_or (allocated hole s) s.head hole

  unfoldable pub write : A → A → Slots A → Slots A
  write hole v s =
      let head = (s.head + 1) % s.capacity in
      let buffer = some (set (allocated hole s) s.head v) in
      if is_full s
      then record s { buffer = buffer; head = head }
      else record s { buffer = buffer; head = head; size = s.size + 1 }

  unfoldable pub clear : Slots A → Slots A
  clear s = record s { buffer = none; head = 0; size = 0 }

  -- Oldest first.
  unfoldable pub to_array : A → Slots A → List A
  to_array hole s =
      let buf = allocated hole s in
      if s.size == 0
      then []
      else if ltb s.size s.capacity
      then take s.size buf
      else collect (λ i. get_or buf ((s.head + i) % s.capacity) hole) 0 s.capacity
