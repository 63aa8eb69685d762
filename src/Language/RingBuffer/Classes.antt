-- ===== src/Language/RingBuffer/Classes.antt =====
-- The two classes: the slots with a running sum. `RingBuffer` also adds its sum up anew every
-- `capacity * 10` pushes, against the drift of doubles; `DecimalRingBuffer` does not.
use pine_framework.Prelude.{
  ℕ, zero, suc, ◌+◌, ◌*◌, ◌%◌, List, [], ◌∷◌, get_or, ◌==◌, ltb, leb, if◌then◌else◌,
}
use pine_framework.Prelude.Additive.{Additive}
use pine_framework.Language.RingBuffer.Slots
use pine_framework.Language.RingBuffer.Slots.{
  Slots, allocated, is_full, oldest, write, to_array, collect,
}

pub record RingBuffer {ℓ} (N : Type ℓ) : Type ℓ where
  pub slots : Slots N
  pub open slots use *
  pub sum : N
  pub push_count : ℕ

pub record DecimalRingBuffer {ℓ} (N : Type ℓ) : Type ℓ where
  pub slots : Slots N
  pub open slots use *
  pub sum : N

module _ {ℓ} {N : Type ℓ} ⦃a : Additive N⦄ where
  open a use {nought, plus}

  -- `for (let i = i; …; i++) s += f(i)`, `n` times.
  abbrev pub sum_loop : (ℕ → N) → ℕ → ℕ → N → N
  sum_loop f i zero s = s
  sum_loop f i (suc n) s = sum_loop f (suc i) n (plus s (f i))

  unfoldable pub create : ℕ → RingBuffer N
  create capacity = record { slots = Slots.empty capacity; sum = nought; push_count = 0 }

  -- `pushCount` is left as it was.
  unfoldable pub clear : RingBuffer N → RingBuffer N
  clear rb = record rb { slots = Slots.clear rb.slots; sum = nought }

  unfoldable pub create_decimal : ℕ → DecimalRingBuffer N
  create_decimal capacity = record { slots = Slots.empty capacity; sum = nought }

  unfoldable pub clear_decimal : DecimalRingBuffer N → DecimalRingBuffer N
  clear_decimal rb = record { slots = Slots.clear rb.slots; sum = nought }

module _ {ℓ} {N : Type ℓ} ⦃a : Additive N⦄ (hole : N) where
  open a use {nought, plus, minus}

  -- The sum after a push: an evicted value is taken off first.
  unfoldable pub pushed_sum : N → Slots N → N → N
  pushed_sum v s sum = if is_full s then plus (minus sum (oldest hole s)) v else plus sum v

  unfoldable pub recalc_sum : Slots N → N
  recalc_sum s =
      let buf = allocated hole s in
      if s.size == 0
      then nought
      else if ltb s.size s.capacity
      then sum_loop (λ i. get_or buf i hole) 0 s.size nought
      else sum_loop (λ i. get_or buf ((s.head + i) % s.capacity) hole) 0 s.capacity nought

  unfoldable pub push : N → RingBuffer N → RingBuffer N
  push v rb =
      let slots = write hole v rb.slots in
      let sum = pushed_sum v rb.slots rb.sum in
      if leb (rb.capacity * 10) (rb.push_count + 1)
      then record { slots = slots; sum = recalc_sum slots; push_count = 0 }
      else record { slots = slots; sum = sum; push_count = rb.push_count + 1 }

  -- `fromArray`.
  unfoldable pub push_all : List N → RingBuffer N → RingBuffer N
  push_all [] rb = rb
  push_all (v ∷ vs) rb = push_all vs (push v rb)

  unfoldable pub from_array : List N → ℕ → RingBuffer N
  from_array vs capacity = push_all vs (create capacity)

  unfoldable pub push_decimal : N → DecimalRingBuffer N → DecimalRingBuffer N
  push_decimal v rb = record { slots = write hole v rb.slots; sum = pushed_sum v rb.slots rb.sum }

  unfoldable pub push_all_decimal : List N → DecimalRingBuffer N → DecimalRingBuffer N
  push_all_decimal [] rb = rb
  push_all_decimal (v ∷ vs) rb = push_all_decimal vs (push_decimal v rb)
