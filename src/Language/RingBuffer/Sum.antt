-- ===== src/Language/RingBuffer/Sum.antt =====
-- The running sums of the two classes against their windows.
use pine_framework.Prelude.{
  ℕ, zero, suc, ◌+◌, ◌-◌, ◌*◌, ◌%◌, ◌<◌, ◌≡◌, refl, ap, ◌∙◌, List, [], ◌∷◌, get_or, drop, length,
  arith, dec_lt,
}
use pine_framework.Prelude.Additive.{
  Additive, IsExact, total, total_from, total_from-append, total-cons,
}
use pine_framework.Language.RingBuffer.Slots
use pine_framework.Language.RingBuffer.Slots.{
  Slots, allocated, is_full, oldest, write, to_array, collect,
}
use pine_framework.Language.RingBuffer.Collect.{collect-take}
use pine_framework.Language.RingBuffer.Window
use pine_framework.Language.RingBuffer.Window.{slide}
use pine_framework.Language.RingBuffer.Recent.{slide_all, slide_all-drop}
use pine_framework.Language.RingBuffer.Classes.{
  RingBuffer, DecimalRingBuffer, pushed_sum, sum_loop, recalc_sum, create, push, push_all,
  from_array, create_decimal, push_decimal, push_all_decimal,
}

module _ {ℓ} {N : Type ℓ} ⦃a : Additive N⦄ (hole : N) where
  open a use {nought, plus, minus}

  sum_loop-collect : (f : ℕ → N) (i n : ℕ) (s : N) → sum_loop f i n s ≡ total_from s (collect f i n)
  sum_loop-collect f i zero s = refl
  sum_loop-collect f i (suc n) s = sum_loop-collect f (suc i) n (plus s (f i))

  -- Adding up the slots is adding up the window.
  pub recalc_sum-total :
      (s : Slots N) → Window.IsValid hole s → recalc_sum hole s ≡ total (to_array hole s)
  unfolding recalc_sum to_array
  recalc_sum-total s i = ground (
    arith,
    i.fits,
    sum_loop-collect (λ j. get_or (allocated hole s) j hole) 0 s.size nought,
    collect-take hole (allocated hole s) s.size,
    sum_loop-collect (λ j. get_or (allocated hole s) ((s.head + j) % s.capacity) hole) 0 s.capacity
        nought,
  )

  pushed_sum_room :
      (v : N) (s : Slots N) (sum : N) → s.size < s.capacity → pushed_sum hole v s sum ≡ plus sum v
  unfolding pushed_sum
  pushed_sum_room v s sum h = ground arith

  pushed_sum_full :
      (v : N) (s : Slots N) (sum : N)
      → s.size ≡ s.capacity
      → pushed_sum hole v s sum ≡ plus (minus sum (oldest hole s)) v
  unfolding pushed_sum
  pushed_sum_full v s sum h = ground arith

  write-capacity : (v : N) (s : Slots N) → (write hole v s).capacity ≡ s.capacity
  unfolding write
  write-capacity v s = ground arith

  pub pushed_sum-total :
      IsExact N
      → (v : N) (s : Slots N) (sum : N) → Window.IsValid hole s
      → sum ≡ total (to_array hole s)
      → pushed_sum hole v s sum ≡ total (to_array hole (write hole v s))
  pushed_sum-total laws v s sum i e = elim (dec_lt s.size s.capacity) [
    | yes room ↦
        rw
          (Window.to_array-write_room hole v s i room, total_from-append nought (to_array hole s) v)
          (pushed_sum_room v s sum room ∙ ap (λ t. plus t v) e)
    | no full ↦
        let f : s.size ≡ s.capacity = omega (arith, i.size_le) in
        let rest : minus (total (to_array hole s)) (oldest hole s)
            ≡ total (drop 1 (to_array hole s)) =
          ap (λ xs. minus (total xs) (oldest hole s)) (Window.oldest-to_array hole s i f)
          ∙ total-cons laws (oldest hole s) (drop 1 (to_array hole s)) in
        rw
          (
            Window.to_array-write_full hole v s i f,
            total_from-append nought (drop 1 (to_array hole s)) v,
          )
          (pushed_sum_full v s sum f
            ∙ ap (λ t. plus (minus t (oldest hole s)) v) e
            ∙ ap (λ t. plus t v) rest)
  ]

  -- What `RingBuffer` keeps true between calls.
  pub record IsValid (rb : RingBuffer N) : Type ℓ where
    pub slots_valid : Window.IsValid hole rb.slots
    pub counted : rb.push_count < rb.capacity * 10

  pub create-IsValid : (n : ℕ) → 0 < n → IsValid (create n)
  unfolding create Slots.empty
  create-IsValid n h = record { slots_valid = Window.empty-IsValid hole n h; counted = omega arith }

  -- A push on a well-formed buffer keeps it well formed and of its capacity, and its window becomes the
  -- old window with the value behind it and, if that is too long, without the first value.
  pub push-slide :
      (v : N) (rb : RingBuffer N)
      → IsValid rb
      → IsValid (push hole v rb)
        × (to_array hole (push hole v rb).slots ≡ slide rb.capacity v (to_array hole rb.slots))
        × ((push hole v rb).capacity ≡ rb.capacity)
  unfolding push
  push-slide v rb i = ground (
    arith,
    Window.write-IsValid hole v rb.slots i.slots_valid,
    Window.to_array-write hole v rb.slots i.slots_valid,
    write-capacity v rb.slots,
  )

  -- However the arithmetic rounds, a push on a well-formed buffer that brings the count of pushes to
  -- ten times the capacity leaves the sum computed afresh over the window, and the count at zero.
  pub push_resums :
      (v : N) (rb : RingBuffer N)
      → IsValid rb
      → rb.push_count + 1 ≡ rb.capacity * 10
      → ((push hole v rb).sum ≡ total (to_array hole (push hole v rb).slots))
        × ((push hole v rb).push_count ≡ 0)
  unfolding push
  push_resums v rb i e = ground (
    arith,
    recalc_sum-total (write hole v rb.slots) (Window.write-IsValid hole v rb.slots i.slots_valid),
  )

  -- If the arithmetic is exact and the running sum of a well-formed buffer is the sum of its window,
  -- then it is so after a push.
  pub push-sum :
      IsExact N
      → (v : N) (rb : RingBuffer N) → IsValid rb
      → rb.sum ≡ total (to_array hole rb.slots)
      → (push hole v rb).sum ≡ total (to_array hole (push hole v rb).slots)
  unfolding push
  push-sum laws v rb i e = ground (
    arith,
    recalc_sum-total (write hole v rb.slots) (Window.write-IsValid hole v rb.slots i.slots_valid),
    pushed_sum-total laws v rb.slots rb.sum i.slots_valid e,
  )

  push_all-slide :
      (vs : List N) (rb : RingBuffer N)
      → IsValid rb
      → to_array hole (push_all hole vs rb).slots
        ≡ slide_all rb.capacity vs (to_array hole rb.slots)
  unfolding push_all slide_all
  push_all-slide [] rb i = refl
  push_all-slide (v ∷ vs) rb i =
      let (valid, window, same) = push-slide v rb i in
      push_all-slide vs (push hole v rb) valid ∙ rw (window, same)

  create-window : (n : ℕ) → 0 < n → to_array hole (create n).slots ≡ []
  unfolding create Slots.empty to_array
  create-window n h = refl

  create-capacity : (n : ℕ) → (create {N = N} n).capacity ≡ n
  unfolding create Slots.empty
  create-capacity n = refl

  push_all_decimal-sum :
      IsExact N
      → (vs : List N) (rb : DecimalRingBuffer N) → Window.IsValid hole rb.slots
      → rb.sum ≡ total (to_array hole rb.slots)
      → (push_all_decimal hole vs rb).sum
        ≡ total (to_array hole (push_all_decimal hole vs rb).slots)
  unfolding push_all_decimal push_decimal
  push_all_decimal-sum laws [] rb i e = e
  push_all_decimal-sum laws (v ∷ vs) rb i e =
      push_all_decimal-sum laws vs (push_decimal hole v rb) (Window.write-IsValid hole v rb.slots i)
        (pushed_sum-total laws v rb.slots rb.sum i e)

  -- With exact arithmetic and a positive capacity, after any values are pushed on a new
  -- `DecimalRingBuffer`, as `fromArray` does, its running sum is the sum of its window.
  pub from_array_decimal-sum :
      IsExact N
      → (vs : List N) (n : ℕ) → 0 < n
      → let rb = push_all_decimal hole vs (create_decimal n) in
        rb.sum ≡ total (to_array hole rb.slots)
  unfolding create_decimal Slots.empty to_array
  from_array_decimal-sum laws vs n h =
      push_all_decimal-sum laws vs (create_decimal n) (Window.empty-IsValid hole n h) refl

  -- For a positive capacity `fromArray` keeps the last `capacity` values, in order.
  pub to_array-from_array :
      (vs : List N) (n : ℕ)
      → 0 < n
      → to_array hole (from_array hole vs n).slots ≡ drop (length vs - n) vs
  unfolding from_array
  to_array-from_array vs n h =
      push_all-slide vs (create n) (create-IsValid n h)
      ∙ rw (create-window n h, create-capacity n)
          (slide_all-drop n vs [] h (omega arith) ∙ ap (λ k. drop k vs) (omega arith))
