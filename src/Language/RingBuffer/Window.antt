-- ===== src/Language/RingBuffer/Window.antt =====
-- The slots hold the last `capacity` values that were pushed.
use native.Mathlib.Numerals.{add-one}
use native.Mathlib.Nat.{mod-eq_of_lt}
use pine_framework.Prelude.{
  ℕ, suc, ◌+◌, ◌-◌, ◌%◌, ◌≤◌, ◌<◌, ◌≡◌, refl, sym, ap, ◌∙◌, ◌⊎◌, inl, inr, List, [], ◌∷◌, ◌++◌,
  some, length, length-set, get_or, set, take, drop, ℕ_discrete, dec_lt, length-replicate,
  length-take, ◌==◌, ltb, if◌then◌else◌, arith,
}
use pine_framework.Language.RingBuffer.Slots.{
  Slots, empty, collect, allocated, oldest, write, clear, to_array,
}
use pine_framework.Language.RingBuffer.Collect.{
  wrap_here, wrap_start, wrap_end, collect_ext, wrap_next, wrap_last, wrap_ne, collect_head,
  collect_slide, length-collect, collect-take, get_or-set, take-set_last,
}

module _ {ℓ} {A : Type ℓ} where
  -- A bounded window: a new value pushes the oldest one out once `n` are held.
  unfoldable pub slide : ℕ → A → List A → List A
  slide n v xs = if ltb (length xs) n then xs ++ v ∷ [] else drop 1 xs ++ v ∷ []

  -- What the class keeps true between calls.
  pub record IsValid (hole : A) (s : Slots A) : Type ℓ where
    pub positive : 0 < s.capacity
    pub size_le : s.size ≤ s.capacity
    pub head_lt : s.head < s.capacity
    pub fits : length (allocated hole s) ≡ s.capacity
    pub head_eq : s.size < s.capacity → s.head ≡ s.size

  module _ (hole : A) where
    pub empty-IsValid : (n : ℕ) → 0 < n → IsValid hole (empty n)
    unfolding empty
    empty-IsValid n h = record {
      positive = h;
      size_le = omega arith;
      head_lt = h;
      fits = length-replicate n hole;
      head_eq = λ _. refl;
    }

    pub clear-IsValid : (s : Slots A) → IsValid hole s → IsValid hole (clear s)
    unfolding clear
    clear-IsValid s v = record {
      positive = v.positive;
      size_le = omega arith;
      head_lt = v.positive;
      fits = length-replicate s.capacity hole;
      head_eq = λ _. refl;
    }

    write_full :
        (v : A) (s : Slots A)
        → s.size ≡ s.capacity
        → write hole v s ≡ record s {
          buffer = some (set (allocated hole s) s.head v);
          head = (s.head + 1) % s.capacity;
        }
    unfolding write
    write_full v s e = ground arith

    write_room :
        (v : A) (s : Slots A)
        → s.size < s.capacity
        → write hole v s ≡ record s {
          buffer = some (set (allocated hole s) s.head v);
          head = (s.head + 1) % s.capacity;
          size = s.size + 1;
        }
    unfolding write
    write_room v s h = ground arith

    pub write-IsValid : (v : A) (s : Slots A) → IsValid hole s → IsValid hole (write hole v s)
    write-IsValid v s i = elim (dec_lt s.size s.capacity) [
      | yes room ↦ rw (write_room v s room) (record {
        positive = i.positive;
        size_le = omega arith;
        head_lt = omega arith;
        fits = length-set (allocated hole s) s.head v ∙ i.fits;
        head_eq = λ p. rw (i.head_eq room) (mod-eq_of_lt p);
      })
      | no full ↦ rw (write_full v s (omega (arith, i.size_le))) (record {
        positive = i.positive;
        size_le = i.size_le;
        head_lt = omega arith;
        fits = length-set (allocated hole s) s.head v ∙ i.fits;
        head_eq = λ p. absurd (omega arith);
      })
    ]

    to_array_room :
        (s : Slots A) → s.size < s.capacity → to_array hole s ≡ take s.size (allocated hole s)
    unfolding to_array
    to_array_room s h = elim (ℕ_discrete s.size 0) [ yes z ↦ rw z refl | no p ↦ ground arith ]

    abbrev slot : Slots A → ℕ → A
    slot s i = get_or (allocated hole s) ((s.head + i) % s.capacity) hole

    to_array_full :
        (s : Slots A)
        → IsValid hole s
        → s.size ≡ s.capacity
        → to_array hole s ≡ collect (slot s) 0 s.capacity
    unfolding to_array
    to_array_full s i e = ground (arith, i.positive)

    pub length-to_array : (s : Slots A) → IsValid hole s → length (to_array hole s) ≡ s.size
    length-to_array s i = elim (dec_lt s.size s.capacity) [
      | yes room ↦
          rw (to_array_room s room) (omega (arith, length-take s.size (allocated hole s), i.fits))
      | no full ↦
          let e : s.size ≡ s.capacity = omega (arith, i.size_le) in
          rw (to_array_full s i e) (rw length-collect (sym e))
    ]

    -- The value that the next push evicts is the first of a full window.
    pub oldest-to_array :
        (s : Slots A)
        → IsValid hole s
        → s.size ≡ s.capacity
        → to_array hole s ≡ oldest hole s ∷ drop 1 (to_array hole s)
    unfolding oldest
    oldest-to_array s i e =
        let here : (s.head + 0) % s.capacity ≡ s.head = wrap_here s.head s.capacity i.head_lt in
        let first : get_or (allocated hole s) ((s.head + 0) % s.capacity) hole ≡ oldest hole s =
          ap (λ j. get_or (allocated hole s) j hole) here in
        rw (to_array_full s i e) (
          collect_head (slot s) s.capacity i.positive
          ∙ ap (λ x. x ∷ drop 1 (collect (slot s) 0 s.capacity)) first)

    -- Full slots overwrite the oldest value and turn by one.
    slot-write :
        (v : A) (s : Slots A)
        → IsValid hole s
        → s.size ≡ s.capacity
        → (i : ℕ) → i < s.capacity
        → slot (write hole v s) i ≡ (if suc i == s.capacity then v else slot s (suc i))
    slot-write v s w e i h =
        rw (write_full v s e, wrap_next s.head i s.capacity)
          (get_or-set (allocated hole s) s.head v _ hole (omega (arith, w.fits))
            ∙ ground (
              arith,
              wrap_last s.head i s.capacity w.head_lt,
              wrap_ne s.head i s.capacity w.head_lt,
            ))

    pub to_array-write_full :
        (v : A) (s : Slots A)
        → IsValid hole s
        → s.size ≡ s.capacity
        → to_array hole (write hole v s) ≡ drop 1 (to_array hole s) ++ v ∷ []
    unfolding write
    to_array-write_full v s i e =
        let new : IsValid hole (write hole v s) = write-IsValid v s i in
        let at : (write hole v s).capacity ≡ s.capacity = ap (λ t. t.capacity) (write_full v s e) in
        let full : (write hole v s).size ≡ (write hole v s).capacity = rw (write_full v s e) e in
        rw (to_array_full s i e, to_array_full (write hole v s) new full, at)
          (collect_slide (slot s) (slot (write hole v s)) v s.capacity i.positive
            (λ j p. slot-write v s i e j (omega arith) ∙ ground arith)
            (slot-write v s i e (s.capacity - 1) (omega (arith, i.positive))
              ∙ ground (arith, i.positive)))

    -- While the slots fill up, and when they have just become full, the window starts at slot 0.
    to_array-take :
        (s : Slots A)
        → IsValid hole s
        → (s.size < s.capacity) ⊎ (s.head ≡ 0)
        → to_array hole s ≡ take s.size (allocated hole s)
    to_array-take s i (inl room) = to_array_room s room
    to_array-take s i (inr start) = elim (dec_lt s.size s.capacity) [
      | yes room ↦ to_array_room s room
      | no full ↦
          let e : s.size ≡ s.capacity = omega (arith, i.size_le) in
          rw (to_array_full s i e, e)
            (collect_ext (slot s) (λ j. get_or (allocated hole s) j hole) 0 s.capacity
                (λ j p.
                  let q : (s.head + j) % s.capacity ≡ j =
                    wrap_start s.head j s.capacity start (omega arith) in
                  ap (λ t. get_or (allocated hole s) t hole) q)
              ∙ collect-take hole (allocated hole s) s.capacity (omega (arith, i.fits)))
    ]

    write_start :
        (v : A) (s : Slots A)
        → IsValid hole s
        → s.size < s.capacity
        → ((write hole v s).size < (write hole v s).capacity) ⊎ ((write hole v s).head ≡ 0)
    write_start v s i h = rw (write_room v s h) (elim (dec_lt (s.size + 1) s.capacity) [
      | yes more ↦ inl more
      | no last ↦ inr (wrap_end s.head s.capacity (omega (arith, i.head_eq h)))
    ])

    pub to_array-write_room :
        (v : A) (s : Slots A)
        → IsValid hole s
        → s.size < s.capacity
        → to_array hole (write hole v s) ≡ to_array hole s ++ v ∷ []
    to_array-write_room v s i h =
        to_array-take (write hole v s) (write-IsValid v s i) (write_start v s i h)
        ∙ rw (write_room v s h, to_array_room s h, add-one)
            (ap (λ j. take (suc s.size) (set (allocated hole s) j v)) (i.head_eq h)
              ∙ take-set_last (allocated hole s) s.size v (omega (arith, i.fits)))

    -- A push slides the window by one value.
    pub to_array-write :
        (v : A) (s : Slots A)
        → IsValid hole s
        → to_array hole (write hole v s) ≡ slide s.capacity v (to_array hole s)
    unfolding slide
    to_array-write v s i = elim (dec_lt s.size s.capacity) [
      | yes room ↦ to_array-write_room v s i room ∙ ground (arith, length-to_array s i)
      | no full ↦
          let e : s.size ≡ s.capacity = omega (arith, i.size_le) in
          to_array-write_full v s i e ∙ ground (arith, length-to_array s i)
    ]
