-- ===== src/Dequeue/Refine/Stale.antt =====
-- `popTail` when another consumer and a producer run between its two loads.
use nps_mux.Base.{
  ℕ, ◌+◌, ◌%◌, ◌^◌, ◌≡◌, ap, ◌∙◌, arith, true, none, some, List, [], ◌∷◌, ◌++◌, length, get_elem?,
  get_elem?-set_self, length-set, set, bit_and_mask, ◌<◌,
}
use native.Mathlib.Nat.{add-mod_right, mod-lt}
use nps_mux.Dequeue.{BufDequeue, slot_of, slot_at, held, push_head, pop_tail, advance_tail}
use nps_mux.Dequeue.Refine.{
  Holds, unpacked, empty_test, popped, popped_lem, popped-Holds, pushed, pushed_lem, pushed-Holds,
  from_next, room,
}

module _ {ℓ} {A : Type ℓ} (d : BufDequeue A) (x v : A) (xs : List A) (h : Holds d (x ∷ xs))
    (full : length (x ∷ xs) ≡ length d.vals) where
  open h use {bits, small, size, tail, tail_in, word, fits, slots}

  -- The ring after the other consumer took `x` and the producer pushed `v`.
  abbrev meanwhile : BufDequeue A
  meanwhile = pushed (popped d x xs h) xs (popped-Holds d x xs h) v

  lt_size : length xs < 2 ^ bits
  lt_size = omega arith

  still-Holds : Holds meanwhile (xs ++ (v ∷ []))
  unfolding popped-Holds
  still-Holds = pushed-Holds (popped d x xs h) xs (popped-Holds d x xs h) v lt_size

  pushes : push_head [] (popped d x xs h) v ≡ some (meanwhile, true)
  unfolding popped-Holds
  pushes = pushed_lem (popped d x xs h) xs (popped-Holds d x xs h) v lt_size

  -- One round of the ring further on, the newest value stands where the oldest stood.
  newest_position :
      ((popped-Holds d x xs h).tail + length xs) % 2 ^ (popped-Holds d x xs h).bits
      ≡ tail % 2 ^ bits
  unfolding popped-Holds
  newest_position =
      from_next d x xs h (length xs)
      ∙ ap (λ (t : ℕ). (tail + t) % 2 ^ bits) (omega arith)
      ∙ add-mod_right tail (2 ^ bits)

  newest : get_elem? meanwhile.vals (tail % 2 ^ bits) ≡ some (some v)
  newest =
      let vals = (popped d x xs h).vals in
      let i = tail % 2 ^ bits in
      ap (λ (p : ℕ). get_elem? (set vals p (some v)) i) newest_position
      ∙ get_elem?-set_self vals i (some v)
          (omega (arith, length-set d.vals i none, mod-lt tail (room d x xs h).0))

  slot-tail_stale : slot_of meanwhile tail ≡ tail % 2 ^ bits
  slot-tail_stale = rw same_length (bit_and_mask bits tail)
    where
      same_length : length meanwhile.vals ≡ 2 ^ bits
      same_length =
          length-set (popped d x xs h).vals _ (some v)
          ∙ length-set d.vals (tail % 2 ^ bits) none
          ∙ size

  stale_take : (d' : BufDequeue A) × (pop_tail ((λ _. meanwhile) ∷ []) d ≡ some (d', some v))
  unfolding pop_tail
  stale_take =
      let at = ap (slot_at meanwhile) slot-tail_stale ∙ ap held newest in
      (
        record meanwhile {
          head_tail = advance_tail meanwhile.head_tail tail;
          vals = set meanwhile.vals (slot_of meanwhile tail) none;
        },
        ground (arith, unpacked d (x ∷ xs) h, empty_test d (x ∷ xs) h, at),
      )

-- In any full ring of two values or more, a consumer that loaded the indices, and loads the slot
-- only after another consumer took the oldest value and a producer pushed a new one, returns the
-- new value though the ring holds older ones.
pub pop_stale {ℓ} :
    {A : Type ℓ} (d : BufDequeue A) (x y v : A) (xs : List A)
    → Holds d (x ∷ y ∷ xs)
    → length (x ∷ y ∷ xs) ≡ length d.vals
    → (d₁ : BufDequeue A) × (pop_tail [] d ≡ some (d₁, some x))
      × (d₂ : BufDequeue A) × (push_head [] d₁ v ≡ some (d₂, true))
      × Holds d₂ (y ∷ (xs ++ (v ∷ [])))
      × (d₃ : BufDequeue A) × (pop_tail ((λ _. d₂) ∷ []) d ≡ some (d₃, some v))
pop_stale d x y v xs h full =
    let (d₃, taken) = stale_take d x v (y ∷ xs) h full in
    (
      popped d x (y ∷ xs) h,
      popped_lem d x (y ∷ xs) h,
      meanwhile d x v (y ∷ xs) h full,
      pushes d x v (y ∷ xs) h full,
      still-Holds d x v (y ∷ xs) h full,
      d₃,
      taken,
    )
