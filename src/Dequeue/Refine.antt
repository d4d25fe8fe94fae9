-- ===== src/Dequeue/Refine.antt =====
-- A ring in a consistent state behaves as a bounded FIFO of the values that it holds.
pub mod Stale
use nps_mux.Base.{
  ℕ, zero, suc, ◌+◌, ◌-◌, ◌*◌, ◌/◌, ◌%◌, ◌^◌, ◌≤◌, ◌<◌, bit_and, ◌≡◌, ◌≢◌, refl, sym, ap, ◌∙◌,
  arith, bit_and_mask, Bool, true, false, Option, none, some, List, [], ◌∷◌, ◌++◌, length,
  length-append, length-set, get_elem?, set, get_elem?-set_self, get_elem?-set_ne, get_elem?-none,
  get_elem?-append_last, get_elem?-append_ne, get_elem?-replicate, length-replicate, replicate,
  ◌==◌, cas_loop, leave,
}
use native.Mathlib.Nat.{
  mod-lt, mod-add-mod, add-mod-mod, pow-le-pow_right, one-le-pow, mod-eq_of_lt, add-mod_right,
}
use native.Mathlib.Decide.{ℕ_discrete, dec_lt}
use nps_mux.Dequeue.{
  BufDequeue, unpack, pack, slot_of, slot_at, held, push_round, push_head, pop_round, pop_tail,
  advance_tail, new_dequeue,
}
use nps_mux.Dequeue.Ring.{IsIndex, unpack-pack, pack_lem, advance_tail-pack, index-mod, position-ne}

module _ {ℓ} {A : Type ℓ} where
  -- The ring `d` holds the values `xs`, oldest first: slot `tail + j` has the j-th of them, and the
  -- slots behind the last are nil.
  pub record Holds (d : BufDequeue A) (xs : List A) : Type ℓ where
    pub bits : ℕ
    pub small : bits ≤ 30
    pub size : length d.vals ≡ 2 ^ bits
    pub tail : ℕ
    pub tail_in : IsIndex tail
    pub word : d.head_tail ≡ pack ((tail + length xs) % 2 ^ 32) tail
    pub fits : length xs ≤ 2 ^ bits
    pub slots :
        (j : ℕ) → j < 2 ^ bits → get_elem? d.vals ((tail + j) % 2 ^ bits) ≡ some (get_elem? xs j)

pub size_bounds : (k : ℕ) → k ≤ 30 → (1 ≤ 2 ^ k) × (2 ^ k ≤ 2 ^ 30)
size_bounds k h = (one-le-pow k 2 (omega arith), pow-le-pow_right (omega arith) h)

module _ {ℓ} {A : Type ℓ} (d : BufDequeue A) (xs : List A) (h : Holds d xs) where
  open h use {bits, small, size, tail, tail_in, word, fits, slots}

  abbrev pub head : ℕ
  head = (tail + length xs) % 2 ^ 32

  pub head_in : IsIndex head
  head_in = omega arith

  pub unpacked : unpack d.head_tail ≡ (head, tail)
  unpacked = rw word (unpack-pack head tail head_in tail_in)

  pub slot-index : (i : ℕ) → slot_of d i ≡ i % 2 ^ bits
  slot-index i = rw size (bit_and_mask bits i)

  -- The slot that a push reserves is the one behind the last value.
  slot-head : slot_of d head ≡ (tail + length xs) % 2 ^ bits
  slot-head = slot-index head ∙ index-mod bits (tail + length xs) (omega arith)

  -- The code's test for a full ring.
  full_test :
      (bit_and ((tail + length d.vals) % 2 ^ 32) (2 ^ 32 - 1) == head) ≡ (length xs == 2 ^ bits)
  full_test = ground (
    arith,
    size,
    bit_and_mask 32 ((tail + length d.vals) % 2 ^ 32),
    size_bounds bits small,
    position-ne (2 ^ 32) tail (2 ^ bits) (length xs),
  )

  -- A push to a full ring returns false and changes nothing.
  pub push_full : (v : A) → length xs ≡ 2 ^ bits → push_head [] d v ≡ some (d, false)
  unfolding push_head
  push_full v e = ground (arith, unpacked, full_test)

  abbrev pub pushed : A → BufDequeue A
  pushed v = record d {
    head_tail = pack ((tail + length (xs ++ (v ∷ []))) % 2 ^ 32) tail;
    vals = set d.vals ((tail + length xs) % 2 ^ bits) (some v);
  }

  pub pushed_lem : (v : A) → length xs < 2 ^ bits → push_head [] d v ≡ some (pushed v, true)
  unfolding push_head
  pushed_lem v lt = ground (arith, unpacked, full_test, slot-head, length-append xs (v ∷ []))

  pushed_slots :
      (v : A)
      → length xs < 2 ^ bits
      → (j : ℕ) → j < 2 ^ bits
      → get_elem? (pushed v).vals ((tail + j) % 2 ^ bits) ≡ some (get_elem? (xs ++ (v ∷ [])) j)
  pushed_slots v lt j hj = elim (ℕ_discrete j (length xs)) [
    | yes e ↦
        rw (e, get_elem?-append_last xs v)
          (get_elem?-set_self d.vals ((tail + length xs) % 2 ^ bits) (some v)
            (rw size (mod-lt (tail + length xs) (size_bounds bits small).0)))
    | no ne ↦ rw (get_elem?-append_ne xs v j ne) (
        get_elem?-set_ne d.vals (some v)
          (position-ne (2 ^ bits) tail (length xs) j lt hj (λ e. ne (sym e)))
        ∙ slots j hj)
  ]

  pub pushed-Holds : (v : A) → length xs < 2 ^ bits → Holds (pushed v) (xs ++ (v ∷ []))
  pushed-Holds v lt = record {
    bits = bits;
    small = small;
    size = length-set d.vals ((tail + length xs) % 2 ^ bits) (some v) ∙ size;
    tail = tail;
    tail_in = tail_in;
    word = refl;
    fits = omega (arith, length-append xs (v ∷ []));
    slots = pushed_slots v lt;
  }

  -- A push to a ring with room puts the value behind those that are there.
  pub push_room :
      (v : A)
      → length xs < 2 ^ bits
      → (d' : BufDequeue A) × (push_head [] d v ≡ some (d', true)) × Holds d' (xs ++ (v ∷ []))
  push_room v lt = (pushed v, pushed_lem v lt, pushed-Holds v lt)

  -- The code's test for an empty ring.
  pub empty_test : (tail == head) ≡ (length xs == 0)
  empty_test = ground (arith, size_bounds bits small, position-ne (2 ^ 32) tail 0 (length xs))

  pub pop_empty : length xs ≡ 0 → pop_tail [] d ≡ some (d, none)
  unfolding pop_tail
  pop_empty e = ground (arith, unpacked, empty_test)

module _ {ℓ} {A : Type ℓ} (d : BufDequeue A) (x : A) (xs : List A) (h : Holds d (x ∷ xs)) where
  open h use {bits, small, size, tail, tail_in, word, fits, slots}

  abbrev pub popped : BufDequeue A
  popped = record d {
    head_tail = pack ((tail + length (x ∷ xs)) % 2 ^ 32) ((tail + 1) % 2 ^ 32);
    vals = set d.vals (tail % 2 ^ bits) none;
  }

  pub room : (1 ≤ 2 ^ bits) × (2 ^ bits ≤ 2 ^ 30)
  room = size_bounds bits small

  no_shift : (tail + 0) % 2 ^ bits ≡ tail % 2 ^ bits
  no_shift = ap (λ (t : ℕ). t % 2 ^ bits) (omega arith)

  at_tail : get_elem? d.vals (tail % 2 ^ bits) ≡ some (some x)
  at_tail = rw no_shift at (slots 0 room.0)

  -- The oldest value stands in the slot of the tail.
  slot-tail : slot_at d (slot_of d tail) ≡ some x
  slot-tail = ap (slot_at d) (slot-index d (x ∷ xs) h tail) ∙ ap held at_tail

  pub popped_lem : pop_tail [] d ≡ some (popped, some x)
  unfolding pop_tail
  popped_lem = ground (
    arith,
    unpacked d (x ∷ xs) h,
    empty_test d (x ∷ xs) h,
    slot-tail,
    slot-index d (x ∷ xs) h tail,
    advance_tail-pack (head d (x ∷ xs) h) tail,
  )

  -- The slots counted from the new tail.
  pub from_next : (j : ℕ) → ((tail + 1) % 2 ^ 32 + j) % 2 ^ bits ≡ (tail + suc j) % 2 ^ bits
  from_next j =
      sym (mod-add-mod ((tail + 1) % 2 ^ 32) (2 ^ bits) j)
      ∙ ap (λ (t : ℕ). (t + j) % 2 ^ bits) (index-mod bits (tail + 1) (omega arith))
      ∙ mod-add-mod (tail + 1) (2 ^ bits) j
      ∙ ap (λ (t : ℕ). t % 2 ^ bits) (omega arith)

  popped_slots :
      (j : ℕ)
      → j < 2 ^ bits
      → get_elem? popped.vals (((tail + 1) % 2 ^ 32 + j) % 2 ^ bits) ≡ some (get_elem? xs j)
  popped_slots j hj = elim (dec_lt (suc j) (2 ^ bits)) [
    | yes lt ↦ rw from_next (
        get_elem?-set_ne d.vals none (λ e.
          position-ne (2 ^ bits) tail 0 (suc j) room.0 lt (λ z. absurd (omega arith))
            (no_shift ∙ e))
        ∙ slots (suc j) lt)
    | no ge ↦
        let last : (tail + suc j) % 2 ^ bits ≡ tail % 2 ^ bits =
          ap (λ (t : ℕ). (tail + t) % 2 ^ bits) (omega arith) ∙ add-mod_right tail (2 ^ bits) in
        rw (from_next, last, get_elem?-none xs j (omega arith))
          (get_elem?-set_self d.vals (tail % 2 ^ bits) none (rw size (mod-lt tail room.0)))
  ]

  pub popped-Holds : Holds popped xs
  popped-Holds = record {
    bits = bits;
    small = small;
    size = length-set d.vals (tail % 2 ^ bits) none ∙ size;
    tail = (tail + 1) % 2 ^ 32;
    tail_in = omega arith;
    word = ap (λ t. pack t ((tail + 1) % 2 ^ 32)) (omega arith);
    fits = omega arith;
    slots = popped_slots;
  }

  -- A pop from a ring with a value takes the oldest and leaves the others, also where the indices
  -- wrap.
  pub pop_oldest : (d' : BufDequeue A) × (pop_tail [] d ≡ some (d', some x)) × Holds d' xs
  pop_oldest = (popped, popped_lem, popped-Holds)

-- A new ring is empty.
pub new-Holds {ℓ} : {A : Type ℓ} (k : ℕ) → k ≤ 30 → Holds (new_dequeue {A = A} (2 ^ k)) []
new-Holds {A} k h = record {
  bits = k;
  small = h;
  size = length-replicate (2 ^ k) none;
  tail = 0;
  tail_in = omega arith;
  word = sym (pack_lem 0 0 (omega arith) (omega arith));
  fits = omega arith;
  slots = λ j hj.
      get_elem?-replicate (2 ^ k) ((0 + j) % 2 ^ k) none (mod-lt (0 + j) (size_bounds k h).0);
}

-- The first push into a new ring.
pub push_new {ℓ} :
    {A : Type ℓ} (k : ℕ)
    → k ≤ 30
    → (v : A)
    → (d : BufDequeue A) × (push_head [] (new_dequeue (2 ^ k)) v ≡ some (d, true))
      × Holds d (v ∷ [])
unfolding new-Holds
push_new k h v = push_room (new_dequeue (2 ^ k)) [] (new-Holds k h) v (size_bounds k h).0
