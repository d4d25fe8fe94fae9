-- ===== src/Dequeue/Tests.antt =====
-- Rings of one and two slots.
use nps_mux.Base.{
  ℕ, zero, suc, ◌+◌, ◌%◌, ◌^◌, ◌≡◌, ◌<◌, refl, arith, true, some, none, [], ◌∷◌, get_elem?,
}
use nps_mux.Dequeue.{BufDequeue, pack, push_head, pop_tail}
use nps_mux.Dequeue.Refine.{Holds, pop_empty, new-Holds}
use nps_mux.Dequeue.Refine.Stale.{pop_stale}

-- A ring of one slot, full.
abbrev pub one_ring {ℓ} : {A : Type ℓ} → A → BufDequeue A
one_ring v = record { head_tail = pack 1 0; vals = some v ∷ []; starving = 0 }

pub one_ring-Holds {ℓ} : {A : Type ℓ} (v : A) → Holds (one_ring v) (v ∷ [])
one_ring-Holds v = record {
  bits = 0;
  small = omega arith;
  size = refl;
  tail = 0;
  tail_in = omega arith;
  word = refl;
  fits = omega arith;
  slots = at;
}
  where
    at :
        (j : ℕ)
        → j < 2 ^ 0
        → get_elem? (some v ∷ []) ((0 + j) % 2 ^ 0) ≡ some (get_elem? (v ∷ []) j)
    at zero h = refl
    at (suc j) h = absurd (omega arith)

-- Two slots, with the indices about to wrap: the tail is 2^32 - 1.
abbrev two_ring : BufDequeue ℕ
two_ring = record { head_tail = pack 1 4294967295; vals = some 8 ∷ some 7 ∷ []; starving = 0 }

two_ring-Holds : Holds two_ring (7 ∷ 8 ∷ [])
two_ring-Holds = record {
  bits = 1;
  small = omega arith;
  size = refl;
  tail = 4294967295;
  tail_in = omega arith;
  word = refl;
  fits = omega arith;
  slots = at;
}
  where
    at :
        (j : ℕ)
        → j < 2 ^ 1
        → get_elem? two_ring.vals ((4294967295 + j) % 2 ^ 1) ≡ some (get_elem? (7 ∷ 8 ∷ []) j)
    at zero h = refl
    at (suc zero) h = refl
    at (suc (suc j)) h = absurd (omega arith)

abbrev half_ring : BufDequeue ℕ
half_ring = record { head_tail = pack 0 4294967295; vals = none ∷ some 7 ∷ []; starving = 0 }

half_ring-Holds : Holds half_ring (7 ∷ [])
half_ring-Holds = record {
  bits = 1;
  small = omega arith;
  size = refl;
  tail = 4294967295;
  tail_in = omega arith;
  word = refl;
  fits = omega arith;
  slots = at;
}
  where
    at :
        (j : ℕ)
        → j < 2 ^ 1
        → get_elem? half_ring.vals ((4294967295 + j) % 2 ^ 1) ≡ some (get_elem? (7 ∷ []) j)
    at zero h = refl
    at (suc zero) h = refl
    at (suc (suc j)) h = absurd (omega arith)

abbrev empty_ring : BufDequeue ℕ
empty_ring = record { head_tail = 0; vals = none ∷ none ∷ none ∷ none ∷ []; starving = 0 }

pop_empty_example : pop_tail [] empty_ring ≡ some (empty_ring, none)
pop_empty_example = pop_empty empty_ring [] (new-Holds 2 (omega arith)) refl

pop_stale_example :
    (d₁ : BufDequeue ℕ) × (pop_tail [] two_ring ≡ some (d₁, some 7))
    × (d₂ : BufDequeue ℕ) × (push_head [] d₁ 9 ≡ some (d₂, true))
    × Holds d₂ (8 ∷ 9 ∷ [])
    × (d₃ : BufDequeue ℕ) × (pop_tail ((λ _. d₂) ∷ []) two_ring ≡ some (d₃, some 9))
pop_stale_example = pop_stale two_ring 7 8 9 [] two_ring-Holds refl
