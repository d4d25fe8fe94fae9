-- ===== src/Base/Atomic.antt =====
-- Loops of the form `load; compute; CompareAndSwap; retry`, run against other goroutines.
use mathlib.Core.Option.{Option, none, some}
use mathlib.Core.List.{List, [], ◌∷◌}

-- How one round of a loop ends: it leaves the loop with a result, or goes round again.
pub data Round {ℓ κ} (S : Type ℓ) (R : Type κ) : Type (ℓ ⊔ κ) where
  leave : S → R → Round S R
  again : S → Round S R

-- The body is given what the others do to the shared state between its load and its
-- CompareAndSwap, one entry of the list for each round. After the list they are quiet, and `none`
-- says that the body goes round again even then: it waits for a change that does not come.
unfoldable pub cas_loop {ℓ κ} :
    {S : Type ℓ} {R : Type κ} → ((S → S) → S → Round S R) → List (S → S) → S → Option (S × R)
cas_loop body [] s = elim (body (λ t. t) s) [ leave t r ↦ some (t, r) | again t ↦ none ]
cas_loop body (other ∷ others) s = elim (body other s) [
  | leave t r ↦ some (t, r)
  | again t ↦ cas_loop body others t
]
