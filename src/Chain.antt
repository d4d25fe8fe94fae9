-- ===== src/Chain.antt =====
-- queue.go, bufChain: a list of rings, each twice the size of the one before. Values are pushed to
-- the last ring and popped from the first. `elts` is what `tail` reaches by `next`; `head` is its
-- last element. `prev` is written and never read, and is left out.
pub mod Refine
pub mod Tests
use nps_mux.Base.{
  ℕ, ◌*◌, Bool, true, false, Option, none, some, List, [], ◌∷◌, length, ltb, leb, if◌then◌else◌,
  ◌>>=◌,
}
use nps_mux.Dequeue.{BufDequeue, push_head, pop_tail, new_dequeue, dequeue_limit}

pub record BufChain {ℓ} (A : Type ℓ) : Type ℓ where
  pub elts : List (BufDequeue A)
  pub new_chain : ℕ

-- The size of the ring that follows a full one.
abbrev pub next_size : ℕ → ℕ
next_size n = if leb dequeue_limit (n * 2) then dequeue_limit else n * 2

module _ {ℓ} {A : Type ℓ} where
  -- `new(initSize)`
  unfoldable pub new_chain_of : ℕ → BufChain A
  new_chain_of init_size = record { elts = new_dequeue init_size ∷ []; new_chain = 0 }

  -- A push to the last ring, with a new ring behind it if that one is full.
  push_last : List (BufDequeue A) → A → Option (List (BufDequeue A))
  push_last [] val = none
  push_last (d ∷ []) val = do
    (d', pushed) ← push_head [] d val
    if pushed then some (d' ∷ []) else (do
      (d2, _) ← push_head [] (new_dequeue (next_size (length d'.vals))) val
      some (d' ∷ d2 ∷ []))
  push_last (d ∷ e ∷ ds) val = do rest ← push_last (e ∷ ds) val; some (d ∷ rest)

  -- `pushHead`; `none` where the goroutine spins because `newChain` is taken.
  unfoldable pub chain_push : BufChain A → A → Option (BufChain A)
  unfolding push_last
  chain_push c val =
      if ltb 0 c.new_chain
      then none
      else (do elts ← push_last c.elts val; some (record c { elts = elts }))

  -- The loop of `popTail`: a ring that is empty and has a successor is dropped from the chain.
  pop_first : List (BufDequeue A) → Option (List (BufDequeue A) × Option A)
  pop_first [] = some ([], none)
  pop_first (d ∷ []) = do (d', val) ← pop_tail [] d; some (d' ∷ [], val)
  pop_first (d ∷ e ∷ ds) = do
    (d', val) ← pop_tail [] d
    let rest = pop_first (e ∷ ds)
    elim val [ some x ↦ some (d' ∷ e ∷ ds, some x) | none ↦ rest ]

  unfoldable pub chain_pop : BufChain A → Option (BufChain A × Option A)
  unfolding pop_first
  chain_pop c = do (elts, val) ← pop_first c.elts; some (record c { elts = elts }, val)
