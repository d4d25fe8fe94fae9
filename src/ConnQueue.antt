-- ===== src/ConnQueue.antt =====
-- queue.go, connQueue: the connections that the other side opened and nobody has accepted yet. A
-- `*conn` is any type `A`. Its field `starving` is never used, and is left out.
pub mod Pop
mod Tests
use nps_mux.Base.{Bool, true, false, Option, none, some, ◌>>=◌, List, [], ◌∷◌, if◌then◌else◌}
use nps_mux.Chain.{BufChain, new_chain_of, chain_push, chain_pop}

pub record ConnQueue {ℓ} (A : Type ℓ) : Type ℓ where
  pub chain : BufChain A
  pub stop : Bool

module _ {ℓ} {A : Type ℓ} where
  -- `New`
  unfoldable pub new_conn_queue : ConnQueue A
  new_conn_queue = record { chain = new_chain_of 32; stop = false }

  -- `Push`; the broadcast has no effect on the state.
  unfoldable pub conn_push : ConnQueue A → A → Option (ConnQueue A)
  conn_push q c = do chain ← chain_push q.chain c; some (record q { chain = chain })

  -- `TryPop`
  unfoldable pub conn_try_pop : ConnQueue A → Option (ConnQueue A × Option A)
  conn_try_pop q = do (chain, val) ← chain_pop q.chain; some (record q { chain = chain }, val)

  -- The second half of `Pop`, under the lock. `others` is what runs during each wait; after that
  -- nobody wakes the goroutine any more, which is `none`.
  conn_pop_locked : List (ConnQueue A → ConnQueue A) → ConnQueue A → Option (ConnQueue A × Option A)
  conn_pop_locked [] q = do
    (q', val) ← conn_try_pop q
    elim val [ some c ↦ some (q', some c) | none ↦ if q'.stop then some (q', none) else none ]
  conn_pop_locked (other ∷ others) q = do
    (q', val) ← conn_try_pop q
    let rest = conn_pop_locked others (other q')
    elim val [ some c ↦ some (q', some c) | none ↦ if q'.stop then some (q', none) else rest ]

  -- `Pop`: two attempts with a `Gosched` between them, in which `other` runs, then the waiting loop.
  unfoldable pub conn_pop :
      (ConnQueue A → ConnQueue A)
      → List (ConnQueue A → ConnQueue A)
      → ConnQueue A
      → Option (ConnQueue A × Option A)
  unfolding conn_pop_locked
  conn_pop other others q = do
    (q', val) ← conn_try_pop q
    elim val [
      | some c ↦ some (q', some c)
      | none ↦ if q'.stop then some (q', none) else (do
        (q'', val') ← conn_try_pop (other q')
        elim val' [
          | some c ↦ some (q'', some c)
          | none ↦ if q''.stop then some (q'', none) else conn_pop_locked others q''
        ])
    ]

  -- `Stop`
  unfoldable pub stop_conn_queue : ConnQueue A → ConnQueue A
  stop_conn_queue q = record q { stop = true }
