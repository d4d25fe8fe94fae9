-- ===== src/Chain/Tests.antt =====
-- A chain of one full ring.
use nps_mux.Base.{refl, [], ◌∷◌}
use nps_mux.Dequeue.Tests.{one_ring, one_ring-Holds}
use nps_mux.Chain.{BufChain}
use nps_mux.Chain.Refine.{IsQueue, last}

abbrev pub one_chain {ℓ} : {A : Type ℓ} → A → BufChain A
one_chain v = record { elts = one_ring v ∷ []; new_chain = 0 }

pub one_chain-IsQueue {ℓ} : {A : Type ℓ} (v : A) → IsQueue (one_chain v) (v ∷ [])
one_chain-IsQueue v = record { free = refl; segments = last (one_ring-Holds v) }
