-- ===== src/ConnQueue/Tests.antt =====
-- A queue with the connection 7, and a queue that is stopped while `Pop` yields.
use nps_mux.Base.{ℕ, ◌≡◌, refl, arith, true, some, none, List, [], cas_loop}
use nps_mux.Dequeue.{pop_tail, unpack}
use nps_mux.Chain.{chain_pop, new_chain_of}
use nps_mux.Chain.Refine.{IsQueue, new-IsQueue}
use nps_mux.Chain.Tests.{one_chain}
use nps_mux.ConnQueue.{ConnQueue, new_conn_queue, conn_try_pop, conn_pop, stop_conn_queue}

abbrev seven : ConnQueue ℕ
seven = record { chain = one_chain 7; stop = true }

nothing_waits : IsQueue (new_conn_queue {A = ℕ}).chain []
unfolding new_conn_queue
nothing_waits = new-IsQueue 5 (omega arith)

stop_keeps :
    (q : ConnQueue ℕ) (xs : List ℕ)
    → IsQueue q.chain xs
    → (ys : List ℕ) × IsQueue (stop_conn_queue q).chain ys
unfolding stop_conn_queue
stop_keeps q xs h = (xs, h)

stopped_pop :
    conn_pop (λ q. stop_conn_queue q) [] (new_conn_queue {A = ℕ})
    ≡ some (stop_conn_queue new_conn_queue, none)
unfolding conn_pop conn_try_pop chain_pop pop_tail cas_loop unpack new_chain_of stop_conn_queue
    new_conn_queue
stopped_pop = refl
