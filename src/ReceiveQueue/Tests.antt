-- ===== src/ReceiveQueue/Tests.antt =====
-- Two bytes wait, and a reader that waits for three more.
use nps_mux.Base.{◌≡◌, refl, arith, Bool, true, false, none, some, List, [], ◌∷◌, inl}
use nps_mux.Dequeue.{pack}
use nps_mux.Chain.Tests.{one_chain, one_chain-IsQueue}
use nps_mux.ReceiveQueue.{
  ListElement, ReceiveQueue, new_receive_queue, receive_push, receive_pop, receive_len, readable,
}
use nps_mux.ReceiveQueue.Count.{Counts, new-Counts}
use nps_mux.ReceiveQueue.Wait.{asleep, pushes, receive_pop-push}
use nps_mux.ReceiveQueue.Runs.{Call, arrives, reads, run_calls, run_calls-fifo}

abbrev pair : ListElement
pair = record { buf = 1 ∷ 2 ∷ []; l = 2; part = false }

abbrev triple : ListElement
triple = record { buf = 3 ∷ 4 ∷ 5 ∷ []; l = 3; part = true }

abbrev filled : ReceiveQueue
filled = record { length_wait = pack 2 0; chain = one_chain pair; stop_tokens = 0; timeout = 0 }

filled-Counts : Counts filled (pair ∷ []) false
filled-Counts = record { queue = one_chain-IsQueue pair; word = refl; small = omega arith }

receive_pop-push_example :
    (q₁ : ReceiveQueue) × (receive_push [] (asleep new_receive_queue) triple ≡ some (q₁, true))
    × (q₂ : ReceiveQueue) × (receive_pop
          (record { before = λ s. s; during = pushes triple; ends = readable } ∷ [])
          new_receive_queue
        ≡ some ([], q₂, inl triple))
    × Counts q₂ [] false
receive_pop-push_example =
    receive_pop-push new_receive_queue false new-Counts [] triple (omega arith) (omega arith)

abbrev calls : List Call
calls = reads ∷ reads ∷ arrives triple ∷ []

run_calls-fifo_example :
    (q : ReceiveQueue) × (run_calls calls filled ≡ some (q, some pair ∷ none ∷ []))
    × (b : Bool) × Counts q (triple ∷ []) b
    × (receive_len q ≡ 3)
    × (pair ∷ triple ∷ [] ≡ pair ∷ triple ∷ [])
run_calls-fifo_example = run_calls-fifo calls filled (pair ∷ []) false filled-Counts (omega arith)
