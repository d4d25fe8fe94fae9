-- ===== src/PriorityQueue/Tests.antt =====
-- A queue in which one message of content waits, and a queue that is stopped.
use nps_mux.Base.{
  ℕ, ◌≡◌, ◌≢◌, refl, ap, arith, ◌≤◌, ◌⊎◌, true, false, Option, some, none, List, [], ◌∷◌, ◌++◌,
  length, cas_loop,
}
use nps_mux.Flag.{mux_new_msg, mux_new_conn, mux_ping_flag}
use nps_mux.Stream.{nil_slice}
use nps_mux.Packager.{MuxPackager}
use nps_mux.Dequeue.{pop_tail, pop_round, unpack}
use nps_mux.Chain.{chain_pop, new_chain_of}
use nps_mux.Chain.Refine.{new-IsQueue}
use nps_mux.Chain.Tests.{one_chain, one_chain-IsQueue}
use nps_mux.PriorityQueue.{PriorityQueue, new_queue, try_pop, pop, stop_queue, max_starving}
use nps_mux.PriorityQueue.Policy.{View, middle, low}
use nps_mux.PriorityQueue.Refine.{Shows, no_messages, new-Shows}
use nps_mux.PriorityQueue.Runs.{
  Op, enter, leave, run, run_view, returned, waiting, IsClassed, run-fifo, run-fair,
}
use nps_mux.PriorityQueue.Wait.{Closed, pop_nil}

abbrev packed : ℕ → ℕ → MuxPackager
packed f i = record {
  flag = f;
  id = i;
  window = 0;
  base = record { buf = nil_slice; length = 0; content = nil_slice };
}

abbrev text : MuxPackager
text = packed mux_new_msg 1

abbrev dial : MuxPackager
dial = packed mux_new_conn 2

abbrev ping : MuxPackager
ping = packed mux_ping_flag 3

abbrev busy : PriorityQueue
busy = record {
  highest_chain = new_chain_of 4;
  middle_chain = new_chain_of 32;
  lowest_chain = one_chain text;
  starving = 0;
  stop = false;
}

abbrev busy_view : View
busy_view = record no_messages { lows = text ∷ [] }

busy-Shows : Shows busy busy_view
busy-Shows = record {
  highs = new-IsQueue 2 (omega arith);
  middles = new-IsQueue 5 (omega arith);
  lows = one_chain-IsQueue text;
  starved = refl;
  stopped = refl;
}

busy-IsClassed : IsClassed busy_view
busy-IsClassed = record { highs = tt; middles = tt; lows = (refl, tt) }

text_waits : busy_view.lows ≢ []
text_waits e = absurd (omega (arith, ap length e))

abbrev calls : List Op
calls = enter dial ∷ enter ping ∷ leave ∷ leave ∷ leave ∷ leave ∷ []

abbrev answers : List (Option MuxPackager)
answers = some ping ∷ some dial ∷ some text ∷ none ∷ []

calls-answers : (run_view calls busy_view).1 ≡ answers
unfolding run_view
calls-answers = refl

run-fifo_example :
    (q : PriorityQueue) × (outs : List (Option MuxPackager)) × (run calls busy ≡ some (q, outs))
    × (v : View) × Shows q v
    × (returned middle outs ++ waiting middle v ≡ dial ∷ [])
run-fifo_example = run-fifo calls busy busy_view busy-Shows busy-IsClassed middle

run-fair_example :
    (q : PriorityQueue) × (outs : List (Option MuxPackager)) × (run calls busy ≡ some (q, outs))
    × ((1 ≤ length (returned low outs)) ⊎ (length (returned middle outs) ≤ max_starving))
run-fair_example = run-fair calls busy busy_view busy-Shows busy-IsClassed text_waits

-- Nothing waits in a new queue.
new_empty : try_pop new_queue ≡ some (new_queue, none)
unfolding new_queue try_pop chain_pop pop_tail pop_round cas_loop unpack new_chain_of
new_empty = refl

abbrev stopped_view : View
stopped_view = record no_messages { stopped = true }

stopped-Shows : Shows (stop_queue new_queue) stopped_view
unfolding stop_queue new_queue
stopped-Shows = record {
  highs = new-IsQueue 2 (omega arith);
  middles = new-IsQueue 5 (omega arith);
  lows = new-IsQueue 8 (omega arith);
  starved = refl;
  stopped = refl;
}

-- The queue is stopped while `Pop` yields.
stopped_pop : pop (λ q. stop_queue q) [] new_queue ≡ some (stop_queue new_queue, none)
unfolding pop try_pop chain_pop pop_tail pop_round cas_loop unpack new_chain_of stop_queue new_queue
stopped_pop = refl

stop-Keeps : (q : PriorityQueue) (v : View) → Shows q v → (v' : View) × Shows (stop_queue q) v'
unfolding stop_queue
stop-Keeps q v s = (
  record v { stopped = true },
  record {
    highs = s.highs;
    middles = s.middles;
    lows = s.lows;
    starved = s.starved;
    stopped = refl;
  },
)

pop_nil_example : Closed (stop_queue new_queue)
pop_nil_example =
    pop_nil (λ q. stop_queue q) [] new_queue (stop_queue new_queue) no_messages stop-Keeps tt
      new-Shows stopped_pop
