-- ===== src/ReceiveQueue.antt =====
-- queue.go, listElement and receiveWindowQueue: what has arrived for a connection and is not yet read.
-- `stopOp`, `readOp` and the timer are modelled by what a `select` on them answers.
pub mod Count
pub mod Runs
pub mod Wait
mod Tests
use nps_mux.Base.{
  ℕ, ◌+◌, ◌-◌, ◌*◌, ◌%◌, ◌^◌, Bool, true, false, Option, none, some, ◌>>=◌, List, [], ◌∷◌, length,
  ◌==◌, if◌then◌else◌, Round, leave, again, cas_loop, ◌⊎◌, inl, inr,
}
use nps_mux.Dequeue.{unpack, pack, dequeue_bits}
use nps_mux.Chain.{BufChain, new_chain_of, chain_push, chain_pop}

pub record ListElement : Type 0 where
  pub buf : List ℕ
  pub l : ℕ
  pub part : Bool

-- `Reset`; a nil slice is empty here.
unfoldable pub reset_element : ListElement → ListElement
reset_element e = record { buf = []; l = 0; part = false }

-- `newListElement`; `none` is the error that the length does not match.
unfoldable pub new_list_element : List ℕ → ℕ → Bool → Option ListElement
new_list_element buf l part =
    if length buf % 2 ^ 16 == l then some (record { buf = buf; l = l; part = part }) else none

pub record ReceiveQueue : Type 0 where
  pub length_wait : ℕ
  pub chain : BufChain ListElement
  pub stop_tokens : ℕ
  -- in nanoseconds after the zero Time
  pub timeout : ℕ

unfoldable pub new_receive_queue : ReceiveQueue
new_receive_queue = record {
  length_wait = 0;
  chain = new_chain_of 64;
  stop_tokens = 0;
  timeout = 0;
}

-- One round of the loop of `Push`; it leaves with whether a reader waited.
push_length_round : ℕ → (ReceiveQueue → ReceiveQueue) → ReceiveQueue → Round ReceiveQueue Bool
push_length_round l other q =
    let ptrs = q.length_wait in
    let (len, wait) = unpack ptrs in
    let q' = other q in
    let sum = (len + l) % 2 ^ 32 in
    if q'.length_wait == ptrs
    then leave (record q' { length_wait = pack sum 0 }) (wait == 1)
    else again q'

-- `Push`, and whether it calls `allowPop`. `others` acts between the load and the CompareAndSwap.
unfoldable pub receive_push :
    List (ReceiveQueue → ReceiveQueue) → ReceiveQueue → ListElement → Option (ReceiveQueue × Bool)
unfolding cas_loop push_length_round
receive_push others q e = do
  (q', waited) ← cas_loop (push_length_round e.l) others q
  c ← chain_push q'.chain e
  some (record q' { chain = c }, waited)

-- `atomic.AddUint64(&Self.lengthWait, ^(uint64(element.L)<<dequeueBits - 1))`
unfoldable pub less_length : ℕ → ℕ → ℕ
less_length ptrs l = (ptrs + (2 ^ 64 - 1 - (l * 2 ^ dequeue_bits + (2 ^ 64 - 1)) % 2 ^ 64)) % 2 ^ 64

-- `TryPop`
unfoldable pub receive_try_pop : ReceiveQueue → Option (ReceiveQueue × Option ListElement)
receive_try_pop q = do
  (c, val) ← chain_pop q.chain
  elim val [
    | some e ↦ some (record q { chain = c; length_wait = less_length q.length_wait e.l }, some e)
    | none ↦ some (record q { chain = c }, none)
  ]

-- `Len`
unfoldable pub receive_len : ReceiveQueue → ℕ
receive_len q = (unpack q.length_wait).0

-- How `waitPush` ends: a pusher signals, a token to stop arrives, or the timer fires.
pub data WaitEnd : Type 0 where
  readable stopped timed_out : WaitEnd

pub data PopError : Type 0 where
  eof read_timeout : PopError

-- `waitPush`
abbrev pub wait_push : WaitEnd → Option PopError
wait_push readable = none
wait_push stopped = some eof
wait_push timed_out = some read_timeout

-- What happens around one pause of `Pop`: what the others do before the wait flag is set, or while the
-- goroutine yields; what they do during the wait; and how the wait ends.
pub record Pause : Type 0 where
  pub before : ReceiveQueue → ReceiveQueue
  pub during : ReceiveQueue → ReceiveQueue
  pub ends : WaitEnd

-- The second half of `Pop`: it yields for as long as the element is Announced and not yet there.
pop_element :
    List Pause → ReceiveQueue → Option (List Pause × ReceiveQueue × (ListElement ⊎ PopError))
pop_element [] q = do
  (q', val) ← receive_try_pop q
  elim val [ some e ↦ some ([], q', inl e) | none ↦ none ]
pop_element (t ∷ ts) q = do
  (q', val) ← receive_try_pop q
  let later = pop_element ts (t.before q')
  elim val [ some e ↦ some (t ∷ ts, q', inl e) | none ↦ later ]

-- `Pop`; `none`: the pauses are used up and the reader still waits.
unfoldable pub receive_pop :
    List Pause → ReceiveQueue → Option (List Pause × ReceiveQueue × (ListElement ⊎ PopError))
unfolding pop_element
receive_pop [] q = if receive_len q == 0 then none else pop_element [] q
receive_pop (t ∷ ts) q =
    let moved = t.before q in
    let asleep = t.during (record moved { length_wait = pack 0 1 }) in
    let retry = receive_pop ts moved in
    let resume = receive_pop ts asleep in
    if receive_len q == 0
    then if moved.length_wait == q.length_wait
      then elim (wait_push t.ends) [ some e ↦ some (ts, asleep, inr e) | none ↦ resume ]
      else retry
    else pop_element (t ∷ ts) q

-- `Stop`: two tokens into `stopOp`, for a reader and for a pusher that are blocked.
unfoldable pub stop_receive_queue : ReceiveQueue → ReceiveQueue
stop_receive_queue q = record q { stop_tokens = q.stop_tokens + 2 }

-- `SetTimeOut`
unfoldable pub set_queue_timeout : ℕ → ReceiveQueue → ReceiveQueue
set_queue_timeout t q = record q { timeout = t }
