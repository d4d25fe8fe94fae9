-- ===== src/PriorityQueue.antt =====
-- queue.go, priorityQueue: three chains of packagers, and the rule by which the writer is served.
-- `cond` has no state of its own: a wait is a point at which the other goroutines run.
pub mod Policy
pub mod Refine
pub mod Runs
pub mod Wait
mod Tests
use nps_mux.Base.{
  ℕ, ◌+◌, ◌/◌, ◌%◌, ◌^◌, Bool, true, false, ◌||◌, Option, none, some, List, [], ◌∷◌, ltb, ◌==◌,
  if◌then◌else◌, ◌>>=◌,
}
use nps_mux.Flag.{mux_ping_flag, mux_ping_return, mux_new_conn, mux_new_conn_ok, mux_new_conn_fail}
use nps_mux.Packager.{MuxPackager}
use nps_mux.Chain.{BufChain, new_chain_of, chain_push, chain_pop}

pub record PriorityQueue : Type 0 where
  pub highest_chain : BufChain MuxPackager
  pub middle_chain : BufChain MuxPackager
  pub lowest_chain : BufChain MuxPackager
  pub starving : ℕ
  pub stop : Bool

unfoldable pub new_queue : PriorityQueue
new_queue = record {
  highest_chain = new_chain_of 4;
  middle_chain = new_chain_of 32;
  lowest_chain = new_chain_of 256;
  starving = 0;
  stop = false;
}

-- `push` and `Push`; the broadcast of `Push` has no effect on the state.
unfoldable pub push : PriorityQueue → MuxPackager → Option PriorityQueue
push q p =
    if p.flag == mux_ping_flag || p.flag == mux_ping_return
    then (do c ← chain_push q.highest_chain p; some (record q { highest_chain = c }))
    else if p.flag == mux_new_conn || (p.flag == mux_new_conn_ok || p.flag == mux_new_conn_fail)
    then (do c ← chain_push q.middle_chain p; some (record q { middle_chain = c }))
    else (do c ← chain_push q.lowest_chain p; some (record q { lowest_chain = c }))

abbrev pub max_starving : ℕ
max_starving = 8

-- `Self.starving++` on a uint8
abbrev pub more_starving : ℕ → ℕ
more_starving s = (s + 1) % 2 ^ 8

-- The end of `TryPop`: the middle chain once more.
try_middle_last : PriorityQueue → Option (PriorityQueue × Option MuxPackager)
try_middle_last q =
    if ltb 0 q.starving
    then (do
      (c, val) ← chain_pop q.middle_chain
      let q' = record q { middle_chain = c }
      elim val [
        | some p ↦ some (record q' { starving = more_starving q.starving }, some p)
        | none ↦ some (q', none)
      ])
    else some (q, none)

try_lowest : PriorityQueue → Option (PriorityQueue × Option MuxPackager)
try_lowest q = do
  (c, val) ← chain_pop q.lowest_chain
  let q' = record q { lowest_chain = c }
  elim val [
    | some p ↦
        some
          (record q' { starving = if ltb 0 q.starving then q.starving / 2 else q.starving }, some p)
    | none ↦ try_middle_last q'
  ]

try_middle : PriorityQueue → Option (PriorityQueue × Option MuxPackager)
try_middle q =
    if ltb q.starving max_starving
    then (do
      (c, val) ← chain_pop q.middle_chain
      let q' = record q { middle_chain = c }
      elim val [
        | some p ↦ some (record q' { starving = more_starving q.starving }, some p)
        | none ↦ try_lowest q'
      ])
    else try_lowest q

-- `TryPop`
unfoldable pub try_pop : PriorityQueue → Option (PriorityQueue × Option MuxPackager)
unfolding try_middle try_lowest try_middle_last
try_pop q = do
  (c, val) ← chain_pop q.highest_chain
  let q' = record q { highest_chain = c }
  elim val [ some p ↦ some (q', some p) | none ↦ try_middle q' ]

-- The second half of `Pop`, under the lock. `others` is what runs during each wait; after that
-- nobody wakes the goroutine any more, which is `none`.
pop_locked :
    List (PriorityQueue → PriorityQueue)
    → PriorityQueue
    → Option (PriorityQueue × Option MuxPackager)
pop_locked [] q = do
  (q', val) ← try_pop q
  elim val [ some p ↦ some (q', some p) | none ↦ if q'.stop then some (q', none) else none ]
pop_locked (other ∷ others) q = do
  (q', val) ← try_pop q
  let rest = pop_locked others (other q')
  elim val [ some p ↦ some (q', some p) | none ↦ if q'.stop then some (q', none) else rest ]

-- `Pop`: two attempts with a `Gosched` between them, in which `other` runs, then the waiting loop.
unfoldable pub pop :
    (PriorityQueue → PriorityQueue)
    → List (PriorityQueue → PriorityQueue)
    → PriorityQueue
    → Option (PriorityQueue × Option MuxPackager)
unfolding pop_locked
pop other others q = do
  (q', val) ← try_pop q
  elim val [
    | some p ↦ some (q', some p)
    | none ↦ if q'.stop then some (q', none) else (do
      (q'', val') ← try_pop (other q')
      elim val' [
        | some p ↦ some (q'', some p)
        | none ↦ if q''.stop then some (q'', none) else pop_locked others q''
      ])
  ]

unfoldable pub stop_queue : PriorityQueue → PriorityQueue
stop_queue q = record q { stop = true }
