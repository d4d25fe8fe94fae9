-- ===== src/Mux.antt =====
-- mux.go, Mux, and conn.go, conn: the connections of a mux, how they are opened and closed, and sendInfo. A
-- `*conn` is an index into `conns`, so that the map and the callers share it. What `select` and the
-- unbuffered channels answer is an argument.
pub mod Session
pub mod Send
pub mod CloseConn
pub mod WellFormed
pub mod Drain
pub mod Shuts
pub mod CloseAll
pub mod Lifecycle
pub mod PutConn
pub mod Follows
pub mod Io
pub mod Calls
pub mod Deadlines
pub mod Steps
pub mod Reached
pub mod Over
pub mod Tests
use nps_mux.Base.{
  ℕ, zero, suc, ◌+◌, ◌%◌, ◌^◌, Bool, true, false, Option, none, some, ◌>>=◌, List, [], ◌∷◌, ◌++◌,
  length, get_elem?, set, ltb, ◌==◌, if◌then◌else◌,
}
use nps_mux.Flag.{mux_new_conn, mux_conn_close}
use nps_mux.Packager.{MuxPackager, Payload, untyped_nil, mux_set}
use nps_mux.PriorityQueue.{PriorityQueue, new_queue, push, try_pop, stop_queue}
use nps_mux.ConnQueue.{ConnQueue, new_conn_queue, conn_try_pop, stop_conn_queue}
use nps_mux.SendWindow.{SendWindow, new_send_window}
use nps_mux.ReceiveWindow.{ReceiveWindow, new_receive_window}
use nps_mux.ReceiveWindow.Reader.{receive_close, capacity}
use nps_mux.ConnMap.{ConnMap, new_conn_map, lookup, set_conn, delete_conn, get_id}

pub record Conn : Type 0 where
  pub conn_id : ℕ
  pub is_close : Bool
  pub closing_flag : Bool
  pub receive_window : ReceiveWindow
  pub send_window : SendWindow
  pub once : Bool

-- `NewConn` of conn.go
abbrev pub new_conn : ℕ → Conn
new_conn id = record {
  conn_id = id;
  is_close = false;
  closing_flag = false;
  receive_window = new_receive_window;
  send_window = new_send_window;
  once = false;
}

-- `close_tokens` are those in `closeChan`; `accept_open` is that `newConnCh` is not closed, `conn_open` that
-- the underlying connection is not.
pub record Mux : Type 0 where
  pub id : ℕ
  pub is_close : Bool
  pub conn_map : ConnMap ℕ
  pub conns : List Conn
  pub write_queue : PriorityQueue
  pub waiting : ConnQueue ℕ
  pub close_tokens : ℕ
  pub accept_open : Bool
  pub conn_open : Bool
  pub ping_check_time : ℕ
  pub ping_check_threshold : ℕ

-- `NewMux`, without its goroutines; a threshold of 0 stands for any that is not positive.
unfoldable pub new_mux : Bool → ℕ → Mux
new_mux kcp threshold = record {
  id = 0;
  is_close = false;
  conn_map = new_conn_map;
  conns = [];
  write_queue = new_queue;
  waiting = new_conn_queue;
  close_tokens = 0;
  accept_open = true;
  conn_open = true;
  ping_check_time = 0;
  ping_check_threshold = if threshold == 0 then if kcp then 20 else 60 else 0;
}

abbrev pub put_conn : Mux → ℕ → Conn → Mux
put_conn m ptr c = record m { conns = set m.conns ptr c }

-- `closeProcess`; `notice` is what sends muxConnClose to the other side.
unfoldable pub close_process : (Mux → ℕ → Option Mux) → Mux → ℕ → Option Mux
close_process notice m ptr = do
  c ← get_elem? m.conns ptr
  let m₁ = record (put_conn m ptr (record c { is_close = true })) {
    conn_map = delete_conn m.conn_map c.conn_id;
  }
  m₂ ← if m₁.is_close then some m₁ else notice m₁ c.conn_id
  c' ← get_elem? m₂.conns ptr
  r ← receive_close c'.receive_window
  some (
      put_conn m₂ ptr
        (record c' { send_window = record c'.send_window { close_op = true }; receive_window = r }))

-- `conn.Close`
unfoldable pub close_once : (Mux → ℕ → Option Mux) → Mux → ℕ → Option Mux
close_once notice m ptr = do
  c ← get_elem? m.conns ptr
  if c.once then some m else close_process notice (put_conn m ptr (record c { once = true })) ptr

-- `connMap.Close` on a mux that is marked as closed, so that no notice is sent. Go ranges over the keys
-- in any order and leaves out those that are deleted meanwhile. A nil `*conn` is a panic.
pub close_conns : List ℕ → Mux → Option Mux
close_conns [] m = some m
close_conns (id ∷ ids) m = elim (lookup m.conn_map id) [
  | none ↦ close_conns ids m
  | some none ↦ none
  | some (some ptr) ↦ (do m' ← close_once (λ n i. some n) m ptr; close_conns ids m')
]

-- The first loop of `release`; the fuel is one more than the slots of the three chains.
drain_packs : ℕ → PriorityQueue → Option PriorityQueue
drain_packs zero q = none
drain_packs (suc fuel) q = do
  (q', val) ← try_pop q
  elim val [ none ↦ some q' | some p ↦ drain_packs fuel q' ]

drain_conns : ℕ → ConnQueue ℕ → Option (ConnQueue ℕ)
drain_conns zero q = none
drain_conns (suc fuel) q = do
  (q', val) ← conn_try_pop q
  elim val [ none ↦ some q' | some c ↦ drain_conns fuel q' ]

abbrev pub slots : PriorityQueue → ℕ
slots q =
    capacity q.highest_chain.elts + capacity q.middle_chain.elts + capacity q.lowest_chain.elts

-- `Mux.release`
unfoldable pub release_mux : Mux → Option Mux
unfolding drain_packs drain_conns
release_mux m = do
  q ← drain_packs (suc (slots m.write_queue)) m.write_queue
  w ← drain_conns (suc (capacity m.waiting.chain.elts)) m.waiting
  some (record m { write_queue = stop_queue q; waiting = stop_conn_queue w })

-- `Mux.Close` with the order in which Go ranges over the map: the mux, and whether it was already closed.
unfoldable pub close_mux : List ℕ → Mux → Option (Mux × Bool)
unfolding close_conns
close_mux order m = if m.is_close then some (m, true) else (do
  m₁ ← close_conns order (record m { is_close = true })
  m₂ ←
      release_mux
        (record m₁ { close_tokens = m₁.close_tokens + 1; accept_open = false; conn_open = false })
  some (m₂, false))

-- What `muxPack.Get` and `windowBuff.Get` hand out, and the order of a range over the map.
pub record Supply : Type 0 where
  pub pack : MuxPackager
  pub buf : List ℕ
  pub content : List ℕ
  pub order : List ℕ

-- `sendInfo`
unfoldable pub send_info : Supply → ℕ → ℕ → Payload → Mux → Option Mux
send_info s flag id payload m = if m.is_close then some m else (do
  (p, e) ← mux_set s.pack flag id payload s.buf s.content
  elim e [
    | some x ↦ (do (m', _) ← close_mux s.order m; some m')
    | none ↦ (do q ← push m.write_queue p; some (record m { write_queue = q }))
  ])

-- `conn.Close`
unfoldable pub close_conn : Supply → Mux → ℕ → Option Mux
close_conn s m ptr = close_once (λ n id. send_info s mux_conn_close id untyped_nil n) m ptr

pub data OpenError : Type 0 where
  mux_closed refused : OpenError

-- `Mux.NewConn`: the mux, and the connection or the error. `confirmed` is whether the other side answers
-- before the timer ends.
unfoldable pub open_conn : Supply → Bool → Mux → Option (Mux × Option OpenError × ℕ)
open_conn s confirmed m = if m.is_close then some (m, some mux_closed, 0) else (do
  id ← get_id m.conn_map m.id
  let ptr = length m.conns
  let m₁ = record m {
    id = id;
    conns = m.conns ++ (new_conn id ∷ []);
    conn_map = set_conn m.conn_map id (some ptr);
  }
  m₂ ← send_info s mux_new_conn id untyped_nil m₁
  some (m₂, if confirmed then none else some refused, ptr))
