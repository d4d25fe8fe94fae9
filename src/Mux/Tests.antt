-- ===== src/Mux/Tests.antt =====
-- A mux with one connection, of id 1.
use nps_mux.Base.{
  mem, ℕ, zero, suc, ◌≤◌, ◌≡◌, refl, subst, arith, true, false, Option, none, some, List, [], ◌∷◌,
  length, get_elem?, replicate, length-replicate,
}
use native.Mathlib.Decide.{ℕ_discrete}
use nps_mux.Chain.Refine.{IsQueue, new-IsQueue}
use nps_mux.Flag.{mux_new_conn, mux_conn_close, pool_size_window}
use nps_mux.Stream.{nil_slice}
use nps_mux.Packager.{MuxPackager}
use nps_mux.PriorityQueue.{new_queue}
use nps_mux.PriorityQueue.Policy.{View, put}
use nps_mux.PriorityQueue.Refine.{Shows, no_messages, new-Shows}
use nps_mux.PriorityQueue.Wait.{Drained}
use nps_mux.ConnQueue.{new_conn_queue}
use nps_mux.ReceiveQueue.Count.{new-Counts, Counts-Holds}
use nps_mux.ReceiveQueue.{new_receive_queue}
use nps_mux.ReceiveWindow.{new_receive_window}
use nps_mux.ConnMap.{lookup, get_conn}
use nps_mux.ConnMap.Laws.{updated}
use nps_mux.ConnMap.FreshId.{last_id}
use nps_mux.Mux.{Conn, new_conn, Mux, Supply, close_mux, close_conn, open_conn}
use nps_mux.Mux.Send.{Ample}
use nps_mux.Mux.CloseConn.{Healthy, Closed}
use nps_mux.Mux.WellFormed.{Entry, WellFormed}
use nps_mux.Mux.CloseAll.{close_mux-Closed}
use nps_mux.Mux.Lifecycle.{close_conn-Closed, open_conn-Fresh}

abbrev pub one : Mux
one = record {
  id = 1;
  is_close = false;
  conn_map = (1, some 0) ∷ [];
  conns = new_conn 1 ∷ [];
  write_queue = new_queue;
  waiting = new_conn_queue;
  close_tokens = 0;
  accept_open = true;
  conn_open = true;
  ping_check_time = 0;
  ping_check_threshold = 60;
}

one-Entry : (id : ℕ) (v : Option ℕ) → lookup one.conn_map id ≡ some v → Entry one.conns id v
one-Entry id v e = elim (ℕ_discrete 1 id) [
  | yes same ↦ record {
    ptr = 0;
    conn = new_conn 1;
    value = ground (arith, e, same);
    stored = refl;
    conn_id = same;
    is_open = refl;
    fresh = refl;
  }
  | no other ↦ absurd (ground (arith, e, other))
]

one-Healthy : (ptr : ℕ) (c : Conn) → get_elem? one.conns ptr ≡ some c → Healthy c
unfolding new_receive_window
one-Healthy zero c e =
    let same : new_conn 1 ≡ c = ground (arith, e) in
    subst Healthy same ([], false, Counts-Holds new_receive_queue [] false new-Counts)
one-Healthy (suc ptr) c e = absurd (ground (arith, e))

pub one-WellFormed : WellFormed one
unfolding new_conn_queue
one-WellFormed = record {
  distinct = (refl, tt);
  entries = one-Entry;
  healthy = one-Healthy;
  view = no_messages;
  messages = new-Shows;
  line = [];
  arrivals = new-IsQueue 5 (omega arith);
  waiters = λ ptr e. absurd (ground (arith, e));
  apart = λ id ptr e. refl;
  unique = tt;
}

abbrev zeros : List ℕ
zeros = replicate pool_size_window 0

abbrev pub supply : Supply
supply = record {
  pack = record {
    flag = 0;
    id = 0;
    window = 0;
    base = record { buf = nil_slice; length = 0; content = nil_slice };
  };
  buf = zeros;
  content = zeros;
  order = 1 ∷ [];
}

length-zeros : length zeros ≡ pool_size_window
length-zeros = length-replicate {A = ℕ} pool_size_window 0

pub supply-Ample : Ample supply
supply-Ample = (length-zeros, length-zeros)

pub one_ordered : (i : ℕ) (v : Option ℕ) → lookup one.conn_map i ≡ some v → mem i (1 ∷ []) ≡ true
one_ordered i v e = ground (arith, e)

close_mux-Closed_example :
    (m' : Mux) × (close_mux (1 ∷ []) one ≡ some (m', false))
    × (m'.is_close ≡ true)
    × ((i : ℕ) → lookup m'.conn_map i ≡ none)
    × ((i ptr : ℕ) (c : Conn)
        → lookup one.conn_map i ≡ some (some ptr)
        → get_elem? one.conns ptr ≡ some c
        → (c' : Conn) × (get_elem? m'.conns ptr ≡ some c') × Closed c c')
    × (v : View) × Shows m'.write_queue v
    × Drained v
    × (v.stopped ≡ true)
    × IsQueue m'.waiting.chain []
    × (m'.waiting.stop ≡ true)
    × (m'.conn_open ≡ false)
    × (m'.accept_open ≡ false)
    × (close_mux (1 ∷ []) m' ≡ some (m', true))
close_mux-Closed_example = close_mux-Closed (1 ∷ []) one one-WellFormed refl one_ordered

close_conn-Closed_example :
    (m' : Mux) × (close_conn supply one 0 ≡ some m')
    × WellFormed m'
    × (c' : Conn) × (get_elem? m'.conns 0 ≡ some c')
    × Closed (new_conn 1) c'
    × ((i : ℕ) → lookup m'.conn_map i ≡ updated (lookup one.conn_map) 1 none i)
    × (p : MuxPackager) × (p.flag ≡ mux_conn_close)
    × (p.id ≡ 1)
    × Shows m'.write_queue (put one-WellFormed.view p)
    × (close_conn supply m' 0 ≡ some m')
close_conn-Closed_example =
    close_conn-Closed supply one supply-Ample refl one-WellFormed 1 0 (new_conn 1) refl refl

open_conn-Fresh_example :
    (m' : Mux) × (open_conn supply true one ≡ some (m', none, 1))
    × WellFormed m'
    × (1 ≤ m'.id)
    × (m'.id ≤ last_id)
    × (get_conn one.conn_map m'.id ≡ none)
    × (get_elem? m'.conns 1 ≡ some (new_conn m'.id))
    × ((i : ℕ) → lookup m'.conn_map i ≡ updated (lookup one.conn_map) m'.id (some (some 1)) i)
    × (p : MuxPackager) × (p.flag ≡ mux_new_conn)
    × (p.id ≡ m'.id)
    × Shows m'.write_queue (put one-WellFormed.view p)
open_conn-Fresh_example =
    open_conn-Fresh supply one supply-Ample refl one-WellFormed true (omega arith) (omega arith)
