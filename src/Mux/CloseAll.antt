-- ===== src/Mux/CloseAll.antt =====
-- `Mux.Close`: every connection of the map is closed, and nothing waits any more.
use nps_mux.Base.{
  mem, ℕ, ◌+◌, ◌≡◌, refl, ap, ◌∙◌, arith, true, false, Option, none, some, List, [], get_elem?,
  if◌then◌else◌, Option-cases, inl, inr,
}
use nps_mux.Chain.Refine.{IsQueue}
use nps_mux.PriorityQueue.{PriorityQueue, stop_queue}
use nps_mux.PriorityQueue.Policy.{View}
use nps_mux.PriorityQueue.Refine.{Shows}
use nps_mux.PriorityQueue.Wait.{Drained}
use nps_mux.ConnQueue.{stop_conn_queue}
use nps_mux.ConnMap.{lookup}
use nps_mux.Mux.{Conn, Mux, close_mux}
use nps_mux.Mux.CloseConn.{Closed}
use nps_mux.Mux.WellFormed.{WellFormed, Follows, same-Follows}
use nps_mux.Mux.Drain.{release_mux-Drained}
use nps_mux.Mux.Shuts.{close_conns-Shuts}

pub marked-Follows : (m : Mux) → (h : WellFormed m) → Follows m h (record m { is_close = true })
marked-Follows m h =
    same-Follows m (record m { is_close = true }) h refl refl refl h.view h.messages

none_left :
    (order : List ℕ) (m : Mux)
    → ((i : ℕ) (v : Option ℕ) → lookup m.conn_map i ≡ some v → mem i order ≡ true)
    → (i : ℕ) → (if mem i order then none else lookup m.conn_map i) ≡ none
none_left order m complete i = elim (Option-cases (lookup m.conn_map i)) [
  | inl missing ↦ ground (arith, missing)
  | inr (v, there) ↦ ground (arith, complete i v there)
]

pub stopped-Shows :
    (q : PriorityQueue) (v : View) → Shows q v → Shows (stop_queue q) (record v { stopped = true })
unfolding stop_queue
stopped-Shows q v s = record {
  highs = s.highs;
  middles = s.middles;
  lows = s.lows;
  starved = s.starved;
  stopped = refl;
}

-- Close of an open, well-formed mux, with any number of connections, always ends, in whatever order
-- Go ranges over the map: it closes each connection of the map with both its windows and an empty
-- queue, empties the map, leaves both queues stopped and empty and the connection and newConnCh
-- closed, and a second Close returns the error and changes nothing.
pub close_mux-Closed :
    (order : List ℕ) (m : Mux)
    → WellFormed m
    → m.is_close ≡ false
    → ((i : ℕ) (v : Option ℕ) → lookup m.conn_map i ≡ some v → mem i order ≡ true)
    → (m' : Mux) × (close_mux order m ≡ some (m', false))
      × (m'.is_close ≡ true)
      × ((i : ℕ) → lookup m'.conn_map i ≡ none)
      × ((i ptr : ℕ) (c : Conn)
          → lookup m.conn_map i ≡ some (some ptr)
          → get_elem? m.conns ptr ≡ some c
          → (c' : Conn) × (get_elem? m'.conns ptr ≡ some c') × Closed c c')
      × (v : View) × Shows m'.write_queue v
      × Drained v
      × (v.stopped ≡ true)
      × IsQueue m'.waiting.chain []
      × (m'.waiting.stop ≡ true)
      × (m'.conn_open ≡ false)
      × (m'.accept_open ≡ false)
      × (close_mux order m' ≡ some (m', true))
unfolding close_mux stop_conn_queue
close_mux-Closed order m h running complete =
    let (m₁, eq, s) =
      close_conns-Shuts order (record m { is_close = true }) (marked-Follows m h).sound refl in
    let m₂ : Mux = record m₁ {
      close_tokens = m₁.close_tokens + 1;
      accept_open = false;
      conn_open = false;
    } in
    let (q, w, eq', v, sv, over, hw) =
      release_mux-Drained m₂ s.follows.sound.view s.follows.sound.line s.follows.sound.messages
        s.follows.sound.arrivals in
    let shut : m₁.is_close ≡ true = ap (λ t. t.is_close) s.rest in
    (
      record m₂ { write_queue = stop_queue q; waiting = stop_conn_queue w },
      ground (arith, running, eq, eq'),
      shut,
      λ i. s.gone i ∙ none_left order m complete i,
      λ i ptr c f e. s.shuts i ptr c f e (complete i (some ptr) f),
      record v { stopped = true },
      stopped-Shows q v sv,
      over,
      refl,
      hw,
      refl,
      refl,
      refl,
      ground (arith, shut),
    )
