-- ===== src/Mux/Reached/Tests.antt =====
-- A new mux in which a connection is opened.
use nps_mux.Base.{
  ℕ, ◌≡◌, ◌++◌, refl, Bool, true, false, some, none, List, [], ◌∷◌, get_elem?, mem, ◌⊎◌,
}
use nps_mux.Dequeue.{push_head, pop_tail, unpack}
use nps_mux.Chain.{chain_push, chain_pop, new_chain_of}
use nps_mux.Packager.{MuxPackager, Unpacked, mux_unpack, mux_set}
use nps_mux.PriorityQueue.{push, try_pop, new_queue}
use nps_mux.ConnQueue.{conn_try_pop, new_conn_queue}
use nps_mux.ConnMap.{set_conn, get_id, get_conn, next_id}
use nps_mux.SendWindow.{AllowAnswer, taken}
use nps_mux.ReceiveWindow.{Measured}
use nps_mux.ReceiveWindow.Safe.{Queued}
use nps_mux.Mux.{
  Conn, Mux, new_mux, open_conn, send_info, close_mux, close_conn, release_mux, mux_closed,
}
use nps_mux.Mux.Tests.{supply, supply-Ample}
use nps_mux.Mux.Session.{Handoff, nothing, read_round, ping_round}
use nps_mux.Mux.Session.Blocking.{hands_over, wakes}
use nps_mux.Mux.Steps.{state, crashes, Reach, opens, shuts, start, next}
use nps_mux.Mux.Reached.{Reach-Entry, Reach-reads, Reach-ends}
use nps_mux.Mux.Over.{Over, closed_stays}

abbrev fresh : Mux
fresh = new_mux false 60

-- The mux after a NewConn that the other side confirms.
abbrev talking : Mux
talking = elim (open_conn supply true fresh) [ some (m, e, ptr) ↦ m | none ↦ fresh ]

opens_one : open_conn supply true fresh ≡ some (talking, none, 0)
unfolding open_conn new_mux get_id get_conn next_id send_info mux_set push chain_push new_queue
    new_chain_of push_head unpack
opens_one = refl

talking-Reach : Reach (state talking none (0 ∷ []))
talking-Reach = next (start false 60) (opens supply true none 0 supply-Ample opens_one) refl

names_one : get_conn talking.conn_map 1 ≡ some 0
unfolding open_conn new_mux get_id get_conn next_id send_info mux_set push chain_push new_queue
    new_chain_of push_head unpack set_conn
names_one = refl

Reach-Entry_example :
    (c : Conn) × (get_elem? talking.conns 0 ≡ some c)
    × (c.conn_id ≡ 1)
    × (c.is_close ≡ false)
    × (c.once ≡ false)
    × ((j : ℕ) → get_conn talking.conn_map j ≡ some 0 → j ≡ 1)
    × Queued c.receive_window.buf_queue
Reach-Entry_example = Reach-Entry (state talking none (0 ∷ [])) 1 0 talking-Reach names_one

abbrev slow : Measured
slow = record { product = 0; latency_gain = 0; low_fill = λ n rem size. n; limit = none }

-- Bytes that are no frame.
Reach-reads_example :
    (m' : Mux) × (rest : List ℕ) × (hand : Handoff) × (goes : Bool) × (read_round supply slow taken
        talking
        (1 ∷ 255 ∷ 3 ∷ [])
      ≡ some (m', rest, hand, goes))
    × (Reach (state m' none (0 ∷ [])) ⊎ (crashes none m' ≡ true))
    × ((got : List ℕ) × (got ++ rest ≡ 1 ∷ 255 ∷ 3 ∷ []))
    × (u : Unpacked MuxPackager) × (mux_unpack supply.pack supply.buf supply.content
          (1 ∷ 255 ∷ 3 ∷ [])
        ≡ some u)
    × ((hands_over u.pack ≡ true)
        ⊎ (wakes talking u.pack ≡ true)
        ⊎ (wakes talking u.pack ≡ false)
          × (hand ≡ nothing)
          × ((a' : AllowAnswer)
              → read_round supply slow a' talking (1 ∷ 255 ∷ 3 ∷ []) ≡ some (m', rest, hand, goes)))
Reach-reads_example =
    Reach-reads (state talking none (0 ∷ [])) supply slow taken (1 ∷ 255 ∷ 3 ∷ []) talking-Reach
      supply-Ample

Reach-ends_example :
    ((m₁ : Mux) × (again : Bool) × (close_mux (1 ∷ []) talking ≡ some (m₁, again))
      × (m₁.is_close ≡ true)
      × Reach (state m₁ none (0 ∷ [])))
    × ((m₂ : Mux) × (goes : Bool) × (ping_round supply (50 ∷ []) talking ≡ some (m₂, goes))
        × Reach (state m₂ none (0 ∷ [])))
    × ((ptr : ℕ)
        → mem ptr (0 ∷ []) ≡ true
        → (m₃ : Mux) × (close_conn supply talking ptr ≡ some m₃)
          × (close_conn supply m₃ ptr ≡ some m₃)
          × Reach (state m₃ none (0 ∷ [])))
Reach-ends_example =
    Reach-ends (state talking none (0 ∷ [])) supply (1 ∷ []) (50 ∷ []) talking-Reach supply-Ample
      refl

-- The mux after Close.
abbrev closed : Mux
closed = elim (close_mux [] fresh) [ some (m, again) ↦ m | none ↦ fresh ]

closes_it : close_mux [] fresh ≡ some (closed, false)
unfolding close_mux new_mux release_mux try_pop chain_pop new_queue new_chain_of pop_tail unpack
    conn_try_pop new_conn_queue
closes_it = refl

closed_is : closed.is_close ≡ true
unfolding close_mux new_mux release_mux try_pop chain_pop new_queue new_chain_of pop_tail unpack
    conn_try_pop new_conn_queue
closed_is = refl

opens_none : open_conn supply true closed ≡ some (closed, some mux_closed, 0)
unfolding open_conn
opens_none = rw closed_is refl

closed_stays_example :
    Over closed closed × ((state closed none []).held ≡ (state closed none []).held)
closed_stays_example =
    closed_stays (state closed none []) (state closed none [])
      (next (start false 60) (shuts [] false closes_it) refl) closed_is
      (opens supply true (some mux_closed) 0 supply-Ample opens_none)
