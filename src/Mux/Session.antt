-- ===== src/Mux/Session.antt =====
-- mux.go, readSession, writeSession, ping and newMsg: one round of each of the goroutines.
pub mod Delivery
pub mod Pings
pub mod Only
pub mod Isolation
pub mod Announce
pub mod Safe
pub mod Accept
pub mod Broken
pub mod Blocking
pub mod Sending
pub mod Wire
pub mod Arrival
pub mod Serve
mod Tests
use nps_mux.Base.{
  ℕ, zero, suc, ◌+◌, ◌%◌, ◌^◌, Bool, true, false, ◌||◌, Option, none, some, ◌>>=◌, List, [], ◌∷◌,
  get_elem?, length, ◌++◌, ltb, ◌==◌, if◌then◌else◌,
}
use nps_mux.Flag.{
  mux_ping_flag, mux_new_conn_ok, mux_new_conn_fail, mux_new_msg, mux_new_msg_part, mux_msg_send_ok,
  mux_new_conn, mux_conn_close, mux_ping_return, mux_ping,
}
use nps_mux.Stream.{Writer, bytes}
use nps_mux.Packager.{
  MuxPackager, Payload, byte_slice, word, untyped_nil, mux_pack, mux_unpack, PackError,
}
use nps_mux.PriorityQueue.{try_pop}
use nps_mux.ConnQueue.{conn_push, conn_try_pop}
use nps_mux.SendWindow.{AllowAnswer, set_size}
use nps_mux.ReceiveWindow.{Measured, ReceiveError, receive_write}
use nps_mux.ReceiveWindow.Reader.{receive_stop}
use nps_mux.ConnMap.{get_conn, set_conn}
use nps_mux.Mux.{Conn, new_conn, Mux, put_conn, Supply, send_info, close_conn, close_mux}

-- `Write` with the report that it sends; the mux, and the error.
unfoldable pub write_conn :
    Supply → Measured → Mux → ℕ → List ℕ → ℕ → Bool → ℕ → Option (Mux × Option ReceiveError)
write_conn s t m ptr content l part id = do
  c ← get_elem? m.conns ptr
  (w, e, ack) ← receive_write [] t c.receive_window content l part
  let m₁ = put_conn m ptr (record c { receive_window = w })
  m₂ ← elim ack [ none ↦ some m₁ | some report ↦ send_info s mux_msg_send_ok id (word report) m₁ ]
  some (m₂, e)

-- `newMsg` for a flag that is muxNewMsg or muxNewMsgPart, on a connection that is not closed, and the
-- `Close` of the connection where that reports an error.
unfoldable pub new_msg : Supply → Measured → Mux → ℕ → MuxPackager → Option Mux
new_msg s t m ptr p = do
  (m', e) ←
      write_conn s t m ptr (bytes p.base.content) p.base.length (p.flag == mux_new_msg_part) p.id
  elim e [ none ↦ some m' | some x ↦ close_conn s m' ptr ]

-- What the reader goroutine then sends on an unbuffered channel, where it waits until that is received: a
-- ping's content to the goroutine that measures, the confirmation or the refusal to who opened the
-- connection, the signal to a writer. The signal to a reader is part of Push.
pub data Handoff : Type 0 where
  nothing : Handoff
  pong : List ℕ → Handoff
  confirms refuses signals : ℕ → Handoff

-- A message for a connection that is in the map and not closed.
unfoldable pub serve_conn :
    Supply → Measured → AllowAnswer → MuxPackager → Mux → ℕ → Conn → Option (Mux × Handoff)
serve_conn s t a p m ptr c =
    if p.flag == mux_new_msg || p.flag == mux_new_msg_part
    then (do m' ← new_msg s t m ptr p; some (m', nothing))
    else if p.flag == mux_new_conn_ok
    then some (m, confirms ptr)
    else if p.flag == mux_new_conn_fail
    then some (m, refuses ptr)
    else if p.flag == mux_msg_send_ok
    then (do
      (w, _, signal) ← set_size [] a c.send_window p.window
      some (put_conn m ptr (record c { send_window = w }), if signal then signals ptr else nothing))
    else if p.flag == mux_conn_close
    then some (
      put_conn m ptr
          (record c { closing_flag = true; receive_window = receive_stop c.receive_window }),
      nothing,
    )
    else some (m, nothing)

-- The reader goroutine from the `switch` on.
unfoldable pub dispatch :
    Supply → Measured → AllowAnswer → MuxPackager → Mux → Option (Mux × Handoff)
dispatch s t a p m =
    if p.flag == mux_new_conn
    then (do
      let ptr = length m.conns
      q ← conn_push m.waiting ptr
      some (record m { conns = m.conns ++ (new_conn p.id ∷ []); waiting = q }, nothing))
    else if p.flag == mux_ping_flag
    then (do
      m' ← send_info s mux_ping_return mux_ping (byte_slice (some (bytes p.base.content))) m
      some (m', nothing))
    else if p.flag == mux_ping_return
    then some (m, pong (bytes p.base.content))
    else elim (get_conn m.conn_map p.id) [
      | none ↦ some (m, nothing)
      | some ptr ↦ (do
        c ← get_elem? m.conns ptr
        if c.is_close then some (m, nothing) else serve_conn s t a p m ptr c)
    ]

-- A round of the reader goroutine: the mux, what is left of the stream, what is handed over, and whether
-- the loop goes on.
unfoldable pub read_round :
    Supply → Measured → AllowAnswer → Mux → List ℕ → Option (Mux × List ℕ × Handoff × Bool)
read_round s t a m src = if m.is_close then some (m, src, nothing, false) else (do
  u ← mux_unpack s.pack s.buf s.content src
  elim u.error [
    | some e ↦ (do (m', _) ← close_mux s.order m; some (m', u.rest, nothing, false))
    | none ↦ (do (m', h) ← dispatch s t a u.pack m; some (m', u.rest, h, true))
  ])

-- A round of the writer goroutine in which a message waits, or `Pop` returns nil from a stopped queue,
-- which is a nil dereference if the mux is not closed.
unfoldable pub write_session_round : Supply → Mux → Writer → Option (Mux × Writer × Bool)
write_session_round s m w = if m.is_close then some (m, w, false) else (do
  (q, val) ← try_pop m.write_queue
  let m₁ = record m { write_queue = q }
  p ← val
  (_, w', e) ← mux_pack p w
  elim e [
    | none ↦ some (m₁, w', true)
    | some x ↦ (do (m₂, _) ← close_mux s.order m₁; some (m₂, w', false))
  ])

-- The goroutine that announces the connections of the other side, where one waits: the mux, and the connection
-- that it then offers to `Accept` on `newConnCh`, where it waits until that is received.
unfoldable pub offer_round : Mux → Option (Mux × Option ℕ)
offer_round m = if m.is_close then some (m, none) else (do
  (q, val) ← conn_try_pop m.waiting
  ptr ← val
  c ← get_elem? m.conns ptr
  some (record m { waiting = q; conn_map = set_conn m.conn_map c.conn_id (some ptr) }, some ptr))

-- The same goroutine, once `Accept` has got the connection.
unfoldable pub confirm_round : Supply → Mux → ℕ → Option Mux
confirm_round s m ptr = do
  c ← get_elem? m.conns ptr
  send_info s mux_new_conn_ok c.conn_id untyped_nil m

-- A whole round of it, with an `Accept` that waits: the mux, and the connection that `Accept` gets.
unfoldable pub accept_round : Supply → Mux → Option (Mux × Option ℕ)
accept_round s m = do
  (m₁, got) ← offer_round m
  elim got [
    | none ↦ some (m₁, none)
    | some ptr ↦ (do m₂ ← confirm_round s m₁ ptr; some (m₂, some ptr))
  ]

-- A tick of the ping goroutine, with the time as text; the mux, and whether the loop goes on.
unfoldable pub ping_round : Supply → List ℕ → Mux → Option (Mux × Bool)
ping_round s now m =
    if m.is_close
    then some (m, false)
    else if ltb m.ping_check_threshold m.ping_check_time
    then (do (m', _) ← close_mux s.order m; some (m', false))
    else (do
      m' ← send_info s mux_ping_flag mux_ping (byte_slice (some now)) m
      some (record m' { ping_check_time = (m'.ping_check_time + 1) % 2 ^ 32 }, true))

-- The goroutine that measures, on an answer.
abbrev pub pong_round : Mux → Mux
pong_round m = record m { ping_check_time = 0 }
