-- ===== src/Mux/Session/Delivery.antt =====
-- The frame of a content arrives: from the bytes of the stream to the queue of the connection.
use nps_mux.Base.{
  ℕ, ◌+◌, ◌^◌, ◌≤◌, ◌<◌, ◌≡◌, refl, ◌∙◌, arith, Bool, true, false, Option, none, some, List, [],
  ◌∷◌, ◌++◌, length, get_elem?, if◌then◌else◌, Bool-cases, inl, inr,
}
use nps_mux.Flag.{mux_new_msg, mux_new_msg_part, mux_msg_send_ok, maximum_segment_size}
use nps_mux.Stream.{bytes}
use nps_mux.Packager.{MuxPackager, Unpacked, carries_bytes}
use nps_mux.Packager.Frame.{content, frame}
use nps_mux.Packager.Unpack.{Delivers, unpack-frame}
use nps_mux.PriorityQueue.{PriorityQueue}
use nps_mux.PriorityQueue.Policy.{View, put}
use nps_mux.PriorityQueue.Refine.{Shows}
use nps_mux.Window.{window_pack}
use nps_mux.Window.Word.{Fits31}
use nps_mux.ReceiveQueue.{ListElement}
use nps_mux.ReceiveQueue.Count.{Counts, total}
use nps_mux.SendWindow.{AllowAnswer}
use nps_mux.ReceiveWindow.{ReceiveWindow, Measured, receive_write}
use nps_mux.ReceiveWindow.Report.{receive_write-acked, acked, is_none}
use nps_mux.ConnMap.{get_conn}
use nps_mux.Mux.{Conn, Mux, put_conn, Supply}
use nps_mux.Mux.Send.{Ample, send_info-report}
use nps_mux.Mux.CloseConn.{get_elem?-set}
use nps_mux.Mux.Session.{nothing, write_conn, new_msg, serve_conn, dispatch, read_round}

abbrev pub content_flag : Bool → ℕ
content_flag part = if part then mux_new_msg_part else mux_new_msg

-- What a report, if there is one, adds to the messages to send.
abbrev pub Reported : Option ℕ → ℕ → View → View → Type 0
Reported none id v v' = v' ≡ v
Reported (some report) id v v' =
    (p : MuxPackager) × (p.flag ≡ mux_msg_send_ok)
    × (p.id ≡ id)
    × (p.window ≡ report)
    × (v' ≡ put v p)

-- What `UnPack` makes of such a frame.
unpacked :
    (part : Bool) (id : ℕ) (body rest : List ℕ) (u : Unpacked MuxPackager)
    → Delivers (content (content_flag part) id body) rest u
    → (u.pack.flag ≡ content_flag part)
      × (u.pack.id ≡ id)
      × (bytes u.pack.base.content ≡ body)
      × (u.pack.base.length ≡ length body)
unpacked true id body rest u d = elim (Bool-cases (carries_bytes u.pack.flag)) [
  | inl carries ↦ ground (arith, d.message, d.sized, carries)
  | inr plain ↦ absurd (ground (arith, d.message, plain))
]
unpacked false id body rest u d = elim (Bool-cases (carries_bytes u.pack.flag)) [
  | inl carries ↦ ground (arith, d.message, d.sized, carries)
  | inr plain ↦ absurd (ground (arith, d.message, plain))
]

content_flag_carries : (part : Bool) → carries_bytes (content_flag part) ≡ true
content_flag_carries true = refl
content_flag_carries false = refl

module _ (s : Supply) (t : Measured) (m : Mux) (ample : Ample s) (running : m.is_close ≡ false)
    (v : View) (h : Shows m.write_queue v) (id ptr : ℕ) (c : Conn)
    (found : get_conn m.conn_map id ≡ some ptr) (stored : get_elem? m.conns ptr ≡ some c)
    (is_open : c.is_close ≡ false) where
  -- The mux after a message: the window of its connection, and the queue with the report.
  abbrev pub told : ReceiveWindow → PriorityQueue → Mux
  told w q = record (put_conn m ptr (record c { receive_window = w })) { write_queue = q }

  -- The report of `Write` is sent.
  reports :
      (w : ReceiveWindow) (ack : Option ℕ) (body : List ℕ) (l : ℕ) (part : Bool)
      → receive_write [] t c.receive_window body l part ≡ some (w, none, ack)
      → (q : PriorityQueue) × (write_conn s t m ptr body l part id ≡ some (told w q, none))
        × (v' : View) × Shows q v'
        × Reported ack id v v'
  unfolding write_conn
  reports w none body l part ran = (m.write_queue, ground (arith, stored, ran), v, h, refl)
  reports w (some report) body l part ran =
      let m₁ = put_conn m ptr (record c { receive_window = w }) in
      let sends = send_info-report s m₁ v ample running h id report in
      (
        sends.queue,
        ground (arith, stored, ran, sends.result),
        put v sends.message,
        sends.shows,
        (sends.message, sends.flag_of, sends.id_of, sends.window_of, refl),
      )

  -- The `switch` finds the connection and calls `newMsg`.
  dispatches :
      (part : Bool) (a : AllowAnswer) (p : MuxPackager) (m' : Mux)
      → p.flag ≡ content_flag part
      → p.id ≡ id
      → write_conn s t m ptr (bytes p.base.content) p.base.length part p.id ≡ some (m', none)
      → dispatch s t a p m ≡ some (m', nothing)
  unfolding dispatch serve_conn new_msg
  dispatches true a p m' flag to wrote = ground (arith, flag, to, found, stored, is_open, wrote)
  dispatches false a p m' flag to wrote = ground (arith, flag, to, found, stored, is_open, wrote)

  module _ (size r : ℕ) (b : Bool) (xs : List ListElement) (rb : Bool)
      (open_still : c.receive_window.close_op ≡ false)
      (word : c.receive_window.max_size_done ≡ window_pack size r b) (hm : Fits31 size)
      (hr : Fits31 r) (counts : Counts c.receive_window.buf_queue xs rb) (part : Bool)
      (body : List ℕ) (inhabited : 1 ≤ length body) (small : length body ≤ maximum_segment_size)
      (room : total xs + length body < 2 ^ 32) (named : id < 2 ^ 32) where
    abbrev pub arrived : List ListElement
    arrived = xs ++ (record { buf = body; l = length body; part = part } ∷ [])

    -- The same with the mux written out.
    pub read_round_lem :
        (a : AllowAnswer) (rest : List ℕ)
        → (w : ReceiveWindow) × (q : PriorityQueue) × (read_round s t a m
              (frame (content (content_flag part) id body) ++ rest)
            ≡ some (told w q, rest, nothing, true))
          × Counts w.buf_queue arrived false
          × (w.close_op ≡ false)
          × (ack : Option ℕ) × (size' : ℕ) × (r' : ℕ) × (w.max_size_done
              ≡ window_pack size' r' (is_none ack))
          × (acked ack + r' ≡ r)
          × (v' : View) × Shows q v'
          × Reported ack id v v'
    unfolding read_round
    read_round_lem a rest =
        let (u, read, d) =
          unpack-frame (content (content_flag part) id body) s.pack s.buf s.content rest
            (content_flag_carries part, named, inhabited, small) ample.0 ample.1 in
        let (flag, to, bytes_of, long) = unpacked part id body rest u d in
        let (w, ack, wrote, size', r', packed, ledger, counts', _, _, still, _) =
          receive_write-acked t c.receive_window size r b body part xs rb open_still word hm hr
            counts (omega arith) room in
        let (q, sent, v', shows, reported) = reports w ack body (length body) part wrote in
        let dispatched =
          dispatches part a u.pack (told w q) flag to (ground (arith, sent, to, bytes_of, long)) in
        (
          w,
          q,
          ground (arith, running, read, d.quiet, d.left, dispatched),
          counts',
          still ∙ open_still,
          ack,
          size',
          r',
          packed,
          ledger,
          v',
          shows,
          reported,
        )

    -- The frame of a content of 1 to 4085 bytes at the front of the stream, for an open connection
    -- of an open mux: the round of the reader goroutine takes exactly the frame, puts the bytes at
    -- the end of the queue of that connection, hands nothing over beyond the signal of Push to a
    -- reader that waits, and goes on; what Write reports to the sender, if it does, is pushed as
    -- one message for that id, and what is reported and what is still to be reported are together
    -- what was to be reported before.
    pub read_round-frame :
        (a : AllowAnswer) (rest : List ℕ)
        → (m' : Mux) × (read_round s t a m (frame (content (content_flag part) id body) ++ rest)
            ≡ some (m', rest, nothing, true))
          × (w : ReceiveWindow) × (get_elem? m'.conns ptr ≡ some (record c { receive_window = w }))
          × Counts w.buf_queue
              (xs ++ (record { buf = body; l = length body; part = part } ∷ []))
              false
          × (ack : Option ℕ) × (size' : ℕ) × (r' : ℕ) × (w.max_size_done
              ≡ window_pack size' r' (is_none ack))
          × (acked ack + r' ≡ r)
          × (v' : View) × Shows m'.write_queue v'
          × Reported ack id v v'
    read_round-frame a rest =
        let (w, q, ran, counts', _, ack, size', r', packed, ledger, v', shows, reported) =
          read_round_lem a rest in
        (
          told w q,
          ran,
          w,
          get_elem?-set m.conns ptr c (record c { receive_window = w }) stored,
          counts',
          ack,
          size',
          r',
          packed,
          ledger,
          v',
          shows,
          reported,
        )
