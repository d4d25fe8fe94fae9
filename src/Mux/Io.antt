-- ===== src/Mux/Io.antt =====
-- conn.go, conn: `Read` and `Write`, and what is left of them after the other side has closed.
use nps_mux.Base.{
  ℕ, ◌+◌, ◌≤◌, ◌≡◌, sym, ap, ◌∙◌, drop, arith, true, false, Option, none, some, ◌>>=◌, List, [],
  ◌++◌, length, replicate, ◌==◌, if◌then◌else◌, Bool-cases, inl, inr, subst,
}
use nps_mux.Flag.{mux_conn_close}
use nps_mux.Packager.{MuxPackager}
use nps_mux.Window.Word.{Fits31}
use nps_mux.ReceiveQueue.{ListElement, stop_receive_queue}
use nps_mux.SendWindow.{SendWindow, AllowAnswer, Turn, Written, write_full}
use nps_mux.ReceiveWindow.{ReceiveWindow, Measured}
use nps_mux.ReceiveWindow.Reader.{Visit, Reading, receive_read, start_reading, receive_stop}
use nps_mux.ReceiveWindow.Reader.Unread.{bytes_of}
use nps_mux.ReceiveWindow.Reader.Rounds.{quiet, Ready, unread, ends_message, rounds}
use nps_mux.ReceiveWindow.Reader.Whole.{receive_read-unread}
use nps_mux.Mux.{Conn, Mux, put_conn, Supply}
use nps_mux.Mux.Session.{nothing, serve_conn}

pub data IoError : Type 0 where
  conn_closed write_on_closed : IoError

-- `Read` into a buffer of `room` bytes, where `none` is a nil buffer. The error of the connection itself
-- stands beside what the window reads.
unfoldable pub read_conn : List Visit → Conn → Option ℕ → Option (Conn × Reading × Option IoError)
read_conn visits c none = some (c, start_reading c.receive_window, some conn_closed)
read_conn visits c (some room) =
    if c.is_close
    then some (c, start_reading c.receive_window, some conn_closed)
    else if room == 0
    then some (c, start_reading c.receive_window, none)
    else (do
      r ← receive_read visits c.receive_window room
      some (record c { receive_window = r.window }, r, none))

abbrev pub nothing_written : SendWindow → Written
nothing_written w = record { window = w; n = 0; error = none; messages = [] }

-- `Write`
unfoldable pub write_conn_buf : List Turn → Conn → List ℕ → Option (Conn × Written × Option IoError)
write_conn_buf turns c buf =
    if c.is_close
    then some (c, nothing_written c.send_window, some conn_closed)
    else if c.closing_flag
    then some (c, nothing_written c.send_window, some write_on_closed)
    else if length buf == 0
    then some (c, nothing_written c.send_window, none)
    else (do
      r ← write_full turns c.send_window buf
      some (record c { send_window = r.window }, r, none))

stop_keeps_off : (w : ReceiveWindow) → (receive_stop w).off ≡ w.off
unfolding receive_stop
stop_keeps_off w = ground arith

stop-Ready :
    (w : ReceiveWindow) (cur : ListElement) (xs : List ListElement) (m p : ℕ)
    → Ready w cur xs m p
    → Ready (receive_stop w) cur xs m p
unfolding receive_stop stop_receive_queue
stop-Ready w cur xs m p h = elim (Bool-cases w.stop_once) [
  | inl again ↦ subst (λ t. Ready t cur xs m p) (ground (arith, again)) h
  | inr first ↦
      let stopped : ReceiveWindow = record w {
        stop_once = true;
        buf_queue = stop_receive_queue w.buf_queue;
      } in
      let ready : Ready stopped cur xs m p = record {
        element = h.element;
        inside = h.inside;
        sized = h.sized;
        short = h.short;
        open_still = h.open_still;
        wait = h.wait;
        word = h.word;
        fits = h.fits;
        reader = h.reader;
        counts = record { queue = h.counts.queue; word = h.counts.word; small = h.counts.small };
        formed = h.formed;
      } in
      subst (λ t. Ready t cur xs m p) (ground (arith, first)) ready
]

module _ (s : Supply) (t : Measured) (a : AllowAnswer) (p : MuxPackager) (mux : Mux) (ptr : ℕ)
    (c : Conn) (cur : ListElement) (xs : List ListElement) (m pending room : ℕ)
    (closing : p.flag ≡ mux_conn_close) (is_open : c.is_close ≡ false) (hm : Fits31 m)
    (h : Ready c.receive_window cur xs m pending) (pos : 1 ≤ room)
    (waits : 1 ≤ rounds c.receive_window cur xs) (last : ends_message cur xs ≡ true) where
  -- After muxConnClose from the other side every Write is refused and sends nothing, while Read
  -- with a buffer that is not empty still returns, without an error, the next bytes that had
  -- arrived before, where the queue ends with the last part of a message.
  pub serve_conn-farewell :
      (c' : Conn) × (serve_conn s t a p mux ptr c ≡ some (put_conn mux ptr c', nothing))
      × ((turns : List Turn) (buf : List ℕ)
          → write_conn_buf turns c' buf
            ≡ some (c', nothing_written c'.send_window, some write_on_closed))
      × (r : Reading) × (read_conn (replicate (rounds c.receive_window cur xs) quiet) c' (some room)
          ≡ some (record c' { receive_window = r.window }, r, none))
      × (r.error ≡ none)
      × (r.n ≡ length r.copied)
      × (1 ≤ r.n)
      × (r.n ≤ room)
      × (rest : List ℕ) × (r.copied ++ rest ≡ unread c.receive_window cur xs)
  unfolding serve_conn read_conn write_conn_buf
  serve_conn-farewell =
      let w = receive_stop c.receive_window in
      let off = stop_keeps_off c.receive_window in
      let ready = stop-Ready c.receive_window cur xs m pending h in
      let (r, eq, quiet_end, counted, some_bytes, few, cur', ys, p', _, got, _) =
        receive_read-unread w cur xs m pending room hm ready pos
          (subst (λ (o : ℕ). 1 ≤ (if o == cur.l then 0 else 1) + length xs) (sym off) waits) last in
      let ran =
        ap
          (λ (o : ℕ).
            receive_read (replicate ((if o == cur.l then 0 else 1) + length xs) quiet) w room)
          (sym off)
        ∙ eq in
      (
        record c { closing_flag = true; receive_window = w },
        ground (arith, closing),
        λ turns buf. ground (arith, is_open),
        r,
        ground (arith, is_open, pos, ran),
        quiet_end,
        counted,
        some_bytes,
        few,
        unread r.window cur' ys,
        got ∙ ap (λ (o : ℕ). drop o cur.buf ++ bytes_of xs) off,
      )
