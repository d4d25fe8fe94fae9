-- ===== src/Mux/Session/Broken.antt =====
-- The reader goroutine where `UnPack` reports an error: the stream ends, or a content is too long.
use nps_mux.Base.{ℕ, ◌≡◌, refl, arith, Bool, true, false, Option, none, some, List, get_elem?, mem}
use nps_mux.Packager.{MuxPackager, Unpacked, PackError, Payload, mux_unpack}
use nps_mux.ConnMap.{lookup}
use nps_mux.SendWindow.{AllowAnswer, Turn}
use nps_mux.ReceiveWindow.{Measured}
use nps_mux.ReceiveWindow.Reader.{Visit, start_reading}
use nps_mux.Mux.{Conn, Mux, Supply, send_info, open_conn, mux_closed}
use nps_mux.Mux.CloseConn.{Closed}
use nps_mux.Mux.WellFormed.{WellFormed}
use nps_mux.Mux.CloseAll.{close_mux-Closed}
use nps_mux.Mux.Io.{read_conn, write_conn_buf, nothing_written, conn_closed}
use nps_mux.Mux.Session.{nothing, read_round}

-- What calls on a closed mux answer.
pub record Refuses (m : Mux) : Type 0 where
  pub opening :
      (s : Supply) (confirmed : Bool) → open_conn s confirmed m ≡ some (m, some mux_closed, 0)
  pub sending :
      (s : Supply) (flag id : ℕ) (payload : Payload) → send_info s flag id payload m ≡ some m

closed-Refuses : (m : Mux) → m.is_close ≡ true → Refuses m
unfolding open_conn send_info
closed-Refuses m shut = record {
  opening = λ s confirmed. ground (arith, shut);
  sending = λ s flag id payload. ground (arith, shut);
}

-- What calls on a closed connection answer.
pub record Rejects (c : Conn) : Type 0 where
  pub reading :
      (visits : List Visit) (room : Option ℕ)
      → read_conn visits c room ≡ some (c, start_reading c.receive_window, some conn_closed)
  pub writing :
      (turns : List Turn) (buf : List ℕ)
      → write_conn_buf turns c buf ≡ some (c, nothing_written c.send_window, some conn_closed)

closed-Rejects : (c : Conn) → c.is_close ≡ true → Rejects c
unfolding read_conn write_conn_buf
closed-Rejects c over = record {
  reading = λ visits room. reads_nothing visits room;
  writing = λ turns buf. ground (arith, over);
}
  where
    reads_nothing :
        (visits : List Visit) (room : Option ℕ)
        → read_conn visits c room ≡ some (c, start_reading c.receive_window, some conn_closed)
    reads_nothing visits none = refl
    reads_nothing visits (some room) = ground (arith, over)

module _ (s : Supply) (t : Measured) (a : AllowAnswer) (m : Mux) (h : WellFormed m)
    (running : m.is_close ≡ false)
    (complete : (id : ℕ) (v : Option ℕ)
      → lookup m.conn_map id ≡ some v
      → mem id s.order ≡ true) where
  -- On an open, well-formed mux, with any number of connections, bytes on which UnPack reports an
  -- error end the reader goroutine and close the mux, whatever the error is: the map is empty and
  -- the connection closed, from then on NewConn returns its error and sendInfo does nothing, and
  -- each connection that was in the map is closed, and its Read and Write return the error that
  -- says so. The order in which Go ranges over the map has all its keys.
  pub read_round-broken :
      (src : List ℕ) (u : Unpacked MuxPackager) (e : PackError)
      → mux_unpack s.pack s.buf s.content src ≡ some u
      → u.error ≡ some e
      → (m' : Mux) × (read_round s t a m src ≡ some (m', u.rest, nothing, false))
        × (m'.is_close ≡ true)
        × (m'.conn_open ≡ false)
        × ((id : ℕ) → lookup m'.conn_map id ≡ none)
        × Refuses m'
        × ((i ptr : ℕ) (c : Conn)
            → lookup m.conn_map i ≡ some (some ptr)
            → get_elem? m.conns ptr ≡ some c
            → (c' : Conn) × (get_elem? m'.conns ptr ≡ some c') × Closed c c' × Rejects c')
  unfolding read_round
  read_round-broken src u e read broken =
      let (m', closes, shut, gone, shuts, _, _, _, _, _, _, over, _, _) =
        close_mux-Closed s.order m h running complete in
      (
        m',
        ground (arith, running, read, broken, closes),
        shut,
        over,
        gone,
        closed-Refuses m' shut,
        λ i ptr c found stored.
            let (c', now, d) = shuts i ptr c found stored in
            (c', now, d, closed-Rejects c' d.is_close),
      )
