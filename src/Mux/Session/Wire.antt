-- ===== src/Mux/Session/Wire.antt =====
-- Two muxes end to end: what one side sends on a connection arrives on the other, byte for byte and in order.
mod Tests
use nps_mux.Base.{
  ℕ, zero, suc, ◌+◌, ◌-◌, ◌^◌, ◌≤◌, ◌<◌, ◌≡◌, refl, sym, ap, ◌∙◌, subst, arith, Bool, true, false,
  Option, none, some, ◌>>=◌, List, [], ◌∷◌, ◌++◌, map, length, length-append, get_elem?, set,
  take_all, All, if◌then◌else◌, ◌%◌,
}
use mathlib.Core.List.{append_assoc, append-nil}
use nps_mux.Flag.{maximum_segment_size}
use nps_mux.Stream.{Writer}
use nps_mux.Packager.Frame.{frame}
use nps_mux.Packager.Pack.{after}
use nps_mux.Packager.RoundTrip.{frames}
use nps_mux.PriorityQueue.Policy.{View}
use nps_mux.PriorityQueue.Refine.{Shows}
use nps_mux.Window.{window_pack}
use nps_mux.Window.Word.{Fits31, window_pack-mod}
use nps_mux.ReceiveQueue.{ListElement}
use nps_mux.ReceiveQueue.Count.{Counts, total, total-append}
use nps_mux.SendWindow.{AllowAnswer}
use nps_mux.ReceiveWindow.{ReceiveWindow, Measured}
use nps_mux.ReceiveWindow.Report.{is_none}
use nps_mux.ConnMap.{get_conn}
use nps_mux.Mux.{Conn, Mux, Supply}
use nps_mux.Mux.Send.{Ample}
use nps_mux.Mux.CloseConn.{get_elem?-set}
use nps_mux.Mux.Session.{read_round}
use nps_mux.Mux.Session.Delivery.{told, read_round_lem}
use nps_mux.Mux.Session.Sending.{
  Segment, IsSegment, message, messages, IsSend, contents, packed, send_segments,
  send_segments-contents, write_rounds, write_rounds-frames,
}

-- Rounds of the reader goroutine, none of which ends it: the mux, and what is left of the stream.
abbrev pub read_rounds : Supply → Measured → AllowAnswer → ℕ → Mux → List ℕ → Option (Mux × List ℕ)
read_rounds s t a zero m src = some (m, src)
read_rounds s t a (suc n) m src = do
  (m', rest, hand, goes) ← read_round s t a m src
  let more = read_rounds s t a n m' rest
  if goes then more else none

-- An open mux with an open connection `id`, whose queue holds `xs`.
pub record Listens (m : Mux) (id ptr : ℕ) (xs : List ListElement) : Type 0 where
  pub running : m.is_close ≡ false
  pub found : get_conn m.conn_map id ≡ some ptr
  pub conn : Conn
  pub stored : get_elem? m.conns ptr ≡ some conn
  pub is_open : conn.is_close ≡ false
  pub open_still : conn.receive_window.close_op ≡ false
  pub size : ℕ
  pub read : ℕ
  pub full : Bool
  pub word : conn.receive_window.max_size_done ≡ window_pack size read full
  pub size_fits : Fits31 size
  pub read_fits : Fits31 read
  pub wait : Bool
  pub counts : Counts conn.receive_window.buf_queue xs wait
  pub view : View
  pub shows : Shows m.write_queue view

abbrev pub element : Segment → ListElement
element (part, body) = record { buf = body; l = length body; part = part }

abbrev pub elements : List (Supply × Segment) → List ListElement
elements [] = []
elements ((s, seg) ∷ xs) = element seg ∷ elements xs

read_rounds-Listens :
    (s : Supply) (t : Measured) (a : AllowAnswer) (id ptr : ℕ) (segs : List (Supply × Segment))
    (m : Mux) (xs : List ListElement) (rest : List ℕ)
    → Ample s
    → id < 2 ^ 32
    → All IsSend segs
    → Listens m id ptr xs
    → total (xs ++ elements segs) < 2 ^ 32
    → (m' : Mux) × (read_rounds s t a (length segs) m (frames (messages id segs) ++ rest)
        ≡ some (m', rest))
      × Listens m' id ptr (xs ++ elements segs)
read_rounds-Listens s t a id ptr [] m xs rest ample named h l room =
    (m, refl, subst (Listens m id ptr) (sym (append-nil xs)) l)
read_rounds-Listens s t a id ptr ((s₁, (part, body)) ∷ segs) m xs rest ample named ((_, fits), hs) l
      room =
    let seg : Segment = (part, body) in
    let more = frames (messages id segs) ++ rest in
    let total_all : total (xs ++ (element seg ∷ elements segs))
        ≡ total xs + (length body + total (elements segs)) =
      total-append xs (element seg ∷ elements segs) in
    let (w, q, ran, counts, still, ack, size, read, packed_as, ledger, view, shows, _) =
      read_round_lem s t m ample l.running l.view l.shows id ptr l.conn l.found l.stored l.is_open
        l.size l.read l.full xs l.wait l.open_still l.word l.size_fits l.read_fits l.counts part
        body fits.0 fits.1 (omega (arith, room, total_all)) named a more in
    let c = record l.conn { receive_window = w } in
    let m₁ : Mux = record m { conns = set m.conns ptr c; write_queue = q } in
    let l₁ : Listens m₁ id ptr (xs ++ (element seg ∷ [])) = record {
      running = l.running;
      found = l.found;
      conn = c;
      stored = get_elem?-set m.conns ptr l.conn c l.stored;
      is_open = l.is_open;
      open_still = still;
      size = size % 2 ^ 31;
      read = read;
      full = is_none ack;
      word = packed_as ∙ sym (window_pack-mod size read (is_none ack));
      size_fits = omega arith;
      read_fits = omega (arith, ledger, l.read_fits);
      wait = false;
      counts = counts;
      view = view;
      shows = shows;
    } in
    let joined = append_assoc xs (element seg ∷ []) (elements segs) in
    let (m', on, l') =
      read_rounds-Listens s t a id ptr segs m₁ (xs ++ (element seg ∷ [])) rest ample named hs l₁
        (omega (arith, ap total joined, room)) in
    (
      m',
      ground
          (arith, ran, on, append_assoc (frame (message id seg)) (frames (messages id segs)) rest),
      subst (Listens m' id ptr) joined l',
    )

module _ (id ptr : ℕ) (segs : List (Supply × Segment)) (here there : Mux) (s s' : Supply)
    (t : Measured) (a : AllowAnswer) (w : Writer) (xs : List ListElement) (st : ℕ) (stop : Bool)
    (named : id < 2 ^ 32) (sends : All IsSend segs) (running : here.is_close ≡ false)
    (idle : Shows here.write_queue (contents [] st stop)) (ample : Ample s')
    (space : length (frames (messages id segs)) ≤ w.room) (listens : Listens there id ptr xs)
    (room : total (xs ++ elements segs) < 2 ^ 32) where
  -- Segments of 1 to 4085 bytes that are handed to sendInfo, with whole buffers from the pools, for
  -- a connection with an id below 2^32, on an open mux where nothing waits to be sent: as many
  -- rounds of the writer goroutine put their frames on the connection, if it takes so much, and
  -- nothing else. The other side, open and with an open connection of that id and room in its
  -- count, takes in as many rounds of its reader goroutine exactly these bytes, and its queue then
  -- holds what it held before and the segments, each with its bytes and its mark as a part, in
  -- order; it is ready for more.
  pub wire_delivers :
      (rest : List ℕ)
      → (here₁ : Mux) × (send_segments id segs here ≡ some here₁)
        × (here₂ : Mux) × (write_rounds s (length segs) here₁ w
            ≡ some (
              here₂,
              record {
                sent = w.sent ++ frames (messages id segs);
                room = w.room - length (frames (messages id segs));
              },
            ))
        × (there' : Mux) × (read_rounds s' t a
              (length segs)
              there
              (frames (messages id segs) ++ rest)
            ≡ some (there', rest))
        × Listens there' id ptr (xs ++ elements segs)
  wire_delivers rest =
      let (q, sent, shows) =
        send_segments-contents id segs here [] st stop named sends running idle in
      let here₁ = record here { write_queue = q } in
      let (q', wrote) =
        write_rounds-frames id s segs here₁ w st stop named sends running shows space in
      let (there', got, l) =
        read_rounds-Listens s' t a id ptr segs there xs rest ample named sends listens room in
      (
        here₁,
        sent,
        record here₁ { write_queue = q' },
        ground (arith, wrote, take_all w.room (frames (messages id segs)), space),
        there',
        got,
        l,
      )
