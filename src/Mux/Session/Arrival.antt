-- ===== src/Mux/Session/Arrival.antt =====
-- From the Write of one program to the queue that the other one reads from.
use nps_mux.Base.{
  ℕ, suc, ◌+◌, ◌-◌, ◌*◌, ◌^◌, ◌≤◌, ◌<◌, ◌≡◌, ◌≢◌, refl, sym, ap, ◌∙◌, subst, arith, Bool, true,
  false, none, some, List, [], ◌∷◌, ◌++◌, map, length, length-append, get_elem?, take_all, All,
  ◌==◌, Option-cases, inl, inr, ◌⊎◌,
}
use nps_mux.Flag.{mux_new_msg, mux_new_msg_part}
use nps_mux.Stream.{Writer}
use nps_mux.Packager.Pack.{length-frame_content}
use nps_mux.Packager.Frame.{frame}
use nps_mux.Packager.RoundTrip.{frames}
use nps_mux.PriorityQueue.Refine.{Shows}
use nps_mux.Window.{window_pack}
use nps_mux.Window.Word.{Fits31}
use nps_mux.SendWindow.{Sent, Written, AllowAnswer}
use nps_mux.SendWindow.Segments.Loop.{
  joined, reassemble, IsSegment, write_full_lem, write_full_whole,
}
use nps_mux.SendWindow.Segments.Total.{write_full_total}
use nps_mux.ReceiveQueue.{ListElement}
use nps_mux.ReceiveQueue.Count.{total, total-append}
use nps_mux.ReceiveWindow.{Measured}
use nps_mux.ReceiveWindow.Reader.Unread.{bytes_of}
use nps_mux.Mux.{Conn, Mux, put_conn, Supply, send_info}
use nps_mux.Mux.Send.{Ample}
use nps_mux.Mux.Io.{write_conn_buf}
use nps_mux.Mux.Calls.{send_each, segment_message, mux_write}
use nps_mux.Packager.{byte_slice}
use nps_mux.Mux.Session.Delivery.{content_flag}
use nps_mux.Mux.Session.Sending.{
  Segment, message, messages, IsSend, contents, send_segments, write_rounds,
}
use nps_mux.Mux.Session.Wire.{Listens, elements, read_rounds, wire_delivers}

-- A message as a segment, each with what the pools hand out for it.
abbrev segment_of : Sent → Segment
segment_of (flag, body) = (flag == mux_new_msg_part, body)

abbrev pub supplied : List Supply → List Sent → List (Supply × Segment)
supplied supplies [] = []
supplied [] (x ∷ xs) = []
supplied (s ∷ supplies) (x ∷ xs) = (s, segment_of x) ∷ supplied supplies xs

-- Messages that the other side can join have no other flags than these.
reassembled_tail :
    (f : ℕ) (p b : List ℕ) (ms : List Sent)
    → reassemble ((f, p) ∷ ms) ≡ some b
    → ((f ≡ mux_new_msg) × (ms ≡ []))
      ⊎ ((f ≡ mux_new_msg_part) × (rest : List ℕ) × (reassemble ms ≡ some rest))
unfolding reassemble
reassembled_tail f p b [] e = inl (ground (arith, e), refl)
reassembled_tail f p b (m ∷ ms) e = elim (Option-cases (reassemble (m ∷ ms))) [
  | inl stuck ↦ absurd (ground (arith, e, stuck))
  | inr (rest, joins) ↦ inr (ground (arith, e, joins), rest, joins)
]

abbrev Marked : Sent → Type 0
Marked (f, p) = content_flag (f == mux_new_msg_part) ≡ f

reassembled-Marked : (ms : List Sent) (b : List ℕ) → reassemble ms ≡ some b → All Marked ms
reassembled-Marked [] b e = tt
reassembled-Marked ((f, p) ∷ ms) b e = elim (reassembled_tail f p b ms e) [
  | inl (last, over) ↦ (ground (arith, last), subst (All Marked) (sym over) tt)
  | inr (part, rest, joins) ↦ (ground (arith, part), reassembled-Marked ms rest joins)
]

send_each-segments :
    (supplies : List Supply) (id : ℕ) (ms : List Sent) (m : Mux)
    → length ms ≤ length supplies
    → All Marked ms
    → send_each supplies id (map segment_message ms) m ≡ send_segments id (supplied supplies ms) m
unfolding send_each
send_each-segments supplies id [] m enough marked = refl
send_each-segments [] id (x ∷ ms) m enough marked = absurd (omega arith)
send_each-segments (s ∷ supplies) id ((f, p) ∷ ms) m enough (mark, marks) =
    rw mark (elim (Option-cases (send_info s f id (byte_slice (some p)) m)) [
      | inl stuck ↦ ground (arith, stuck)
      | inr (m₁, sent) ↦
          ground (arith, sent, send_each-segments supplies id ms m₁ (omega arith) marks)
    ])

length-le-joined : (ms : List Sent) → All IsSegment ms → length ms ≤ length (joined ms)
length-le-joined [] h = omega arith
length-le-joined ((f, p) ∷ ms) (h, hs) =
    omega (arith, length-append p (joined ms), length-le-joined ms hs, h.0)

bytes_of-elements :
    (supplies : List Supply) (ms : List Sent)
    → length ms ≤ length supplies
    → bytes_of (elements (supplied supplies ms)) ≡ joined ms
bytes_of-elements supplies [] h = refl
bytes_of-elements [] (x ∷ ms) h = absurd (omega arith)
bytes_of-elements (s ∷ supplies) ((f, p) ∷ ms) h =
    ap (λ t. p ++ t) (bytes_of-elements supplies ms (omega arith))

total-bytes : (xs : List (Supply × Segment)) → total (elements xs) ≡ length (bytes_of (elements xs))
total-bytes [] = omega arith
total-bytes ((s, (part, body)) ∷ xs) =
    omega (arith, total-bytes xs, length-append body (bytes_of (elements xs)))

supplied-IsSend :
    (supplies : List Supply) (ms : List Sent)
    → All Ample supplies
    → All IsSegment ms
    → All IsSend (supplied supplies ms)
supplied-IsSend supplies [] h hs = tt
supplied-IsSend [] (x ∷ ms) h hs = tt
supplied-IsSend (s ∷ supplies) ((f, p) ∷ ms) (h, hs) (g, gs) =
    ((h, g), supplied-IsSend supplies ms hs gs)

length-frames :
    (id : ℕ) (xs : List (Supply × Segment))
    → All IsSend xs
    → length (frames (messages id xs)) ≤ 8 * length (bytes_of (elements xs))
length-frames id [] h = omega arith
length-frames id ((s, (true, body)) ∷ xs) ((_, h), hs) = omega (
  arith,
  h.0,
  length-append (frame (message id (true, body))) (frames (messages id xs)),
  length-frame_content mux_new_msg_part id body,
  length-append body (bytes_of (elements xs)),
  length-frames id xs hs,
)
length-frames id ((s, (false, body)) ∷ xs) ((_, h), hs) = omega (
  arith,
  h.0,
  length-append (frame (message id (false, body))) (frames (messages id xs)),
  length-frame_content mux_new_msg id body,
  length-append body (bytes_of (elements xs)),
  length-frames id xs hs,
)

length-supplied :
    (supplies : List Supply) (ms : List Sent)
    → length ms ≤ length supplies
    → length (supplied supplies ms) ≡ length ms
length-supplied supplies [] h = refl
length-supplied [] (x ∷ ms) h = absurd (omega arith)
length-supplied (s ∷ supplies) (x ∷ ms) h = ap suc (length-supplied supplies ms (omega arith))

module _ (here there : Mux) (ptr id ptr' : ℕ) (c : Conn) (buf : List ℕ) (size out st : ℕ)
    (full stop : Bool) (supplies : List Supply) (s s' : Supply) (t : Measured) (a : AllowAnswer)
    (w : Writer) (xs : List ListElement) (stored : get_elem? here.conns ptr ≡ some c)
    (named : c.conn_id ≡ id) (is_open : c.is_close ≡ false) (is_free : c.closing_flag ≡ false)
    (word : c.send_window.max_size_done ≡ window_pack size out full) (fits : Fits31 size)
    (open_still : c.send_window.close_op ≡ false) (inhabited : buf ≢ [])
    (space : out + length buf ≤ size) (running : here.is_close ≡ false)
    (idle : Shows here.write_queue (contents [] st stop)) (able : All Ample supplies)
    (enough : length buf ≤ length supplies) (ample : Ample s') (in_range : id < 2 ^ 32)
    (taken : 8 * length buf ≤ w.room) (listens : Listens there id ptr' xs)
    (room : total xs + length buf < 2 ^ 32) where
  -- A Write of a buffer that is not empty, on an open connection with an id below 2^32 and an open
  -- window, of a size below 2^31, that has room for it, and on an open mux where nothing waits to
  -- be sent, with pools that hand out whole buffers: it returns the length of the buffer and no
  -- error. After some rounds of the writer goroutine, on a connection that takes eight bytes for
  -- each byte of the buffer, and as many of the reader goroutine of the other side, which is open,
  -- has an open connection of that id and room in its count, the other side has taken in exactly
  -- what the first put on the connection, and the queue of that connection holds what it held
  -- before and elements whose bytes joined are the buffer.
  pub write_arrives :
      (rest : List ℕ)
      → (here₁ : Mux) × (r : Written) × (mux_write supplies [] here ptr buf ≡ some (here₁, r, none))
        × (r.error ≡ none)
        × (r.n ≡ length buf)
        × (k : ℕ) × (here₂ : Mux) × (wire : List ℕ) × (write_rounds s k here₁ w
            ≡ some (here₂, record { sent = w.sent ++ wire; room = w.room - length wire }))
        × (there' : Mux) × (read_rounds s' t a k there (wire ++ rest) ≡ some (there', rest))
        × (es : List ListElement) × Listens there' id ptr' (xs ++ es)
        × (bytes_of es ≡ buf)
  unfolding mux_write write_conn_buf
  write_arrives rest =
      let small : length buf < 2 ^ 32 = omega arith in
      let (r, wrote, ok, counted) =
        write_full_total size full fits c.send_window buf out word open_still small space in
      let (bound, content, sizes) = write_full_lem [] c.send_window buf r small wrote in
      let (all, joins) = write_full_whole [] c.send_window buf r small wrote ok inhabited in
      let ms = r.messages in
      let segs = supplied supplies ms in
      let whole : joined ms ≡ buf = content ∙ take_all r.n buf (omega (arith, all)) in
      let long : length ms ≤ length supplies =
        omega (arith, length-le-joined ms sizes, ap length whole) in
      let bytes : bytes_of (elements segs) ≡ buf = bytes_of-elements supplies ms long ∙ whole in
      let sends = supplied-IsSend supplies ms able sizes in
      let here₀ = put_conn here ptr (record c { send_window = r.window }) in
      let (here₁, sent, here₂, wired, there', got, l) =
        wire_delivers id ptr' segs here₀ there s s' t a w xs st stop in_range sends running idle
          ample (omega (arith, length-frames id segs sends, ap length bytes)) listens
          (omega (arith, total-append xs (elements segs), total-bytes segs, ap length bytes))
          rest in
      let through =
        send_each-segments supplies id ms here₀ long (reassembled-Marked ms buf joins) in
      (
        here₁,
        r,
        ground (arith, stored, is_open, is_free, inhabited, wrote, named, through, sent),
        ok,
        all,
        length segs,
        here₂,
        frames (messages id segs),
        wired,
        there',
        got,
        elements segs,
        l,
        bytes,
      )
