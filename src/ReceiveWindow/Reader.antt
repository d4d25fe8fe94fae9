-- ===== src/ReceiveWindow/Reader.antt =====
-- conn.go, receiveWindow: `Read` and `readFromQueue`, `Stop`, `CloseWindow` and `release`.
pub mod Tests
pub mod Unread
pub mod Rounds
pub mod Whole
pub mod Close
pub mod Safe
use nps_mux.Base.{
  ℕ, zero, suc, ◌+◌, ◌-◌, ◌%◌, ◌^◌, Bool, true, false, ◌&&◌, ◌||◌, Option, none, some, ◌>>=◌, List,
  [], ◌∷◌, ◌++◌, length, take, drop, ltb, ◌==◌, if◌then◌else◌, inl, inr,
}
use nps_mux.Dequeue.{BufDequeue}
use nps_mux.ReceiveQueue.{
  ListElement, ReceiveQueue, receive_pop, receive_try_pop, stop_receive_queue, set_queue_timeout,
  Pause, PopError, eof,
}
use nps_mux.ReceiveWindow.{ReceiveWindow, send_status}

-- What a reader holds before its first element, and after it gave one back to the pool.
abbrev pub no_element : ListElement
no_element = record { buf = []; l = 0; part = false }

-- `window.CloseWindow`; both tokens fit into `closeOpCh`.
abbrev pub close_flag : ReceiveWindow → ReceiveWindow
close_flag w =
    if w.close_op then w else record w { close_op = true; close_tokens = w.close_tokens + 2 }

-- `receiveWindow.Stop`: the queue's `Stop`, once.
unfoldable pub receive_stop : ReceiveWindow → ReceiveWindow
receive_stop w =
    if w.stop_once
    then w
    else record w { stop_once = true; buf_queue = stop_receive_queue w.buf_queue }

-- `receiveWindow.SetTimeOut`
unfoldable pub set_receive_timeout : ℕ → ReceiveWindow → ReceiveWindow
set_receive_timeout t w = record w { buf_queue = set_queue_timeout t w.buf_queue }

-- The slots of the rings, which bound the number of elements.
abbrev pub capacity {ℓ} : {A : Type ℓ} → List (BufDequeue A) → ℕ
capacity [] = 0
capacity (d ∷ ds) = length d.vals + capacity ds

-- The loop of `release`; the fuel is one more than the slots.
release_loop : ℕ → ReceiveQueue → Option ReceiveQueue
release_loop zero q = none
release_loop (suc fuel) q = do
  (q', val) ← receive_try_pop q
  elim val [ none ↦ some q' | some e ↦ release_loop fuel q' ]

unfoldable pub release : ReceiveWindow → Option ReceiveWindow
unfolding release_loop
release w = do
  q ← release_loop (suc (capacity w.buf_queue.chain.elts)) w.buf_queue
  some (record w { buf_queue = q })

-- `receiveWindow.CloseWindow`
unfoldable pub receive_close : ReceiveWindow → Option ReceiveWindow
receive_close w = release (receive_stop (close_flag w))

-- What the other goroutines do around one `Pop` of the reader: its pauses, what becomes of the word of
-- the window, and whether they close the window.
pub record Visit : Type 0 where
  pub pauses : List Pause
  pub word : ℕ → ℕ
  pub closes : Bool

-- Where `readFromQueue` stands, and at the end what it returns: the bytes that are in `p`, `n`, the
-- error, and the words that it reported to the sender.
pub record Reading : Type 0 where
  pub window : ReceiveWindow
  pub copied : List ℕ
  pub n : ℕ
  pub error : Option PopError
  pub reports : List ℕ

abbrev pub report : Option ℕ → List ℕ
report none = []
report (some word) = word ∷ []

-- `copy(p[pOff:], Buf[off:L])`, and `sendStatus` if that finishes the element. `room` is what is left
-- of `p`. `none` is a slice out of range.
unfoldable pub copy_out : ListElement → ℕ → Reading → Option Reading
copy_out e room r =
    let w = r.window in
    if ltb e.l w.off || ltb (length e.buf) e.l
    then none
    else let got = take room (drop w.off (take e.l e.buf)) in
      let moved = record w { off = (w.off + length got) % 2 ^ 32 } in
      let copied = record r { window = moved; copied = r.copied ++ got; n = r.n + length got } in
      if moved.off == e.l
      then (do
        (w', ack) ← send_status [] moved e.l
        some (record copied { window = w'; reports = r.reports ++ report ack }))
      else some copied

-- `bufQueue.Pop` and what follows it.
unfoldable pub next_element : Visit → ReceiveWindow → Option (ReceiveWindow × Option PopError)
next_element v w = do
  (_, q, res) ← receive_pop v.pauses w.buf_queue
  let w' = record w {
    buf_queue = q;
    off = 0;
    max_size_done = v.word w.max_size_done;
    close_op = w.close_op || v.closes;
  }
  elim res [
    | inl e ↦ some (record w' { element = some e }, none)
    | inr x ↦ (do closed ← receive_close (record w' { element = none }); some (closed, some x))
  ]

-- One round from the copy on; `more` is the next round.
unfoldable pub serve : (ℕ → Reading → Option Reading) → ListElement → ℕ → Reading → Option Reading
serve more e room r = do
  r' ← copy_out e room r
  let got = r'.n - r.n
  let rest = more (room - got) r'
  if ltb got room && e.part then rest else some r'

-- The rounds of `readFromQueue`, one visit for each; `none`: the visits are used up, or the reader has no
-- element, which is a nil dereference.
read_loop : List Visit → ℕ → Reading → Option Reading
read_loop [] room r = none
read_loop (v ∷ vs) room r =
    let w = r.window in
    elim w.element [
      | none ↦ none
      | some cur ↦
          if w.off == cur.l
          then if w.close_op
            then some (record r {
              window = record w { element = some no_element };
              n = 0;
              error = some eof;
            })
            else (do
              (w', err) ← next_element v w
              elim err [
                | some x ↦ some (record r { window = w'; error = some x })
                | none ↦ elim w'.element [
                  | none ↦ none
                  | some e ↦ serve (read_loop vs) e room (record r { window = w' })
                ]
              ])
          else serve (read_loop vs) cur room r
    ]

abbrev pub start_reading : ReceiveWindow → Reading
start_reading w = record { window = w; copied = []; n = 0; error = none; reports = [] }

-- `readFromQueue` into a buffer of `room` bytes
unfoldable pub read_from_queue : List Visit → ReceiveWindow → ℕ → Option Reading
unfolding read_loop
read_from_queue visits w room = read_loop visits room (start_reading w)

-- `Read`; what it tells `bw` is left out.
unfoldable pub receive_read : List Visit → ReceiveWindow → ℕ → Option Reading
receive_read visits w room =
    if w.close_op
    then some (record (start_reading w) { error = some eof })
    else read_from_queue visits w room
