-- ===== src/ReceiveWindow.antt =====
-- conn.go, receiveWindow: the receiver's side of flow control. The word of the window has the bytes that
-- are read and not yet reported. What the code computes in floating point, from the bandwidths and
-- the latency, is an argument. Reader has what reads from the queue.
pub mod Report
pub mod Size
pub mod Safe
pub mod Reader
mod Tests
use nps_mux.Base.{
  ℕ, ◌+◌, ◌-◌, ◌*◌, ◌/◌, ◌%◌, ◌^◌, bit_and, Bool, true, false, not, ◌&&◌, ◌||◌, Option, none, some,
  ◌>>=◌, List, [], map, ltb, leb, ◌==◌, if◌then◌else◌, Round, leave, again, cas_loop,
}
use nps_mux.Flag.{maximum_segment_size}
use nps_mux.Window.{window_unpack, window_pack, mask31}
use nps_mux.ReceiveQueue.{
  ListElement, ReceiveQueue, new_receive_queue, new_list_element, receive_push, receive_len,
}

pub record ReceiveWindow : Type 0 where
  pub max_size_done : ℕ
  pub off : ℕ
  pub close_op : Bool
  pub close_tokens : ℕ
  pub element : Option ListElement
  pub stop_once : Bool
  pub buf_queue : ReceiveQueue
  pub count : ℕ

abbrev pub initial_size : ℕ
initial_size = maximum_segment_size * 30

-- `New`
unfoldable pub new_receive_window : ReceiveWindow
new_receive_window = record {
  max_size_done = window_pack initial_size 0 false;
  off = 0;
  close_op = false;
  close_tokens = 0;
  element = some (record { buf = []; l = 0; part = false });
  stop_once = false;
  buf_queue = new_receive_queue;
  count = 0;
}

-- `remainingSize`: `maxSize - Len() - delta`, or 0 where that is not positive.
abbrev pub receive_remaining : ReceiveWindow → ℕ → ℕ → ℕ
receive_remaining w max_size delta = max_size - receive_len w.buf_queue - delta

-- What `calcSize` gets from its measurements: `uint32(latency * (muxBw + connBw))` or 0;
-- `uint32(maximumSegmentSize * 3000 * latency)`; the low fill gain, from `n`, `rem` and `size` to the
-- new `n`; and the limit, if both bandwidths are known.
pub record Measured : Type 0 where
  pub product : ℕ
  pub latency_gain : ℕ
  pub low_fill : ℕ → ℕ → ℕ → ℕ
  pub limit : Option ℕ

abbrev pub raised : Measured → ℕ
raised t =
    let n = if ltb t.product initial_size then initial_size else t.product in
    if ltb n t.latency_gain then t.latency_gain else n

-- The steps of `calcSize` from `n < size/2` on.
abbrev pub at_least_half : ℕ → ℕ → ℕ
at_least_half size n = if ltb n (size / 2) then size / 2 else n

abbrev pub grow_bound : ℕ → ℕ → ℕ
grow_bound size n =
    if ltb (2 * size % 2 ^ 32) n
    then if size == initial_size
      then if ltb (size * 6 % 2 ^ 32) n then size * 6 % 2 ^ 32 else n
      else 2 * size % 2 ^ 32
    else n

abbrev pub limited : Option ℕ → ℕ → ℕ
limited none n = n
limited (some limit) n = if ltb limit n then limit else n

-- One round of the loop of `calcSize`, which carries `n` on to the next.
calc_round :
    Measured
    → (ReceiveWindow × ℕ → ReceiveWindow × ℕ)
    → ReceiveWindow × ℕ
    → Round (ReceiveWindow × ℕ) (Unit {0})
calc_round t other (w, n) =
    let ptrs = w.max_size_done in
    let (size, read, wait) = window_unpack ptrs in
    let filled = t.low_fill n (receive_remaining w size 0) size in
    let n' = limited t.limit (grow_bound size (at_least_half size filled)) in
    let (w', _) = other (w, n) in
    if w'.max_size_done == ptrs
    then leave (record w' { max_size_done = window_pack n' read wait }, n') tt
    else again (w', n')

abbrev on_receive : (ReceiveWindow → ReceiveWindow) → ReceiveWindow × ℕ → ReceiveWindow × ℕ
on_receive other (w, n) = (other w, n)

-- `calcSize`. `count` is an int8 as its bit pattern: -10 is 246.
unfoldable pub calc_size :
    List (ReceiveWindow → ReceiveWindow) → Measured → ReceiveWindow → Option ReceiveWindow
unfolding cas_loop calc_round
calc_size others t w =
    if w.count == 0
    then (do
      ((w', n), _) ← cas_loop (calc_round t) (map on_receive others) (w, raised t)
      some (record w' { count = (246 + 1) % 2 ^ 8 }))
    else some (record w { count = (w.count + 1) % 2 ^ 8 })

pub data ReceiveError : Type 0 where
  closed_window length_mismatch : ReceiveError

-- The status check of `Write`; it leaves with `wait`, `maxSize` and `read`.
write_round :
    ℕ → (ReceiveWindow → ReceiveWindow) → ReceiveWindow → Round ReceiveWindow (Bool × ℕ × ℕ)
write_round l other w =
    let ptrs = w.max_size_done in
    let (max_size, read, wait) = window_unpack ptrs in
    let remain = receive_remaining w max_size l in
    let w' = other w in
    if wait
    then leave w' (true, max_size, read)
    else if w'.max_size_done == ptrs
    then if remain == 0
      then leave (record w' { max_size_done = window_pack max_size read true })
          (true, max_size, read)
      else leave (record w' { max_size_done = window_pack max_size 0 false })
          (false, max_size, read)
    else again w'

-- `Write`: the window, the error, and the word that it reports to the sender, if it does.
unfoldable pub receive_write :
    List (ReceiveWindow → ReceiveWindow)
    → Measured
    → ReceiveWindow
    → List ℕ
    → ℕ
    → Bool
    → Option (ReceiveWindow × Option ReceiveError × Option ℕ)
unfolding cas_loop write_round
receive_write others t w buf l part =
    if w.close_op then some (w, some closed_window, none) else elim (new_list_element buf l part) [
      | none ↦ some (w, some length_mismatch, none)
      | some e ↦ (do
        w₁ ← calc_size [] t w
        (w₂, (wait, max_size, read)) ← cas_loop (write_round l) others w₁
        (q, _) ← receive_push [] w₂.buf_queue e
        some (
          record w₂ { buf_queue = q },
          none,
          if wait then none else some (window_pack max_size read false),
        ))
    ]

-- One round of the loop of `sendStatus`; it leaves with the word that it reports, if it does.
status_round : ℕ → (ReceiveWindow → ReceiveWindow) → ReceiveWindow → Round ReceiveWindow (Option ℕ)
status_round l other w =
    let ptrs = w.max_size_done in
    let (max_size, read, wait) = window_unpack ptrs in
    let sum = (read + l) % 2 ^ 32 in
    let remain = receive_remaining w max_size 0 in
    let w' = other w in
    let same = w'.max_size_done == ptrs in
    if leb read (bit_and sum mask31)
    then if (wait && ltb 0 remain) || (leb (max_size / 2) sum || remain == max_size)
      then if same
        then leave (record w' { max_size_done = window_pack max_size 0 false })
            (some (window_pack max_size sum false))
        else again w'
      else if same
      then leave (record w' { max_size_done = window_pack max_size sum wait }) none
      else again w'
    else if same
    then leave (record w' { max_size_done = window_pack max_size l wait })
        (some (window_pack max_size read false))
    else again w'

unfoldable pub send_status :
    List (ReceiveWindow → ReceiveWindow) → ReceiveWindow → ℕ → Option (ReceiveWindow × Option ℕ)
unfolding cas_loop status_round
send_status others w l = cas_loop (status_round l) others w
